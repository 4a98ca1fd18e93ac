-- ===== src/K8s/Manifest/Isolation.antt =====
-- What the pods of src/llm_sandbox/providers/k8s.py may do.
use llm_sandbox.Prelude.{
  elem, all, ◌≡◌, refl, ap, ◌∙◌, arith, Bool, true, false, List, [], ◌∷◌, ◌++◌, Option, none, some,
  Text, codes, text_eq, if◌then◌else◌,
}
use llm_sandbox.Prelude.Int.{ℤ}
use llm_sandbox.Python.Decimal.{str_int}
use llm_sandbox.Base.Errors.{ok}
use mathlib.Core.Bool.{and-eq-true_iff}
use llm_sandbox.Python.Json.{end, field, Fields, Json, bool, str, arr, obj, nil, cons, find}
use llm_sandbox.K8s.Parse.{Labels, Toleration}
use llm_sandbox.K8s.Manifest.{
  field, object, Fields, K8s, Arguments, configure, fields, manifest, is_empty, placement,
  runtime_field, selector_field, toleration_field, secrets_field,
}

-- The value under a path of keys.
abbrev pub at : List Text → Json → Option Json
at [] v = some v
at (key ∷ keys) (obj fs) = elim (find key fs) [ none ↦ none | some v ↦ at keys v ]
at (key ∷ keys) _ = none

abbrev only : Option Json → Option Json
only (some (arr (cons c nil))) = some c
only _ = none

-- The container of a pod that has exactly one.
abbrev pub container_of : Json → Option Json
container_of pod = only (at (codes "spec" ∷ codes "containers" ∷ []) pod)

-- A field of that container.
abbrev pub in_container : List Text → Json → Option Json
in_container keys pod = elim (container_of pod) [ none ↦ none | some c ↦ at keys c ]

abbrev found : Option Json → Option Json
found none = none
found (some v) = some v

find-append :
    (key : Text) (xs ys : List (Text × Json))
    → find key (fields xs) ≡ none
    → find key (fields ys) ≡ none
    → find key (fields (xs ++ ys)) ≡ none
unfolding find
find-append key [] ys h k = k
find-append key ((j, v) ∷ xs) ys h k = ground (arith, find-append key xs ys)

-- A key that no optional field of the pod has.
abbrev IsForeign : Text → Type 0
IsForeign key =
    (text_eq (codes "runtimeClassName") key ≡ false)
    × (text_eq (codes "nodeSelector") key ≡ false)
    × (text_eq (codes "tolerations") key ≡ false)
    × (text_eq (codes "imagePullSecrets") key ≡ false)

placement-foreign : (k : K8s) (key : Text) → IsForeign key → find key (fields (placement k)) ≡ none
unfolding find
placement-foreign k key (r, s, t, u) =
    find-append key (runtime_field k.runtime_class) _ (runtime k.runtime_class) (
      find-append key (selector_field k.node_selector) _ (selector k.node_selector) (
        find-append key (toleration_field k.toleration) _ (toleration k.toleration)
          (secrets k.image_pull_secrets)))
  where
    runtime : (c : Text) → find key (fields (runtime_field c)) ≡ none
    runtime [] = refl
    runtime (c ∷ cs) = rw r refl

    selector : (ls : Labels) → find key (fields (selector_field ls)) ≡ none
    selector [] = refl
    selector (l ∷ ls) = rw s refl

    toleration : (o : Option Toleration) → find key (fields (toleration_field o)) ≡ none
    toleration none = refl
    toleration (some o) = rw t refl

    secrets : (ns : List Text) → find key (fields (secrets_field ns)) ≡ none
    secrets [] = refl
    secrets (n ∷ ns) = rw u refl

abbrev keys : Fields → List Text
keys end = []
keys (field key v rest) = key ∷ keys rest

-- The keys of an object, in order.
abbrev pub keys_of : Option Json → List Text
keys_of (some (obj fs)) = keys fs
keys_of _ = []

abbrev pub keys_at : List Text → Json → List Text
keys_at path v = keys_of (at path v)

-- The fields that the spec of a pod may have; the last four are the operator's placement.
abbrev pub spec_keys : List Text
spec_keys =
    codes "restartPolicy"
    ∷ codes "automountServiceAccountToken"
    ∷ codes "enableServiceLinks"
    ∷ codes "activeDeadlineSeconds"
    ∷ codes "terminationGracePeriodSeconds"
    ∷ codes "containers"
    ∷ codes "runtimeClassName"
    ∷ codes "nodeSelector"
    ∷ codes "tolerations"
    ∷ codes "imagePullSecrets"
    ∷ []

abbrev pub container_keys : List Text
container_keys =
    codes "name"
    ∷ codes "image"
    ∷ codes "args"
    ∷ codes "workingDir"
    ∷ codes "imagePullPolicy"
    ∷ codes "resources"
    ∷ codes "securityContext"
    ∷ []

-- The restrictions of a container: no more privilege, no capability, the runtime's seccomp filter.
abbrev pub restricted : Json
restricted = object (
    (codes "allowPrivilegeEscalation", bool false)
    ∷ (codes "capabilities", object ((codes "drop", arr (cons (str (codes "ALL")) nil)) ∷ []))
    ∷ (codes "seccompProfile", object ((codes "type", str (codes "RuntimeDefault")) ∷ []))
    ∷ [])

keys-append :
    (p : Text → Bool) (xs ys : List (Text × Json))
    → all p (keys (fields xs)) ≡ true
    → all p (keys (fields ys)) ≡ true
    → all p (keys (fields (xs ++ ys))) ≡ true
keys-append p [] ys h k = k
keys-append p ((key, v) ∷ xs) ys h k =
    let (here, later) = (and-eq-true_iff (p key) (all p (keys (fields xs)))).0 h in
    rw here (keys-append p xs ys later k)

abbrev is_spec_key : Text → Bool
is_spec_key key = elem key spec_keys

placement-keys : (k : K8s) → all is_spec_key (keys (fields (placement k))) ≡ true
placement-keys k =
    keys-append is_spec_key (runtime_field k.runtime_class) _ (runtime k.runtime_class) (
      keys-append is_spec_key (selector_field k.node_selector) _ (selector k.node_selector) (
        keys-append is_spec_key (toleration_field k.toleration) _ (toleration k.toleration)
          (secrets k.image_pull_secrets)))
  where
    runtime : (c : Text) → all is_spec_key (keys (fields (runtime_field c))) ≡ true
    runtime [] = refl
    runtime (c ∷ cs) = refl

    selector : (ls : Labels) → all is_spec_key (keys (fields (selector_field ls))) ≡ true
    selector [] = refl
    selector (l ∷ ls) = refl

    toleration :
        (o : Option Toleration) → all is_spec_key (keys (fields (toleration_field o))) ≡ true
    toleration none = refl
    toleration (some o) = refl

    secrets : (ns : List Text) → all is_spec_key (keys (fields (secrets_field ns))) ≡ true
    secrets [] = refl
    secrets (n ∷ ns) = refl

-- Every session pod, whatever was asked for: no token of the cluster, no network, processes or
-- IPC of the host, no volumes and no container of another kind, and no field of the spec but the
-- ten listed ones; one container, with exactly the seven listed fields, the image and the memory
-- limit asked for, the image's own entry point, and a security context that says no more than no
-- privilege escalation, all capabilities dropped and the runtime's seccomp profile; and the label
-- that opens the network if and only if the session asked for network.
pub manifest-isolated :
    (k : K8s) (name image cpus : Text) (timeout memory_mb : ℤ) (network : Bool)
    → let pod = manifest k name image timeout network memory_mb cpus in
      (at (codes "spec" ∷ codes "automountServiceAccountToken" ∷ []) pod ≡ some (bool false))
      × (at (codes "spec" ∷ codes "hostNetwork" ∷ []) pod ≡ none)
      × (at (codes "spec" ∷ codes "hostPID" ∷ []) pod ≡ none)
      × (at (codes "spec" ∷ codes "hostIPC" ∷ []) pod ≡ none)
      × (at (codes "spec" ∷ codes "volumes" ∷ []) pod ≡ none)
      × (at (codes "spec" ∷ codes "initContainers" ∷ []) pod ≡ none)
      × (at (codes "spec" ∷ codes "ephemeralContainers" ∷ []) pod ≡ none)
      × (all (λ key. elem key spec_keys) (keys_at (codes "spec" ∷ []) pod) ≡ true)
      × (keys_of (container_of pod) ≡ container_keys)
      × (in_container (codes "image" ∷ []) pod ≡ some (str image))
      × (in_container (codes "command" ∷ []) pod ≡ none)
      × (in_container (codes "securityContext" ∷ codes "privileged" ∷ []) pod ≡ none)
      × (in_container (codes "securityContext" ∷ codes "allowPrivilegeEscalation" ∷ []) pod
          ≡ some (bool false))
      × (in_container (codes "securityContext" ∷ codes "capabilities" ∷ codes "drop" ∷ []) pod
          ≡ some (arr (cons (str (codes "ALL")) nil)))
      × (in_container (codes "securityContext" ∷ []) pod ≡ some restricted)
      × (in_container (codes "resources" ∷ codes "limits" ∷ codes "memory" ∷ []) pod
          ≡ some (str (str_int memory_mb ++ codes "Mi")))
      × (at (codes "metadata" ∷ codes "labels" ∷ codes "llm-sandbox/network" ∷ []) pod
          ≡ (if network then some (str (codes "true")) else none))
unfolding manifest find
manifest-isolated k name image cpus timeout memory_mb network = (
  refl,
  foreign (codes "hostNetwork") (refl, refl, refl, refl),
  foreign (codes "hostPID") (refl, refl, refl, refl),
  foreign (codes "hostIPC") (refl, refl, refl, refl),
  foreign (codes "volumes") (refl, refl, refl, refl),
  foreign (codes "initContainers") (refl, refl, refl, refl),
  foreign (codes "ephemeralContainers") (refl, refl, refl, refl),
  placement-keys k,
  refl,
  refl,
  refl,
  refl,
  refl,
  refl,
  refl,
  refl,
  elim network
      as (λ n.
        at (codes "metadata" ∷ codes "labels" ∷ codes "llm-sandbox/network" ∷ [])
          (manifest k name image timeout n memory_mb cpus)
        ≡ (if n then some (str (codes "true")) else none)) [ true ↦ refl | false ↦ refl ],
)
  where
    foreign : (key : Text) → IsForeign key → found (find key (fields (placement k))) ≡ none
    foreign key f = ap found (placement-foreign k key f)

named_class :
    (c : Text) (rest : List (Text × Json))
    → is_empty c ≡ false
    → find (codes "runtimeClassName") (fields (runtime_field c ++ rest)) ≡ some (str c)
unfolding find
named_class [] rest h = absurd (cc)
named_class (c ∷ cs) rest h = refl

configured_class :
    (namespace : Text) (a : Arguments) (k : K8s)
    → configure namespace a ≡ ok k
    → a.allow_no_runtime_class ≡ false
    → (is_empty a.runtime_class ≡ false) × (k.runtime_class ≡ a.runtime_class)
unfolding configure
configured_class namespace a k e h = ground arith

-- Unless the operator allowed a cluster without one, a provider that starts names a runtime class
-- in every pod, and it is the one that was configured.
pub configure-isolated :
    (namespace : Text) (a : Arguments) (k : K8s) (name image cpus : Text) (timeout memory_mb : ℤ)
    (network : Bool)
    → configure namespace a ≡ ok k
    → a.allow_no_runtime_class ≡ false
    → at
        (codes "spec" ∷ codes "runtimeClassName" ∷ [])
        (manifest k name image timeout network memory_mb cpus)
      ≡ some (str a.runtime_class)
unfolding manifest find
configure-isolated namespace a k name image cpus timeout memory_mb network e h =
    let (named, same) = configured_class namespace a k e h in
    let rest =
      selector_field k.node_selector
      ++ (toleration_field k.toleration ++ secrets_field k.image_pull_secrets) in
    ap found (
      ap (λ c. find (codes "runtimeClassName") (fields (runtime_field c ++ rest))) same
      ∙ named_class a.runtime_class rest named)
