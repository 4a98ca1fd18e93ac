-- ===== src/K8s/Manifest.antt =====
-- `K8sProvider.__init__` and `_manifest` of src/llm_sandbox/providers/k8s.py.
pub mod Isolation
mod Tests
use llm_sandbox.Prelude.{
  ℕ, ◌+◌, ◌≡◌, ◌≢◌, refl, sym, ap, ◌∙◌, arith, Bool, true, false, ◌&&◌, not, List, [], ◌∷◌, ◌++◌,
  Option, none, some, Text, codes, text_eq, if◌then◌else◌, map,
}
use llm_sandbox.Prelude.Int.{ℤ, pos, ◌+ℤ◌}
use llm_sandbox.Python.Decimal.{str_int}
use llm_sandbox.Base.Errors.{Exception, failure, Outcome, ok, raised}
use llm_sandbox.Base.Session.{workspace, or_else}
use llm_sandbox.Config.{comma_list}
use llm_sandbox.Python.Json.{
  Json, null, bool, num, str, arr, obj, Items, nil, cons, Fields, end, field, find,
}
use llm_sandbox.K8s.Parse.{Labels, Toleration, parse_node_selector, parse_toleration}

-- The settings that `__init__` keeps, but for the API client and the semaphores.
pub record K8s : Type 0 where
  pub default_image : Text
  pub namespace : Text
  pub runtime_class : Text
  pub node_selector : Labels
  pub toleration : Option Toleration
  pub image_pull_secrets : List Text
  pub create_timeout : ℕ
  pub max_output_bytes : ℕ
  pub disk_mb : ℤ

-- The arguments of `__init__`.
pub record Arguments : Type 0 where
  pub default_image : Text
  pub namespace : Text
  pub runtime_class : Text
  pub node_selector : Text
  pub toleration : Text
  pub create_timeout : ℕ
  pub max_output_bytes : ℕ
  pub image_pull_secrets : Text
  pub allow_no_runtime_class : Bool
  pub disk_mb : ℤ

abbrev pub is_empty : Text → Bool
is_empty [] = true
is_empty (c ∷ cs) = false

abbrev no_runtime_class : Text
no_runtime_class =
    codes
      "SANDBOX_K8S_RUNTIME_CLASS is empty — session pods would run on the cluster's default runtime (runc), which is NOT an isolation boundary for untrusted code. Set it to 'gvisor', or set SANDBOX_K8S_ALLOW_NO_RUNTIME_CLASS=1 to accept that."

-- `__init__`; `default_namespace` is the API client's.
unfoldable pub configure : Text → Arguments → Outcome K8s
unfolding parse_node_selector parse_toleration comma_list
configure default_namespace a =
    if is_empty a.runtime_class && not a.allow_no_runtime_class
    then raised (failure no_runtime_class)
    else ok (record {
      default_image = a.default_image;
      namespace = or_else a.namespace default_namespace;
      runtime_class = a.runtime_class;
      node_selector = parse_node_selector a.node_selector;
      toleration = parse_toleration a.toleration;
      image_pull_secrets = comma_list a.image_pull_secrets;
      create_timeout = a.create_timeout;
      max_output_bytes = a.max_output_bytes;
      disk_mb = a.disk_mb;
    })

abbrev pub fields : List (Text × Json) → Fields
fields [] = end
fields ((k, v) ∷ rest) = field k v (fields rest)

abbrev pub items : List Json → Items
items [] = nil
items (v ∷ rest) = cons v (items rest)

abbrev pub object : List (Text × Json) → Json
object kvs = obj (fields kvs)

abbrev labels : Bool → List (Text × Json)
labels false = (codes "app", str (codes "llm-sandbox-session")) ∷ []
labels true =
    (codes "app", str (codes "llm-sandbox-session"))
    ∷ (codes "llm-sandbox/network", str (codes "true"))
    ∷ []

-- The one container; `cpus` is `str(cpus)`.
abbrev container_json : K8s → Text → ℤ → ℤ → Text → Json
container_json k image timeout memory_mb cpus = object (
    (codes "name", str (codes "sandbox"))
    ∷ (codes "image", str image)
    ∷ (codes "args", arr (items (str (codes "sleep") ∷ str (str_int timeout) ∷ [])))
    ∷ (codes "workingDir", str workspace)
    ∷ (codes "imagePullPolicy", str (codes "IfNotPresent"))
    ∷ (
      codes "resources",
      object (
          (
            codes "requests",
            object (
                (codes "cpu", str (codes "100m"))
                ∷ (codes "memory", str (codes "64Mi"))
                ∷ (codes "ephemeral-storage", str (codes "64Mi"))
                ∷ []),
          )
          ∷ (
            codes "limits",
            object (
                (codes "cpu", str cpus)
                ∷ (codes "memory", str (str_int memory_mb ++ codes "Mi"))
                ∷ (codes "ephemeral-storage", str (str_int k.disk_mb ++ codes "Mi"))
                ∷ []),
          )
          ∷ []),
    )
    ∷ (
      codes "securityContext",
      object (
          (codes "allowPrivilegeEscalation", bool false)
          ∷ (codes "capabilities", object ((codes "drop", arr (cons (str (codes "ALL")) nil)) ∷ []))
          ∷ (codes "seccompProfile", object ((codes "type", str (codes "RuntimeDefault")) ∷ []))
          ∷ []),
    )
    ∷ [])

abbrev pub runtime_field : Text → List (Text × Json)
runtime_field [] = []
runtime_field (c ∷ cs) = (codes "runtimeClassName", str (c ∷ cs)) ∷ []

abbrev pub selector_field : Labels → List (Text × Json)
selector_field [] = []
selector_field (l ∷ ls) =
    (codes "nodeSelector", object (map (λ kv. (kv.0, str kv.1)) (l ∷ ls))) ∷ []

abbrev operator_fields : Option Text → List (Text × Json)
operator_fields none = (codes "operator", str (codes "Exists")) ∷ []
operator_fields (some value) =
    (codes "operator", str (codes "Equal")) ∷ (codes "value", str value) ∷ []

abbrev effect_field : Option Text → List (Text × Json)
effect_field none = []
effect_field (some effect) = (codes "effect", str effect) ∷ []

abbrev pub toleration_field : Option Toleration → List (Text × Json)
toleration_field none = []
toleration_field (some t) =
    (
      codes "tolerations",
      arr (
          cons
            (object ((codes "key", str t.key) ∷ (operator_fields t.value ++ effect_field t.effect)))
            nil),
    )
    ∷ []

abbrev pub secrets_field : List Text → List (Text × Json)
secrets_field [] = []
secrets_field (n ∷ ns) =
    (
      codes "imagePullSecrets",
      arr (items (map (λ name. object ((codes "name", str name) ∷ [])) (n ∷ ns))),
    )
    ∷ []

abbrev pub placement : K8s → List (Text × Json)
placement k =
    runtime_field k.runtime_class
    ++ (selector_field k.node_selector
        ++ (toleration_field k.toleration ++ secrets_field k.image_pull_secrets))

-- `_manifest`
unfoldable pub manifest : K8s → Text → Text → (timeout : ℤ) → Bool → (memory_mb : ℤ) → Text → Json
manifest k name image timeout network memory_mb cpus = object (
    (codes "apiVersion", str (codes "v1"))
    ∷ (codes "kind", str (codes "Pod"))
    ∷ (
      codes "metadata",
      object ((codes "name", str name) ∷ (codes "labels", object (labels network)) ∷ []),
    )
    ∷ (
      codes "spec",
      object (
          (codes "restartPolicy", str (codes "Never"))
          ∷ (codes "automountServiceAccountToken", bool false)
          ∷ (codes "enableServiceLinks", bool false)
          ∷ (codes "activeDeadlineSeconds", num (timeout +ℤ pos 60))
          ∷ (codes "terminationGracePeriodSeconds", num (pos 0))
          ∷ (codes "containers", arr (cons (container_json k image timeout memory_mb cpus) nil))
          ∷ placement k),
    )
    ∷ [])
