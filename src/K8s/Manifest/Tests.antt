-- ===== src/K8s/Manifest/Tests.antt =====
-- A pod at concrete settings.
use llm_sandbox.Prelude.{elem, all, ◌≡◌, refl, ◌++◌, [], ◌∷◌, none, some, codes, false, true}
use llm_sandbox.Prelude.Int.{pos}
use llm_sandbox.Python.Decimal.{str_int}
use llm_sandbox.Base.Errors.{ok}
use llm_sandbox.Python.Json.{bool, str, arr, nil, cons}
use llm_sandbox.K8s.Manifest.{K8s, Arguments, configure, manifest}
use llm_sandbox.K8s.Manifest.Isolation.{
  restricted, container_keys, container_of, keys_of, keys_at, spec_keys, at, in_container,
  manifest-isolated, configure-isolated,
}

abbrev arguments : Arguments
arguments = record {
  default_image = codes "rt";
  namespace = [];
  runtime_class = codes "gvisor";
  node_selector = codes "a=b";
  toleration = [];
  create_timeout = 120;
  max_output_bytes = 9;
  image_pull_secrets = codes "reg";
  allow_no_runtime_class = false;
  disk_mb = pos 256;
}

abbrev settings : K8s
settings = record {
  default_image = codes "rt";
  namespace = codes "default";
  runtime_class = codes "gvisor";
  node_selector = (codes "a", codes "b") ∷ [];
  toleration = none;
  image_pull_secrets = codes "reg" ∷ [];
  create_timeout = 120;
  max_output_bytes = 9;
  disk_mb = pos 256;
}

manifest-isolated_example :
    let pod = manifest settings (codes "p") (codes "im") (pos 60) true (pos 512) (codes "1.0") in
    (at (codes "spec" ∷ codes "automountServiceAccountToken" ∷ []) pod ≡ some (bool false))
    × (at (codes "spec" ∷ codes "hostNetwork" ∷ []) pod ≡ none)
    × (at (codes "spec" ∷ codes "hostPID" ∷ []) pod ≡ none)
    × (at (codes "spec" ∷ codes "hostIPC" ∷ []) pod ≡ none)
    × (at (codes "spec" ∷ codes "volumes" ∷ []) pod ≡ none)
    × (at (codes "spec" ∷ codes "initContainers" ∷ []) pod ≡ none)
    × (at (codes "spec" ∷ codes "ephemeralContainers" ∷ []) pod ≡ none)
    × (all (λ key. elem key spec_keys) (keys_at (codes "spec" ∷ []) pod) ≡ true)
    × (keys_of (container_of pod) ≡ container_keys)
    × (in_container (codes "image" ∷ []) pod ≡ some (str (codes "im")))
    × (in_container (codes "command" ∷ []) pod ≡ none)
    × (in_container (codes "securityContext" ∷ codes "privileged" ∷ []) pod ≡ none)
    × (in_container (codes "securityContext" ∷ codes "allowPrivilegeEscalation" ∷ []) pod
        ≡ some (bool false))
    × (in_container (codes "securityContext" ∷ codes "capabilities" ∷ codes "drop" ∷ []) pod
        ≡ some (arr (cons (str (codes "ALL")) nil)))
    × (in_container (codes "securityContext" ∷ []) pod ≡ some restricted)
    × (in_container (codes "resources" ∷ codes "limits" ∷ codes "memory" ∷ []) pod
        ≡ some (str (str_int (pos 512) ++ codes "Mi")))
    × (at (codes "metadata" ∷ codes "labels" ∷ codes "llm-sandbox/network" ∷ []) pod
        ≡ some (str (codes "true")))
manifest-isolated_example =
    manifest-isolated settings (codes "p") (codes "im") (codes "1.0") (pos 60) (pos 512) true

configured_test : configure (codes "default") arguments ≡ ok settings
unfolding configure llm_sandbox.Python.Strings.split llm_sandbox.Python.Strings.strip
    llm_sandbox.Python.Strings.partition
configured_test = refl

configure-isolated_example :
    at
      (codes "spec" ∷ codes "runtimeClassName" ∷ [])
      (manifest settings (codes "p") (codes "im") (pos 60) true (pos 512) (codes "1.0"))
    ≡ some (str (codes "gvisor"))
configure-isolated_example =
    configure-isolated (codes "default") arguments settings (codes "p") (codes "im") (codes "1.0")
      (pos 60) (pos 512) true configured_test refl
