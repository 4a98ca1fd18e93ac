-- ===== src/K8s/Api/Tests.antt =====
-- `ApiServer` at concrete inputs.
use llm_sandbox.Prelude.{
  ℕ, ◌≡◌, refl, arith, List, [], ◌∷◌, some, codes, All, ltb, if◌then◌else◌, map,
}
use llm_sandbox.Base.Errors.{ok}
use llm_sandbox.K8s.Api.{false, Client, TokenFile, connect}
use llm_sandbox.K8s.Api.Token.{IsFresh, bearers, bearers-IsFresh}

-- The token rotates at 70 seconds.
abbrev rotating : TokenFile
rotating now = if ltb now 70000000000 then some (codes "one\n") else some (codes "two\n")

abbrev asked : List ℕ
asked = 5000000000 ∷ 65000000000 ∷ 71000000000 ∷ 126000000000 ∷ []

abbrev new : Client
new = record { authority = codes "10.0.0.1:443"; token = []; token_at = 0; is_open = false }

bearers-IsFresh_example : All (IsFresh rotating) (bearers rotating asked new)
bearers-IsFresh_example =
    bearers-IsFresh rotating asked (codes "10.0.0.1:443")
      (omega arith, (omega arith, (omega arith, (omega arith, tt))))

-- Still the first one at 71 seconds: the cache is 60 seconds old at 65.
rotation_test :
    map (λ r. r.1) (bearers rotating asked new)
    ≡ ok (codes "Bearer one")
      ∷ ok (codes "Bearer one")
      ∷ ok (codes "Bearer two")
      ∷ ok (codes "Bearer two")
      ∷ []
unfolding bearers llm_sandbox.Python.Strings.strip
rotation_test = refl

literal_test :
    connect (
      (codes "KUBERNETES_SERVICE_HOST", codes "fd00::1")
      ∷ (codes "KUBERNETES_SERVICE_PORT", codes "6443")
      ∷ [])
    ≡ ok (record { authority = codes "[fd00::1]:6443"; token = []; token_at = 0; is_open = false })
unfolding connect llm_sandbox.Config.env_or llm_sandbox.Python.Strings.contains
literal_test = refl
