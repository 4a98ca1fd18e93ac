-- ===== src/K8s/Parse/Tests.antt =====
-- Concrete selectors and tolerations.
use llm_sandbox.Prelude.{◌≡◌, refl, [], ◌∷◌, ◌++◌, codes, some, none}
use llm_sandbox.Python.Strings.{is_space}
use llm_sandbox.K8s.Parse.{
  parse_node_selector, parse_toleration, parse_toleration_equal, parse_toleration_exists,
}

equal_toleration_test :
    parse_toleration (codes "db=ai" ++ codes ":No")
    ≡ some (record { key = codes "db"; value = some (codes "ai"); effect = some (codes "No") })
unfolding is_space
equal_toleration_test =
    parse_toleration_equal b'd' b'N' (codes "b") (codes "ai") (codes "o") (refl, (refl, tt))
      (refl, (refl, tt)) (refl, (refl, tt)) (refl, (refl, tt)) (refl, (refl, tt))

exists_test :
    parse_toleration (codes "gpu" ++ codes ":No")
    ≡ some (record { key = codes "gpu"; value = none; effect = some (codes "No") })
unfolding is_space
exists_test =
    parse_toleration_exists b'g' b'N' (codes "pu") (codes "o") (refl, (refl, (refl, tt)))
      (refl, (refl, tt)) (refl, (refl, (refl, tt))) (refl, (refl, tt))

selector_test :
    parse_node_selector (codes "a=1, b = 2,,a=3")
    ≡ (codes "a", codes "3") ∷ (codes "b", codes "2") ∷ []
unfolding parse_node_selector llm_sandbox.Python.Strings.split llm_sandbox.Python.Strings.strip
    llm_sandbox.Python.Strings.partition
selector_test = refl
