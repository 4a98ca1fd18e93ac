-- ===== src/K8s/Parse.antt =====
-- `parse_node_selector` and `parse_toleration` of src/llm_sandbox/providers/k8s.py; `parse_csv` is the
-- comprehension of `Config.comma_list`.
mod Tests
use llm_sandbox.Prelude.{
  All-append, ℕ, ◌≡◌, ◌≢◌, refl, ap, ◌∙◌, arith, Bool, true, false, ◌&&◌, List, [], ◌∷◌, ◌++◌,
  Option, none, some, Text, codes, text_eq, ◌==◌, if◌then◌else◌, All,
}
use llm_sandbox.Python.Strings.Parts.{
  Lacks, partition-append, partition-none, rpartition-none, rpartition-append,
}
use llm_sandbox.Python.Strings.{strip, partition, rpartition, split, is_space}
use llm_sandbox.Python.Decimal.RoundTrip.{Solid, strip-Solid}

-- A dictionary of labels, in insertion order.
abbrev pub Labels : Type 0
Labels = List (Text × Text)

unfoldable pub put : Text → Text → Labels → Labels
put k v [] = (k, v) ∷ []
put k v ((j, w) ∷ ls) = let rest = put k v ls in if text_eq j k then (j, v) ∷ ls else (j, w) ∷ rest

abbrev add_pair : Text → Labels → Labels
add_pair [] out = out
add_pair (c ∷ cs) out =
    let (key, found, val) = partition b'=' (c ∷ cs) in put (strip key) (strip val) out

-- The loop over the pairs.
pub add_pairs : List Text → Labels → Labels
unfolding put
add_pairs [] out = out
add_pairs (pair ∷ pairs) out = add_pairs pairs (add_pair (strip pair) out)

unfoldable pub parse_node_selector : Text → Labels
unfolding add_pairs
parse_node_selector raw = add_pairs (split b',' raw) []

pub record Toleration : Type 0 where
  pub key : Text
  -- `Equal` with its value, or `Exists`
  pub value : Option Text
  -- `effect`, if the dictionary has one
  pub effect : Option Text

abbrev given : Text → Option Text
given [] = none
given (c ∷ cs) = some (strip (c ∷ cs))

abbrev toleration_of : Text → Text → Toleration
toleration_of head effect =
    let (key, eq, value) = partition b'=' head in
    record {
      key = strip key;
      value = (if eq then some (strip value) else none);
      effect = given effect;
    }

abbrev of_parts : Text × Bool × Text → Toleration
of_parts (head, true, effect) = toleration_of head effect
of_parts (head, false, effect) = toleration_of effect []

abbrev nonblank : Text → Option Toleration
nonblank [] = none
nonblank (c ∷ cs) = some (of_parts (rpartition b':' (c ∷ cs)))

unfoldable pub parse_toleration : Text → Option Toleration
parse_toleration raw = nonblank (strip raw)

equal_parts :
    (key value effect : Text)
    → Solid key
    → Solid value
    → Lacks b'=' key
    → toleration_of (key ++ b'=' ∷ value) effect
      ≡ record { key = key; value = some value; effect = given effect }
equal_parts key value effect sk sv hk =
    rw (partition-append b'=' key value hk, strip-Solid key sk, strip-Solid value sv)

exists_parts :
    (key effect : Text)
    → Solid key
    → Lacks b'=' key
    → toleration_of key effect ≡ record { key = key; value = none; effect = given effect }
exists_parts key effect sk hk = rw (partition-none b'=' key hk, strip-Solid key sk)

marks_Solid : (is_space b':' ≡ false) × (is_space b'=' ≡ false)
unfolding is_space
marks_Solid = (refl, refl)

parse_parts :
    (c : ℕ) (head effect : Text)
    → Solid (c ∷ head)
    → Solid effect
    → Lacks b':' effect
    → parse_toleration ((c ∷ head) ++ b':' ∷ effect) ≡ some (toleration_of (c ∷ head) effect)
unfolding parse_toleration
parse_parts c head effect sh se he =
    ap nonblank (strip-Solid _ (All-append _ (c ∷ head) (b':' ∷ effect) sh (marks_Solid.0, se)))
    ∙ ap (λ r. some (of_parts r)) (rpartition-append b':' (c ∷ head) effect he)

-- The documented form `key=value:Effect` gives the key, operator `Equal` with the value, and the
-- effect; no part has white space, the key no `=`, and the effect no `:`.
pub parse_toleration_equal :
    (c d : ℕ) (key value effect : Text)
    → Solid (c ∷ key)
    → Solid value
    → Solid (d ∷ effect)
    → Lacks b'=' (c ∷ key)
    → Lacks b':' (d ∷ effect)
    → parse_toleration (((c ∷ key) ++ b'=' ∷ value) ++ b':' ∷ d ∷ effect)
      ≡ some (record { key = c ∷ key; value = some value; effect = some (d ∷ effect) })
parse_toleration_equal c d key value effect sk sv se hk he =
    parse_parts c (key ++ b'=' ∷ value) (d ∷ effect)
      (All-append _ (c ∷ key) (b'=' ∷ value) sk (marks_Solid.1, sv)) se he
    ∙ ap some (equal_parts (c ∷ key) value (d ∷ effect) sk sv hk)
    ∙ ap (λ e. some (record { key = c ∷ key; value = some value; effect = some e }))
        (strip-Solid (d ∷ effect) se)

-- The form `key:Effect` gives operator `Exists`.
pub parse_toleration_exists :
    (c d : ℕ) (key effect : Text)
    → Solid (c ∷ key)
    → Solid (d ∷ effect)
    → Lacks b'=' (c ∷ key)
    → Lacks b':' (d ∷ effect)
    → parse_toleration ((c ∷ key) ++ b':' ∷ d ∷ effect)
      ≡ some (record { key = c ∷ key; value = none; effect = some (d ∷ effect) })
parse_toleration_exists c d key effect sk se hk he =
    parse_parts c key (d ∷ effect) sk se he
    ∙ ap some (exists_parts (c ∷ key) (d ∷ effect) sk hk)
    ∙ ap (λ e. some (record { key = c ∷ key; value = none; effect = some e }))
        (strip-Solid (d ∷ effect) se)
