-- ===== src/Config/Laws.antt =====
-- What the settings of src/llm_sandbox/config.py are, given the environment and the `.env` file.
use llm_sandbox.Prelude.{
  ◌≡◌, ◌≢◌, ◌⊎◌, inl, inr, refl, arith, List, [], ◌∷◌, ◌++◌, Option, none, some, Text, Option-cases,
  All,
}
use llm_sandbox.Prelude.Int.{ℤ}
use llm_sandbox.Python.Decimal.{int, str_int}
use llm_sandbox.Python.Decimal.RoundTrip.{int-str_int}
use llm_sandbox.Config.{
  split, strip, Environ, get, set_default, dotenv_entry, load_lines, load_dotenv, env_or, env_int,
  int_or, strip_parts, comma_list,
}

get-append :
    (k : Text) (env : Environ) (v : Text) (j w : Text)
    → get k env ≡ some v
    → get k (env ++ (j, w) ∷ []) ≡ some v
unfolding get
get-append k [] v j w h = cc
get-append k ((i, u) ∷ env) v j w h = ground (arith, get-append k env v j w)

get-set_default :
    (k j w v : Text) (env : Environ) → get k env ≡ some v → get k (set_default j w env) ≡ some v
unfolding set_default
get-set_default k j w v env h = elim (Option-cases (get j env)) [
  | inl e ↦ rw (e, set_default) (get-append k env v j w h)
  | inr (u, e) ↦ rw (e, set_default) h
]

get-load_lines :
    (k v : Text) (lines : List Text) (env : Environ)
    → get k env ≡ some v
    → get k (load_lines lines env) ≡ some v
unfolding load_lines
get-load_lines k v [] env h = h
get-load_lines k v (raw ∷ lines) env h = elim (Option-cases (dotenv_entry raw)) [
  | inl e ↦ rw (e, load_lines) (get-load_lines k v lines env h)
  | inr ((j, w), e) ↦
      rw (e, load_lines)
        (get-load_lines k v lines (set_default j w env) (get-set_default k j w v env h))
]

-- A variable that the process was started with keeps its value, whatever the `.env` file says.
pub get-load_dotenv :
    (k v : Text) (file : Option Text) (env : Environ)
    → get k env ≡ some v
    → get k (load_dotenv file env) ≡ some v
unfolding load_dotenv
get-load_dotenv k v none env h = h
get-load_dotenv k v (some text) env h = get-load_lines k v _ env h

int_or-int : (d : ℤ) (s : Text) → int s ≡ some d → int_or d s ≡ some d
int_or-int d [] h = refl
int_or-int d (c ∷ cs) h = h

-- An integer setting that is unset, or set to nothing, has its default, through `int(str(default))`.
pub env_int_default :
    (env : Environ) (name : Text) (default : ℤ)
    → (get name env ≡ none) ⊎ (get name env ≡ some [])
    → env_int env name default ≡ some default
unfolding env_int env_or
env_int_default env name default (inl e) =
    rw (e, env_or) (int_or-int default (str_int default) (int-str_int default))
env_int_default env name default (inr e) = rw (e, env_or)

cons_if-All :
    (s : Text) (rest : List Text)
    → All (λ t. t ≢ []) rest
    → All (λ t. t ≢ []) (elim s [ [] ↦ rest | c ∷ cs ↦ (c ∷ cs) ∷ rest ])
cons_if-All [] rest h = h
cons_if-All (c ∷ cs) rest h = (cc, h)

strip_parts-All : (parts : List Text) → All (λ t. t ≢ []) (strip_parts parts)
unfolding strip_parts
strip_parts-All [] = tt
strip_parts-All (s ∷ ss) = cons_if-All (strip s) (strip_parts ss) (strip_parts-All ss)

-- A list setting has no empty entry, whatever its text.
pub comma_list-All : (raw : Text) → All (λ t. t ≢ []) (comma_list raw)
unfolding comma_list
comma_list-All raw = strip_parts-All (split b',' raw)
