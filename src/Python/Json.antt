-- ===== src/Python/Json.antt =====
-- JSON values as Python has them: what `dict.get`, iteration, `==` and `int` do to each. Reading
-- JSON text is the library's. Numbers are integers.
use llm_sandbox.Prelude.{
  any, ltb, length, Bool, true, false, List, [], ◌∷◌, Option, none, some, Text, codes, text_eq,
  if◌then◌else◌,
}
use llm_sandbox.Prelude.Int.{ℤ, pos}
use llm_sandbox.Python.Decimal.{int}
use llm_sandbox.Python.Strings.{contains}
use llm_sandbox.Base.Errors.{failure, Outcome, ok, raised}

mutual
  pub data Json : Type 0 where
    null : Json
    bool : Bool → Json
    num : ℤ → Json
    str : Text → Json
    arr : Items → Json
    obj : Fields → Json

  pub data Items : Type 0 where
    nil : Items
    cons : Json → Items → Items

  pub data Fields : Type 0 where
    end : Fields
    field : Text → Json → Fields → Fields

unfoldable pub find : Text → Fields → Option Json
find key end = none
find key (field k v fs) = if text_eq k key then some v else find key fs

unfoldable pub get_or : Text → Json → Fields → Json
unfolding find
get_or key default fs = elim (find key fs) [ none ↦ default | some v ↦ v ]

-- `value.get(key, default)`
unfoldable pub get : Json → Text → Json → Outcome Json
unfolding get_or
get (obj fs) key default = ok (get_or key default fs)
get _ key default = raised (failure (codes "AttributeError"))

abbrev pub to_list : Items → List Json
to_list nil = []
to_list (cons v vs) = v ∷ to_list vs

abbrev pub keys : Fields → List Json
keys end = []
keys (field k v fs) = str k ∷ keys fs

abbrev chars : Text → List Json
chars [] = []
chars (c ∷ cs) = str (c ∷ []) ∷ chars cs

-- `for x in value`
unfoldable pub iterate : Json → Outcome (List Json)
iterate (arr vs) = ok (to_list vs)
iterate (obj fs) = ok (keys fs)
iterate (str s) = ok (chars s)
iterate _ = raised (failure (codes "TypeError"))

-- `value == "text"`
unfoldable pub is_text : Json → Text → Bool
is_text (str s) t = text_eq s t
is_text _ t = false

-- `int(value)`; `none` is a `ValueError`.
unfoldable pub to_int : Json → Outcome (Option ℤ)
to_int (str s) = ok (int s)
to_int (num n) = ok (some n)
to_int (bool true) = ok (some (pos 1))
to_int (bool false) = ok (some (pos 0))
to_int _ = raised (failure (codes "TypeError"))

-- `bool(value)`
unfoldable pub truth : Json → Bool
truth null = false
truth (bool b) = b
truth (num (pos n)) = ltb 0 n
truth (num n) = true
truth (str s) = ltb 0 (length s)
truth (arr nil) = false
truth (arr vs) = true
truth (obj end) = false
truth (obj fs) = true

-- `text in value`
unfoldable pub holds : Text → Json → Outcome Bool
unfolding find
holds text (obj fs) = elim (find text fs) [ none ↦ ok false | some v ↦ ok true ]
holds text (arr vs) = ok (any (λ v. is_text v text) (to_list vs))
holds text (str s) = ok (contains text s)
holds text _ = raised (failure (codes "TypeError"))

infixl 5 ◌>>=◌
abbrev pub ◌>>=◌ : {A B : Type 0} → Outcome A → (A → Outcome B) → Outcome B
ok a >>= f = f a
raised e >>= f = raised e
