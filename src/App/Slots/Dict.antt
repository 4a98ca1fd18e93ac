-- ===== src/App/Slots/Dict.antt =====
-- The dictionary `_deadlines` of `SessionSlots` (src/llm_sandbox/app.py): session id to deadline,
-- in insertion order.
use llm_sandbox.Prelude.{
  ℕ, suc, ◌≤◌, ◌≡◌, refl, Bool, true, false, not, Option, none, some, List, [], ◌∷◌, arith, Text,
  text_eq, text_eq_iff, elem, leb, if◌then◌else◌, length,
}

abbrev pub Deadlines : Type 0
Deadlines = List (Text × ℕ)

unfoldable pub lookup : Text → Deadlines → Option ℕ
lookup k [] = none
lookup k ((j, d) ∷ ds) = if text_eq j k then some d else lookup k ds

-- `ds[k] = d`: in place for a key that is there, at the end for a new one.
unfoldable pub put : Text → ℕ → Deadlines → Deadlines
put k d [] = (k, d) ∷ []
put k d ((j, e) ∷ ds) = if text_eq j k then (j, d) ∷ ds else (j, e) ∷ put k d ds

-- `ds.pop(k, None)`
unfoldable pub pop : Text → Deadlines → Deadlines
pop k [] = []
pop k ((j, d) ∷ ds) = let rest = pop k ds in if text_eq j k then rest else (j, d) ∷ rest

-- `for k in ks: ds.pop(k, None)`
unfoldable pub pop_all : List Text → Deadlines → Deadlines
pop_all [] ds = ds
pop_all (k ∷ ks) ds = pop_all ks (pop k ds)

-- `[s for s, deadline in ds.items() if deadline <= now]`
unfoldable pub expired : ℕ → Deadlines → List Text
expired now [] = []
expired now ((k, d) ∷ ds) = let rest = expired now ds in if leb d now then k ∷ rest else rest

-- `[sid for sid in ds if sid not in actual]`
unfoldable pub stale : List Text → Deadlines → List Text
stale actual [] = []
stale actual ((k, d) ∷ ds) = let rest = stale actual ds in if elem k actual then rest else k ∷ rest

-- The keys are distinct, as those of every dictionary are.
abbrev pub HasUniqueKeys : Deadlines → Type 0
HasUniqueKeys [] = Unit
HasUniqueKeys ((k, d) ∷ ds) = (lookup k ds ≡ none) × HasUniqueKeys ds

abbrev pub drop_if : Bool → Option ℕ → Option ℕ
drop_if b o = if b then none else o

abbrev pub is_over : ℕ → Option ℕ → Bool
is_over now none = false
is_over now (some d) = leb d now

pub lookup-put :
    (k j : Text) (d : ℕ) (ds : Deadlines)
    → lookup j (put k d ds) ≡ (if text_eq k j then some d else lookup j ds)
unfolding lookup put
lookup-put k j d [] = refl
lookup-put k j d ((i, e) ∷ ds) =
    ground (arith, text_eq_iff k j, text_eq_iff i k, text_eq_iff i j, lookup-put k j d ds)

pub lookup-pop :
    (k j : Text) (ds : Deadlines) → lookup j (pop k ds) ≡ drop_if (text_eq k j) (lookup j ds)
unfolding lookup pop
lookup-pop k j [] = ground arith
lookup-pop k j ((i, e) ∷ ds) =
    ground (arith, text_eq_iff k j, text_eq_iff i k, text_eq_iff i j, lookup-pop k j ds)

pub lookup-pop_all :
    (j : Text) (ks : List Text) (ds : Deadlines)
    → lookup j (pop_all ks ds) ≡ drop_if (elem j ks) (lookup j ds)
unfolding pop_all
lookup-pop_all j [] ds = refl
lookup-pop_all j (k ∷ ks) ds =
    ground
      (arith, text_eq_iff k j, text_eq_iff j k, lookup-pop k j ds, lookup-pop_all j ks (pop k ds))

abbrev has : Option ℕ → Bool
has none = false
has (some d) = true

elem-stale :
    (j : Text) (actual : List Text) (ds : Deadlines)
    → elem j (stale actual ds) ≡ (if elem j actual then false else has (lookup j ds))
unfolding lookup stale
elem-stale j actual [] = ground arith
elem-stale j actual ((i, e) ∷ ds) =
    ground (arith, text_eq_iff i j, text_eq_iff j i, elem-stale j actual ds)

elem-expired :
    (j : Text) (now : ℕ) (ds : Deadlines)
    → HasUniqueKeys ds
    → elem j (expired now ds) ≡ is_over now (lookup j ds)
unfolding lookup expired
elem-expired j now [] u = refl
elem-expired j now ((i, e) ∷ ds) (fresh, u) =
    ground (arith, text_eq_iff i j, text_eq_iff j i, elem-expired j now ds u)

-- Reaping leaves every deadline that lies ahead, and nothing else.
pub lookup-reap :
    (j : Text) (now : ℕ) (ds : Deadlines)
    → HasUniqueKeys ds
    → lookup j (pop_all (expired now ds) ds) ≡ drop_if (is_over now (lookup j ds)) (lookup j ds)
lookup-reap j now ds u = rw (lookup-pop_all, elem-expired j now ds u)

-- A resync leaves exactly the ids that the backend listed.
pub lookup-discard :
    (j : Text) (actual : List Text) (ds : Deadlines)
    → lookup j (pop_all (stale actual ds) ds) ≡ drop_if (not (elem j actual)) (lookup j ds)
lookup-discard j actual ds =
    ground (arith, lookup-pop_all j (stale actual ds) ds, elem-stale j actual ds)

pub pop-HasUniqueKeys : (k : Text) (ds : Deadlines) → HasUniqueKeys ds → HasUniqueKeys (pop k ds)
unfolding pop
pop-HasUniqueKeys k [] u = tt
pop-HasUniqueKeys k ((i, e) ∷ ds) (fresh, u) =
    ground (arith, lookup-pop k i ds, pop-HasUniqueKeys k ds u)

pub pop_all-HasUniqueKeys :
    (ks : List Text) (ds : Deadlines) → HasUniqueKeys ds → HasUniqueKeys (pop_all ks ds)
unfolding pop_all
pop_all-HasUniqueKeys [] ds u = u
pop_all-HasUniqueKeys (k ∷ ks) ds u = pop_all-HasUniqueKeys ks _ (pop-HasUniqueKeys k ds u)

pub put-HasUniqueKeys :
    (k : Text) (d : ℕ) (ds : Deadlines) → HasUniqueKeys ds → HasUniqueKeys (put k d ds)
unfolding put lookup
put-HasUniqueKeys k d [] u = (refl, tt)
put-HasUniqueKeys k d ((i, e) ∷ ds) (fresh, u) =
    ground
      (arith, text_eq_iff i k, text_eq_iff k i, lookup-put k i d ds, put-HasUniqueKeys k d ds u)

pub length-pop-le : (k : Text) (ds : Deadlines) → length (pop k ds) ≤ length ds
unfolding pop
length-pop-le k [] = omega arith
length-pop-le k ((i, e) ∷ ds) = ground (arith, length-pop-le k ds)

pub length-pop_all-le : (ks : List Text) (ds : Deadlines) → length (pop_all ks ds) ≤ length ds
unfolding pop_all
length-pop_all-le [] ds = omega arith
length-pop_all-le (k ∷ ks) ds = omega (arith, length-pop-le k ds, length-pop_all-le ks (pop k ds))

pub length-put-le : (k : Text) (d : ℕ) (ds : Deadlines) → length (put k d ds) ≤ suc (length ds)
unfolding put
length-put-le k d [] = omega arith
length-put-le k d ((i, e) ∷ ds) = ground (arith, length-put-le k d ds)
