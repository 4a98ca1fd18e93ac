-- ===== src/Python/Strings/Parts.antt =====
-- Texts taken apart at a character: `partition`, `rpartition` and `split`.
use llm_sandbox.Prelude.{ℕ, ◌≡◌, refl, ap, arith, true, false, [], ◌∷◌, ◌++◌, Text, ◌==◌, All}
use llm_sandbox.Python.Strings.{split, partition, rpartition}

-- No character of the text is this one.
abbrev pub Lacks : ℕ → Text → Type 0
Lacks d = All (λ c. (c == d) ≡ false)

pub partition-append : (d : ℕ) (s t : Text) → Lacks d s → partition d (s ++ d ∷ t) ≡ (s, true, t)
unfolding partition
partition-append d [] t h = ground arith
partition-append d (c ∷ cs) t (p, h) =
    rw p (ap (λ r. (c ∷ r.0, r.1, r.2)) (partition-append d cs t h))

pub partition-none : (d : ℕ) (s : Text) → Lacks d s → partition d s ≡ (s, false, [])
unfolding partition
partition-none d [] h = refl
partition-none d (c ∷ cs) (p, h) = rw p (ap (λ r. (c ∷ r.0, r.1, r.2)) (partition-none d cs h))

pub rpartition-none : (d : ℕ) (s : Text) → Lacks d s → rpartition d s ≡ ([], false, s)
unfolding rpartition
rpartition-none d [] h = refl
rpartition-none d (c ∷ cs) (p, h) = rw (rpartition-none d cs h, p)

pub rpartition-append : (d : ℕ) (s t : Text) → Lacks d t → rpartition d (s ++ d ∷ t) ≡ (s, true, t)
unfolding rpartition
rpartition-append d [] t h = rw (rpartition-none d t h) (ground arith)
rpartition-append d (c ∷ cs) t h = rw (rpartition-append d cs t h)

pub split-append : (d : ℕ) (s t : Text) → Lacks d s → split d (s ++ d ∷ t) ≡ s ∷ split d t
unfolding split
split-append d [] t h = ground arith
split-append d (c ∷ cs) t (p, h) = rw (p, split-append d cs t h) refl

pub split-none : (d : ℕ) (s : Text) → Lacks d s → split d s ≡ s ∷ []
unfolding split
split-none d [] h = refl
split-none d (c ∷ cs) (p, h) = rw (p, split-none d cs h) refl
