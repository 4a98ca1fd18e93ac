-- ===== src/Python/Decimal/RoundTrip.antt =====
-- `int` undoes `str` on integers.
use llm_sandbox.Prelude.{
  ℕ, zero, suc, ◌+◌, ◌*◌, ◌/◌, ◌%◌, ◌<◌, ◌≡◌, refl, ap, ◌∙◌, arith, Bool, true, false, [], ◌∷◌,
  some, Text, All, ltb, Bool-cases, inl, inr, ltb→lt,
}
use llm_sandbox.Prelude.Int.{ℤ, pos, negsuc}
use llm_sandbox.Python.Strings.{is_space, lstrip_if, rstrip_if, strip}
use llm_sandbox.Python.Decimal.{
  digit, digits, decimal, str_int, is_digit, scan, signed, negated, int,
}

abbrev IsDigits : Text → Type 0
IsDigits = All (λ c. is_digit c ≡ true)

digit-is_digit : (n : ℕ) → is_digit (digit n) ≡ true
digit-is_digit n = ground arith

digits-IsDigits : (fuel n : ℕ) (acc : Text) → IsDigits acc → IsDigits (digits fuel n acc)
unfolding digits
digits-IsDigits zero n acc h = h
digits-IsDigits (suc fuel) n acc h =
    ground (arith, digits-IsDigits fuel (n / 10) (digit n ∷ acc) (digit-is_digit n, h))

scan-digit :
    (v n : ℕ) (need : Bool) (cs : Text)
    → scan v need (digit n ∷ cs) ≡ scan (v * 10 + n % 10) false cs
unfolding scan
scan-digit v n true cs = ground (arith, digit-is_digit n)
scan-digit v n false cs = ground (arith, digit-is_digit n)

last_digit : (n : ℕ) → n < 10 → 0 * 10 + n % 10 ≡ n
last_digit n h = omega arith

div_mod : (n : ℕ) → n / 10 * 10 + n % 10 ≡ n
div_mod n = omega arith

scan-digits :
    (fuel n : ℕ) (acc : Text) → n < fuel → scan 0 true (digits fuel n acc) ≡ scan n false acc
unfolding digits
scan-digits zero n acc h = elim h [ ]
scan-digits (suc fuel) n acc h = elim (Bool-cases (ltb n 10)) [
  | inl small ↦
      rw small
        (scan-digit 0 n true acc ∙ ap (λ v. scan v false acc) (last_digit n (ltb→lt n 10 small)))
  | inr large ↦ rw large (
      scan-digits fuel (n / 10) (digit n ∷ acc) (ground arith)
      ∙ scan-digit (n / 10) n false acc
      ∙ ap (λ v. scan v false acc) (div_mod n))
]

-- No character is white space.
abbrev pub Solid : Text → Type 0
Solid = All (λ c. is_space c ≡ false)

minus-Solid : is_space b'-' ≡ false
unfolding is_space
minus-Solid = refl

digit-Solid : (c : ℕ) → is_digit c ≡ true → is_space c ≡ false
unfolding is_space
digit-Solid c h = ground arith

IsDigits-Solid : (s : Text) → IsDigits s → Solid s
IsDigits-Solid [] h = tt
IsDigits-Solid (c ∷ cs) (d, h) = (digit-Solid c d, IsDigits-Solid cs h)

lstrip_Solid : (s : Text) → Solid s → lstrip_if is_space s ≡ s
unfolding lstrip_if
lstrip_Solid [] h = refl
lstrip_Solid (c ∷ cs) (p, h) = rw p

rstrip_Solid : (s : Text) → Solid s → rstrip_if is_space s ≡ s
unfolding rstrip_if
rstrip_Solid [] h = refl
rstrip_Solid (c ∷ []) (p, h) = rw p
rstrip_Solid (c ∷ d ∷ ds) (p, h) = rw (rstrip_Solid (d ∷ ds) h, rstrip_if)

pub strip-Solid : (s : Text) → Solid s → strip s ≡ s
unfolding strip
strip-Solid s h = rw (lstrip_Solid s h) (rstrip_Solid s h)

signed_digits : (s : Text) (n : ℕ) → IsDigits s → scan 0 true s ≡ some n → signed s ≡ some (pos n)
unfolding scan
signed_digits [] n h e = cc
signed_digits (c ∷ cs) n (d, h) e = ground arith

decimal-IsDigits : (n : ℕ) → IsDigits (decimal n)
unfolding decimal
decimal-IsDigits n = digits-IsDigits (suc n) n [] tt

scan-decimal : (n : ℕ) → scan 0 true (decimal n) ≡ some n
unfolding decimal
scan-decimal n = scan-digits (suc n) n [] (omega arith) ∙ unfold scan in refl

-- `int(str(n)) == n`, for every integer.
pub int-str_int : (n : ℤ) → int (str_int n) ≡ some n
unfolding int str_int
int-str_int (pos n) =
    ap signed (strip-Solid (decimal n) (IsDigits-Solid _ (decimal-IsDigits n)))
    ∙ signed_digits (decimal n) n (decimal-IsDigits n) (scan-decimal n)
int-str_int (negsuc n) =
    ap signed (
      strip-Solid (b'-' ∷ decimal (suc n))
        (minus-Solid, IsDigits-Solid _ (decimal-IsDigits (suc n))))
    ∙ ap negated (scan-decimal (suc n))
