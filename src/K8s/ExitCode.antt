-- ===== src/K8s/ExitCode.antt =====
-- `_exit_code_from_status` of src/llm_sandbox/providers/k8s.py.
mod Tests
use llm_sandbox.Prelude.{
  ◌++◌, ℕ, ◌≡◌, ◌≢◌, refl, ap, ◌∙◌, arith, Bool, true, false, List, [], ◌∷◌, Option, none, some,
  Text, Bytes, codes, text_eq, text_eq_iff, if◌then◌else◌, Bool-cases, inl, inr,
}
use llm_sandbox.Prelude.Int.{ℤ, pos}
use llm_sandbox.Python.Decimal.{int, str_int}
use llm_sandbox.Python.Decimal.RoundTrip.{int-str_int}
use llm_sandbox.Base.Errors.{Outcome, ok, raised}
use llm_sandbox.Python.Json.{
  Json, null, bool, num, str, arr, obj, Items, nil, cons, Fields, end, field, find, get_or, get,
  to_list, iterate, is_text, to_int, ◌>>=◌,
}

-- `int(...)`, with 1 for a `ValueError`.
abbrev code_or_one : Option ℤ → ℤ
code_or_one none = pos 1
code_or_one (some n) = n

abbrev message_code : Json → Outcome ℤ
message_code cause = do
  message ← get cause (codes "message") (str (codes "1"))
  n ← to_int message
  ok (code_or_one n)

-- The loop over the causes.
pub search_causes : List Json → Outcome ℤ
search_causes [] = ok (pos 1)
search_causes (cause ∷ causes) =
    let rest = search_causes causes in
    get cause (codes "reason") null >>= λ reason.
    if is_text reason (codes "ExitCode") then message_code cause else rest

abbrev status_code : Json → Outcome ℤ
status_code status = do
  state ← get status (codes "status") null
  if is_text state (codes "Success") then ok (pos 0) else (do
    details ← get status (codes "details") (obj end)
    causes ← get details (codes "causes") (arr nil)
    items ← iterate causes
    search_causes items)

abbrev loaded : Option Json → Outcome ℤ
loaded none = ok (pos 1)
loaded (some status) = status_code status

-- `loads` is `json.loads`; `none` is its `ValueError`.
unfoldable pub exit_code : (Bytes → Option Json) → Bytes → Outcome ℤ
unfolding search_causes
exit_code loads [] = ok (pos 0)
exit_code loads (b ∷ bs) = loaded (loads (b ∷ bs))

-- A failed `Status` object, from the reason and the message of each of its causes.
abbrev cause_json : Text × Text → Json
cause_json (reason, message) =
    obj (field (codes "reason") (str reason) (field (codes "message") (str message) end))

abbrev pub causes_json : List (Text × Text) → Items
causes_json [] = nil
causes_json (c ∷ cs) = cons (cause_json c) (causes_json cs)

abbrev pub failed_status : List (Text × Text) → Json
failed_status causes = obj (
    field (codes "status") (str (codes "Failure"))
      (field (codes "details") (obj (field (codes "causes") (arr (causes_json causes)) end)) end))

-- The reasons before the exit code are other ones.
abbrev pub NoExitCode : List (Text × Text) → Type 0
NoExitCode [] = Unit {0}
NoExitCode ((reason, message) ∷ cs) = (text_eq reason (codes "ExitCode") ≡ false) × NoExitCode cs

search-skip :
    (before : List (Text × Text)) (n : ℤ) (rest : List (Text × Text))
    → NoExitCode before
    → search_causes (to_list (causes_json (before ++ (codes "ExitCode", str_int n) ∷ rest))) ≡ ok n
unfolding search_causes get is_text to_int find
search-skip [] n rest h = rw (int-str_int n)
search-skip ((reason, message) ∷ cs) n rest (p, h) = rw p (search-skip cs n rest h)

exit_code_loaded :
    (loads : Bytes → Option Json) (payload : Bytes) (status : Json)
    → payload ≢ []
    → loads payload ≡ some status
    → exit_code loads payload ≡ status_code status
unfolding exit_code
exit_code_loaded loads [] status p e = absurd (p refl)
exit_code_loaded loads (b ∷ bs) status p e = rw e

failed_status_code :
    (causes : List (Text × Text))
    → status_code (failed_status causes) ≡ search_causes (to_list (causes_json causes))
unfolding get is_text find iterate
failed_status_code causes = refl

-- The exit code of a failed command, whatever integer it is, is read back from the first `ExitCode`
-- cause of the status, behind any causes with other reasons.
pub exit_code_of_causes :
    (loads : Bytes → Option Json) (payload : Bytes) (before rest : List (Text × Text)) (n : ℤ)
    → payload ≢ []
    → NoExitCode before
    → loads payload ≡ some (failed_status (before ++ (codes "ExitCode", str_int n) ∷ rest))
    → exit_code loads payload ≡ ok n
exit_code_of_causes loads payload before rest n p h e =
    exit_code_loaded loads payload _ p e ∙ failed_status_code _ ∙ search-skip before n rest h
