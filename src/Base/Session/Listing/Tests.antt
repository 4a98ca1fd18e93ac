-- ===== src/Base/Session/Listing/Tests.antt =====
-- A directory with two entries.
use llm_sandbox.Prelude.{
  ◌≡◌, refl, List, [], ◌∷◌, Option, none, some, Text, codes, true, false, ltb, take, length,
}
use llm_sandbox.Prelude.Int.{pos}
use llm_sandbox.Python.Json.{Json, bool, num, str, obj, end, field}
use llm_sandbox.Python.Utf8.{decode_strict}
use llm_sandbox.Base.Errors.{ok}
use llm_sandbox.Base.Session.{Transport}
use llm_sandbox.Base.Session.Listing.{list_max, snippet_output, list_files, list_files_faithful}
use llm_sandbox.Models.{FileEntry}

abbrev directory : List FileEntry
directory =
    record { name = codes "a"; path = codes "/w/a"; is_dir = false; size = pos 3 }
    ∷ record { name = codes "b"; path = codes "/w/b"; is_dir = true; size = pos 0 }
    ∷ []

abbrev printing : Transport (Unit {0})
printing = record {
  exec_cli = λ sid call w. (ok (record { rc = pos 0; out = codes "x"; err = [] }), w);
  clock = λ w. 0;
  max_output_bytes = 9;
}

-- A reader of the one text that is printed.
abbrev reader : Text → Option Json
reader text = some (snippet_output list_max directory)

abbrev validate : Json → Option FileEntry
validate
      (obj (
        field _ (str name) (field _ (str path) (field _ (bool is_dir) (field _ (num size) end))))) =
    some (record { name = name; path = path; is_dir = is_dir; size = size })
validate _ = none

list_files_faithful_example : list_files printing reader validate (codes "s") (codes "/w") tt ≡ (
  ok (record { entries = take list_max directory; truncated = ltb list_max (length directory) }),
  tt,
)
unfolding decode_strict
list_files_faithful_example =
    list_files_faithful printing reader validate (codes "s") (codes "/w") directory (codes "x")
      (codes "x") [] tt tt refl refl (λ e. cc) refl (λ e. refl)
