-- ===== src/Base/Session/Listing.antt =====
-- `list_files` of `SessionOpsMixin` and the Python program that it runs in the session
-- (src/llm_sandbox/providers/base.py). Reading JSON text and the validation of an entry are the
-- libraries'.
mod Tests
use llm_sandbox.Prelude.{
  ℕ, suc, ◌+◌, ◌≡◌, ◌≢◌, refl, ap, ◌∙◌, arith, Bool, true, false, List, [], ◌∷◌, ◌++◌, Option, none,
  some, Text, Bytes, codes, text_eq, length, take, ltb, if◌then◌else◌, map, length-take,
}
use llm_sandbox.Prelude.Int.{ℤ, pos}
use llm_sandbox.Python.Decimal.{decimal}
use llm_sandbox.Python.Strings.{strip}
use llm_sandbox.Python.Utf8.{decode, decode_strict}
use llm_sandbox.Python.Json.{
  Json, null, bool, num, str, arr, obj, Items, nil, cons, Fields, end, field, find, iterate, truth,
  to_list,
}
use llm_sandbox.Base.Errors.{
  Exception, path_not_found, failure, Outcome, ok, raised, Run, after, ◌>>=◌, return, throw,
}
use llm_sandbox.Base.Stream.{Reply}
use llm_sandbox.Base.Session.{Call, Transport, or_else, is_zero}
use llm_sandbox.Base.Session.Results.{take-take-suc, over-take-suc}
use llm_sandbox.Models.{FileEntry, Listing}

abbrev pub list_max : ℕ
list_max = 2000

abbrev list_snippet : Text
list_snippet =
    codes
      "import os,sys,json,itertools;p=sys.argv[1];n=int(sys.argv[2]);es=list(itertools.islice(os.scandir(p),n+1))\ndef sz(e):\n  try: return e.stat().st_size if e.is_file() else 0\n  except OSError: return 0\nprint(json.dumps({'truncated':len(es)>n,'entries':[{'name':e.name,'path':os.path.join(p,e.name),'is_dir':e.is_dir(),'size':sz(e)} for e in es[:n]]}))"

unfoldable pub list_call : Text → Call
list_call path = record {
  argv = codes "python3" ∷ codes "-c" ∷ list_snippet ∷ path ∷ decimal list_max ∷ [];
  stdin = none;
  timeout = 30;
}

-- `{'name': …, 'path': …, 'is_dir': …, 'size': …}`
abbrev pub entry_json : FileEntry → Json
entry_json e = obj (
    field (codes "name") (str e.name) (
      field (codes "path") (str e.path)
        (field (codes "is_dir") (bool e.is_dir) (field (codes "size") (num e.size) end))))

abbrev entries_json : List FileEntry → Items
entries_json [] = nil
entries_json (e ∷ es) = cons (entry_json e) (entries_json es)

abbrev dumped : ℕ → List FileEntry → Json
dumped n es = obj (
    field (codes "truncated") (bool (ltb n (length es)))
      (field (codes "entries") (arr (entries_json (take n es))) end))

-- What the program prints for a directory with these entries: it reads `n + 1` of them.
unfoldable pub snippet_output : ℕ → List FileEntry → Json
snippet_output n directory = dumped n (take (n + 1) directory)

-- `value[key]`
unfoldable pub item : Text → Json → Outcome Json
item key (obj fs) = elim (find key fs) [
  | none ↦ raised (failure (codes "KeyError"))
  | some v ↦ ok v
]
item key v = raised (failure (codes "TypeError"))

abbrev also : FileEntry → Outcome (List FileEntry) → Outcome (List FileEntry)
also e (ok es) = ok (e ∷ es)
also e (raised x) = raised x

abbrev checked : Option FileEntry → Outcome (List FileEntry) → Outcome (List FileEntry)
checked none es = raised (failure (codes "ValidationError"))
checked (some e) es = also e es

-- `[FileEntry(**e) for e in values]`; `validate` is none where the model refuses the value.
pub validated : (Json → Option FileEntry) → List Json → Outcome (List FileEntry)
validated validate [] = ok []
validated validate (v ∷ vs) = let rest = validated validate vs in checked (validate v) rest

abbrev bind : {A B : Type 0} → Outcome A → (A → Outcome B) → Outcome B
bind (ok a) f = f a
bind (raised e) f = raised e

abbrev loaded : Option Json → Outcome Json
loaded none = raised (failure (codes "JSONDecodeError"))
loaded (some v) = ok v

abbrev text_of : Option Text → Outcome Text
text_of none = raised (failure (codes "UnicodeDecodeError"))
text_of (some t) = ok (or_else t (codes "{\"truncated\":false,\"entries\":[]}"))

unfoldable pub parse_listing :
    (Text → Option Json) → (Json → Option FileEntry) → Bytes → Outcome Listing
unfolding item truth validated
parse_listing loads validate out = bind (text_of (decode_strict out)) λ text.
    bind (loaded (loads text)) λ listing. bind (item (codes "entries") listing) λ values.
      bind (iterate values) λ vs. bind (validated validate vs) λ entries.
        bind (item (codes "truncated") listing)
          λ flag. ok (record { entries = entries; truncated = truth flag })

validated-entries :
    (validate : Json → Option FileEntry) (es : List FileEntry)
    → ((e : FileEntry) → validate (entry_json e) ≡ some e)
    → validated validate (to_list (entries_json es)) ≡ ok es
unfolding validated
validated-entries validate [] h = refl
validated-entries validate (e ∷ es) h = rw (h e, validated-entries validate es h)

or_else_given : (t d : Text) → t ≢ [] → or_else t d ≡ t
or_else_given [] d h = absurd (h refl)
or_else_given (c ∷ cs) d h = refl

-- The text that the program prints, read back.
parse_listing-dumped :
    (loads : Text → Option Json) (validate : Json → Option FileEntry) (out : Bytes) (text : Text)
    (n : ℕ) (es : List FileEntry)
    → decode_strict out ≡ some text
    → text ≢ []
    → loads text ≡ some (dumped n es)
    → ((e : FileEntry) → validate (entry_json e) ≡ some e)
    → parse_listing loads validate out
      ≡ ok (record { entries = take n es; truncated = ltb n (length es) })
unfolding parse_listing find iterate
parse_listing-dumped loads validate out text n es decoded nonempty read valid = rw (
  decoded,
  or_else_given text (codes "{\"truncated\":false,\"entries\":[]}") nonempty,
  read,
  validated-entries validate (take n es) valid,
)

listing_lem :
    {es fs : List FileEntry} {b c : Bool}
    → es ≡ fs
    → b ≡ c
    → ◌≡◌ {A = Listing}
        (record { entries = es; truncated = b })
        (record { entries = fs; truncated = c })
listing_lem p q = rw (p, q)

module _ {W : Type 0} (t : Transport W) (loads : Text → Option Json)
    (validate : Json → Option FileEntry) where
  unfoldable pub list_files : Text → Text → Run W Listing
  unfolding parse_listing
  list_files sid path = do
    reply ← t.exec_cli sid (list_call path)
    if is_zero reply.rc
        then (λ w. (parse_listing loads validate reply.out, w))
        else throw (path_not_found (or_else (strip (decode reply.err)) path))

  -- If the program prints the entries of a directory and the model takes them as they are, the
  -- listing has the first 2000 of them, and `truncated` says whether there are more.
  pub list_files_faithful :
      (sid path : Text) (directory : List FileEntry) (text : Text) (out err : Bytes) (w w' : W)
      → t.exec_cli sid (list_call path) w ≡ (ok (record { rc = pos 0; out = out; err = err }), w')
      → decode_strict out ≡ some text
      → text ≢ []
      → loads text ≡ some (snippet_output list_max directory)
      → ((e : FileEntry) → validate (entry_json e) ≡ some e)
      → list_files sid path w ≡ (
        ok (record {
          entries = take list_max directory;
          truncated = ltb list_max (length directory);
        }),
        w',
      )
  unfolding list_files snippet_output
  list_files_faithful sid path directory text out err w w' ran decoded nonempty read valid =
      rw (ran, after)
        (ap (λ o. (o, w'))
          (parse_listing-dumped loads validate out text list_max (take (suc list_max) directory)
              decoded nonempty read valid
            ∙ ap ok (
                listing_lem (take-take-suc list_max directory) (over-take-suc list_max directory))))
