-- ===== src/Base/Session/Calls.antt =====
-- How a shell reads the lines that `SessionOpsMixin` builds (src/llm_sandbox/providers/base.py), and
-- the deadlines that go with them.
use llm_sandbox.Prelude.{
  if◌then◌else◌, ◌==◌, append_assoc, append-nil, ℕ, ◌+◌, ◌<◌, ◌≡◌, refl, arith, List, [], ◌∷◌, ◌++◌,
  Option, some, Text, codes, take, drop, length,
}
use mathlib.Core.Path.{subst}
use llm_sandbox.Prelude.Int.{ℤ, pos}
use llm_sandbox.Python.Decimal.{decimal, str_int}
use llm_sandbox.Python.Strings.{dirname, starts_with}
use llm_sandbox.Python.Utf8.{encode}
use llm_sandbox.Python.Shlex.{quote}
use llm_sandbox.Python.Shlex.Word.{read_word, plain, Ends, read_word-quote}
use llm_sandbox.Base.Session.{
  false, none, max_ℤ, finish_line, workspace, Call, Encoding, utf8, base64, or_else, directory,
  at_least_one, exec_line, exec_call, run_call, write_line, write_call, read_call,
}

-- A command line as a fixed text with words in it.
pub data Piece : Type 0 where
  fixed : Text → Piece
  word : Text → Piece

-- A shell that reads the line meets the fixed texts, and each word as one word, in this order.
pub data Reads : List Piece → Text → Type 0 where
  done : Reads [] []
  skip :
      {ps : List Piece} {rest : Text} (t : Text) → Reads ps rest → Reads (fixed t ∷ ps) (t ++ rest)
  take_word :
      {ps : List Piece} {line rest : Text} (w : Text)
      → read_word plain line ≡ some (w, rest)
      → Reads ps rest
      → Reads (word w ∷ ps) line

-- A quoted text, where what follows ends a word.
quoted_word :
    {ps : List Piece} {rest : Text} (w : Text)
    → Ends rest
    → Reads ps rest
    → Reads (word w ∷ ps) (quote w ++ rest)
quoted_word {rest} w e r = take_word w (read_word-quote w rest e) r

last_text : (t : Text) → Reads (fixed t ∷ []) t
last_text t = subst (Reads (fixed t ∷ [])) (append-nil t) (skip t done)

last_word : (w : Text) → Reads (word w ∷ []) (quote w)
last_word w = subst (Reads (word w ∷ [])) (append-nil (quote w)) (quoted_word w tt done)

-- A shell reads the line of `exec` as `cd `, one word that is the requested directory
-- (`/workspace` without one), whatever characters it has, then ` && ` and the caller's command as
-- it was given. Whether `cd` takes that word for an option, this leaves open.
pub exec_line-Reads :
    (command : Text) (workdir : Option Text)
    → Reads
        (fixed (codes "cd ") ∷ word (directory workdir) ∷ fixed (codes " && " ++ command) ∷ [])
        (exec_line command workdir)
unfolding exec_line
exec_line-Reads command workdir =
    skip (codes "cd ") (quoted_word (directory workdir) refl (last_text (codes " && " ++ command)))

abbrev strip_prefix : Text → Text → Option Text
strip_prefix [] s = some s
strip_prefix (c ∷ p) [] = none
strip_prefix (c ∷ p) (d ∷ s) = let rest = strip_prefix p s in if c == d then rest else none

abbrev operand : Text → Option Text → Option (Text × Text)
operand w none = none
operand w (some command) = if starts_with (codes "-") w then none else some (w, command)

abbrev entered : Option (Text × Text) → Option (Text × Text)
entered none = none
entered (some (w, rest)) = operand w (strip_prefix (codes " && ") rest)

abbrev after_cd : Option Text → Option (Text × Text)
after_cd none = none
after_cd (some rest) = entered (read_word plain rest)

-- A shell's reading of a line that is `cd`, one word, `&&`, and a command: the operand of `cd` and the
-- text of the command. A word that begins with a dash is no operand.
abbrev pub enters : Text → Option (Text × Text)
enters line = after_cd (strip_prefix (codes "cd ") line)

-- If the requested directory (`/workspace` without one) does not begin with a dash, then, whatever
-- characters it has, a shell reads the line of `exec` as a `cd` with that directory as its operand,
-- and behind `&&` the caller's command as it was given.
pub exec_line-enters :
    (command : Text) (workdir : Option Text)
    → starts_with (codes "-") (directory workdir) ≡ false
    → enters (exec_line command workdir) ≡ some (directory workdir, command)
unfolding exec_line
exec_line-enters command workdir h =
    rw (read_word-quote (directory workdir) (codes " && " ++ command) refl) (rw h refl)

abbrev pub finish_pieces : Encoding → Text → Text → List Piece → List Piece
finish_pieces utf8 tmp dest ps =
    fixed (codes "mv -f ") ∷ word tmp ∷ fixed (codes " ") ∷ word dest ∷ ps
finish_pieces base64 tmp dest ps =
    fixed (codes "base64 -d ")
    ∷ word tmp
    ∷ fixed (codes " > ")
    ∷ word dest
    ∷ fixed (codes " || { rm -f ")
    ∷ word dest
    ∷ fixed (codes "; false; }")
    ∷ ps

-- The script of `write_file` as a shell reads it: the caller's path is one word wherever it stands.
abbrev pub write_pieces : Encoding → Text → Text → Text → ℕ → List Piece
write_pieces encoding parent tmp dest size =
    fixed (codes "mkdir -p ")
    ∷ word parent
    ∷ fixed (codes " && cat > ")
    ∷ word tmp
    ∷ fixed (codes " && [ \"$(wc -c < ")
    ∷ word tmp
    ∷ fixed (codes ")\" -eq ")
    ∷ fixed (decimal size)
    ∷ fixed (codes " ] && ")
    ∷ finish_pieces encoding tmp dest
        (fixed (codes "; rc=$?; rm -f ") ∷ word tmp ∷ fixed (codes "; exit $rc") ∷ [])

closing-Reads :
    (tmp : Text)
    → Reads
        (fixed (codes "; rc=$?; rm -f ") ∷ word tmp ∷ fixed (codes "; exit $rc") ∷ [])
        (codes "; rc=$?; rm -f " ++ (quote tmp ++ codes "; exit $rc"))
closing-Reads tmp =
    skip (codes "; rc=$?; rm -f ") (quoted_word tmp refl (last_text (codes "; exit $rc")))

finish-Reads :
    (encoding : Encoding) (tmp dest : Text)
    → Reads
        (finish_pieces encoding tmp dest
          (fixed (codes "; rc=$?; rm -f ") ∷ word tmp ∷ fixed (codes "; exit $rc") ∷ []))
        (finish_line encoding (quote tmp) (quote dest)
          ++ (codes "; rc=$?; rm -f " ++ (quote tmp ++ codes "; exit $rc")))
finish-Reads utf8 tmp dest = simp append_assoc (
    skip (codes "mv -f ")
      (quoted_word tmp refl (skip (codes " ") (quoted_word dest refl (closing-Reads tmp)))))
finish-Reads base64 tmp dest = simp append_assoc (
    skip (codes "base64 -d ") (
      quoted_word tmp refl (
        skip (codes " > ") (
          quoted_word dest refl (
            skip (codes " || { rm -f ")
              (quoted_word dest refl (skip (codes "; false; }") (closing-Reads tmp))))))))

-- The line that `write_file` runs is the fixed script with the parent directory, the temporary
-- name and the destination each as one word, for every path and both encodings.
pub write_line-Reads :
    (encoding : Encoding) (parent tmp dest : Text) (size : ℕ)
    → Reads
        (write_pieces encoding parent tmp dest size)
        (write_line encoding (quote parent) (quote tmp) (quote dest) size)
unfolding write_line
write_line-Reads encoding parent tmp dest size = skip (codes "mkdir -p ") (
    quoted_word parent refl (
      skip (codes " && cat > ") (
        quoted_word tmp refl (
          skip (codes " && [ \"$(wc -c < ") (
            quoted_word tmp refl (
              skip (codes ")\" -eq ")
                (skip (decimal size) (skip (codes " ] && ") (finish-Reads encoding tmp dest)))))))))

-- A call that has a shell run a line read as these pieces.
abbrev pub RunsPieces : Call → List Piece → Type 0
RunsPieces call ps =
    (line : Text) × (call.argv ≡ codes "sh" ∷ codes "-c" ∷ line ∷ []) × Reads ps line

-- `write_file` sends the content, encoded, to a script that a shell reads as the fixed one: the
-- parent directory (or /workspace), the temporary name and the path are one word wherever they
-- stand, and the size that it checks is the number of bytes sent.
pub write_call-RunsPieces :
    (random path content : Text) (encoding : Encoding)
    → RunsPieces (write_call random path content encoding) (
        write_pieces encoding
          (or_else (dirname path) workspace)
          (path ++ (codes ".partial-" ++ random))
          path
          (length (encode content)))
      × ((write_call random path content encoding).stdin ≡ some (encode content))
unfolding write_call
write_call-RunsPieces random path content encoding = (
  (
    _,
    refl,
    write_line-Reads encoding (or_else (dirname path) workspace)
        (path ++ (codes ".partial-" ++ random)) path (length (encode content)),
  ),
  refl,
)

abbrev pub scratch : Text → Text → Text
scratch random ext = codes "/tmp/_run_" ++ (random ++ (codes "." ++ ext))

abbrev pub run_pieces : Text → ℕ → ℕ → Text → List Piece
run_pieces path size seconds interpreter =
    fixed (codes "cat > ")
    ∷ word path
    ∷ fixed (codes " && [ \"$(wc -c < ")
    ∷ word path
    ∷ fixed (codes ")\" -eq ")
    ∷ fixed (decimal size)
    ∷ fixed (codes " ] && cd ")
    ∷ word workspace
    ∷ fixed (codes " && timeout -k 1 ")
    ∷ fixed (decimal seconds)
    ∷ fixed (codes " ")
    ∷ word interpreter
    ∷ fixed (codes " ")
    ∷ word path
    ∷ fixed (codes "; rc=$?; rm -f ")
    ∷ word path
    ∷ fixed (codes "; exit $rc")
    ∷ []

-- `run_script` hands the code to the shell on stdin only; in its script the scratch file's name and
-- the interpreter are one word each, and the size that it checks is the number of bytes sent.
pub run_call-RunsPieces :
    (random code interpreter ext : Text) (timeout : ℤ)
    → RunsPieces
        (run_call random code interpreter ext timeout)
        (run_pieces (scratch random ext) (length (encode code)) (at_least_one timeout) interpreter)
      × ((run_call random code interpreter ext timeout).stdin ≡ some (encode code))
unfolding run_call
run_call-RunsPieces random code interpreter ext timeout = (
  (
    _,
    refl,
    skip (codes "cat > ") (
        quoted_word path refl (
          skip (codes " && [ \"$(wc -c < ") (
            quoted_word path refl (
              skip (codes ")\" -eq ") (
                skip (decimal (length (encode code))) (
                  skip (codes " ] && cd ") (
                    quoted_word workspace refl (
                      skip (codes " && timeout -k 1 ") (
                        skip (decimal (at_least_one timeout)) (
                          skip (codes " ") (
                            quoted_word interpreter refl (
                              skip (codes " ")
                                (quoted_word path refl (closing-Reads path)))))))))))))),
  ),
  refl,
)
  where
    path : Text
    path = scratch random ext

-- `read_file` asks for one byte more than its limit, of the path as one word.
pub read_call-RunsPieces :
    (path : Text) (limit : ℕ)
    → RunsPieces (read_call path limit) (
        fixed (codes "head -c ") ∷ fixed (decimal (limit + 1)) ∷ fixed (codes " ") ∷ word path ∷ [])
unfolding read_call
read_call-RunsPieces path limit = (
  _,
  refl,
  skip (codes "head -c ") (skip (decimal (limit + 1)) (skip (codes " ") (last_word path))),
)

-- The argument of `timeout` is the number of seconds asked for, and 1 for anything less; the service
-- waits longer than that and the second that `timeout -k 1` adds to it.
pub exec_call_deadline :
    (command : Text) (timeout : ℤ) (workdir : Option Text)
    → let call = exec_call command timeout workdir in
      (n : ℕ) × (take 1 (drop 3 call.argv) ≡ str_int (pos n) ∷ [])
      × (pos n ≡ max_ℤ (pos 1) timeout)
      × (n + 1 < call.timeout)
unfolding exec_call str_int
exec_call_deadline command timeout workdir = (at_least_one timeout, refl, ground arith, omega arith)
