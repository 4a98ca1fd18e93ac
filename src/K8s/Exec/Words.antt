-- ===== src/K8s/Exec/Words.antt =====
-- The words of a command on the address of its exec stream (src/llm_sandbox/providers/k8s.py).
use llm_sandbox.Prelude.{
  not, ◌≡◌, refl, ap, ◌∙◌, true, List, [], ◌∷◌, Option, none, some, Text, Bytes, codes, map, keep,
  All, all, ltb, not, ◌<◌, arith, text_eq,
}
use llm_sandbox.Python.Utf8.{encode, encode_char}
use llm_sandbox.Python.Utf8.RoundTrip.{IsScalar, encode-bytes}
use llm_sandbox.Python.Query.{urlencode}
use llm_sandbox.Python.Query.Reading.{read_query, read_query-urlencode, encoded, IsEncodable}
use llm_sandbox.K8s.Exec.{exec_query, flags}

-- The command that the server runs: the values of `command`, in their order.
abbrev pub command_of : List (Bytes × Bytes) → List Bytes
command_of pairs = map (λ p. p.1) (keep (λ p. text_eq p.0 (codes "command")) pairs)

-- All the other options.
abbrev pub options_of : List (Bytes × Bytes) → List (Bytes × Bytes)
options_of pairs = keep (λ p. not (text_eq p.0 (codes "command"))) pairs

ascii_bytes : (s : Text) → all (λ c. ltb c 128) s ≡ true → All (λ b. b < 256) (encode s)
unfolding encode encode_char
ascii_bytes [] h = tt
ascii_bytes (c ∷ cs) h = ground (arith, ascii_bytes cs)

flags-IsEncodable : (stdin : Option Bytes) → All IsEncodable (flags stdin)
flags-IsEncodable none = (
  (ascii_bytes (codes "stdout") refl, ascii_bytes (codes "true") refl),
  (
    (ascii_bytes (codes "stderr") refl, ascii_bytes (codes "true") refl),
    (
      (ascii_bytes (codes "tty") refl, ascii_bytes (codes "false") refl),
      ((ascii_bytes (codes "stdin") refl, ascii_bytes (codes "false") refl), tt),
    ),
  ),
)
flags-IsEncodable (some stdin) = (
  (ascii_bytes (codes "stdout") refl, ascii_bytes (codes "true") refl),
  (
    (ascii_bytes (codes "stderr") refl, ascii_bytes (codes "true") refl),
    (
      (ascii_bytes (codes "tty") refl, ascii_bytes (codes "false") refl),
      ((ascii_bytes (codes "stdin") refl, ascii_bytes (codes "true") refl), tt),
    ),
  ),
)

exec_query-IsEncodable :
    (argv : List Text) (stdin : Option Bytes)
    → All (All IsScalar) argv
    → All IsEncodable (exec_query argv stdin)
unfolding exec_query
exec_query-IsEncodable [] stdin h = flags-IsEncodable stdin
exec_query-IsEncodable (word ∷ argv) stdin (p, h) =
    ((ascii_bytes (codes "command") refl, encode-bytes word p), exec_query-IsEncodable argv stdin h)

command_of-words :
    (argv : List Text) (stdin : Option Bytes)
    → command_of (map encoded (exec_query argv stdin)) ≡ map encode argv
unfolding exec_query encode encode_char
command_of-words [] none = refl
command_of-words [] (some stdin) = refl
command_of-words (word ∷ argv) stdin = ap (◌∷◌ (encode word)) (command_of-words argv stdin)

options_of-words :
    (argv : List Text) (stdin : Option Bytes)
    → options_of (map encoded (exec_query argv stdin)) ≡ map encoded (flags stdin)
unfolding exec_query encode encode_char
options_of-words [] none = refl
options_of-words [] (some stdin) = refl
options_of-words (word ∷ argv) stdin = options_of-words argv stdin

-- The server that reads the query string of an exec stream finds the command's words, in UTF-8, one
-- for one and in their order, whatever characters they have, and no word sets another option.
pub exec_query-words :
    (argv : List Text) (stdin : Option Bytes)
    → All (All IsScalar) argv
    → let pairs = read_query (urlencode (exec_query argv stdin)) in
      (command_of pairs ≡ map encode argv) × (options_of pairs ≡ map encoded (flags stdin))
exec_query-words argv stdin h =
    let e = read_query-urlencode (exec_query argv stdin) (exec_query-IsEncodable argv stdin h) in
    (ap command_of e ∙ command_of-words argv stdin, ap options_of e ∙ options_of-words argv stdin)
