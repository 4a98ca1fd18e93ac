-- ===== src/Base/Script.antt =====
-- The scripts of `write_file` and `run_script` of `SessionOpsMixin`
-- (src/llm_sandbox/providers/base.py) as a shell runs them:
-- commands in an and-or list, in which `&&` and `||` bind alike and to the left, then a clean-up that
-- keeps the exit status. `render` gives the text that the code builds.
pub mod Tools
pub mod Atomic
pub mod Binary
pub mod Running
pub mod Memory
pub mod Stored
mod Tests
use llm_sandbox.Prelude.{
  ℕ, zero, suc, ◌≡◌, refl, append_assoc, List, [], ◌∷◌, ◌++◌, Text, Bytes, codes,
}
use llm_sandbox.Python.Decimal.{decimal}
use llm_sandbox.Python.Shlex.{quote}
use llm_sandbox.Base.Session.{Encoding, utf8, base64, write_line, run_line, workspace}

pub data Command : Type 0 where
  -- `mkdir -p`, `cat >`, and `rm -f` of a name
  mkdir_p cat_to rm_f : Text → Command
  -- `[ "$(wc -c < name)" -eq size ]`
  wc_is : Text → ℕ → Command
  -- `mv -f from to`, and `base64 -d from > to`
  mv_f base64_d : Text → Text → Command
  -- `cd`, and `timeout -k 1 seconds interpreter name`
  cd_to : Text → Command
  timed : ℕ → Text → Text → Command
  -- `false`
  fail : Command

pub data Node : Type 0 where
  one : Command → Node
  -- `{ a; b; }`
  group : Command → Command → Node

pub data Link : Type 0 where
  and_then or_else : Link

-- `first`, its links, then `rc=$?; cleanup; exit $rc`.
pub record Script : Type 0 where
  pub first : Command
  pub links : List (Link × Node)
  pub cleanup : Command

abbrev pub finish_links : Encoding → Text → Text → List (Link × Node)
finish_links utf8 tmp dest = (and_then, one (mv_f tmp dest)) ∷ []
finish_links base64 tmp dest =
    (and_then, one (base64_d tmp dest)) ∷ (or_else, group (rm_f dest) fail) ∷ []

unfoldable pub write_script : Encoding → Text → Text → Text → ℕ → Script
write_script encoding parent tmp dest size = record {
  first = mkdir_p parent;
  links =
      (and_then, one (cat_to tmp))
      ∷ (and_then, one (wc_is tmp size))
      ∷ finish_links encoding tmp dest;
  cleanup = rm_f tmp;
}

-- The script of `run_script`.
unfoldable pub run_of : Text → ℕ → ℕ → Text → Script
run_of path size seconds interpreter = record {
  first = cat_to path;
  links =
      (and_then, one (wc_is path size))
      ∷ (and_then, one (cd_to workspace))
      ∷ (and_then, one (timed seconds interpreter path))
      ∷ [];
  cleanup = rm_f path;
}

abbrev render_command : Command → Text
render_command (mkdir_p name) = codes "mkdir -p " ++ quote name
render_command (cat_to name) = codes "cat > " ++ quote name
render_command (rm_f name) = codes "rm -f " ++ quote name
render_command (wc_is name size) =
    codes "[ \"$(wc -c < " ++ (quote name ++ (codes ")\" -eq " ++ (decimal size ++ codes " ]")))
render_command (mv_f from to) = codes "mv -f " ++ (quote from ++ (codes " " ++ quote to))
render_command (base64_d from to) = codes "base64 -d " ++ (quote from ++ (codes " > " ++ quote to))
render_command (cd_to name) = codes "cd " ++ quote name
render_command (timed seconds interpreter name) =
    codes "timeout -k 1 "
    ++ (decimal seconds ++ (codes " " ++ (quote interpreter ++ (codes " " ++ quote name))))
render_command fail = codes "false"

abbrev render_node : Node → Text
render_node (one c) = render_command c
render_node (group a b) =
    codes "{ " ++ (render_command a ++ (codes "; " ++ (render_command b ++ codes "; }")))

abbrev render_link : Link → Text
render_link and_then = codes " && "
render_link or_else = codes " || "

abbrev render_links : List (Link × Node) → Text
render_links [] = []
render_links ((link, node) ∷ links) = render_link link ++ (render_node node ++ render_links links)

unfoldable pub render : Script → Text
render s =
    render_command s.first
    ++ (render_links s.links
        ++ (codes "; rc=$?; " ++ (render_command s.cleanup ++ codes "; exit $rc")))

-- The line that `write_file` builds is the text of this script, for both encodings and every name.
pub render-write_script :
    (encoding : Encoding) (parent tmp dest : Text) (size : ℕ)
    → render (write_script encoding parent tmp dest size)
      ≡ write_line encoding (quote parent) (quote tmp) (quote dest) size
unfolding render write_script write_line
render-write_script utf8 parent tmp dest size = simp append_assoc
render-write_script base64 parent tmp dest size = simp append_assoc

-- The line that `run_script` builds is the text of this script, for every name.
pub render-run_of :
    (path : Text) (size seconds : ℕ) (interpreter : Text)
    → render (run_of path size seconds interpreter) ≡ run_line (quote path) size seconds interpreter
unfolding render run_of run_line
render-run_of path size seconds interpreter = simp append_assoc
