-- ===== src/Models.antt =====
-- src/llm_sandbox/models.py: the requests of the HTTP API and the checks that their fields declare.
-- Reading the JSON body is the framework's.
use llm_sandbox.Prelude.{
  List, ℕ, Bool, true, ◌&&◌, ◌||◌, Option, none, some, Text, codes, leb, ◌==◌, length, all, ◌≡◌,
  refl,
}
use llm_sandbox.Prelude.Int.{ℤ, pos, leb_ℤ}
use llm_sandbox.Python.Strings.{is_space}
use llm_sandbox.Python.Shlex.{is_alnum}
use llm_sandbox.Base.Session.{Encoding, utf8, base64}

pub record CreateSessionRequest (Float : Type 0) : Type 0 where
  pub image : Option Text
  pub timeout_seconds : ℤ
  pub network : Bool
  pub memory_mb : ℤ
  pub cpus : Float

-- `min_length=1, max_length=512` and `ge=1`
abbrev image_ok : Option Text → Bool
image_ok none = true
image_ok (some image) = leb 1 (length image) && leb (length image) 512

unfoldable pub create_request_ok : {Float : Type 0} → CreateSessionRequest Float → Bool
create_request_ok r = image_ok r.image && leb_ℤ (pos 1) r.timeout_seconds

pub record Session : Type 0 where
  pub session_id : Text
  pub provider : Text

pub record ExecRequest : Type 0 where
  pub command : Text
  pub timeout_seconds : ℤ
  pub workdir : Option Text

abbrev workdir_ok : Option Text → Bool
workdir_ok none = true
workdir_ok (some workdir) = leb 1 (length workdir)

unfoldable pub exec_request_ok : ExecRequest → Bool
exec_request_ok r = leb_ℤ (pos 1) r.timeout_seconds && workdir_ok r.workdir

-- The language is `python`, the only one.
pub record RunRequest : Type 0 where
  pub code : Text
  pub timeout_seconds : ℤ

unfoldable pub run_request_ok : RunRequest → Bool
run_request_ok r = leb_ℤ (pos 1) r.timeout_seconds

pub record WriteFileRequest : Type 0 where
  pub path : Text
  pub content : Text
  pub encoding : Encoding

-- `^[A-Za-z0-9+/=\s]*$`
abbrev is_base64_char : ℕ → Bool
is_base64_char c = is_alnum c || (c == b'+' || (c == b'/' || (c == b'=' || is_space c)))

abbrev content_ok : Encoding → Text → Bool
content_ok utf8 content = true
content_ok base64 content = all is_base64_char content

unfoldable pub write_request_ok : WriteFileRequest → Bool
unfolding is_space
write_request_ok r = leb 1 (length r.path) && content_ok r.encoding r.content

-- The pattern is over the alphabet only: it takes text that stands for no bytes.
alphabet_only :
    write_request_ok (record { path = codes "a"; content = codes "=A"; encoding = base64 }) ≡ true
unfolding write_request_ok
alphabet_only = refl

pub record FileEntry : Type 0 where
  pub name : Text
  pub path : Text
  pub is_dir : Bool
  pub size : ℤ

-- The listing of a directory; `truncated`: there are more entries than the cap lets through.
pub record Listing : Type 0 where
  pub entries : List FileEntry
  pub truncated : Bool
