-- ===== src/Config/Tests.antt =====
-- The settings at concrete environments.
use llm_sandbox.Prelude.{◌≡◌, ◌≢◌, refl, inr, [], ◌∷◌, codes, true, false, some, All}
use llm_sandbox.Prelude.Int.{negsuc}
use llm_sandbox.Config.{Environ, get, load_dotenv, env_int, env_flag, comma_list}
use llm_sandbox.Config.Laws.{get-load_dotenv, env_int_default, comma_list-All}

abbrev env : Environ
env = (codes "A", codes "1") ∷ (codes "B", []) ∷ []

get-load_dotenv_example :
    get (codes "A") (load_dotenv (some (codes "A=2\n# x\nC = '3'")) env) ≡ some (codes "1")
unfolding get
get-load_dotenv_example =
    get-load_dotenv (codes "A") (codes "1") (some (codes "A=2\n# x\nC = '3'")) env refl

dotenv_test :
    get (codes "C") (load_dotenv (some (codes "A=2\n# x\nC = '3'")) env) ≡ some (codes "3")
unfolding get load_dotenv llm_sandbox.Python.Strings.splitlines
    llm_sandbox.Python.Strings.starts_with llm_sandbox.Python.Strings.strip
    llm_sandbox.Python.Strings.partition llm_sandbox.Python.Strings.strip_char
dotenv_test = refl

negative_default_test : env_int env (codes "B") (negsuc 4) ≡ some (negsuc 4)
unfolding get
negative_default_test = env_int_default env (codes "B") (negsuc 4) (inr refl)

blank_parts_test : All (λ t. t ≢ []) (comma_list (codes "a, ,b"))
blank_parts_test = comma_list-All (codes "a, ,b")

flag_test : env_flag ((codes "X", codes " Yes ") ∷ []) (codes "X") false ≡ true
unfolding env_flag llm_sandbox.Python.Strings.lower llm_sandbox.Python.Strings.strip
flag_test = refl
