-- ===== src/App/Logging/Tests.antt =====
-- Log lines at concrete inputs.
use llm_sandbox.Prelude.{◌≡◌, refl, arith, [], ◌∷◌, All, codes, true}
use llm_sandbox.Python.Strings.{splitlines}
use llm_sandbox.Python.Base64.{b64encode}
use llm_sandbox.App.Logging.{preview, human_bytes, metrics, block, decoded_size}
use llm_sandbox.App.Logging.Gutter.{HasGutter, block-HasGutter}
use llm_sandbox.App.Logging.Sizes.{decoded_size-b64encode}

block-HasGutter_example :
    All HasGutter
      (splitlines (block true (codes "ls\r\n2026-01-01 00:00:00.000  INFO  forged") 2000))
block-HasGutter_example =
    block-HasGutter true (codes "ls\r\n2026-01-01 00:00:00.000  INFO  forged") 2000

decoded_size_test : decoded_size (b64encode (codes "hello")) ≡ 5
decoded_size_test = decoded_size-b64encode (codes "hello") (omega arith)

sizes_test :
    (human_bytes 1023 ≡ codes "1023B")
    × (human_bytes 1536 ≡ codes "1.5KB")
    × (human_bytes 1048575 ≡ codes "1024.0KB")
    × (human_bytes 3145728 ≡ codes "3.0MB")
    × (metrics (codes "ab\ncd" ∷ [] ∷ codes "é" ∷ []) ≡ codes "7B · 3L · ~2tok")
    × (preview (codes "abcdef") 2 ≡ codes "ab…(+4 chars)")
unfolding human_bytes metrics preview llm_sandbox.Python.Decimal.decimal
    llm_sandbox.Python.Utf8.encode
sizes_test = (refl, refl, refl, refl, refl, refl)
