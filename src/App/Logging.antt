-- ===== src/App/Logging.antt =====
-- What src/llm_sandbox/app.py puts into its log lines: `_preview`, `_human_bytes`, `_metrics`,
-- `_payload_metrics` and `_block`. A size divided by 1024 or 1048576 is exact in a float, and `:.1f`
-- rounds it to the nearest tenth, a half to the even one.
pub mod Gutter
pub mod Sizes
mod Tests
use llm_sandbox.Prelude.{
  ℕ, ◌+◌, ◌-◌, ◌*◌, ◌/◌, ◌%◌, Bool, true, false, ◌&&◌, ◌||◌, List, [], ◌∷◌, ◌++◌, Text, codes,
  length, take, map, all, ltb, leb, ◌==◌, if◌then◌else◌,
}
use llm_sandbox.Python.Decimal.{decimal}
use llm_sandbox.Python.Strings.{join, splitlines, rstrip_if}
use llm_sandbox.Python.Utf8.{encode}
use llm_sandbox.Base.Session.{Encoding, utf8, base64, or_else}

unfoldable pub preview : Text → ℕ → Text
preview s n =
    if leb (length s) n
    then s
    else take n s ++ (codes "…(+" ++ (decimal (length s - n) ++ codes " chars)"))

-- The tenths of `n / unit`, rounded.
unfoldable pub tenths : ℕ → ℕ → ℕ
tenths n unit =
    let q = n * 10 / unit in
    let r = n * 10 % unit in if ltb unit (2 * r) || (2 * r == unit && q % 2 == 1) then q + 1 else q

abbrev with_tenths : ℕ → Text
with_tenths t = decimal (t / 10) ++ (codes "." ++ decimal (t % 10))

unfoldable pub human_bytes : ℕ → Text
unfolding tenths
human_bytes n =
    if ltb n 1024
    then decimal n ++ codes "B"
    else if ltb n 1048576
    then with_tenths (tenths n 1024) ++ codes "KB"
    else with_tenths (tenths n 1048576) ++ codes "MB"

-- `text.count("\n")`
abbrev pub newlines : Text → ℕ
newlines [] = 0
newlines (c ∷ cs) = let rest = newlines cs in if c == b'\n' then rest + 1 else rest

pub record Totals : Type 0 where
  pub bytes : ℕ
  pub lines : ℕ
  pub chars : ℕ

-- `isascii` saves the encoding.
unfoldable pub byte_count : Text → ℕ
byte_count text = if all (λ c. ltb c 128) text then length text else length (encode text)

-- One round of the loop.
unfoldable pub add_text : Text → Totals → Totals
unfolding byte_count
add_text [] t = t
add_text (c ∷ cs) t = record {
  bytes = t.bytes + byte_count (c ∷ cs);
  lines = t.lines + (newlines (c ∷ cs) + 1);
  chars = t.chars + length (c ∷ cs);
}

unfoldable pub totals : List Text → Totals → Totals
unfolding add_text
totals [] t = t
totals (text ∷ texts) t = totals texts (add_text text t)

unfoldable pub metrics : List Text → Text
unfolding totals human_bytes
metrics texts =
    let t = totals texts (record { bytes = 0; lines = 0; chars = 0 }) in
    human_bytes t.bytes
    ++ (codes " · "
        ++ (decimal t.lines ++ (codes "L · ~" ++ (decimal ((t.chars + 3) / 4) ++ codes "tok"))))

abbrev is_padding : ℕ → Bool
is_padding c = c == b'=' || c == b'\n' || c == b'\r' || c == b' '

-- `raw`
unfoldable pub decoded_size : Text → ℕ
decoded_size content = length (rstrip_if is_padding content) * 3 / 4

unfoldable pub payload_metrics : Text → Encoding → Text
unfolding decoded_size human_bytes metrics
payload_metrics content base64 = human_bytes (decoded_size content) ++ codes " · binary/base64"
payload_metrics content utf8 = metrics (content ∷ [])

abbrev pub gutter : Text
gutter = codes "  | "

unfoldable pub block : Bool → Text → ℕ → Text
unfolding preview
block false text cap = codes "  | <payload logging disabled (SANDBOX_LOG_PAYLOADS)>"
block true text cap =
    or_else (join (codes "\n") (map (λ line. gutter ++ line) (splitlines (preview text cap))))
      gutter
