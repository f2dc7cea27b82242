-- ===== src/PartialJson/Text.antt =====
-- The scalars of ai/internal/partialjson/partial.go. The state `p.pos` is the text behind it.
use kern_proxy.Base.{
  ℕ, zero, suc, ◌+◌, ◌-◌, ◌*◌, ◌/◌, ◌%◌, Bool, true, false, ◌&&◌, ◌||◌, Option, none, some, [], ◌∷◌,
  ◌++◌, ◌==◌, ltb, if◌then◌else◌,
}
use kern_proxy.Base.Bytes.{Bytes, between}

-- `skipWS`
unfoldable pub skip_ws : Bytes → Bytes
skip_ws [] = []
skip_ws (c ∷ s) =
    let rest = skip_ws s in
    if c == b' ' || c == b'\t' || c == b'\n' || c == b'\r' then rest else c ∷ s

-- `strings.HasPrefix(s, p)`, with what is behind the prefix.
unfoldable pub after_prefix : Bytes → Bytes → Option Bytes
after_prefix [] s = some s
after_prefix (x ∷ p) [] = none
after_prefix (x ∷ p) (y ∷ s) = let rest = after_prefix p s in if x == y then rest else none

abbrev pub is_prefix : Bytes → Bytes → Bool
is_prefix p s = elim (after_prefix p s) [ none ↦ false | some _ ↦ true ]

-- A round of `parseLiteral`: what is behind the literal, if the text starts with it or is cut off in it.
unfoldable pub literal : Bytes → Bytes → Option Bytes
literal lit s = elim (after_prefix lit s) [
  | some rest ↦ some rest
  | none ↦ if is_prefix s lit then some [] else none
]

abbrev pub is_number_char : ℕ → Bool
is_number_char c =
    between b'0' b'9' c || c == b'-' || c == b'+' || c == b'.' || c == b'e' || c == b'E'

-- The text of the number, and what is behind it.
unfoldable pub span_number : Bytes → Bytes × Bytes
span_number [] = ([], [])
span_number (c ∷ s) =
    let (text, rest) = span_number s in if is_number_char c then (c ∷ text, rest) else ([], c ∷ s)

-- `parseNumberText`; `is_float` tells whether `strconv.ParseFloat` takes a text. Its value is left as text.
unfoldable pub parse_number_text : (Bytes → Bool) → Bytes → Option Bytes
parse_number_text is_float [] = none
parse_number_text is_float (c ∷ s) = if is_float (c ∷ s) then some (c ∷ s) else none

-- The loop that trims the text from its end: the longest part of it, from `before` on, that is a number.
unfoldable pub trim_number : (Bytes → Bool) → Bytes → Bytes → Option Bytes
trim_number is_float before [] = parse_number_text is_float before
trim_number is_float before (c ∷ s) =
    let longer = trim_number is_float (before ++ c ∷ []) s in
    elim longer [ some v ↦ some v | none ↦ parse_number_text is_float before ]

unfoldable pub hex_value : ℕ → Option ℕ
hex_value c =
    if between b'0' b'9' c
    then some (c - b'0')
    else if between b'a' b'f' c
    then some (c - b'a' + 10)
    else if between b'A' b'F' c
    then some (c - b'A' + 10)
    else none

abbrev hex_digits : Option ℕ → Option ℕ → Option ℕ
hex_digits (some n) (some d) = some (n * 16 + d)
hex_digits _ _ = none

-- `strconv.ParseUint(…, 16, 32)` on four bytes.
unfoldable pub parse_hex : ℕ → ℕ → ℕ → ℕ → Option ℕ
parse_hex a b c d =
    hex_digits (hex_digits (hex_digits (hex_value a) (hex_value b)) (hex_value c)) (hex_value d)

-- `b.WriteRune`: UTF-8, with U+FFFD for a lone surrogate.
unfoldable pub write_rune : ℕ → Bytes
write_rune r =
    if ltb r 0x80
    then r ∷ []
    else if ltb r 0x800
    then (0xc0 + r / 64) ∷ (0x80 + r % 64) ∷ []
    else if between 0xd800 0xdfff r
    then 0xef ∷ 0xbf ∷ 0xbd ∷ []
    else if ltb r 0x10000
    then (0xe0 + r / 4096) ∷ (0x80 + r / 64 % 64) ∷ (0x80 + r % 64) ∷ []
    else (0xf0 + r / 262144) ∷ (0x80 + r / 4096 % 64) ∷ (0x80 + r / 64 % 64) ∷ (0x80 + r % 64) ∷ []

-- `utf16.DecodeRune`, less its result for a bad pair.
unfoldable pub decode_rune : ℕ → ℕ → Option ℕ
decode_rune r s =
    if between 0xd800 0xdbff r && between 0xdc00 0xdfff s
    then some (0x10000 + (r - 0xd800) * 1024 + (s - 0xdc00))
    else none

-- What a backslash leads to: bytes for the string and the number of bytes behind the backslash that they
-- stand for; the end of the text; or an error.
pub data Escape : Type 0 where
  wrote : Bytes → ℕ → Escape
  ends : Escape
  bad : Escape

-- The second half of a pair, if it is one.
unfoldable pub low_surrogate : Bytes → Option ℕ
low_surrogate (x ∷ y ∷ a ∷ b ∷ c ∷ d ∷ _) =
    if x == b'\\' && y == b'u' then parse_hex a b c d else none
low_surrogate _ = none

abbrev pub combine : ℕ → Option ℕ → Escape
combine r none = Escape.wrote (write_rune r) 5
combine r (some s) = elim (decode_rune r s) [
  | some both ↦ Escape.wrote (write_rune both) 11
  | none ↦ Escape.wrote (write_rune r) 5
]

abbrev pub pair : ℕ → Bytes → Escape
pair r rest =
    if between 0xd800 0xdfff r
    then combine r (low_surrogate rest)
    else Escape.wrote (write_rune r) 5

-- The escape `\u`.
unfoldable pub unicode_escape : Bytes → Escape
unicode_escape (a ∷ b ∷ c ∷ d ∷ rest) = elim (parse_hex a b c d) [
  | none ↦ Escape.bad
  | some r ↦ pair r rest
]
unicode_escape _ = Escape.ends

unfoldable pub escape : Bytes → Escape
escape [] = Escape.ends
escape (e ∷ rest) =
    if e == b'"' || e == b'\\' || e == b'/'
    then Escape.wrote (e ∷ []) 1
    else if e == b'b'
    then Escape.wrote (8 ∷ []) 1
    else if e == b'f'
    then Escape.wrote (12 ∷ []) 1
    else if e == b'n'
    then Escape.wrote (b'\n' ∷ []) 1
    else if e == b'r'
    then Escape.wrote (b'\r' ∷ []) 1
    else if e == b't'
    then Escape.wrote (b'\t' ∷ []) 1
    else if e == b'u'
    then unicode_escape rest
    else Escape.bad

-- A string that is closed, with the text behind it; one that the end of the text cut off; an error.
pub data Strung : Type 0 where
  closed : Bytes → Bytes → Strung
  cut : Bytes → Strung
  bad : Strung

abbrev pub written : Escape → Bytes
written (Escape.wrote t n) = t
written _ = []

abbrev pub skipped : Escape → ℕ
skipped (Escape.wrote t n) = n
skipped _ = 0

abbrev pub after_escape : Escape → Bytes → Strung → Strung
after_escape (Escape.wrote t n) out rest = rest
after_escape Escape.ends out rest = Strung.cut out
after_escape Escape.bad out rest = Strung.bad

-- The loop of `parseString`, behind the opening quote: `ahead` bytes belong to an escape already read.
unfoldable pub string_from : ℕ → Bytes → Bytes → Strung
string_from ahead out [] = Strung.cut out
string_from (suc n) out (c ∷ s) = string_from n out s
string_from zero out (c ∷ s) =
    let unescaped = string_from zero (out ++ c ∷ []) s in
    let escaped = string_from (skipped (escape s)) (out ++ written (escape s)) s in
    if c == b'"'
    then Strung.closed out s
    else if c == b'\\'
    then after_escape (escape s) out escaped
    else unescaped
