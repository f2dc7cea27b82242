-- ===== src/PartialJson/Repair.antt =====
-- `Repair` of ai/internal/partialjson/repair.go. The loop's index is the bytes that are left; the
-- bytes that a step writes as part of an escape and skips (`index += 5`, `index++`) are counted in
-- `ahead` and copied when they are reached.
pub mod Clean
use kern_proxy.Base.{
  ℕ, zero, suc, Bool, true, false, ◌&&◌, ◌||◌, List, [], ◌∷◌, ◌++◌, ◌==◌, leb, if◌then◌else◌, ◌/◌,
  ◌%◌, ltb, ◌+◌, ◌-◌,
}
use kern_proxy.Base.Bytes.{Bytes, between}

-- `validJSONEscapes`
unfoldable pub is_valid_escape : ℕ → Bool
is_valid_escape c =
    c == b'"'
    || c == b'\\'
    || c == b'/'
    || c == b'b'
    || c == b'f'
    || c == b'n'
    || c == b'r'
    || c == b't'
    || c == b'u'

unfoldable pub is_hex_digit : ℕ → Bool
is_hex_digit c = between b'0' b'9' c || between b'a' b'f' c || between b'A' b'F' c

-- A digit as `%x` prints it.
hex_digit : ℕ → ℕ
hex_digit d = if ltb d 10 then b'0' + d else b'a' + d - 10

unfoldable pub escape_control_character : ℕ → Bytes
unfolding hex_digit
escape_control_character c =
    if c == 8
    then b'\\' ∷ b'b' ∷ []
    else if c == 12
    then b'\\' ∷ b'f' ∷ []
    else if c == 10
    then b'\\' ∷ b'n' ∷ []
    else if c == 13
    then b'\\' ∷ b'r' ∷ []
    else if c == 9
    then b'\\' ∷ b't' ∷ []
    else b'\\' ∷ b'u' ∷ b'0' ∷ b'0' ∷ hex_digit (c / 16) ∷ hex_digit (c % 16) ∷ []

-- The four bytes behind `\u` are there and are digits.
unfoldable pub four_hex : Bytes → Bool
four_hex (a ∷ b ∷ c ∷ d ∷ _) = is_hex_digit a && is_hex_digit b && is_hex_digit c && is_hex_digit d
four_hex _ = false

-- What one turn of the loop writes, the new `inString`, and how many bytes behind this one it
-- has written too.
pub record Written : Type 0 where
  pub out : Bytes
  pub in_string : Bool
  pub ahead : ℕ

-- The branch `c == '\\'`, on what stands behind the backslash.
unfoldable pub repair_escape : Bytes → Written
unfolding four_hex is_hex_digit is_valid_escape
repair_escape [] = record { out = b'\\' ∷ b'\\' ∷ []; in_string = true; ahead = 0 }
repair_escape (next ∷ more) =
    if next == b'u' && four_hex more
    then record { out = b'\\' ∷ []; in_string = true; ahead = 5 }
    else if is_valid_escape next
    then record { out = b'\\' ∷ []; in_string = true; ahead = 1 }
    else record { out = b'\\' ∷ b'\\' ∷ []; in_string = true; ahead = 0 }

unfoldable pub repair_byte : Bool → ℕ → Bytes → Written
unfolding repair_escape escape_control_character
repair_byte false c rest = record { out = c ∷ []; in_string = c == b'"'; ahead = 0 }
repair_byte true c rest =
    if c == b'"'
    then record { out = c ∷ []; in_string = false; ahead = 0 }
    else if c == b'\\'
    then repair_escape rest
    else if leb c 0x1f
    then record { out = escape_control_character c; in_string = true; ahead = 0 }
    else record { out = c ∷ []; in_string = true; ahead = 0 }

unfoldable pub repair_from : Bool → ℕ → Bytes → Bytes
unfolding repair_byte
repair_from in_string ahead [] = []
repair_from in_string (suc k) (c ∷ rest) = c ∷ repair_from in_string k rest
repair_from in_string zero (c ∷ rest) =
    let w = repair_byte in_string c rest in w.out ++ repair_from w.in_string w.ahead rest

unfoldable pub repair : Bytes → Bytes
unfolding repair_from
repair s = repair_from false 0 s
