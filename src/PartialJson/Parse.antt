-- ===== src/PartialJson/Parse.antt =====
-- The parser of ai/internal/partialjson/partial.go, which reads JSON that may be cut off anywhere, and
-- `ParseStreaming` of repair.go. The state `p.pos` is the text behind it. The recursion runs on fuel.
pub mod Scalars
pub mod Total
pub mod Print
pub mod Written
pub mod Fill
pub mod RoundTrip
use kern_proxy.Base.{
  ℕ, zero, suc, ◌+◌, ◌*◌, Bool, true, false, ◌||◌, Option, none, some, List, [], ◌∷◌, ◌++◌, ◌==◌,
  if◌then◌else◌, length,
}
use kern_proxy.Base.Bytes.{Bytes, codes, between, eq_bytes}
use kern_proxy.PartialJson.Repair.{repair}
use kern_proxy.PartialJson.Text.{
  skip_ws, literal, span_number, parse_number_text, trim_number, Strung, string_from,
}

-- A number is the text of it.
mutual
  pub data Value : Type 0 where
    null : Value
    bool : Bool → Value
    number : Bytes → Value
    string : Bytes → Value
    array : Values → Value
    object : Fields → Value

  pub data Values : Type 0 where
    no_values : Values
    value : Value → Values → Values

  pub data Fields : Type 0 where
    no_fields : Fields
    field : Bytes → Value → Fields → Fields

-- `append(out, v)`
unfoldable pub append_value : Values → Value → Values
append_value Values.no_values v = Values.value v Values.no_values
append_value (Values.value w vs) v = Values.value w (append_value vs v)

-- A value with the text behind it, or an error: `errIncompleteScalar`, `errUnparsable`, no fuel.
pub data Parsed : Type 0 where
  got : Value → Bytes → Parsed
  incomplete : Parsed
  unparsable : Parsed
  no_fuel : Parsed

abbrev pub named : Value → Option Bytes → Parsed → Parsed
named v none other = other
named v (some rest) other = Parsed.got v rest

-- `parseLiteral`. The three literals differ in their first byte, so the order of the map is no matter.
unfoldable pub parse_literal : Bytes → Parsed
parse_literal s = named (Value.bool true) (literal (codes "true") s) (
    named (Value.bool false) (literal (codes "false") s)
      (named Value.null (literal (codes "null") s) Parsed.unparsable))

abbrev pub or_incomplete : Option Bytes → Parsed
or_incomplete none = Parsed.incomplete
or_incomplete (some v) = Parsed.got (Value.number v) []

abbrev pub trimmed : (Bytes → Bool) → Bytes → Bytes → Parsed
trimmed is_float text [] = or_incomplete (trim_number is_float [] text)
trimmed is_float text (c ∷ rest) = Parsed.unparsable

abbrev pub numbered : (Bytes → Bool) → Bytes → Bytes → Option Bytes → Parsed
numbered is_float text rest (some v) = Parsed.got (Value.number v) rest
numbered is_float text rest none = trimmed is_float text rest

-- `parseNumber`
unfoldable pub parse_number : (Bytes → Bool) → Bytes → Parsed
parse_number is_float s =
    let (text, rest) = span_number s in
    numbered is_float text rest (parse_number_text is_float text)

abbrev pub strung : Strung → Parsed
strung (Strung.closed t rest) = Parsed.got (Value.string t) rest
strung (Strung.cut t) = Parsed.got (Value.string t) []
strung Strung.bad = Parsed.unparsable

-- `parseString`, behind the quote.
unfoldable pub parse_string : Bytes → Parsed
parse_string s = strung (string_from 0 [] s)

-- `out[key] = v`
unfoldable pub put_field : Bytes → Value → Fields → Fields
put_field k v Fields.no_fields = Fields.field k v Fields.no_fields
put_field k v (Fields.field j w fields) =
    let rest = put_field k v fields in
    if eq_bytes j k then Fields.field k v fields else Fields.field j w rest

-- Behind an element: a comma, a bracket, or the end of the text.
abbrev pub after_element : Values → Bytes → (Bytes → Parsed) → Parsed
after_element out [] more = Parsed.got (Value.array out) []
after_element out (c ∷ s) more =
    if c == b','
    then more s
    else if c == b']'
    then Parsed.got (Value.array out) s
    else Parsed.unparsable

abbrev pub element : Values → Parsed → (Values → Bytes → Parsed) → Parsed
element out (Parsed.got v s) more =
    after_element (append_value out v) (skip_ws s) (more (append_value out v))
element out Parsed.incomplete more = Parsed.got (Value.array out) []
element out Parsed.unparsable more = Parsed.unparsable
element out Parsed.no_fuel more = Parsed.no_fuel

abbrev pub after_field : Fields → Bytes → (Bytes → Parsed) → Parsed
after_field out [] more = Parsed.got (Value.object out) []
after_field out (c ∷ s) more =
    if c == b','
    then more s
    else if c == b'}'
    then Parsed.got (Value.object out) s
    else Parsed.unparsable

abbrev pub object_field : Fields → Bytes → Parsed → (Fields → Bytes → Parsed) → Parsed
object_field out key (Parsed.got v s) more =
    after_field (put_field key v out) (skip_ws s) (more (put_field key v out))
object_field out key Parsed.incomplete more = Parsed.got (Value.object out) []
object_field out key Parsed.unparsable more = Parsed.unparsable
object_field out key Parsed.no_fuel more = Parsed.no_fuel

-- Behind the colon: a key with no value yet is dropped.
abbrev pub field_value :
    Fields → Bytes → Bytes → (Bytes → Parsed) → (Fields → Bytes → Parsed) → Parsed
field_value out key [] read more = Parsed.got (Value.object out) []
field_value out key (c ∷ s) read more = object_field out key (read (c ∷ s)) more

-- Behind a key.
abbrev pub after_key :
    Fields → Bytes → Bytes → (Bytes → Parsed) → (Fields → Bytes → Parsed) → Parsed
after_key out key [] read more = Parsed.got (Value.object out) []
after_key out key (c ∷ s) read more =
    if c == b':' then field_value out key (skip_ws s) read more else Parsed.unparsable

abbrev pub keyed : Fields → Strung → (Bytes → Parsed) → (Fields → Bytes → Parsed) → Parsed
keyed out (Strung.closed key s) read more = after_key out key (skip_ws s) read more
keyed out (Strung.cut _) read more = Parsed.got (Value.object out) []
keyed out Strung.bad read more = Parsed.unparsable

-- The switch of `parseValue`, on the text behind the blanks.
unfoldable pub value_at : (Bytes → Bool) → (Bytes → Parsed) → (Bytes → Parsed) → Bytes → Parsed
value_at is_float an_object an_array [] = Parsed.incomplete
value_at is_float an_object an_array (c ∷ s) =
    if c == b'{'
    then an_object s
    else if c == b'['
    then an_array s
    else if c == b'"'
    then parse_string s
    else if c == b't' || c == b'f' || c == b'n'
    then parse_literal (c ∷ s)
    else if c == b'-' || between b'0' b'9' c
    then parse_number is_float (c ∷ s)
    else Parsed.unparsable

-- A round of the loop of `parseArray`.
unfoldable pub array_at : Values → (Bytes → Parsed) → (Values → Bytes → Parsed) → Bytes → Parsed
array_at out read more [] = Parsed.got (Value.array out) []
array_at out read more (c ∷ s) =
    if c == b']' then Parsed.got (Value.array out) s else element out (read (c ∷ s)) more

-- A round of the loop of `parseObject`.
unfoldable pub object_at : Fields → (Bytes → Parsed) → (Fields → Bytes → Parsed) → Bytes → Parsed
object_at out read more [] = Parsed.got (Value.object out) []
object_at out read more (c ∷ s) =
    if c == b'}'
    then Parsed.got (Value.object out) s
    else if c == b'"'
    then keyed out (string_from 0 [] s) read more
    else Parsed.unparsable

-- `parseValue`, and the loops of `parseArray` and `parseObject`.
unfoldable mutual
  pub parse_value : (Bytes → Bool) → ℕ → Bytes → Parsed
  parse_value is_float zero s = Parsed.no_fuel
  parse_value is_float (suc fuel) s =
      value_at is_float (λ t. parse_object is_float fuel Fields.no_fields t)
        (λ t. parse_array is_float fuel Values.no_values t) (skip_ws s)

  pub parse_array : (Bytes → Bool) → ℕ → Values → Bytes → Parsed
  parse_array is_float zero out s = Parsed.no_fuel
  parse_array is_float (suc fuel) out s =
      array_at out (λ t. parse_value is_float fuel t) (λ more t. parse_array is_float fuel more t)
        (skip_ws s)

  pub parse_object : (Bytes → Bool) → ℕ → Fields → Bytes → Parsed
  parse_object is_float zero out s = Parsed.no_fuel
  parse_object is_float (suc fuel) out s =
      object_at out (λ t. parse_value is_float fuel t) (λ more t. parse_object is_float fuel more t)
        (skip_ws s)

-- `ParsePartial`, on the text behind the blanks: two units of fuel for each byte are enough.
abbrev pub at_text : (Bytes → Bool) → Bytes → Parsed
at_text is_float [] = Parsed.unparsable
at_text is_float (c ∷ t) = parse_value is_float (suc (2 * length (c ∷ t))) (c ∷ t)

unfoldable pub parse_partial : (Bytes → Bool) → Bytes → Parsed
parse_partial is_float s = at_text is_float (skip_ws s)

-- `ParseWithRepair`; `unmarshal` is `json.Unmarshal` into any value.
unfoldable pub parse_with_repair : (Bytes → Option Value) → Bytes → Option Value
parse_with_repair unmarshal s = elim (unmarshal s) [
  | some v ↦ some v
  | none ↦ if eq_bytes (repair s) s then none else unmarshal (repair s)
]

abbrev pub value_of : Parsed → Option Value
value_of (Parsed.got v rest) = some v
value_of _ = none

abbrev pub first_of : Option Value → Option Value → Option Value
first_of none later = later
first_of (some v) later = some v

abbrev pub empty_object : Value
empty_object = Value.object Fields.no_fields

-- `normalizeStreamingValue`, and the empty object where nothing could be read.
abbrev pub normalized : Option Value → Value
normalized none = empty_object
normalized (some Value.null) = empty_object
normalized (some v) = v

-- `ParseStreaming`
unfoldable pub parse_streaming :
    (Bytes → Option Value) → (Bytes → Bool) → (Bytes → Bool) → Bytes → Value
parse_streaming unmarshal is_float is_blank s =
    if is_blank s
    then empty_object
    else normalized (
        first_of (parse_with_repair unmarshal s) (
          first_of (value_of (parse_partial is_float s))
            (value_of (parse_partial is_float (repair s)))))

abbrev pub object_or_empty : Value → Fields
object_or_empty (Value.object fields) = fields
object_or_empty _ = Fields.no_fields

-- `ParseStreamingObject`
unfoldable pub parse_streaming_object :
    (Bytes → Option Value) → (Bytes → Bool) → (Bytes → Bool) → Bytes → Fields
parse_streaming_object unmarshal is_float is_blank s =
    object_or_empty (parse_streaming unmarshal is_float is_blank s)
