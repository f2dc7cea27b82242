-- ===== src/PartialJson/Parse/Written.antt =====
-- How the parser meets a text that was printed.
use kern_proxy.Base.{
  ℕ, zero, suc, ◌≡◌, ◌<◌, refl, ◌∙◌, Bool, true, false, [], ◌∷◌, ◌++◌, ◌==◌, append-nil,
  append_assoc, length, length-append, arith,
}
use kern_proxy.Base.Bytes.{Bytes, codes}
use kern_proxy.PartialJson.Text.{
  skip_ws, after_prefix, literal, is_number_char, span_number, parse_number_text, Strung,
  string_from,
}
use kern_proxy.PartialJson.Parse.{
  Value, Values, Fields, Parsed, parse_literal, parse_number, element, object_field, field_value,
  value_at, array_at, object_at, parse_array, parse_object,
}
use kern_proxy.PartialJson.Parse.Print.{
  quoted, print, print_values, print_more, print_fields, print_more_fields, is_plain,
  all_number_chars, starts_number, IsNumber, IsPlain, ArePlain, FieldsPlain, ends_number,
}

pub string_from-plain :
    (t out rest : Bytes)
    → is_plain t ≡ true
    → string_from 0 out (t ++ b'"' ∷ rest) ≡ Strung.closed (out ++ t) rest
unfolding string_from
string_from-plain [] out rest h = rw append-nil refl
string_from-plain (c ∷ t) out rest h =
    let q : (c == b'"') ≡ false = ground arith in
    let b : (c == b'\\') ≡ false = ground arith in
    rw (q, b) (string_from-plain t (out ++ c ∷ []) rest (ground arith) ∙ rw append_assoc refl)

span_number-all :
    (t rest : Bytes)
    → all_number_chars t ≡ true
    → ends_number rest ≡ true
    → span_number (t ++ rest) ≡ (t, rest)
unfolding span_number
span_number-all [] [] h k = refl
span_number-all [] (c ∷ rest) h k = let n : is_number_char c ≡ false = ground arith in rw n refl
span_number-all (c ∷ t) rest h k =
    let n : is_number_char c ≡ true = ground arith in
    rw (n, span_number-all t rest (ground arith) k) refl

pub parse_number-all :
    (f : Bytes → Bool) (t rest : Bytes)
    → IsNumber f t
    → ends_number rest ≡ true
    → parse_number f (t ++ rest) ≡ Parsed.got (Value.number t) rest
unfolding parse_number parse_number_text
parse_number-all f [] rest h k = ground arith
parse_number-all f (c ∷ t) rest h k = rw (span_number-all (c ∷ t) rest h.2 k, h.0) refl

-- A number is none of the other things that `parseValue` looks for.
pub value_at-number :
    (f : Bytes → Bool) (o a : Bytes → Parsed) (t rest : Bytes)
    → starts_number t ≡ true
    → value_at f o a (skip_ws (t ++ rest)) ≡ parse_number f (t ++ rest)
unfolding value_at skip_ws
value_at-number f o a [] rest h = ground arith
value_at-number f o a (c ∷ t) rest h = ground arith

length-quoted : (t rest : Bytes) → length rest < length (quoted t rest)
length-quoted t rest = omega (arith, length-append t (b'"' ∷ rest))

mutual
  unfolding print print_values print_more print_fields print_more_fields

  pub length-print :
      (f : Bytes → Bool) (v : Value) (rest : Bytes)
      → IsPlain f v
      → length rest < length (print v rest)
  length-print f Value.null rest h = omega arith
  length-print f (Value.bool true) rest h = omega arith
  length-print f (Value.bool false) rest h = omega arith
  length-print f (Value.number []) rest h = ground arith
  length-print f (Value.number (c ∷ t)) rest h = omega (arith, length-append t rest)
  length-print f (Value.string t) rest h = length-quoted t rest
  length-print f (Value.array Values.no_values) rest h = omega arith
  length-print f (Value.array (Values.value v vs)) rest h =
      omega (arith, length-print f v (print_more vs rest) h.0, length-more f vs rest h.1)
  length-print f (Value.object Fields.no_fields) rest h = omega arith
  length-print f (Value.object (Fields.field k v fs)) rest h = omega (
    arith,
    length-quoted k (b':' ∷ print v (print_more_fields fs rest)),
    length-print f v (print_more_fields fs rest) h.2,
    length-more_fields f fs rest h.3,
  )

  length-more :
      (f : Bytes → Bool) (vs : Values) (rest : Bytes)
      → ArePlain f vs
      → length rest < length (print_more vs rest)
  length-more f Values.no_values rest h = omega arith
  length-more f (Values.value v vs) rest h =
      omega (arith, length-print f v (print_more vs rest) h.0, length-more f vs rest h.1)

  length-more_fields :
      (f : Bytes → Bool) (fs : Fields) (rest : Bytes)
      → FieldsPlain f fs
      → length rest < length (print_more_fields fs rest)
  length-more_fields f Fields.no_fields rest h = omega arith
  length-more_fields f (Fields.field k v fs) rest h = omega (
    arith,
    length-quoted k (b':' ∷ print v (print_more_fields fs rest)),
    length-print f v (print_more_fields fs rest) h.2,
    length-more_fields f fs rest h.3,
  )

-- Where a value starts, no array ends.
pub array_at-print :
    (f : Bytes → Bool) (out : Values) (read : Bytes → Parsed) (more : Values → Bytes → Parsed)
    (v : Value) (rest : Bytes)
    → IsPlain f v
    → array_at out read more (skip_ws (print v rest)) ≡ element out (read (print v rest)) more
unfolding array_at print skip_ws
array_at-print f out read more Value.null rest h = refl
array_at-print f out read more (Value.bool true) rest h = refl
array_at-print f out read more (Value.bool false) rest h = refl
array_at-print f out read more (Value.number []) rest h = ground arith
array_at-print f out read more (Value.number (c ∷ t)) rest h = ground arith
array_at-print f out read more (Value.string t) rest h = refl
array_at-print f out read more (Value.array vs) rest h = refl
array_at-print f out read more (Value.object fs) rest h = refl

pub field_value-print :
    (f : Bytes → Bool) (out : Fields) (k : Bytes) (read : Bytes → Parsed)
    (more : Fields → Bytes → Parsed) (v : Value) (rest : Bytes)
    → IsPlain f v
    → field_value out k (skip_ws (print v rest)) read more
      ≡ object_field out k (read (print v rest)) more
unfolding print skip_ws
field_value-print f out k read more Value.null rest h = refl
field_value-print f out k read more (Value.bool true) rest h = refl
field_value-print f out k read more (Value.bool false) rest h = refl
field_value-print f out k read more (Value.number []) rest h = ground arith
field_value-print f out k read more (Value.number (c ∷ t)) rest h = ground arith
field_value-print f out k read more (Value.string t) rest h = refl
field_value-print f out k read more (Value.array vs) rest h = refl
field_value-print f out k read more (Value.object fs) rest h = refl

pub parse_literal-null :
    (rest : Bytes) → parse_literal (codes "null" ++ rest) ≡ Parsed.got Value.null rest
unfolding parse_literal literal after_prefix
parse_literal-null rest = refl

pub parse_literal-true :
    (rest : Bytes) → parse_literal (codes "true" ++ rest) ≡ Parsed.got (Value.bool true) rest
unfolding parse_literal literal after_prefix
parse_literal-true rest = refl

pub parse_literal-false :
    (rest : Bytes) → parse_literal (codes "false" ++ rest) ≡ Parsed.got (Value.bool false) rest
unfolding parse_literal literal after_prefix
parse_literal-false rest = refl

pub closed_array :
    (f : Bytes → Bool) (fuel : ℕ) (rest : Bytes)
    → 0 < fuel
    → parse_array f fuel Values.no_values (b']' ∷ rest)
      ≡ Parsed.got (Value.array Values.no_values) rest
unfolding parse_array array_at skip_ws
closed_array f zero rest h = absurd (omega arith)
closed_array f (suc fuel) rest h = refl

pub closed_object :
    (f : Bytes → Bool) (fuel : ℕ) (rest : Bytes)
    → 0 < fuel
    → parse_object f fuel Fields.no_fields (b'}' ∷ rest)
      ≡ Parsed.got (Value.object Fields.no_fields) rest
unfolding parse_object object_at skip_ws
closed_object f zero rest h = absurd (omega arith)
closed_object f (suc fuel) rest h = refl
