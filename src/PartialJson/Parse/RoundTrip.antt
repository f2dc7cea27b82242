-- ===== src/PartialJson/Parse/RoundTrip.antt =====
-- What is printed is parsed back.
use kern_proxy.Base.{
  ℕ, zero, suc, ◌+◌, ◌*◌, ◌≡◌, ◌<◌, refl, ap, ◌∙◌, Bool, true, false, [], ◌∷◌, length,
  length-append, arith,
}
use kern_proxy.Base.Bytes.{Bytes}
use kern_proxy.PartialJson.Text.{skip_ws}
use kern_proxy.PartialJson.Parse.{
  Value, Values, Fields, Parsed, parse_string, append_value, put_field, value_at, array_at,
  object_at, parse_value, parse_array, parse_object, parse_partial, at_text,
}
use kern_proxy.PartialJson.Parse.Print.{
  quoted, print, print_values, print_more, print_fields, print_more_fields, is_plain, IsPlain,
  ArePlain, FieldsPlain, ends_number,
}
use kern_proxy.PartialJson.Parse.Written.{
  string_from-plain, parse_number-all, value_at-number, length-print, array_at-print,
  field_value-print, parse_literal-null, parse_literal-true, parse_literal-false, closed_array,
  closed_object,
}
use kern_proxy.PartialJson.Parse.Fill.{append_all, put_all, append_all-empty, put_all-empty}

mutual
  unfolding parse_value parse_array parse_object print print_values print_more print_fields
      print_more_fields value_at array_at object_at skip_ws parse_string append_all put_all

  parse_value-print :
      (f : Bytes → Bool) (fuel : ℕ) (v : Value) (rest : Bytes)
      → IsPlain f v
      → ends_number rest ≡ true
      → 2 * length (print v rest) < fuel
      → parse_value f fuel (print v rest) ≡ Parsed.got v rest
  parse_value-print f zero v rest h k l = absurd (omega arith)
  parse_value-print f (suc fuel) Value.null rest h k l = parse_literal-null rest
  parse_value-print f (suc fuel) (Value.bool true) rest h k l = parse_literal-true rest
  parse_value-print f (suc fuel) (Value.bool false) rest h k l = parse_literal-false rest
  parse_value-print f (suc fuel) (Value.number t) rest h k l =
      value_at-number f _ _ t rest h.1 ∙ parse_number-all f t rest h k
  parse_value-print f (suc fuel) (Value.string t) rest h k l =
      rw (string_from-plain t [] rest h) refl
  parse_value-print f (suc fuel) (Value.array Values.no_values) rest h k l =
      closed_array f fuel rest (omega arith)
  parse_value-print f (suc fuel) (Value.array (Values.value v vs)) rest h k l =
      parse_elements-print f fuel Values.no_values v vs rest h.0 h.1 (omega arith)
      ∙ ap (λ a. Parsed.got (Value.array a) rest) (append_all-empty (Values.value v vs))
  parse_value-print f (suc fuel) (Value.object Fields.no_fields) rest h k l =
      closed_object f fuel rest (omega arith)
  parse_value-print f (suc fuel) (Value.object (Fields.field j v fs)) rest h k l =
      parse_fields-print f fuel Fields.no_fields j v fs rest h.0 h.2 h.3 (omega arith)
      ∙ ap (λ a. Parsed.got (Value.object a) rest) (put_all-empty f (Fields.field j v fs) h)

  parse_elements-print :
      (f : Bytes → Bool) (fuel : ℕ) (out : Values) (v : Value) (vs : Values) (rest : Bytes)
      → IsPlain f v
      → ArePlain f vs
      → 2 * length (print v (print_more vs rest)) + 1 < fuel
      → parse_array f fuel out (print v (print_more vs rest))
        ≡ Parsed.got (Value.array (append_all out (Values.value v vs))) rest
  parse_elements-print f zero out v vs rest h k l = absurd (omega arith)
  parse_elements-print f (suc fuel) out v Values.no_values rest h k l =
      array_at-print f out (λ t. parse_value f fuel t) (λ o t. parse_array f fuel o t) v
        (print_more Values.no_values rest) h
      ∙ rw (parse_value-print f fuel v (print_more Values.no_values rest) h refl (omega arith)) refl
  parse_elements-print f (suc fuel) out v (Values.value w vs) rest h k l =
      array_at-print f out (λ t. parse_value f fuel t) (λ o t. parse_array f fuel o t) v
        (print_more (Values.value w vs) rest) h
      ∙ rw (parse_value-print f fuel v (print_more (Values.value w vs) rest) h refl (omega arith)) (
          parse_elements-print f fuel (append_value out v) w vs rest k.0 k.1
            (omega (arith, length-print f v (print_more (Values.value w vs) rest) h)))

  parse_fields-print :
      (f : Bytes → Bool) (fuel : ℕ) (out : Fields) (j : Bytes) (v : Value) (fs : Fields)
      (rest : Bytes)
      → is_plain j ≡ true
      → IsPlain f v
      → FieldsPlain f fs
      → 2 * length (quoted j (b':' ∷ print v (print_more_fields fs rest))) + 1 < fuel
      → parse_object f fuel out (quoted j (b':' ∷ print v (print_more_fields fs rest)))
        ≡ Parsed.got (Value.object (put_all out (Fields.field j v fs))) rest
  parse_fields-print f zero out j v fs rest p h k l = absurd (omega arith)
  parse_fields-print f (suc fuel) out j v Fields.no_fields rest p h k l =
      let more = print_more_fields Fields.no_fields rest in
      let shorter = length-append j (b'"' ∷ b':' ∷ print v more) in
      rw (string_from-plain j [] (b':' ∷ print v more) p) (
        field_value-print f out j (λ t. parse_value f fuel t) (λ o t. parse_object f fuel o t) v
          more h
        ∙ rw (parse_value-print f fuel v more h refl (omega arith)) refl)
  parse_fields-print f (suc fuel) out j v (Fields.field i w fs) rest p h k l =
      let more = print_more_fields (Fields.field i w fs) rest in
      let shorter = length-append j (b'"' ∷ b':' ∷ print v more) in
      rw (string_from-plain j [] (b':' ∷ print v more) p) (
        field_value-print f out j (λ t. parse_value f fuel t) (λ o t. parse_object f fuel o t) v
          more h
        ∙ rw (parse_value-print f fuel v more h refl (omega arith)) (
            parse_fields-print f fuel (put_field j v out) i w fs rest k.0 k.2 k.3
              (omega (arith, length-print f v more h))))

at_text-print :
    (f : Bytes → Bool) (v : Value) (rest : Bytes)
    → IsPlain f v
    → at_text f (skip_ws (print v rest))
      ≡ parse_value f (suc (2 * length (print v rest))) (print v rest)
unfolding print skip_ws
at_text-print f Value.null rest h = refl
at_text-print f (Value.bool true) rest h = refl
at_text-print f (Value.bool false) rest h = refl
at_text-print f (Value.number []) rest h = ground arith
at_text-print f (Value.number (c ∷ t)) rest h = ground arith
at_text-print f (Value.string t) rest h = refl
at_text-print f (Value.array vs) rest h = refl
at_text-print f (Value.object fs) rest h = refl

-- JSON that was written without blanks is read back by `ParsePartial`, whatever stands behind it that
-- does not go on with a number at its end: if its strings need no escape, its numbers are ones that
-- `strconv.ParseFloat` takes, and no object has a key twice.
pub parse_partial-print :
    (f : Bytes → Bool) (v : Value) (rest : Bytes)
    → IsPlain f v
    → ends_number rest ≡ true
    → parse_partial f (print v rest) ≡ Parsed.got v rest
unfolding parse_partial
parse_partial-print f v rest h k =
    at_text-print f v rest h ∙ parse_value-print f _ v rest h k (omega arith)
