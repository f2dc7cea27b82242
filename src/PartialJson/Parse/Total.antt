-- ===== src/PartialJson/Parse/Total.antt =====
-- The fuel of the parser is enough for every text.
use kern_proxy.Base.{
  ℕ, zero, suc, ◌+◌, ◌*◌, ◌≤◌, ◌<◌, Bool, ◌||◌, [], ◌∷◌, ◌==◌, length, arith, Bool-cases, inl, inr,
}
use kern_proxy.Base.Bytes.{Bytes, between}
use kern_proxy.PartialJson.Text.{skip_ws, Strung, string_from}
use kern_proxy.PartialJson.Parse.{
  Values, Fields, Parsed, append_value, put_field, after_element, element, after_field,
  object_field, field_value, after_key, keyed, value_at, array_at, object_at, parse_value,
  parse_array, parse_object, parse_partial, at_text,
}
use kern_proxy.PartialJson.Parse.Scalars.{
  Leaves, StringLeaves, length-skip_ws, string_from-Leaves, weaken, parse_literal-Leaves,
  parse_number-Leaves, parse_string-Leaves,
}

-- The bytes behind the first.
abbrev pub behind : Bytes → ℕ
behind [] = 0
behind (c ∷ s) = length s

behind_mono : (s t : Bytes) → length s ≤ length t → behind s ≤ behind t
behind_mono [] t h = omega arith
behind_mono (c ∷ s) [] h = absurd (omega arith)
behind_mono (c ∷ s) (d ∷ t) h = omega arith

-- A reader that has fuel for every text shorter than `n`.
abbrev pub Reads : ℕ → (Bytes → Parsed) → Type 0
Reads n f = (t : Bytes) → length t < n → Leaves (length t) (f t)

value_at-Leaves :
    (f : Bytes → Bool) (o a : Bytes → Parsed) (s : Bytes)
    → Reads (length s) o
    → Reads (length s) a
    → Leaves (behind s) (value_at f o a s)
unfolding value_at
value_at-Leaves f o a [] h k = tt
value_at-Leaves f o a (c ∷ s) h k = elim (Bool-cases (c == b'{')) [
  | inl e ↦ rw e (h s (omega arith))
  | inr e ↦ elim (Bool-cases (c == b'[')) [
    | inl e2 ↦ rw (e, e2) (k s (omega arith))
    | inr e2 ↦ elim (Bool-cases (c == b'"')) [
      | inl e3 ↦ rw (e, e2, e3) (parse_string-Leaves s)
      | inr e3 ↦ elim (Bool-cases (c == b't' || c == b'f' || c == b'n')) [
        | inl e4 ↦ rw (e, e2, e3, e4) (parse_literal-Leaves c s)
        | inr e4 ↦ elim (Bool-cases (c == b'-' || between b'0' b'9' c)) [
          | inl e5 ↦ rw (e, e2, e3, e4, e5) (parse_number-Leaves f c s e5)
          | inr e5 ↦ rw (e, e2, e3, e4, e5) tt
        ]
      ]
    ]
  ]
]

after_element-Leaves :
    (out : Values) (s : Bytes) (more : Bytes → Parsed) (n : ℕ)
    → length s ≤ n
    → Reads n more
    → Leaves n (after_element out s more)
after_element-Leaves out [] more n h k = omega arith
after_element-Leaves out (c ∷ s) more n h k = elim (Bool-cases (c == b',')) [
  | inl e ↦ rw e (weaken (length s) n _ (omega arith) (k s (omega arith)))
  | inr e ↦ elim (Bool-cases (c == b']')) [
    | inl e2 ↦ rw (e, e2) (omega arith)
    | inr e2 ↦ rw (e, e2) tt
  ]
]

element-Leaves :
    (out : Values) (r : Parsed) (more : Values → Bytes → Parsed) (n : ℕ)
    → Leaves n r
    → ((o : Values) → Reads n (more o))
    → Leaves n (element out r more)
element-Leaves out (Parsed.got v s) more n h k =
    after_element-Leaves (append_value out v) (skip_ws s) _ n (omega (arith, length-skip_ws s))
      (k _)
element-Leaves out Parsed.incomplete more n h k = omega arith
element-Leaves out Parsed.unparsable more n h k = tt
element-Leaves out Parsed.no_fuel more n h k = h

array_at-Leaves :
    (out : Values) (read : Bytes → Parsed) (more : Values → Bytes → Parsed) (s : Bytes)
    → Leaves (behind s) (read s)
    → ((o : Values) → Reads (length s) (more o))
    → Leaves (length s) (array_at out read more s)
unfolding array_at
array_at-Leaves out read more [] h k = omega arith
array_at-Leaves out read more (c ∷ s) h k = elim (Bool-cases (c == b']')) [
  | inl e ↦ rw e (omega arith)
  | inr e ↦ rw e (
      weaken (length s) _ _ (omega arith)
        (element-Leaves out (read (c ∷ s)) more (length s) h (λ o t l. k o t (omega arith))))
]

after_field-Leaves :
    (out : Fields) (s : Bytes) (more : Bytes → Parsed) (n : ℕ)
    → length s ≤ n
    → Reads n more
    → Leaves n (after_field out s more)
after_field-Leaves out [] more n h k = omega arith
after_field-Leaves out (c ∷ s) more n h k = elim (Bool-cases (c == b',')) [
  | inl e ↦ rw e (weaken (length s) n _ (omega arith) (k s (omega arith)))
  | inr e ↦ elim (Bool-cases (c == b'}')) [
    | inl e2 ↦ rw (e, e2) (omega arith)
    | inr e2 ↦ rw (e, e2) tt
  ]
]

object_field-Leaves :
    (out : Fields) (key : Bytes) (r : Parsed) (more : Fields → Bytes → Parsed) (n : ℕ)
    → Leaves n r
    → ((o : Fields) → Reads n (more o))
    → Leaves n (object_field out key r more)
object_field-Leaves out key (Parsed.got v s) more n h k =
    after_field-Leaves (put_field key v out) (skip_ws s) _ n (omega (arith, length-skip_ws s)) (k _)
object_field-Leaves out key Parsed.incomplete more n h k = omega arith
object_field-Leaves out key Parsed.unparsable more n h k = tt
object_field-Leaves out key Parsed.no_fuel more n h k = h

-- A reader of values on texts of at most `n` bytes.
abbrev pub ReadsValues : ℕ → (Bytes → Parsed) → Type 0
ReadsValues n f = (t : Bytes) → length t ≤ n → Leaves (behind t) (f t)

field_value-Leaves :
    (out : Fields) (key s : Bytes) (read : Bytes → Parsed) (more : Fields → Bytes → Parsed) (n : ℕ)
    → length s ≤ n
    → ReadsValues n read
    → ((o : Fields) → Reads n (more o))
    → Leaves n (field_value out key s read more)
field_value-Leaves out key [] read more n l h k = omega arith
field_value-Leaves out key (c ∷ s) read more n l h k =
    object_field-Leaves out key (read (c ∷ s)) more n
      (weaken (length s) n _ (omega arith) (h (c ∷ s) l)) k

after_key-Leaves :
    (out : Fields) (key s : Bytes) (read : Bytes → Parsed) (more : Fields → Bytes → Parsed) (n : ℕ)
    → length s ≤ n
    → ReadsValues n read
    → ((o : Fields) → Reads n (more o))
    → Leaves n (after_key out key s read more)
after_key-Leaves out key [] read more n l h k = omega arith
after_key-Leaves out key (c ∷ s) read more n l h k = elim (Bool-cases (c == b':')) [
  | inl e ↦
      rw e
        (field_value-Leaves out key (skip_ws s) read more n (omega (arith, length-skip_ws s)) h k)
  | inr e ↦ rw e tt
]

keyed-Leaves :
    (out : Fields) (r : Strung) (read : Bytes → Parsed) (more : Fields → Bytes → Parsed) (n : ℕ)
    → StringLeaves n r
    → ReadsValues n read
    → ((o : Fields) → Reads n (more o))
    → Leaves n (keyed out r read more)
keyed-Leaves out (Strung.closed key s) read more n l h k =
    after_key-Leaves out key (skip_ws s) read more n (omega (arith, length-skip_ws s)) h k
keyed-Leaves out (Strung.cut t) read more n l h k = omega arith
keyed-Leaves out Strung.bad read more n l h k = tt

object_at-Leaves :
    (out : Fields) (read : Bytes → Parsed) (more : Fields → Bytes → Parsed) (s : Bytes)
    → ReadsValues (length s) read
    → ((o : Fields) → Reads (length s) (more o))
    → Leaves (length s) (object_at out read more s)
unfolding object_at
object_at-Leaves out read more [] h k = omega arith
object_at-Leaves out read more (c ∷ s) h k = elim (Bool-cases (c == b'}')) [
  | inl e ↦ rw e (omega arith)
  | inr e ↦ elim (Bool-cases (c == b'"')) [
    | inl e2 ↦
        rw (e, e2)
          (weaken (length s) _ _ (omega arith) (
            keyed-Leaves out (string_from 0 [] s) read more (length s) (string_from-Leaves 0 [] s)
              (λ t l. h t (omega arith)) (λ o t l. k o t (omega arith))))
    | inr e2 ↦ rw (e, e2) tt
  ]
]

mutual
  unfolding parse_value parse_array parse_object

  parse_value-Leaves :
      (f : Bytes → Bool) (fuel : ℕ) (s : Bytes)
      → 2 * length s < fuel
      → Leaves (behind s) (parse_value f fuel s)
  parse_value-Leaves f zero s h = absurd (omega arith)
  parse_value-Leaves f (suc fuel) s h =
      let short = length-skip_ws s in
      weaken (behind (skip_ws s)) (behind s) _ (behind_mono (skip_ws s) s short) (
        value_at-Leaves f _ _ (skip_ws s)
          (λ t l. parse_object-Leaves f fuel Fields.no_fields t (omega arith))
          (λ t l. parse_array-Leaves f fuel Values.no_values t (omega arith)))

  parse_array-Leaves :
      (f : Bytes → Bool) (fuel : ℕ) (out : Values) (s : Bytes)
      → 2 * length s + 1 < fuel
      → Leaves (length s) (parse_array f fuel out s)
  parse_array-Leaves f zero out s h = absurd (omega arith)
  parse_array-Leaves f (suc fuel) out s h =
      let short = length-skip_ws s in
      weaken (length (skip_ws s)) (length s) _ short (
        array_at-Leaves out _ _ (skip_ws s) (parse_value-Leaves f fuel (skip_ws s) (omega arith))
          (λ o t l. parse_array-Leaves f fuel o t (omega arith)))

  parse_object-Leaves :
      (f : Bytes → Bool) (fuel : ℕ) (out : Fields) (s : Bytes)
      → 2 * length s + 1 < fuel
      → Leaves (length s) (parse_object f fuel out s)
  parse_object-Leaves f zero out s h = absurd (omega arith)
  parse_object-Leaves f (suc fuel) out s h =
      let short = length-skip_ws s in
      weaken (length (skip_ws s)) (length s) _ short (
        object_at-Leaves out _ _ (skip_ws s) (λ t l. parse_value-Leaves f fuel t (omega arith))
          (λ o t l. parse_object-Leaves f fuel o t (omega arith)))

at_text-Leaves : (f : Bytes → Bool) (t : Bytes) (n : ℕ) → length t ≤ n → Leaves n (at_text f t)
at_text-Leaves f [] n h = tt
at_text-Leaves f (c ∷ t) n h =
    weaken (length t) n _ (omega arith) (parse_value-Leaves f _ (c ∷ t) (omega arith))

-- Two units of fuel for each byte, and one, are enough: `ParsePartial` ends on every text, with a value
-- or an error, and leaves no more of the text than there was.
pub parse_partial-Leaves : (f : Bytes → Bool) (s : Bytes) → Leaves (length s) (parse_partial f s)
unfolding parse_partial
parse_partial-Leaves f s = at_text-Leaves f (skip_ws s) (length s) (length-skip_ws s)
