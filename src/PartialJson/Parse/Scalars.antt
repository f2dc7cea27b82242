-- ===== src/PartialJson/Parse/Scalars.antt =====
-- What the scalars of the parser leave of the text.
use kern_proxy.Base.{
  ℕ, zero, suc, ◌≡◌, ◌≤◌, refl, Bool, true, false, ◌||◌, Option, none, some, [], ◌∷◌, ◌==◌, length,
  arith, Bool-cases, Option-cases, inl, inr,
}
use kern_proxy.Base.Bytes.{Bytes, codes, between}
use kern_proxy.PartialJson.Text.{
  skip_ws, after_prefix, literal, span_number, trim_number, Strung, Escape, escape, string_from,
  after_escape,
}
use kern_proxy.PartialJson.Parse.{
  Value, Parsed, named, parse_literal, or_incomplete, trimmed, numbered, parse_number, strung,
  parse_string,
}

-- The fuel was enough, and no more than so many bytes are left.
abbrev pub Leaves : ℕ → Parsed → Type 0
Leaves n (Parsed.got v rest) = length rest ≤ n
Leaves n Parsed.incomplete = Unit
Leaves n Parsed.unparsable = Unit
Leaves n Parsed.no_fuel = ⊥

pub length-skip_ws : (s : Bytes) → length (skip_ws s) ≤ length s
unfolding skip_ws
length-skip_ws [] = omega arith
length-skip_ws (c ∷ s) = ground (arith, length-skip_ws s)

length-after_prefix : (p s rest : Bytes) → after_prefix p s ≡ some rest → length rest ≤ length s
unfolding after_prefix
length-after_prefix [] s rest h = ground arith
length-after_prefix (x ∷ p) [] rest h = ground arith
length-after_prefix (x ∷ p) (y ∷ s) rest h = ground (arith, length-after_prefix p s rest)

length-span_number : (s : Bytes) → length (span_number s).1 ≤ length s
unfolding span_number
length-span_number [] = omega arith
length-span_number (c ∷ s) = ground (arith, length-span_number s)

-- What a string leaves.
abbrev pub StringLeaves : ℕ → Strung → Type 0
StringLeaves n (Strung.closed t rest) = length rest ≤ n
StringLeaves n _ = Unit

weaken_string : (n m : ℕ) (r : Strung) → n ≤ m → StringLeaves n r → StringLeaves m r
weaken_string n m (Strung.closed t rest) h k = omega arith
weaken_string n m (Strung.cut t) h k = tt
weaken_string n m Strung.bad h k = tt

after_escape-Leaves :
    (e : Escape) (n : ℕ) (out : Bytes) (r : Strung)
    → StringLeaves n r
    → StringLeaves n (after_escape e out r)
after_escape-Leaves (Escape.wrote t k) n out r h = h
after_escape-Leaves Escape.ends n out r h = tt
after_escape-Leaves Escape.bad n out r h = tt

pub string_from-Leaves : (n : ℕ) (out s : Bytes) → StringLeaves (length s) (string_from n out s)
unfolding string_from
string_from-Leaves n out [] = tt
string_from-Leaves (suc n) out (c ∷ s) =
    weaken_string (length s) _ _ (omega arith) (string_from-Leaves n out s)
string_from-Leaves zero out (c ∷ s) = elim (Bool-cases (c == b'"')) [
  | inl e ↦ rw e (omega arith)
  | inr e ↦ elim (Bool-cases (c == b'\\')) [
    | inl f ↦
        rw (e, f)
          (after_escape-Leaves (escape s) _ out _
            (weaken_string (length s) _ _ (omega arith) (string_from-Leaves _ _ s)))
    | inr f ↦ rw (e, f) (weaken_string (length s) _ _ (omega arith) (string_from-Leaves zero _ s))
  ]
]

pub weaken : (n m : ℕ) (r : Parsed) → n ≤ m → Leaves n r → Leaves m r
weaken n m (Parsed.got v rest) h k = omega arith
weaken n m Parsed.incomplete h k = tt
weaken n m Parsed.unparsable h k = tt
weaken n m Parsed.no_fuel h k = k

named-Leaves :
    (n : ℕ) (v : Value) (o : Option Bytes) (other : Parsed)
    → ((rest : Bytes) → o ≡ some rest → length rest ≤ n)
    → Leaves n other
    → Leaves n (named v o other)
named-Leaves n v none other h k = k
named-Leaves n v (some rest) other h k = h rest refl

-- A literal that starts with `x` takes that byte at least.
literal-Leaves :
    (x : ℕ) (p : Bytes) (c : ℕ) (s rest : Bytes)
    → literal (x ∷ p) (c ∷ s) ≡ some rest
    → length rest ≤ length s
unfolding literal after_prefix
literal-Leaves x p c s rest h = elim (Option-cases (after_prefix p s)) [
  | inl e ↦ ground arith
  | inr (t, e) ↦ let l = length-after_prefix p s t e in ground arith
]

pub parse_literal-Leaves : (c : ℕ) (s : Bytes) → Leaves (length s) (parse_literal (c ∷ s))
unfolding parse_literal
parse_literal-Leaves c s =
    named-Leaves (length s) (Value.bool true) _ _ (literal-Leaves b't' (codes "rue") c s) (
      named-Leaves (length s) (Value.bool false) _ _ (literal-Leaves b'f' (codes "alse") c s)
        (named-Leaves (length s) Value.null _ _ (literal-Leaves b'n' (codes "ull") c s) tt))

or_incomplete-Leaves : (o : Option Bytes) (n : ℕ) → Leaves n (or_incomplete o)
or_incomplete-Leaves none n = tt
or_incomplete-Leaves (some v) n = omega arith

trimmed-Leaves :
    (f : Bytes → Bool) (text rest : Bytes) (n : ℕ)
    → length rest ≤ n
    → Leaves n (trimmed f text rest)
trimmed-Leaves f text [] n h = or_incomplete-Leaves (trim_number f [] text) n
trimmed-Leaves f text (c ∷ rest) n h = tt

numbered-Leaves :
    (f : Bytes → Bool) (text rest : Bytes) (o : Option Bytes) (n : ℕ)
    → length rest ≤ n
    → Leaves n (numbered f text rest o)
numbered-Leaves f text rest (some v) n h = h
numbered-Leaves f text rest none n h = trimmed-Leaves f text rest n h

-- A number is told by its first byte, which it takes.
length-number :
    (c : ℕ) (s : Bytes)
    → (c == b'-' || between b'0' b'9' c) ≡ true
    → length (span_number (c ∷ s)).1 ≤ length s
unfolding span_number
length-number c s h = ground (arith, length-span_number s)

pub parse_number-Leaves :
    (f : Bytes → Bool) (c : ℕ) (s : Bytes)
    → (c == b'-' || between b'0' b'9' c) ≡ true
    → Leaves (length s) (parse_number f (c ∷ s))
unfolding parse_number
parse_number-Leaves f c s h = numbered-Leaves f _ _ _ _ (length-number c s h)

strung-Leaves : (r : Strung) (n : ℕ) → StringLeaves n r → Leaves n (strung r)
strung-Leaves (Strung.closed t rest) n h = h
strung-Leaves (Strung.cut t) n h = omega arith
strung-Leaves Strung.bad n h = tt

pub parse_string-Leaves : (s : Bytes) → Leaves (length s) (parse_string s)
unfolding parse_string
parse_string-Leaves s = strung-Leaves (string_from 0 [] s) (length s) (string_from-Leaves 0 [] s)
