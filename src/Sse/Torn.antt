-- ===== src/Sse/Torn.antt =====
-- Bytes without a blank line bring no event.
use kern_proxy.Base.{
  ℕ, ◌≡◌, refl, Bool, true, false, not, ◌&&◌, ◌||◌, Option, none, some, List, [], ◌∷◌, ◌++◌, ◌==◌,
  if◌then◌else◌, arith, Bool-cases, inl, inr,
}
use kern_proxy.Base.Bytes.{Bytes}
use kern_proxy.Sse.{Event, Reader, end_line, is_empty, read_byte, read_all}

-- What a round leads to, by `read_all` and by `next`.
abbrev pub gather : Option Event × Reader → Bytes → List Event
gather o s = elim o.0 [ none ↦ read_all o.1 s | some e ↦ e ∷ read_all o.1 s ]

-- The bytes hold no blank line; the flag says that they begin at the start of a line.
abbrev pub no_blank_line : Bool → Bytes → Bool
no_blank_line b [] = true
no_blank_line b (c ∷ s) =
    if c == b'\n' || c == b'\r' then not b && no_blank_line true s else no_blank_line false s

-- The reader is inside a line, behind some of its bytes.
abbrev IsInside : Bool → Reader → Type 0
IsInside true r = Unit
IsInside false r = (r.pending_lf ≡ false) × (is_empty r.line ≡ false)

is_empty-concat : (l : Bytes) (c : ℕ) → is_empty (l ++ c ∷ []) ≡ false
is_empty-concat [] c = refl
is_empty-concat (x ∷ l) c = refl

read_byte-IsInside :
    (r : Reader) (c : ℕ)
    → (c == b'\n' || c == b'\r') ≡ false
    → ((read_byte r c).0 ≡ none) × IsInside false (read_byte r c).1
unfolding read_byte
read_byte-IsInside r c h =
    let no_skip : (r.pending_lf && c == b'\n') ≡ false = ground arith in
    rw (no_skip, h) (refl, (refl, is_empty-concat r.line c))

read_byte-ends :
    (r : Reader) (c : ℕ)
    → (c == b'\n' || c == b'\r') ≡ true
    → IsInside false r
    → (read_byte r c).0 ≡ none
unfolding read_byte end_line
read_byte-ends r c h (p, l) = rw (p, h, l) refl

gather-none :
    (o : Option Event × Reader) (s : Bytes) → o.0 ≡ none → read_all o.1 s ≡ [] → gather o s ≡ []
gather-none (none, r) s e h = h
gather-none (some x, r) s e h = absurd (ground arith)

pub read_all-torn :
    (b : Bool) (r : Reader) (s : Bytes)
    → IsInside b r
    → no_blank_line b s ≡ true
    → read_all r s ≡ []
unfolding read_all
read_all-torn b r [] i h = refl
read_all-torn true r (c ∷ s) i h = elim (Bool-cases (c == b'\n' || c == b'\r')) [
  | inl e ↦ absurd (ground arith)
  | inr e ↦
      let (n, k) = read_byte-IsInside r c e in
      gather-none (read_byte r c) s n (read_all-torn false (read_byte r c).1 s k (ground arith))
]
read_all-torn false r (c ∷ s) i h = elim (Bool-cases (c == b'\n' || c == b'\r')) [
  | inl e ↦
      gather-none (read_byte r c) s (read_byte-ends r c e i)
        (read_all-torn true (read_byte r c).1 s tt (ground arith))
  | inr e ↦
      let (n, k) = read_byte-IsInside r c e in
      gather-none (read_byte r c) s n (read_all-torn false (read_byte r c).1 s k (ground arith))
]
