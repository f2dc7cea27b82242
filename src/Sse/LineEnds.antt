-- ===== src/Sse/LineEnds.antt =====
-- `\n`, `\r\n` and `\r` end a line alike.
use kern_proxy.Base.{
  ℕ, ◌≡◌, refl, sym, ap, ◌∙◌, Bool, true, false, ◌&&◌, ◌||◌, Option, none, some, [], ◌∷◌, ◌==◌,
  if◌then◌else◌, arith, Bool-cases, inl, inr,
}
use kern_proxy.Base.Bytes.{Bytes}
use kern_proxy.Sse.{Event, Reader, new_reader, end_line, read_byte, read_all}
use kern_proxy.Sse.RoundTrip.{no_return}
use kern_proxy.Sse.Torn.{gather}

-- Each `\n` written as `\r\n`.
abbrev pub with_crlf : Bytes → Bytes
with_crlf [] = []
with_crlf (c ∷ s) = if c == b'\n' then b'\r' ∷ b'\n' ∷ with_crlf s else c ∷ with_crlf s

-- Each `\n` written as `\r`.
abbrev pub with_cr : Bytes → Bytes
with_cr [] = []
with_cr (c ∷ s) = (if c == b'\n' then b'\r' else c) ∷ with_cr s

-- The reader with its flag set to `b`.
abbrev flagged : Bool → Reader → Reader
flagged b r = record r { pending_lf = b }

abbrev flag_second : Bool → Option Event × Reader → Option Event × Reader
flag_second b o = (o.0, flagged b o.1)

end_line-flagged : (r : Reader) (b : Bool) → end_line (flagged b r) ≡ flag_second b (end_line r)
unfolding end_line
end_line-flagged r b = ground arith

-- A byte that is no `\n` is read alike behind a `\r` and elsewhere.
read_byte-flagged :
    (r : Reader) (b : Bool) (c : ℕ)
    → (c == b'\n') ≡ false
    → read_byte (flagged b r) c ≡ read_byte r c
unfolding read_byte
read_byte-flagged r b c h = ground arith

-- At the end of a line.
read_byte_end :
    (r : Reader) (c : ℕ)
    → (r.pending_lf && c == b'\n') ≡ false
    → (c == b'\n' || c == b'\r') ≡ true
    → read_byte r c ≡ flag_second (c == b'\r') (end_line r)
unfolding read_byte
read_byte_end r c h k = rw (h, k) (end_line-flagged r (c == b'\r'))

abbrev first_is_newline : Bytes → Bool
first_is_newline [] = false
first_is_newline (c ∷ _) = c == b'\n'

read_all-flagged :
    (s : Bytes) (r : Reader) (b : Bool)
    → first_is_newline s ≡ false
    → read_all (flagged b r) s ≡ read_all r s
unfolding read_all
read_all-flagged [] r b h = refl
read_all-flagged (c ∷ s) r b h = ap (λ o. gather o s) (read_byte-flagged r b c h)

-- An event that a line's end completes, or none, and then the rest.
gather-flag_second :
    (o : Option Event × Reader) (b : Bool) (s t : Bytes)
    → read_all (flagged b o.1) t ≡ read_all o.1 s
    → gather (flag_second b o) t ≡ gather o s
gather-flag_second (none, r) b s t h = h
gather-flag_second (some e, r) b s t h = ap (◌∷◌ e) h

with_cr-first : (s : Bytes) → first_is_newline (with_cr s) ≡ false
with_cr-first [] = refl
with_cr-first (c ∷ s) = ground arith

gather-tail :
    (o : Option Event × Reader) (s t : Bytes)
    → read_all o.1 t ≡ read_all o.1 s
    → gather o t ≡ gather o s
gather-tail (none, r) s t h = h
gather-tail (some e, r) s t h = ap (◌∷◌ e) h

read_byte-pending :
    (r : Reader) (c : ℕ) → (c == b'\r') ≡ false → (read_byte r c).1.pending_lf ≡ false
read_byte-pending r c h = elim (Bool-cases (r.pending_lf && c == b'\n')) [
  | inl skipped ↦ unfold read_byte in rw skipped
  | inr read ↦ elim (Bool-cases (c == b'\n' || c == b'\r')) [
    | inl ends ↦ rw (read_byte_end r c read ends) h
    | inr plain ↦ unfold read_byte in rw (read, plain)
  ]
]

-- How the two ends of a line compare, if the bytes behind them are read alike.
ends_alike :
    (r : Reader) (s t : Bytes)
    → r.pending_lf ≡ false
    → (read_all (flagged true (end_line r).1) t ≡ read_all (flagged false (end_line r).1) s)
    → gather (read_byte r b'\r') t ≡ gather (read_byte r b'\n') s
ends_alike r s t p h =
    ap (λ o. gather o t) (read_byte_end r b'\r' (rw p) refl)
    ∙ gather-flag_second (flag_second false (end_line r)) true s t h
    ∙ sym (ap (λ o. gather o s) (read_byte_end r b'\n' (rw p) refl))

read_all-with_cr :
    (s : Bytes) (r : Reader)
    → r.pending_lf ≡ false
    → no_return s ≡ true
    → read_all r (with_cr s) ≡ read_all r s
unfolding read_all
read_all-with_cr [] r p n = refl
read_all-with_cr (c ∷ s) r p n =
    let later = λ (q : Reader) (e : q.pending_lf ≡ false). read_all-with_cr s q e (ground arith) in
    elim (Bool-cases (c == b'\n')) [
      | inl newline ↦
          let is_newline : c ≡ b'\n' = ground arith in
          let x = flagged false (end_line r).1 in
          rw is_newline (
            ends_alike r s (with_cr s) p
              (read_all-flagged (with_cr s) x true (with_cr-first s) ∙ later x refl))
      | inr other ↦ rw other (
          gather-tail (read_byte r c) s (with_cr s)
            (later (read_byte r c).1 (read_byte-pending r c (ground arith))))
    ]

-- The `\n` behind a `\r` is skipped.
second_half :
    (r : Reader) (s : Bytes) → read_all (flagged true r) (b'\n' ∷ s) ≡ read_all (flagged false r) s
unfolding read_all read_byte
second_half r s = refl

read_all-with_crlf :
    (s : Bytes) (r : Reader)
    → r.pending_lf ≡ false
    → no_return s ≡ true
    → read_all r (with_crlf s) ≡ read_all r s
unfolding read_all
read_all-with_crlf [] r p n = refl
read_all-with_crlf (c ∷ s) r p n =
    let later =
      λ (q : Reader) (e : q.pending_lf ≡ false). read_all-with_crlf s q e (ground arith) in
    elim (Bool-cases (c == b'\n')) [
      | inl newline ↦
          let is_newline : c ≡ b'\n' = ground arith in
          rw is_newline (
            ends_alike r s (b'\n' ∷ with_crlf s) p (
              second_half (end_line r).1 (with_crlf s) ∙ later (flagged false (end_line r).1) refl))
      | inr other ↦ rw other (
          gather-tail (read_byte r c) s (with_crlf s)
            (later (read_byte r c).1 (read_byte-pending r c (ground arith))))
    ]

-- A stream whose lines end in `\n` gives the same events if all its lines end in `\r\n`, or in
-- `\r`.
pub read_all-line_ends :
    (s : Bytes)
    → no_return s ≡ true
    → (read_all new_reader (with_crlf s) ≡ read_all new_reader s)
      × (read_all new_reader (with_cr s) ≡ read_all new_reader s)
read_all-line_ends s n =
    (read_all-with_crlf s new_reader refl n, read_all-with_cr s new_reader refl n)
