-- ===== src/PartialJson/Repair/Clean.antt =====
-- An independent reading of string literals, and `Repair` against it.
use kern_proxy.Base.{
  ℕ, zero, suc, ◌≡◌, refl, ap, ◌∙◌, Bool, true, false, ◌&&◌, inl, inr, [], ◌∷◌, ◌++◌, ◌==◌, leb,
  arith, if◌then◌else◌, Bool-cases,
}
use kern_proxy.Base.Bytes.{Bytes}
use kern_proxy.PartialJson.Repair.{
  Written, is_valid_escape, is_hex_digit, escape_control_character, four_hex, repair_escape,
  repair_byte, repair_from, repair,
}

pub data Lexer : Type 0 where
  outside inside escaped : Lexer

-- Inside a string no control character may stand bare, and behind a backslash only a letter that
-- JSON allows there.
abbrev pub is_allowed : Lexer → ℕ → Bool
is_allowed Lexer.outside c = true
is_allowed Lexer.inside c = leb 0x20 c
is_allowed Lexer.escaped c = is_valid_escape c

abbrev pub next_state : Lexer → ℕ → Lexer
next_state Lexer.outside c = if c == b'"' then Lexer.inside else Lexer.outside
next_state Lexer.escaped c = Lexer.inside
next_state Lexer.inside c =
    if c == b'"' then Lexer.outside else if c == b'\\' then Lexer.escaped else Lexer.inside

-- The text may end inside a string, but not between a backslash and its letter.
abbrev pub may_end : Lexer → Bool
may_end Lexer.escaped = false
may_end _ = true

abbrev pub is_clean : Lexer → Bytes → Bool
is_clean l [] = may_end l
is_clean l (c ∷ s) = is_allowed l c && is_clean (next_state l c) s

-- The lexer's state between two turns of the loop.
abbrev state : Bool → Lexer
state true = Lexer.inside
state false = Lexer.outside

-- The lexer takes `k` bytes of the text and is then where the loop is.
abbrev Runs : Bool → Lexer → ℕ → Bytes → Type 0
Runs q l zero s = l ≡ state q
Runs q l (suc k) [] = ⊥
Runs q l (suc k) (c ∷ s) = (is_allowed l c ≡ true) × Runs q (next_state l c) k s

-- Where the lexer is behind what one turn writes.
abbrev after : Written → Lexer
after w = elim w.ahead [ zero ↦ state w.in_string | suc k ↦ Lexer.escaped ]

-- One turn of the loop, whatever is written later.
record Turn (q : Bool) (rest : Bytes) (w : Written) : Type 0 where
  runs : Runs w.in_string (after w) w.ahead rest
  clean :
      (later : Bytes) → is_clean (after w) later ≡ true → is_clean (state q) (w.out ++ later) ≡ true

hex-allowed :
    (c : ℕ)
    → is_hex_digit c ≡ true
    → (leb 0x20 c ≡ true) × (next_state Lexer.inside c ≡ Lexer.inside)
unfolding is_hex_digit
hex-allowed c h = ground arith

hex-Runs :
    (c k : ℕ) (s : Bytes)
    → is_hex_digit c ≡ true
    → Runs true Lexer.inside k s
    → Runs true Lexer.inside (suc k) (c ∷ s)
hex-Runs c k s h r = let (allowed, stays) = hex-allowed c h in (allowed, rw stays r)

four_hex-Runs : (s : Bytes) → four_hex s ≡ true → Runs true Lexer.inside 4 s
unfolding four_hex
four_hex-Runs (a ∷ b ∷ c ∷ d ∷ rest) h = hex-Runs a 3 (b ∷ c ∷ d ∷ rest) (ground arith) (
    hex-Runs b 2 (c ∷ d ∷ rest) (ground arith)
      (hex-Runs c 1 (d ∷ rest) (ground arith) (hex-Runs d 0 rest (ground arith) refl)))
four_hex-Runs [] h = cc
four_hex-Runs (a ∷ []) h = cc
four_hex-Runs (a ∷ b ∷ []) h = cc
four_hex-Runs (a ∷ b ∷ c ∷ []) h = cc

repair_escape-Turn : (rest : Bytes) → Turn true rest (repair_escape rest)
unfolding repair_escape
repair_escape-Turn [] = record { runs = refl; clean = λ later h. h }
repair_escape-Turn (next ∷ more) = elim (Bool-cases (next == b'u' && four_hex more)) [
  | inl digits ↦ rw digits (record {
    runs = (unfold is_valid_escape in ground arith, four_hex-Runs more (ground arith));
    clean = λ later h. h;
  })
  | inr other ↦ rw other (elim (Bool-cases (is_valid_escape next)) [
    | inl valid ↦ rw valid (record { runs = (valid, refl); clean = λ later h. h })
    | inr bad ↦ rw bad (record { runs = refl; clean = λ later h. h })
  ])
]

control-clean :
    (c : ℕ) (later : Bytes)
    → leb c 0x1f ≡ true
    → is_clean Lexer.inside later ≡ true
    → is_clean Lexer.inside (escape_control_character c ++ later) ≡ true
unfolding escape_control_character is_valid_escape
control-clean c later h k = ground arith

repair_byte-Turn : (q : Bool) (c : ℕ) (rest : Bytes) → Turn q rest (repair_byte q c rest)
unfolding repair_byte
repair_byte-Turn false c rest = elim (Bool-cases (c == b'"')) [
  | inl quote ↦ rw quote (record { runs = refl; clean = λ later h. rw quote h })
  | inr other ↦ rw other (record { runs = refl; clean = λ later h. rw other h })
]
repair_byte-Turn true c rest = elim (Bool-cases (c == b'"')) [
  | inl quote ↦ rw quote (record { runs = refl; clean = λ later h. ground arith })
  | inr other ↦ rw other (elim (Bool-cases (c == b'\\')) [
    | inl slash ↦ rw slash (repair_escape-Turn rest)
    | inr plain ↦ rw plain (elim (Bool-cases (leb c 0x1f)) [
      | inl control ↦
          rw control (record { runs = refl; clean = λ later h. control-clean c later control h })
      | inr printable ↦ rw printable (record { runs = refl; clean = λ later h. ground arith })
    ])
  ])
]

is_clean-repair_from :
    (s : Bytes) (q : Bool) (k : ℕ) (l : Lexer)
    → Runs q l k s
    → is_clean l (repair_from q k s) ≡ true
unfolding repair_from
is_clean-repair_from [] true zero l r = rw r
is_clean-repair_from [] false zero l r = rw r
is_clean-repair_from [] q (suc k) l r = absurd r
is_clean-repair_from (c ∷ rest) q (suc k) l r =
    rw r.0 (is_clean-repair_from rest q k (next_state l c) r.1)
is_clean-repair_from (c ∷ rest) q zero l r =
    let w = repair_byte q c rest in
    let turn = repair_byte-Turn q c rest in
    rw r (turn.clean _ (is_clean-repair_from rest w.in_string w.ahead (after w) turn.runs))

-- Whatever the bytes, the repaired text reads as clean string literals: no bare control
-- character, only escape letters that JSON has, and no backslash at the very end.
pub repair-clean : (s : Bytes) → is_clean Lexer.outside (repair s) ≡ true
unfolding repair
repair-clean s = is_clean-repair_from s false 0 Lexer.outside refl

repair_escape_exact :
    (rest : Bytes)
    → is_clean Lexer.escaped rest ≡ true
    → ((repair_escape rest).out ≡ b'\\' ∷ []) × (is_clean (after (repair_escape rest)) rest ≡ true)
unfolding repair_escape
repair_escape_exact [] h = cc
repair_escape_exact (next ∷ more) h = elim (Bool-cases (next == b'u' && four_hex more)) [
  | inl digits ↦ rw digits (refl, h)
  | inr other ↦
      let valid : is_valid_escape next ≡ true = ground arith in rw (other, valid) (refl, h)
]

-- On clean text a turn writes the byte that it reads.
repair_byte_exact :
    (q : Bool) (c : ℕ) (rest : Bytes)
    → is_clean (state q) (c ∷ rest) ≡ true
    → ((repair_byte q c rest).out ≡ c ∷ []) × (is_clean (after (repair_byte q c rest)) rest ≡ true)
unfolding repair_byte
repair_byte_exact false c rest h = (refl, ground arith)
repair_byte_exact true c rest h = elim (Bool-cases (c == b'"')) [
  | inl quote ↦ rw quote (refl, ground arith)
  | inr other ↦ rw other (elim (Bool-cases (c == b'\\')) [
    | inl slash ↦ rw slash (
        let (out, clean) = repair_escape_exact rest (ground arith) in
        let is_slash : b'\\' ≡ c = ground arith in (out ∙ ap (λ x. x ∷ []) is_slash, clean))
    | inr plain ↦
        let printable : leb c 0x1f ≡ false = ground arith in
        rw (plain, printable) (refl, ground arith)
  ])
]

repair_from_exact :
    (s : Bytes) (q : Bool) (k : ℕ) (l : Lexer)
    → Runs q l k s
    → is_clean l s ≡ true
    → repair_from q k s ≡ s
unfolding repair_from
repair_from_exact [] q k l r h = refl
repair_from_exact (c ∷ rest) q (suc k) l r h =
    ap (◌∷◌ c) (repair_from_exact rest q k (next_state l c) r.1 (ground arith))
repair_from_exact (c ∷ rest) q zero l r h =
    let w = repair_byte q c rest in
    let (out, clean) = repair_byte_exact q c rest (rw r at h) in
    rw out (
      ap (◌∷◌ c) (
        repair_from_exact rest w.in_string w.ahead (after w) (repair_byte-Turn q c rest).runs
          clean))

-- Clean text is left as it is.
pub repair-of_clean : (s : Bytes) → is_clean Lexer.outside s ≡ true → repair s ≡ s
unfolding repair
repair-of_clean s h = repair_from_exact s false 0 Lexer.outside refl h

-- A second repair changes nothing.
repair-idempotent : (s : Bytes) → repair (repair s) ≡ repair s
repair-idempotent s = repair-of_clean (repair s) (repair-clean s)
