-- ===== src/Retry/Classes.antt =====
-- How the two retry policies agree on an error text.
use kern_proxy.Base.{ℕ, ◌==◌, ◌≡◌, refl, true, List, [], ◌∷◌, ◌++◌, String, arith}
use kern_proxy.Base.Bytes.{codes}
use kern_proxy.Retry.{
  Piece, fold, matches_here, matches, matches_any, patterns, retryable_status_code_patterns,
  transient_provider_error_patterns, is_transient_text, is_retryable_text,
}

alternatives-append :
    (ps qs : List String) (text : List ℕ)
    → matches_any (patterns qs) text ≡ true
    → matches_any (patterns (ps ++ qs)) text ≡ true
unfolding matches_any
alternatives-append [] qs text h = h
alternatives-append (p ∷ ps) qs text h = ground (arith, alternatives-append ps qs text h)

pub retryable-of_transient :
    (text : String) → is_transient_text text ≡ true → is_retryable_text text ≡ true
retryable-of_transient text h =
    unfold is_transient_text is_retryable_text in
    alternatives-append retryable_status_code_patterns transient_provider_error_patterns
      (codes text) h

fold-fold : (c : ℕ) → fold (fold c) ≡ fold c
unfolding fold
fold-fold c = ground arith

fold-newline : (c : ℕ) → (fold c == b'\n') ≡ (c == b'\n')
unfolding fold
fold-newline c = ground arith

-- The text in lower case, as far as the expressions can tell.
abbrev pub folded : List ℕ → List ℕ
folded [] = []
folded (c ∷ text) = fold c ∷ folded text

matches_here-folded :
    (ps : List Piece) (text : List ℕ) → matches_here ps (folded text) ≡ matches_here ps text
unfolding matches_here
matches_here-folded [] text = refl
matches_here-folded (Piece.letter p ∷ ps) [] = refl
matches_here-folded (Piece.letter p ∷ ps) (c ∷ text) = rw (fold-fold, matches_here-folded ps text)
matches_here-folded (Piece.any_optional ∷ ps) [] = matches_here-folded ps []
matches_here-folded (Piece.any_optional ∷ ps) (c ∷ text) =
    rw (fold-newline c, matches_here-folded ps text, matches_here-folded ps (c ∷ text))
matches_here-folded (Piece.optional p ∷ ps) [] = matches_here-folded ps []
matches_here-folded (Piece.optional p ∷ ps) (c ∷ text) =
    rw (fold-fold c, matches_here-folded ps text, matches_here-folded ps (c ∷ text))

matches-folded : (ps : List Piece) (text : List ℕ) → matches ps (folded text) ≡ matches ps text
unfolding matches
matches-folded ps [] = matches_here-folded ps []
matches-folded ps (c ∷ text) = rw (matches_here-folded ps (c ∷ text), matches-folded ps text)

-- Whatever the alternatives, the letter case of a text does not matter: it matches as it does with
-- every letter in lower case.
matches_any-folded :
    (ps : List (List Piece)) (text : List ℕ) → matches_any ps (folded text) ≡ matches_any ps text
unfolding matches_any
matches_any-folded [] text = refl
matches_any-folded (p ∷ ps) text = rw (matches-folded p text, matches_any-folded ps text)
