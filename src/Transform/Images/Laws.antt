-- ===== src/Transform/Images/Laws.antt =====
-- What the placeholder pass of ai/apis/transform.go leaves of a list of blocks.
use kern_proxy.Base.{
  ◌≡◌, ◌⊎◌, inl, inr, refl, sym, ap, ◌∙◌, ◌++◌, append-nil, append_assoc, Bool-cases, Bool, true,
  false, ◌&&◌, some, List, [], ◌∷◌, String, ◌=ₛ◌, eq_refl, arith, if◌then◌else◌, items, All,
}
use kern_proxy.Messages.{Slice, TextContent, ImageContent, UserPart}
use kern_proxy.Transform.Images.{
  placeholder_block, replace_images_from, replace_images_with_placeholder,
}

abbrev pub IsText : UserPart → Type 0
IsText (UserPart.text t) = Unit
IsText (UserPart.image i) = ⊥

-- The text blocks whose text is not the placeholder.
abbrev pub other_texts : String → List UserPart → List TextContent
other_texts p [] = []
other_texts p (UserPart.image i ∷ rest) = other_texts p rest
other_texts p (UserPart.text t ∷ rest) =
    if t.text =ₛ p then other_texts p rest else t ∷ other_texts p rest

abbrev pub is_placeholder : String → UserPart → Bool
is_placeholder p (UserPart.text t) = t.text =ₛ p
is_placeholder p (UserPart.image i) = false

-- No placeholder stands behind a placeholder; the flag says that one stands in front.
abbrev pub NoRepeat : String → Bool → List UserPart → Type 0
NoRepeat p previous [] = Unit
NoRepeat p previous (b ∷ bs) =
    ((previous && is_placeholder p b) ≡ false) × NoRepeat p (is_placeholder p b) bs

pub replace_from-IsText :
    (p : String) (previous : Bool) (bs : List UserPart)
    → All IsText (replace_images_from p previous bs)
unfolding replace_images_from
replace_from-IsText p previous [] = tt
replace_from-IsText p true (UserPart.image i ∷ bs) = replace_from-IsText p true bs
replace_from-IsText p false (UserPart.image i ∷ bs) = (tt, replace_from-IsText p true bs)
replace_from-IsText p previous (UserPart.text t ∷ bs) = (tt, replace_from-IsText p (t.text =ₛ p) bs)

other_texts-replace_from :
    (p : String) (previous : Bool) (bs : List UserPart)
    → other_texts p (replace_images_from p previous bs) ≡ other_texts p bs
unfolding replace_images_from
other_texts-replace_from p previous [] = refl
other_texts-replace_from p true (UserPart.image i ∷ bs) = other_texts-replace_from p true bs
other_texts-replace_from p false (UserPart.image i ∷ bs) =
    rw eq_refl (other_texts-replace_from p true bs)
other_texts-replace_from p previous (UserPart.text t ∷ bs) =
    rw (other_texts-replace_from p (t.text =ₛ p) bs)

replace_from-NoRepeat :
    (p : String) (previous : Bool) (bs : List UserPart)
    → All (λ b. is_placeholder p b ≡ false) bs
    → NoRepeat p previous (replace_images_from p previous bs)
unfolding replace_images_from
replace_from-NoRepeat p previous [] h = tt
replace_from-NoRepeat p true (UserPart.image i ∷ bs) h = replace_from-NoRepeat p true bs h.1
replace_from-NoRepeat p false (UserPart.image i ∷ bs) h =
    (refl, rw eq_refl (replace_from-NoRepeat p true bs h.1))
replace_from-NoRepeat p previous (UserPart.text t ∷ bs) h =
    (ground (arith, h.0), rw h.0 (replace_from-NoRepeat p false bs h.1))

replace_from-of_IsText :
    (p : String) (previous : Bool) (bs : List UserPart)
    → All IsText bs
    → replace_images_from p previous bs ≡ bs
unfolding replace_images_from
replace_from-of_IsText p previous [] h = refl
replace_from-of_IsText p previous (UserPart.image i ∷ bs) h = absurd h.0
replace_from-of_IsText p previous (UserPart.text t ∷ bs) h =
    ap (◌∷◌ (UserPart.text t)) (replace_from-of_IsText p (t.text =ₛ p) bs h.1)

-- The flag behind the blocks.
abbrev behind : String → Bool → List UserPart → Bool
behind p previous [] = previous
behind p previous (UserPart.image i ∷ bs) = behind p true bs
behind p previous (UserPart.text t ∷ bs) = behind p (t.text =ₛ p) bs

replace_from-append :
    (p : String) (previous : Bool) (xs ys : List UserPart)
    → replace_images_from p previous (xs ++ ys)
      ≡ replace_images_from p previous xs ++ replace_images_from p (behind p previous xs) ys
unfolding replace_images_from
replace_from-append p previous [] ys = refl
replace_from-append p true (UserPart.image i ∷ xs) ys = replace_from-append p true xs ys
replace_from-append p false (UserPart.image i ∷ xs) ys =
    ap (◌∷◌ (placeholder_block p)) (replace_from-append p true xs ys)
replace_from-append p previous (UserPart.text t ∷ xs) ys =
    ap (◌∷◌ (UserPart.text t)) (replace_from-append p (t.text =ₛ p) xs ys)

-- The blocks end in a placeholder, with `before` in front of it.
abbrev EndsIn : String → List UserPart → Type 0
EndsIn p bs =
    (before : List UserPart) × (b : UserPart) × (bs ≡ before ++ b ∷ [])
    × (is_placeholder p b ≡ true)

EndsIn-cons : (p : String) (x : UserPart) (bs : List UserPart) → EndsIn p bs → EndsIn p (x ∷ bs)
EndsIn-cons p x bs (before, b, e, k) = (x ∷ before, b, ap (◌∷◌ x) e, k)

EndsIn-head :
    (p : String) (x : UserPart) (bs : List UserPart)
    → is_placeholder p x ≡ true
    → (bs ≡ []) ⊎ EndsIn p bs
    → EndsIn p (x ∷ bs)
EndsIn-head p x bs k (inl e) = ([], x, ap (◌∷◌ x) e, k)
EndsIn-head p x bs k (inr h) = EndsIn-cons p x bs h

-- Where the flag is set behind the blocks, they end in a placeholder, or there is none of them.
replace_from-EndsIn :
    (p : String) (previous : Bool) (xs : List UserPart)
    → behind p previous xs ≡ true
    → ((previous ≡ true) × (replace_images_from p previous xs ≡ []))
      ⊎ EndsIn p (replace_images_from p previous xs)
unfolding replace_images_from
replace_from-EndsIn p previous [] h = inl (h, refl)
replace_from-EndsIn p true (UserPart.image i ∷ xs) h = replace_from-EndsIn p true xs h
replace_from-EndsIn p false (UserPart.image i ∷ xs) h = inr (
    EndsIn-head p (placeholder_block p) _ (eq_refl p)
      (elim (replace_from-EndsIn p true xs h) [ inl k ↦ inl k.1 | inr k ↦ inr k ]))
replace_from-EndsIn p previous (UserPart.text t ∷ xs) h =
    inr (elim (replace_from-EndsIn p (t.text =ₛ p) xs h) [
      | inl k ↦ EndsIn-head p (UserPart.text t) _ k.0 (inl k.1)
      | inr k ↦ EndsIn-cons p (UserPart.text t) _ k
    ])

-- An image is behind `xs`: so is a placeholder in the result.
image-EndsIn :
    (p : String) (xs : List UserPart) (i : ImageContent)
    → EndsIn p (replace_images_from p false (xs ++ UserPart.image i ∷ []))
unfolding replace_images_from
image-EndsIn p xs i =
    rw (replace_from-append p false xs (UserPart.image i ∷ []))
      (elim (Bool-cases (behind p false xs)) [
        | inl e ↦
            rw (e, append-nil)
              (elim (replace_from-EndsIn p false xs e) [
                | inl k ↦ absurd (ground arith)
                | inr k ↦ k
              ])
        | inr e ↦ rw e (replace_images_from p false xs, placeholder_block p, refl, eq_refl p)
      ])

other_texts-append :
    (p : String) (xs ys : List UserPart)
    → other_texts p (xs ++ ys) ≡ other_texts p xs ++ other_texts p ys
other_texts-append p [] ys = refl
other_texts-append p (UserPart.image i ∷ xs) ys = other_texts-append p xs ys
other_texts-append p (UserPart.text t ∷ xs) ys = elim (Bool-cases (t.text =ₛ p)) [
  | inl e ↦ rw e (other_texts-append p xs ys)
  | inr e ↦ rw e (ap (◌∷◌ t) (other_texts-append p xs ys))
]

other_texts-placeholder :
    (p : String) (before : List UserPart) (b : UserPart)
    → is_placeholder p b ≡ true
    → other_texts p (before ++ b ∷ []) ≡ other_texts p before
other_texts-placeholder p before (UserPart.image i) h = absurd (ground arith)
other_texts-placeholder p before (UserPart.text t) h =
    other_texts-append p before (UserPart.text t ∷ []) ∙ rw h (append-nil (other_texts p before))

-- Wherever an image stands in the content, a placeholder stands in what `replaceImagesWithPlaceholder`
-- returns: the texts other than the placeholder in front of the image are in front of it, in their order,
-- and those behind the image are behind it. And no image is left.
pub replace-placeholder :
    (xs : List UserPart) (i : ImageContent) (ys : List UserPart) (p : String)
    → (before : List UserPart) × (b : UserPart) × (after : List UserPart)
      × (replace_images_with_placeholder (some (xs ++ UserPart.image i ∷ ys)) p
          ≡ some (before ++ b ∷ after))
      × (is_placeholder p b ≡ true)
      × (other_texts p before ≡ other_texts p xs)
      × (other_texts p after ≡ other_texts p ys)
      × All IsText (before ++ b ∷ after)
unfolding replace_images_with_placeholder
replace-placeholder xs i ys p =
    let front = xs ++ UserPart.image i ∷ [] in
    let after = replace_images_from p (behind p false front) ys in
    let (before, b, e, k) = image-EndsIn p xs i in
    let whole : replace_images_from p false (xs ++ UserPart.image i ∷ ys) ≡ before ++ b ∷ after =
      ap (replace_images_from p false) (sym (append_assoc xs (UserPart.image i ∷ []) ys))
      ∙ replace_from-append p false front ys
      ∙ ap (λ l. l ++ after) e
      ∙ append_assoc before (b ∷ []) after in
    (
      before,
      b,
      after,
      ap some whole,
      k,
      sym (other_texts-placeholder p before b k)
          ∙ ap (other_texts p) (sym e)
          ∙ other_texts-replace_from p false front
          ∙ other_texts-append p xs (UserPart.image i ∷ [])
          ∙ append-nil (other_texts p xs),
      other_texts-replace_from p (behind p false front) ys,
      rw (← whole) (replace_from-IsText p false (xs ++ UserPart.image i ∷ ys)),
    )

-- Where the content has no text block that reads as the placeholder, the result has no two
-- placeholders in a row: each run of images became one.
replace-NoRepeat :
    (bs : List UserPart) (p : String)
    → All (λ b. is_placeholder p b ≡ false) bs
    → NoRepeat p false (items (replace_images_with_placeholder (some bs) p))
unfolding replace_images_with_placeholder
replace-NoRepeat bs p h = replace_from-NoRepeat p false bs h

-- A second replacement changes nothing.
replace-idempotent :
    (content : Slice UserPart) (p : String)
    → replace_images_with_placeholder (replace_images_with_placeholder content p) p
      ≡ replace_images_with_placeholder content p
unfolding replace_images_with_placeholder
replace-idempotent content p =
    ap some (replace_from-of_IsText p false _ (replace_from-IsText p false (items content)))
