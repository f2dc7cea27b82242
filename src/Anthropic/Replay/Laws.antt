-- ===== src/Anthropic/Replay/Laws.antt =====
-- The lists of the decoder and of the consumer, place by place.
use kern_proxy.Base.{
  ℕ, zero, suc, ◌≡◌, refl, ap, true, some, List, [], ◌∷◌, ◌++◌, arith, length, get_elem?, set,
}
use kern_proxy.Base.Int.{ℤ}
use kern_proxy.Messages.{AssistantPart}
use kern_proxy.Anthropic.Blocks.{BlockState, find_block}
use kern_proxy.Anthropic.Replay.{piece, pieces, fits, aligned}

pub find_block-get :
    (index : ℤ) (bs : List BlockState) (i : ℕ) (b : BlockState)
    → find_block index bs ≡ some (i, b)
    → get_elem? bs i ≡ some b
unfolding find_block
find_block-get index [] i b h = ground arith
find_block-get index (c ∷ bs) zero b h = ground (arith, find_block-get index bs)
find_block-get index (c ∷ bs) (suc i) b h = ground (arith, find_block-get index bs i b)

pub aligned-get :
    (bs : List BlockState) (ps : List AssistantPart) (i : ℕ) (b : BlockState)
    → aligned bs ps ≡ true
    → get_elem? bs i ≡ some b
    → (p : AssistantPart) × (get_elem? ps i ≡ some p) × (fits b p ≡ true)
unfolding aligned
aligned-get (c ∷ bs) (p ∷ ps) zero b h k = (p, refl, ground arith)
aligned-get (c ∷ bs) (p ∷ ps) (suc i) b h k = aligned-get bs ps i b (ground arith) k
aligned-get [] _ i b h k = ground arith
aligned-get (c ∷ bs) [] i b h k = ground arith

pub aligned-set :
    (bs : List BlockState) (ps : List AssistantPart) (i : ℕ) (b : BlockState) (p : AssistantPart)
    → aligned bs ps ≡ true
    → fits b p ≡ true
    → aligned (set bs i b) (set ps i p) ≡ true
unfolding aligned
aligned-set [] [] i b p h k = refl
aligned-set (c ∷ bs) (q ∷ ps) zero b p h k = ground arith
aligned-set (c ∷ bs) (q ∷ ps) (suc i) b p h k = ground (arith, aligned-set bs ps i b p)
aligned-set [] (q ∷ ps) i b p h k = ground arith
aligned-set (c ∷ bs) [] i b p h k = ground arith

pub aligned-snoc :
    (bs : List BlockState) (ps : List AssistantPart) (b : BlockState) (p : AssistantPart)
    → aligned bs ps ≡ true
    → fits b p ≡ true
    → aligned (bs ++ b ∷ []) (ps ++ p ∷ []) ≡ true
unfolding aligned
aligned-snoc [] [] b p h k = ground arith
aligned-snoc (c ∷ bs) (q ∷ ps) b p h k = ground (arith, aligned-snoc bs ps b p)
aligned-snoc [] (q ∷ ps) b p h k = ground arith
aligned-snoc (c ∷ bs) [] b p h k = ground arith

pub pieces-get :
    (bs : List BlockState) (ps : List AssistantPart) (i : ℕ) (b : BlockState) (p : AssistantPart)
    → get_elem? bs i ≡ some b
    → get_elem? ps i ≡ some p
    → get_elem? (pieces bs ps) i ≡ some (piece b p)
unfolding pieces
pieces-get (c ∷ bs) (q ∷ ps) zero b p h k = ground arith
pieces-get (c ∷ bs) (q ∷ ps) (suc i) b p h k = pieces-get bs ps i b p h k
pieces-get [] ps i b p h k = ground arith
pieces-get (c ∷ bs) [] i b p h k = ground arith

pub pieces-set :
    (bs : List BlockState) (ps : List AssistantPart) (i : ℕ) (b : BlockState) (p : AssistantPart)
    → pieces (set bs i b) (set ps i p) ≡ set (pieces bs ps) i (piece b p)
unfolding pieces
pieces-set (c ∷ bs) (q ∷ ps) zero b p = refl
pieces-set (c ∷ bs) (q ∷ ps) (suc i) b p = ap (λ r. piece c q ∷ r) (pieces-set bs ps i b p)
pieces-set [] ps i b p = refl
pieces-set (c ∷ bs) [] zero b p = refl
pieces-set (c ∷ bs) [] (suc i) b p = refl

pub pieces-snoc :
    (bs : List BlockState) (ps : List AssistantPart) (b : BlockState) (p : AssistantPart)
    → aligned bs ps ≡ true
    → pieces (bs ++ b ∷ []) (ps ++ p ∷ []) ≡ pieces bs ps ++ piece b p ∷ []
unfolding pieces aligned
pieces-snoc [] [] b p h = refl
pieces-snoc (c ∷ bs) (q ∷ ps) b p h = ap (λ r. piece c q ∷ r) (pieces-snoc bs ps b p (ground arith))
pieces-snoc [] (q ∷ ps) b p h = ground arith
pieces-snoc (c ∷ bs) [] b p h = ground arith

pub pieces-length :
    (bs : List BlockState) (ps : List AssistantPart)
    → aligned bs ps ≡ true
    → length (pieces bs ps) ≡ length ps
unfolding pieces aligned
pieces-length [] [] h = refl
pieces-length (c ∷ bs) (q ∷ ps) h = ap suc (pieces-length bs ps (ground arith))
pieces-length [] (q ∷ ps) h = ground arith
pieces-length (c ∷ bs) [] h = ground arith
