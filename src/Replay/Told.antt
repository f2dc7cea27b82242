-- ===== src/Replay/Told.antt =====
-- The events that were pushed, as their consumer follows them, and the turn that they make.
use kern_proxy.Base.{
  ℕ, zero, suc, ◌≡◌, refl, ap, length, get_elem?, set, true, false, some, List, [], ◌∷◌, ◌++◌,
  String, arith, items, All, Option-cases, inl, inr,
}
use mathlib.Core.Path.{subst}
use mathlib.Core.Option.{some-injective}
use kern_proxy.Messages.{AssistantPart, AssistantMessage}
use kern_proxy.Stream.{Event, Stream, push, is_terminal_event, event_result}
use kern_proxy.Transform.Orphans.{is_failed}
use kern_proxy.Replay.{Piece, follow, replay}

pub replay-snoc :
    (object : String → String) (evs : List Event) (ps qs rs : List Piece) (ev : Event)
    → replay object ps evs ≡ some qs
    → follow object qs ev ≡ some rs
    → replay object ps (evs ++ ev ∷ []) ≡ some rs
unfolding replay
replay-snoc object [] ps qs rs ev h k = ground arith
replay-snoc object (e ∷ evs) ps qs rs ev h k = elim (Option-cases (follow object ps e)) [
  | inl n ↦ ground arith
  | inr (q, m) ↦ ground (arith, replay-snoc object evs q qs rs ev)
]

pushed :
    (s : Stream) (ev : Event)
    → s.done ≡ false
    → is_terminal_event ev ≡ false
    → push s ev ≡ record s { queue = s.queue ++ ev ∷ [] }
unfolding push
pushed s ev d t = simp (d, t) refl

pub told :
    (object : String → String) (s : Stream) (ev : Event) (ps qs : List Piece)
    → s.done ≡ false
    → is_terminal_event ev ≡ false
    → replay object [] s.queue ≡ some ps
    → follow object ps ev ≡ some qs
    → ((push s ev).done ≡ false) × (replay object [] (push s ev).queue ≡ some qs)
told object s ev ps qs d t h k =
    rw (pushed s ev d t) (d, replay-snoc object s.queue [] ps qs ev h k)

-- The consumer's block, and the part of the message.
abbrev pub Tells : Piece → AssistantPart → Type 0
Tells (Piece.text t) (AssistantPart.text u) = t ≡ u.text
Tells (Piece.thinking t) (AssistantPart.thinking u) = t ≡ u.thinking
Tells (Piece.call _) (AssistantPart.tool_call _) = Unit
Tells _ _ = ⊥

abbrev pub TellAll : List Piece → List AssistantPart → Type 0
TellAll [] [] = Unit
TellAll (p ∷ ps) (q ∷ qs) = Tells p q × TellAll ps qs
TellAll _ _ = ⊥

pub TellAll-set :
    (ps : List Piece) (qs : List AssistantPart) (i : ℕ) (p : Piece) (q : AssistantPart)
    → TellAll ps qs
    → Tells p q
    → TellAll (set ps i p) (set qs i q)
TellAll-set [] [] i p q h k = tt
TellAll-set (x ∷ ps) (y ∷ qs) zero p q h k = (k, h.1)
TellAll-set (x ∷ ps) (y ∷ qs) (suc i) p q h k = (h.0, TellAll-set ps qs i p q h.1 k)
TellAll-set [] (y ∷ qs) i p q h k = elim h [ ]
TellAll-set (x ∷ ps) [] i p q h k = elim h [ ]

pub TellAll-append :
    (ps : List Piece) (qs : List AssistantPart) (p : Piece) (q : AssistantPart)
    → TellAll ps qs
    → Tells p q
    → TellAll (ps ++ p ∷ []) (qs ++ q ∷ [])
TellAll-append [] [] p q h k = (k, tt)
TellAll-append (x ∷ ps) (y ∷ qs) p q h k = (h.0, TellAll-append ps qs p q h.1 k)
TellAll-append [] (y ∷ qs) p q h k = elim h [ ]
TellAll-append (x ∷ ps) [] p q h k = elim h [ ]

pub TellAll-get :
    (ps : List Piece) (qs : List AssistantPart) (i : ℕ) (q : AssistantPart)
    → TellAll ps qs
    → get_elem? qs i ≡ some q
    → (p : Piece) × (get_elem? ps i ≡ some p) × Tells p q
TellAll-get [] [] i q h e = absurd (ground arith)
TellAll-get (x ∷ ps) (y ∷ qs) zero q h e =
    (x, refl, subst (λ r. Tells x r) (some-injective y q e) h.0)
TellAll-get (x ∷ ps) (y ∷ qs) (suc i) q h e = TellAll-get ps qs i q h.1 e
TellAll-get [] (y ∷ qs) i q h e = elim h [ ]
TellAll-get (x ∷ ps) [] i q h e = elim h [ ]

pub TellAll-length :
    (ps : List Piece) (qs : List AssistantPart) → TellAll ps qs → length ps ≡ length qs
TellAll-length [] [] h = refl
TellAll-length (x ∷ ps) (y ∷ qs) h = ap suc (TellAll-length ps qs h.1)
TellAll-length [] (y ∷ qs) h = elim h [ ]
TellAll-length (x ∷ ps) [] h = elim h [ ]

-- The last event of a turn: `done`, with a reason that is no failure, or `error`, with one that is; and
-- the reason is the one that the message gives.
abbrev pub Ends : Event → AssistantMessage → Type 0
Ends (Event.done reason p) m = (p ≡ some m) × (reason ≡ m.stop_reason) × (is_failed reason ≡ false)
Ends (Event.error reason p) m = (p ≡ some m) × (reason ≡ m.stop_reason) × (is_failed reason ≡ true)
Ends _ m = ⊥

-- The stream has ended, in its only terminal event, and the events before it tell the message.
abbrev pub IsTurn : (String → String) → Stream → Type 0
IsTurn object out =
    (evs : List Event) × (ev : Event) × (m : AssistantMessage) × (ps : List Piece) × (out
      ≡ record { queue = evs ++ ev ∷ []; done = true; result = some m })
    × All (λ e. is_terminal_event e ≡ false) evs
    × Ends ev m
    × (replay object [] evs ≡ some ps)
    × TellAll ps (items m.content)

follow-goes_on :
    (object : String → String) (ps qs : List Piece) (ev : Event)
    → follow object ps ev ≡ some qs
    → is_terminal_event ev ≡ false
unfolding follow is_terminal_event
follow-goes_on object ps qs ev h = ground arith

replay-All :
    (object : String → String) (evs : List Event) (ps qs : List Piece)
    → replay object ps evs ≡ some qs
    → All (λ e. is_terminal_event e ≡ false) evs
unfolding replay
replay-All object [] ps qs h = tt
replay-All object (ev ∷ evs) ps qs h = elim (Option-cases (follow object ps ev)) [
  | inl n ↦ absurd (ground arith)
  | inr (r, e) ↦ (follow-goes_on object ps r ev e, replay-All object evs r qs (ground arith))
]

-- The last event is pushed on a stream that the consumer has followed.
pub push-IsTurn :
    (object : String → String) (out : Stream) (ps : List Piece) (ev : Event) (m : AssistantMessage)
    → out.done ≡ false
    → replay object [] out.queue ≡ some ps
    → TellAll ps (items m.content)
    → Ends ev m
    → IsTurn object (push out ev)
unfolding push is_terminal_event event_result
push-IsTurn object out ps (Event.done r p) m d q t e = (
  out.queue,
  Event.done r p,
  m,
  ps,
  simp (d, e.0) refl,
  replay-All object out.queue [] _ q,
  e,
  q,
  t,
)
push-IsTurn object out ps (Event.error r p) m d q t e = (
  out.queue,
  Event.error r p,
  m,
  ps,
  simp (d, e.0) refl,
  replay-All object out.queue [] _ q,
  e,
  q,
  t,
)
push-IsTurn object out ps (Event.start _) m d q t e = elim e [ ]
push-IsTurn object out ps (Event.text_start _ _) m d q t e = elim e [ ]
push-IsTurn object out ps (Event.text_delta _ _ _) m d q t e = elim e [ ]
push-IsTurn object out ps (Event.text_end _ _ _) m d q t e = elim e [ ]
push-IsTurn object out ps (Event.thinking_start _ _) m d q t e = elim e [ ]
push-IsTurn object out ps (Event.thinking_delta _ _ _) m d q t e = elim e [ ]
push-IsTurn object out ps (Event.thinking_end _ _ _) m d q t e = elim e [ ]
push-IsTurn object out ps (Event.tool_call_start _ _) m d q t e = elim e [ ]
push-IsTurn object out ps (Event.tool_call_delta _ _ _) m d q t e = elim e [ ]
push-IsTurn object out ps (Event.tool_call_end _ _ _) m d q t e = elim e [ ]
