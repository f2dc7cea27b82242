-- ===== src/Anthropic/Run/Flags.antt =====
-- What `decodeEvents` knows of `message_start` and `message_stop` behind each event.
use kern_proxy.Base.{
  ℕ, ◌≡◌, refl, sym, Bool, true, false, not, ◌||◌, Option, none, some, List, [], ◌∷◌, arith, String,
  ◌=ₛ◌, Bool-cases, inl, inr, if◌then◌else◌, eq_iff,
}
use mathlib.Core.Path.{subst}
use kern_proxy.Base.Bytes.{eq_bytes, codes}
use kern_proxy.Sse
use kern_proxy.Sse.{new_reader, read_all}
use kern_proxy.Anthropic.Wire.{Json, RawStart, RawDelta, RawMessageDelta, decode_with_repair}
use kern_proxy.Anthropic.Blocks.{
  Kind, BlockState, Decoding, Outcome, Failure, delta_at, start_block, stop_kind, find_block,
}
use kern_proxy.Anthropic.Decode.{
  handle, parsed, at_block, decode_event, given_reason, mapped_reason, is_message_event,
}

-- What holds of the variables if the decoder goes on.
abbrev pub Went : (Decoding → Type 0) → Outcome → Type 0
Went P (Outcome.goes_on t) = P t
Went P _ = Unit

abbrev pub Keeps : Decoding → Decoding → Type 0
Keeps s t = (t.saw_start ≡ s.saw_start) × (t.saw_stop ≡ s.saw_stop)

delta_at-Keeps :
    (j : Json) (s : Decoding) (raw : RawDelta) (i : ℕ) (b : BlockState)
    → Went (Keeps s) (delta_at j s raw i b)
unfolding delta_at
delta_at-Keeps j s raw i b = ground arith

start_block-Keeps : (j : Json) (s : Decoding) (raw : RawStart) → Keeps s (start_block j s raw)
unfolding start_block
start_block-Keeps j s raw = ground arith

stop_kind-Keeps :
    (j : Json) (s : Decoding) (i : ℕ) (b : BlockState) (k : Kind)
    → Went (Keeps s) (stop_kind j s i b k)
unfolding stop_kind
stop_kind-Keeps j s i b k = ground arith

parsed-Went :
    {A : Type 0} (P : Decoding → Type 0) (ev : Sse.Event) (s : Decoding) (o : Option A)
    (f : A → Outcome)
    → ((a : A) → Went P (f a))
    → Went P (parsed ev s o f)
unfolding parsed
parsed-Went P ev s none f k = tt
parsed-Went P ev s (some a) f k = k a

at_block-Keeps :
    (s : Decoding) (o : Option (ℕ × BlockState)) (f : ℕ → BlockState → Outcome)
    → ((i : ℕ) (b : BlockState) → Went (Keeps s) (f i b))
    → Went (Keeps s) (at_block s o f)
unfolding at_block
at_block-Keeps s none f k = (refl, refl)
at_block-Keeps s (some (i, b)) f k = k i b

given_reason-Keeps :
    (s : Decoding) (raw : RawMessageDelta) (o : Option String)
    → Went (Keeps s) (given_reason s raw o)
unfolding given_reason mapped_reason
given_reason-Keeps s raw o = ground arith

-- `sawStart` and `sawStop` behind an event of a type.
abbrev pub Seen : Decoding → String → Decoding → Type 0
Seen s name t =
    (t.saw_start ≡ (s.saw_start || name =ₛ "message_start"))
    × (t.saw_stop ≡ (s.saw_stop || name =ₛ "message_stop"))

Keeps-Seen :
    (s : Decoding) (name : String) (o : Outcome)
    → (name =ₛ "message_start") ≡ false
    → (name =ₛ "message_stop") ≡ false
    → Went (Keeps s) o
    → Went (Seen s name) o
Keeps-Seen s name (Outcome.goes_on t) h k w = ground arith
Keeps-Seen s name (Outcome.fails t e) h k w = tt
Keeps-Seen s name Outcome.panics h k w = tt

-- A branch of the switch.
case-Seen :
    (s : Decoding) (name label : String) (x y : Outcome)
    → Went (Seen s label) x
    → ((name =ₛ label) ≡ false → Went (Seen s name) y)
    → Went (Seen s name) (if name =ₛ label then x else y)
case-Seen s name label x y h k = elim (Bool-cases (name =ₛ label)) [
  | inl e ↦ rw e (subst (λ n. Went (Seen s n) x) (sym ((eq_iff name label).0 e)) h)
  | inr e ↦ rw e (k e)
]

or_true : (b : Bool) → true ≡ (b || true)
or_true true = refl
or_true false = refl

or_false : (b : Bool) → b ≡ (b || false)
or_false true = refl
or_false false = refl

handle-Seen :
    (j : Json) (s : Decoding) (ev : Sse.Event) (name : String)
    → Went (Seen s name) (handle j s ev name)
unfolding handle
handle-Seen j s ev name =
    case-Seen s name "message_start" _ _
      (parsed-Went (Seen s "message_start") ev _ _ _
        (λ raw. (or_true s.saw_start, or_false s.saw_stop)))
      (λ a.
        case-Seen s name "content_block_start" _ _
          (Keeps-Seen s "content_block_start" _ refl refl
            (parsed-Went (Keeps s) ev s _ _ (λ raw. start_block-Keeps j s raw)))
          (λ b.
            case-Seen s name "content_block_delta" _ _
              (Keeps-Seen s "content_block_delta" _ refl refl (
                parsed-Went (Keeps s) ev s _ _ (λ raw.
                  at_block-Keeps s (find_block raw.index s.blocks) _ (delta_at-Keeps j s raw))))
              (λ b.
                case-Seen s name "content_block_stop" _ _
                  (Keeps-Seen s "content_block_stop" _ refl refl (
                    parsed-Went (Keeps s) ev s _ _ (λ index.
                      at_block-Keeps s (find_block index s.blocks) _
                        (λ i b. stop_kind-Keeps j s i b b.kind))))
                  (λ b.
                    case-Seen s name "message_delta" _ _
                      (Keeps-Seen s "message_delta" _ refl refl (
                        parsed-Went (Keeps s) ev s _ _
                          (λ raw. given_reason-Keeps s raw raw.stop_reason)))
                      (λ b.
                        case-Seen s name "message_stop" _ _
                          (or_false s.saw_start, or_true s.saw_stop)
                          (λ c. Keeps-Seen s name (Outcome.goes_on s) a c (refl, refl)))))))

-- The type of an event of the protocol.
unfoldable pub type_of : Json → Sse.Event → String
type_of j ev =
    if is_message_event ev.event
    then elim (decode_with_repair j.unmarshal_type ev.payload) [ none ↦ "" | some name ↦ name ]
    else ""

unfoldable pub some_type : Json → String → List Sse.Event → Bool
some_type j name [] = false
some_type j name (ev ∷ evs) = type_of j ev =ₛ name || some_type j name evs

round-Seen :
    (j : Json) (s : Decoding) (ev : Sse.Event) (is_error is_message : Bool) (o : Option String)
    → Went (Seen s (if is_message then elim o [ none ↦ "" | some name ↦ name ] else "")) (
        if is_error
        then Outcome.fails s (Failure.error_event ev.payload)
        else if not is_message
        then Outcome.goes_on s
        else parsed ev s o (handle j s ev))
unfolding parsed
round-Seen j s ev true m o = tt
round-Seen j s ev false false o = (or_false s.saw_start, or_false s.saw_stop)
round-Seen j s ev false true none = tt
round-Seen j s ev false true (some name) = handle-Seen j s ev name

pub decode_event-Seen :
    (j : Json) (s : Decoding) (ev : Sse.Event) → Went (Seen s (type_of j ev)) (decode_event j s ev)
unfolding decode_event type_of
decode_event-Seen j s ev =
    round-Seen j s ev (eq_bytes ev.event (codes "error")) (is_message_event ev.event)
      (decode_with_repair j.unmarshal_type ev.payload)
