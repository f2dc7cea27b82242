-- ===== src/Sse/RoundTrip.antt =====
-- The reader gives back the events that were written.
use kern_proxy.Base.{
  ◌≡◌, refl, Bool, true, false, not, ◌&&◌, Option, none, some, List, [], ◌∷◌, ◌++◌, ◌==◌,
  if◌then◌else◌,
}
use kern_proxy.Base.Bytes.{Bytes}
use kern_proxy.Sse.{Event, Reader, read_byte, Outcome, next, read_all}
use kern_proxy.Sse.Torn.{gather}
use kern_proxy.Sse.Encode.{is_plain}

abbrev pub resume : Outcome → List Event
resume Outcome.eof = []
resume (Outcome.event e r s) = e ∷ read_all r s

abbrev answer : Option Event × Reader → Bytes → Outcome
answer o s = elim o.0 [ none ↦ next o.1 s | some e ↦ Outcome.event e o.1 s ]

gather-answer :
    (o : Option Event × Reader) (s : Bytes)
    → read_all o.1 s ≡ resume (next o.1 s)
    → gather o s ≡ resume (answer o s)
gather-answer (none, r) s h = h
gather-answer (some e, r) s h = refl

-- `read_all` is what calls of `Next` return one after the other: nothing at `io.EOF`, or the
-- event, and then what the later calls return on the reader and the bytes that are left.
read_all-next : (s : Bytes) (r : Reader) → read_all r s ≡ resume (next r s)
unfolding read_all next
read_all-next [] r = refl
read_all-next (b ∷ s) r = gather-answer (read_byte r b) s (read_all-next s (read_byte r b).1)

-- The reader at the start of a line.
abbrev at_start : Event → Bool → Bytes → Reader
at_start e has buf = record {
  pending_lf = false;
  line = [];
  event = e;
  has_data = has;
  data_buf = buf;
}

-- The data so far, with the newline that joins a further line to it.
abbrev joined : Bool → Bytes → Bytes
joined has buf = if has then buf ++ b'\n' ∷ [] else buf

abbrev pub no_return : Bytes → Bool
no_return [] = true
no_return (c ∷ s) = not (c == b'\r') && no_return s

-- What a line can carry: no line end in a field, no carriage return in the payload.
pub record IsWritable (e : Event) : Type 0 where
  pub event_plain : is_plain e.event ≡ true
  pub payload_lines : no_return e.payload ≡ true
  pub id_plain : is_plain e.id ≡ true
  pub retry_plain : is_plain e.retry ≡ true
