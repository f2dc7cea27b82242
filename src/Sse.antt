-- ===== src/Sse.antt =====
-- ai/internal/sse/sse.go: the reader of server-sent events. The bytes that the `io.Reader` has yet
-- to give are a list: `ReadByte` hides how they come in chunks, and the end of the list is
-- `io.EOF`. `next` is the loop of `Next` with that of `readLine` inside it.
pub mod Encode
pub mod Torn
pub mod RoundTrip
pub mod LineEnds
use kern_proxy.Base.{
  ℕ, Bool, true, false, not, ◌&&◌, ◌||◌, Option, none, some, List, [], ◌∷◌, ◌++◌, ◌==◌,
  if◌then◌else◌,
}
use kern_proxy.Base.Bytes.{Bytes, codes, eq_bytes}

pub record Event : Type 0 where
  pub event : Bytes
  pub payload : Bytes
  pub id : Bytes
  pub retry : Bytes

abbrev pub empty : Event
empty = record { event = []; payload = []; id = []; retry = [] }

pub record Reader : Type 0 where
  pub pending_lf : Bool
  pub line : Bytes
  pub event : Event
  pub has_data : Bool
  pub data_buf : Bytes

-- `NewReader`
abbrev pub new_reader : Reader
new_reader = record {
  pending_lf = false;
  line = [];
  event = empty;
  has_data = false;
  data_buf = [];
}

abbrev pub is_empty : Bytes → Bool
is_empty [] = true
is_empty (_ ∷ _) = false

-- `strings.Cut(line, ":")`, with `field, value = line, ""` where there is no colon.
unfoldable pub cut : Bytes → Bytes × Bytes
cut [] = ([], [])
cut (c ∷ s) = let (field, value) = cut s in if c == b':' then ([], s) else (c ∷ field, value)

-- `strings.TrimPrefix(value, " ")`
unfoldable pub trim_space : Bytes → Bytes
trim_space [] = []
trim_space (c ∷ s) = if c == b' ' then s else c ∷ s

-- The `switch field`.
unfoldable pub set_field : Reader → Bytes → Bytes → Reader
unfolding eq_bytes
set_field r field value =
    if eq_bytes field (codes "event")
    then record r { event = record r.event { event = value } }
    else if eq_bytes field (codes "data")
    then record r {
      data_buf = (if r.has_data then r.data_buf ++ b'\n' ∷ [] else r.data_buf) ++ value;
      has_data = true;
    }
    else if eq_bytes field (codes "id")
    then record r { event = record r.event { id = value } }
    else if eq_bytes field (codes "retry")
    then record r { event = record r.event { retry = value } }
    else r

abbrev is_comment : Bytes → Bool
is_comment [] = false
is_comment (c ∷ _) = c == b':'

unfoldable pub consume_field_line : Reader → Bytes → Reader
unfolding cut trim_space set_field
consume_field_line r line =
    if is_comment line
    then r
    else let (field, value) = cut line in set_field r field (trim_space value)

-- `p.hasData || p.event.Event != "" || p.event.ID != "" || p.event.Retry != ""`
abbrev carries : Reader → Bool
carries r =
    r.has_data
    || not (is_empty r.event.event)
    || not (is_empty r.event.id)
    || not (is_empty r.event.retry)

-- What `Next` does with a line that `readLine` has returned.
unfoldable pub end_line : Reader → Option Event × Reader
unfolding consume_field_line
end_line r =
    let s = record r { line = [] } in
    if not (is_empty r.line)
    then (none, consume_field_line s r.line)
    else if carries r
    then (
      some (record r.event { payload = r.data_buf }),
      record s { event = empty; has_data = false; data_buf = [] },
    )
    else (none, s)

-- One round of the loop of `readLine` on the byte that `ReadByte` gave, and what `Next` does if
-- that byte ends a line.
unfoldable pub read_byte : Reader → ℕ → Option Event × Reader
unfolding end_line
read_byte r b =
    if r.pending_lf && b == b'\n'
    then (none, record r { pending_lf = false })
    else if b == b'\n' || b == b'\r'
    then end_line (record r { pending_lf = b == b'\r' })
    else (none, record r { pending_lf = false; line = r.line ++ b ∷ [] })

pub data Outcome : Type 0 where
  eof : Outcome
  event : Event → Reader → Bytes → Outcome

-- `Next`: an event, with the reader and the bytes that are left, or `io.EOF`.
unfoldable pub next : Reader → Bytes → Outcome
next r [] = Outcome.eof
next r (b ∷ s) =
    let (found, r') = read_byte r b in
    elim found [ none ↦ next r' s | some e ↦ Outcome.event e r' s ]

-- All that `Next` returns when it is called until `io.EOF`.
unfoldable pub read_all : Reader → Bytes → List Event
read_all r [] = []
read_all r (b ∷ s) =
    let (found, r') = read_byte r b in
    let rest = read_all r' s in elim found [ none ↦ rest | some e ↦ e ∷ rest ]
