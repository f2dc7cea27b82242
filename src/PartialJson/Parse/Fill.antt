-- ===== src/PartialJson/Parse/Fill.antt =====
-- The elements and fields that the loops of the parser gather, in their order.
use kern_proxy.Base.{◌≡◌, refl, sym, ap, ◌∙◌, Bool, false, arith, Bool-cases, inl, inr}
use kern_proxy.Base.Bytes.{Bytes, eq_bytes, eq_bytes_iff}
use kern_proxy.PartialJson.Parse.{Value, Values, Fields, append_value, put_field}
use kern_proxy.PartialJson.Parse.Print.{has_key, FieldsPlain}

unfoldable pub append_all : Values → Values → Values
append_all out Values.no_values = out
append_all out (Values.value v vs) = append_all (append_value out v) vs

unfoldable pub put_all : Fields → Fields → Fields
put_all out Fields.no_fields = out
put_all out (Fields.field k v fs) = put_all (put_field k v out) fs

-- One list behind the other.
join_values : Values → Values → Values
join_values Values.no_values ws = ws
join_values (Values.value v vs) ws = Values.value v (join_values vs ws)

join_fields : Fields → Fields → Fields
join_fields Fields.no_fields gs = gs
join_fields (Fields.field k v fs) gs = Fields.field k v (join_fields fs gs)

join_values-append :
    (out : Values) (v : Value) (vs : Values)
    → join_values (append_value out v) vs ≡ join_values out (Values.value v vs)
unfolding join_values append_value
join_values-append Values.no_values v vs = refl
join_values-append (Values.value w out) v vs = ap (Values.value w) (join_values-append out v vs)

append_all-join : (out vs : Values) → append_all out vs ≡ join_values out vs
unfolding append_all join_values
append_all-join Values.no_values Values.no_values = refl
append_all-join (Values.value v out) Values.no_values =
    ap (Values.value v) (append_all-join out Values.no_values)
append_all-join out (Values.value v vs) =
    append_all-join (append_value out v) vs ∙ join_values-append out v vs

pub append_all-empty : (vs : Values) → append_all Values.no_values vs ≡ vs
unfolding join_values
append_all-empty vs = append_all-join Values.no_values vs

-- The keys of `fs` are not in `out`.
abbrev Apart : Fields → Fields → Type 0
Apart out Fields.no_fields = Unit
Apart out (Fields.field k v fs) = (has_key k out ≡ false) × Apart out fs

put_field-apart :
    (k : Bytes) (v : Value) (out fs : Fields)
    → has_key k out ≡ false
    → join_fields (put_field k v out) fs ≡ join_fields out (Fields.field k v fs)
unfolding put_field join_fields
put_field-apart k v Fields.no_fields fs h = refl
put_field-apart k v (Fields.field j w out) fs h =
    let e : eq_bytes j k ≡ false = ground arith in
    rw e (ap (Fields.field j w) (put_field-apart k v out fs (ground arith)))

eq_bytes-sym : (a b : Bytes) → eq_bytes a b ≡ false → eq_bytes b a ≡ false
eq_bytes-sym a b h = elim (Bool-cases (eq_bytes b a)) [
  | inl e ↦ absurd (ground (arith, (eq_bytes_iff a b).1 (sym ((eq_bytes_iff b a).0 e))))
  | inr e ↦ e
]

has_key-put :
    (j k : Bytes) (v : Value) (out : Fields)
    → has_key j out ≡ false
    → eq_bytes k j ≡ false
    → has_key j (put_field k v out) ≡ false
unfolding put_field
has_key-put j k v Fields.no_fields h e = ground arith
has_key-put j k v (Fields.field i w out) h e = elim (Bool-cases (eq_bytes i k)) [
  | inl x ↦ rw x (ground arith)
  | inr x ↦ rw x (ground (arith, has_key-put j k v out))
]

Apart-put :
    (k : Bytes) (v : Value) (out fs : Fields)
    → Apart out fs
    → has_key k fs ≡ false
    → Apart (put_field k v out) fs
Apart-put k v out Fields.no_fields h e = tt
Apart-put k v out (Fields.field j w fs) h e = (
  has_key-put j k v out h.0 (eq_bytes-sym j k (ground arith)),
  Apart-put k v out fs h.1 (ground arith),
)

put_all-join :
    (f : Bytes → Bool) (out fs : Fields)
    → FieldsPlain f fs
    → Apart out fs
    → put_all out fs ≡ join_fields out fs
unfolding put_all join_fields
put_all-join f Fields.no_fields Fields.no_fields h a = refl
put_all-join f (Fields.field k v out) Fields.no_fields h a =
    ap (Fields.field k v) (put_all-join f out Fields.no_fields tt tt)
put_all-join f out (Fields.field k v fs) h a =
    put_all-join f (put_field k v out) fs h.3 (Apart-put k v out fs a.1 h.1)
    ∙ put_field-apart k v out fs a.0

Apart-empty : (fs : Fields) → Apart Fields.no_fields fs
Apart-empty Fields.no_fields = tt
Apart-empty (Fields.field k v fs) = (refl, Apart-empty fs)

pub put_all-empty :
    (f : Bytes → Bool) (fs : Fields) → FieldsPlain f fs → put_all Fields.no_fields fs ≡ fs
unfolding join_fields
put_all-empty f fs h = put_all-join f Fields.no_fields fs h (Apart-empty fs)
