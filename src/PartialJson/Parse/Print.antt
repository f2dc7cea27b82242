-- ===== src/PartialJson/Parse/Print.antt =====
-- JSON as it is written, without blanks, and the values that the round trip is stated for.
use kern_proxy.Base.{◌≡◌, Bool, true, false, not, ◌&&◌, ◌||◌, [], ◌∷◌, ◌++◌, ◌==◌}
use kern_proxy.Base.Bytes.{Bytes, codes, between, eq_bytes}
use kern_proxy.PartialJson.Text.{is_number_char}
use kern_proxy.PartialJson.Parse.{Value, Values, Fields}

abbrev pub quoted : Bytes → Bytes → Bytes
quoted t rest = b'"' ∷ t ++ b'"' ∷ rest

-- Each writes in front of the text that it is given.
unfoldable mutual
  pub print : Value → Bytes → Bytes
  print Value.null rest = codes "null" ++ rest
  print (Value.bool true) rest = codes "true" ++ rest
  print (Value.bool false) rest = codes "false" ++ rest
  print (Value.number t) rest = t ++ rest
  print (Value.string t) rest = quoted t rest
  print (Value.array vs) rest = b'[' ∷ print_values vs rest
  print (Value.object fs) rest = b'{' ∷ print_fields fs rest

  pub print_values : Values → Bytes → Bytes
  print_values Values.no_values rest = b']' ∷ rest
  print_values (Values.value v vs) rest = print v (print_more vs rest)

  pub print_more : Values → Bytes → Bytes
  print_more Values.no_values rest = b']' ∷ rest
  print_more (Values.value v vs) rest = b',' ∷ print v (print_more vs rest)

  pub print_fields : Fields → Bytes → Bytes
  print_fields Fields.no_fields rest = b'}' ∷ rest
  print_fields (Fields.field k v fs) rest = quoted k (b':' ∷ print v (print_more_fields fs rest))

  pub print_more_fields : Fields → Bytes → Bytes
  print_more_fields Fields.no_fields rest = b'}' ∷ rest
  print_more_fields (Fields.field k v fs) rest =
      b',' ∷ quoted k (b':' ∷ print v (print_more_fields fs rest))

abbrev pub has_key : Bytes → Fields → Bool
has_key k Fields.no_fields = false
has_key k (Fields.field j v fs) = eq_bytes j k || has_key k fs

-- A string that is written as it is.
abbrev pub is_plain : Bytes → Bool
is_plain [] = true
is_plain (c ∷ s) = not (c == b'"') && not (c == b'\\') && is_plain s

abbrev pub all_number_chars : Bytes → Bool
all_number_chars [] = true
all_number_chars (c ∷ s) = is_number_char c && all_number_chars s

abbrev pub starts_number : Bytes → Bool
starts_number [] = false
starts_number (c ∷ s) = c == b'-' || between b'0' b'9' c

-- The strings need no escape, the numbers are ones that `strconv.ParseFloat` takes, and no object has a
-- key twice.
abbrev pub IsNumber : (Bytes → Bool) → Bytes → Type 0
IsNumber f t = (f t ≡ true) × (starts_number t ≡ true) × (all_number_chars t ≡ true)

abbrev mutual
  pub IsPlain : (Bytes → Bool) → Value → Type 0
  IsPlain f (Value.number t) = IsNumber f t
  IsPlain f (Value.string t) = is_plain t ≡ true
  IsPlain f (Value.array vs) = ArePlain f vs
  IsPlain f (Value.object fs) = FieldsPlain f fs
  IsPlain f _ = Unit

  pub ArePlain : (Bytes → Bool) → Values → Type 0
  ArePlain f Values.no_values = Unit
  ArePlain f (Values.value v vs) = IsPlain f v × ArePlain f vs

  pub FieldsPlain : (Bytes → Bool) → Fields → Type 0
  FieldsPlain f Fields.no_fields = Unit
  FieldsPlain f (Fields.field k v fs) =
      (is_plain k ≡ true) × (has_key k fs ≡ false) × IsPlain f v × FieldsPlain f fs

-- What may stand behind a number.
abbrev pub ends_number : Bytes → Bool
ends_number [] = true
ends_number (c ∷ s) = not (is_number_char c)
