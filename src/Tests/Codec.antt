-- ===== src/Tests/Codec.antt =====
-- A codec for the tests: an object of records is written as counts and lengths, and read back from them.
use mathlib.Core.List.{append_assoc, append-nil}
use dovecote.Base.{
  ℕ, zero, suc, ◌≡◌, refl, ap, arith, true, false, ℤ, pos, negsuc, length, Text, [], ◌∷◌, ◌++◌,
  Option, none, some,
}
use dovecote.Core.Json.{
  Json, null, bool, number, string, array, object, Members, no_members, member, members_len,
}
use dovecote.Core.Codecs.{Codecs, CodecLaws, IsScalar, HasScalars, IsRecord, HasRecords}

abbrev Value : Type 0
Value = Json ℤ

abbrev cons_first : ℕ → Option (Text × Text) → Option (Text × Text)
cons_first x none = none
cons_first x (some (s, r)) = some (x ∷ s, r)

abbrev take_text : ℕ → Text → Option (Text × Text)
take_text zero s = some ([], s)
take_text (suc n) [] = none
take_text (suc n) (x ∷ s) = cons_first x (take_text n s)

take_text-append : (s r : Text) → take_text (length s) (s ++ r) ≡ some (s, r)
take_text-append [] r = refl
take_text-append (x ∷ s) r = ap (cons_first x) (take_text-append s r)

module _ (write : Value → Text) (read : Text → Option (Value × Text)) where
  abbrev write_members : Members ℤ → Text
  write_members no_members = []
  write_members (member k v m) = length k ∷ (k ++ (write v ++ write_members m))

  abbrev with_name : Text → Value → Option (Members ℤ × Text) → Option (Members ℤ × Text)
  with_name k v none = none
  with_name k v (some (m, r)) = some (member k v m, r)

  abbrev read_members : ℕ → Text → Option (Members ℤ × Text)
  read_members zero s = some (no_members, s)
  read_members (suc n) [] = none
  read_members (suc n) (l ∷ s) = elim (take_text l s) [
    | none ↦ none
    | some (k, r) ↦ elim (read r) [ none ↦ none | some (v, t) ↦ with_name k v (read_members n t) ]
  ]

  abbrev Reads : Members ℤ → Type 0
  Reads no_members = Unit {0}
  Reads (member k v m) = ((r : Text) → read (write v ++ r) ≡ some (v, r)) × Reads m

  read_members-write :
      (m : Members ℤ) (r : Text)
      → Reads m
      → read_members (members_len m) (write_members m ++ r) ≡ some (m, r)
  read_members-write no_members r h = refl
  read_members-write (member k v m) r h =
      rw (append_assoc, append_assoc)
        (ground (
          arith,
          take_text-append k (write v ++ (write_members m ++ r)),
          h.0 (write_members m ++ r),
          read_members-write m r h.1,
        ))

abbrev write_scalar : Value → Text
write_scalar null = []
write_scalar (bool true) = 0 ∷ 1 ∷ []
write_scalar (bool false) = 0 ∷ 0 ∷ []
write_scalar (number (pos n)) = 1 ∷ 0 ∷ n ∷ []
write_scalar (number (negsuc n)) = 1 ∷ 1 ∷ n ∷ []
write_scalar (string s) = 2 ∷ length s ∷ s
write_scalar (array v) = []
write_scalar (object m) = []

abbrev read_scalar : Text → Option (Value × Text)
read_scalar (zero ∷ zero ∷ r) = some (bool false, r)
read_scalar (zero ∷ suc n ∷ r) = some (bool true, r)
read_scalar (suc zero ∷ zero ∷ n ∷ r) = some (number (pos n), r)
read_scalar (suc zero ∷ suc m ∷ n ∷ r) = some (number (negsuc n), r)
read_scalar (suc (suc zero) ∷ l ∷ s) = elim (take_text l s) [
  | none ↦ none
  | some (t, r) ↦ some (string t, r)
]
read_scalar _ = none

abbrev write_record : Value → Text
write_record (object m) = members_len m ∷ write_members write_scalar read_scalar m
write_record _ = []

abbrev as_record : Option (Members ℤ × Text) → Option (Value × Text)
as_record none = none
as_record (some (m, r)) = some (object m, r)

abbrev read_record : Text → Option (Value × Text)
read_record [] = none
read_record (n ∷ s) = as_record (read_members write_scalar read_scalar n s)

abbrev write_object : Value → Text
write_object (object m) = members_len m ∷ write_members write_record read_record m
write_object _ = []

abbrev read_object : Text → Option Value
read_object [] = none
read_object (n ∷ s) = elim (read_members write_record read_record n s) [
  | none ↦ none
  | some (m, r) ↦ some (object m)
]

abbrev pub codecs : Codecs
codecs = record {
  Number = ℤ;
  number_of_i32 = λ i. i;
  as_i64 = some;
  to_text = write_object;
  to_vec = λ m. some (write_object (object m));
  from_text = read_object;
  from_slice = λ b. some null;
  base64_encode = λ b. b;
  base64_decode = some;
  i32_to_string = λ i. [];
}

scalar_reads :
    (v : Value) → IsScalar codecs v → (r : Text) → read_scalar (write_scalar v ++ r) ≡ some (v, r)
scalar_reads null h r = absurd h
scalar_reads (bool true) h r = refl
scalar_reads (bool false) h r = refl
scalar_reads (number (pos n)) h r = refl
scalar_reads (number (negsuc n)) h r = refl
scalar_reads (string s) h r = ground (arith, take_text-append s r)
scalar_reads (array v) h r = absurd h
scalar_reads (object m) h r = absurd h

scalars_read : (m : Members ℤ) → HasScalars codecs m → Reads write_scalar read_scalar m
scalars_read no_members h = tt
scalars_read (member k v m) h = (scalar_reads v h.0, scalars_read m h.1)

record_reads :
    (v : Value) → IsRecord codecs v → (r : Text) → read_record (write_record v ++ r) ≡ some (v, r)
record_reads (object m) h r =
    ap as_record (read_members-write write_scalar read_scalar m r (scalars_read m h.1))
record_reads null h r = absurd h
record_reads (bool b) h r = absurd h
record_reads (number n) h r = absurd h
record_reads (string s) h r = absurd h
record_reads (array v) h r = absurd h

records_read : (m : Members ℤ) → HasRecords codecs m → Reads write_record read_record m
records_read no_members h = tt
records_read (member k v m) h = (record_reads v h.0, records_read m h.1)

pub object_reads :
    (m : Members ℤ) → HasRecords codecs m → read_object (write_object (object m)) ≡ some (object m)
object_reads m h =
    let whole = read_members-write write_record read_record m [] (records_read m h) in
    ground (arith, whole, append-nil (write_members write_record read_record m))

abbrev pub codec_laws : CodecLaws codecs
codec_laws = record {
  from_text-to_text = λ m distinct h. object_reads m h;
  as_i64-number_of_i32 = λ i. refl;
  base64_decode-encode = λ b. refl;
}
