-- ===== src/Core/Codecs.antt =====
-- What the core crate uses of the crates `serde_json` and `base64`, and of the decimal printing of integers,
-- as a parameter of the model. The texts of another crate's diagnostics are left out.
use dovecote.Base.{ℕ, ◌≡◌, ℤ, Text, List, Option, some}
use dovecote.Core.Json.{
  Json, Members, null, bool, number, string, array, object, no_members, member, IsDistinct,
}

pub record Codecs : Type 1 where
  -- `serde_json::Number`, `Number::from(i32)` and `Value::as_i64` of a number
  pub Number : Type 0
  pub number_of_i32 : ℤ → Number
  pub as_i64 : Number → Option ℤ
  -- `Value::to_string`, `serde_json::to_vec`, and `from_str` and `from_slice` into a `Value`
  pub to_text : Json Number → Text
  pub to_vec : Members Number → Option (List ℕ)
  pub from_text : Text → Option (Json Number)
  pub from_slice : List ℕ → Option (Json Number)
  -- the `STANDARD` engine of base64
  pub base64_encode : List ℕ → Text
  pub base64_decode : Text → Option (List ℕ)
  -- `i32::to_string`
  pub i32_to_string : ℤ → Text

-- A Boolean, a text, or the number of an `i32`.
abbrev pub IsScalar : (k : Codecs) → Json k.Number → Type 0
IsScalar k null = ⊥
IsScalar k (bool b) = Unit {0}
IsScalar k (number n) = (i : ℤ) × (n ≡ k.number_of_i32 i)
IsScalar k (string s) = Unit {0}
IsScalar k (array v) = ⊥
IsScalar k (object m) = ⊥

-- Members that are scalars, each name once; and members that are objects of scalars.
abbrev pub HasScalars : (k : Codecs) → Members k.Number → Type 0
HasScalars k no_members = Unit {0}
HasScalars k (member n v m) = IsScalar k v × HasScalars k m

abbrev pub IsRecord : (k : Codecs) → Json k.Number → Type 0
IsRecord k (object m) = IsDistinct m × HasScalars k m
IsRecord k _ = ⊥

abbrev pub HasRecords : (k : Codecs) → Members k.Number → Type 0
HasRecords k no_members = Unit {0}
HasRecords k (member n v m) = IsRecord k v × HasRecords k m

-- Printing and parsing of an object of records, of an `i32` and of bytes are inverse.
pub record CodecLaws (k : Codecs) : Type 0 where
  pub from_text-to_text :
      (m : Members k.Number)
      → IsDistinct m
      → HasRecords k m
      → k.from_text (k.to_text (object m)) ≡ some (object m)
  pub as_i64-number_of_i32 : (i : ℤ) → k.as_i64 (k.number_of_i32 i) ≡ some i
  pub base64_decode-encode : (b : List ℕ) → k.base64_decode (k.base64_encode b) ≡ some b
