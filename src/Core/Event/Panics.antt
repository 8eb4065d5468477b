-- ===== src/Core/Event/Panics.antt =====
-- crates/dovecote/src/event.rs: the `expect` calls that validation reaches never panic.
use dovecote.Base.{
  ◌≡◌, ◌≢◌, refl, ap, arith, Bool, ◌||◌, true, false, Option, none, some, List, ℕ, Result, ok, err,
  ok_or, map_err, reject_if, ◌>>◌, ◌>>=◌, checked_add, Option-cases, inl, inr,
}
use dovecote.Core.Crates.{Crates}
use dovecote.Core.Codecs.{Codecs}
use dovecote.Core.Json.{Json, Members}
use dovecote.Core.Error.{ValidationError}
use dovecote.Core.Bounds.{EventSizeLimit}
use dovecote.Core.Bounds.Instants.{validate_optional_instant}
use dovecote.Core.Extension.{validate_trace_context}
use dovecote.Core.Value.{
  ContentType, new_content_type, content_type_is_json, EventData, json_data, binary, JsonData,
  new_json_data, is_json,
}
use dovecote.Core.Event.Content.{EventContent}
use dovecote.Core.Serialization
use dovecote.Core.Event

-- `from_slice::<Value>` returns a value for the bytes that it accepts.
pub record JsonLaws (c : Crates) (k : Codecs) : Type 0 where
  pub from_slice-parses :
      (b : List ℕ) → c.parses_json b ≡ true → (j : Json k.Number) × (k.from_slice b ≡ some j)

abbrev Safe : {A : Type 0} → Result Serialization.Fault A → Type 0
Safe r = r ≢ err Serialization.panicked

module _ {A : Type 0} where
  bind-Safe :
      {B : Type 0} (r : Result Serialization.Fault B) (f : B → Result Serialization.Fault A)
      → Safe r
      → ((b : B) → Safe (f b))
      → Safe (r >>= f)
  bind-Safe (ok b) f h g = g b
  bind-Safe (err e) f h g = λ p. h (ap err cc)

  then-Safe :
      (r : Result Serialization.Fault (Unit {0})) (rest : Result Serialization.Fault A)
      → Safe r
      → Safe rest
      → Safe (r >> rest)
  then-Safe (ok u) rest h g = g
  then-Safe (err e) rest h g = λ p. h (ap err cc)

  invalid-Safe : (r : Result ValidationError A) → Safe (map_err Serialization.invalid r)
  invalid-Safe (ok a) = λ p. absurd cc
  invalid-Safe (err e) = λ p. absurd cc

  ok_or-Safe : (o : Option A) (e : ValidationError) → Safe (ok_or o (Serialization.invalid e))
  ok_or-Safe none e = λ p. absurd cc
  ok_or-Safe (some a) e = λ p. absurd cc

reject_if-Safe : (b : Bool) (e : ValidationError) → Safe (reject_if b (Serialization.invalid e))
reject_if-Safe true e = λ p. absurd cc
reject_if-Safe false e = λ p. absurd cc

module _ (c : Crates) (k : Codecs) (laws : JsonLaws c k) where
  open c use {OffsetDateTime}

  -- A media type, and data, that the constructors make.
  abbrev pub IsMedia : Option ContentType → Type 0
  IsMedia none = Unit
  IsMedia (some t) = new_content_type c t.value ≡ ok t

  abbrev pub IsData : Option EventData → Type 0
  IsData none = Unit
  IsData (some (json_data v)) = new_json_data c v.value ≡ ok v
  IsData (some (binary b)) = Unit

  as_value-Safe :
      (v : JsonData) → new_json_data c v.value ≡ ok v → Safe (Serialization.as_value c k v)
  unfolding Serialization.as_value new_json_data
  as_value-Safe v h =
      let (j, found) = laws.from_slice-parses v.value (ground (arith, h)) in
      rw found (λ p. absurd cc)

  insert_data-Safe :
      (d : Option EventData) (m : Members k.Number)
      → IsData d
      → Safe (Serialization.insert_data c k d m)
  unfolding Serialization.insert_data
  insert_data-Safe none m h = λ p. absurd cc
  insert_data-Safe (some (json_data v)) m h =
      bind-Safe (Serialization.as_value c k v) _ (as_value-Safe v h) (λ j p. absurd cc)
  insert_data-Safe (some (binary b)) m h = λ p. absurd cc

  portable_size-Safe :
      (content : EventContent OffsetDateTime)
      → IsData content.event_data
      → Safe (Event.portable_size c k content)
  unfolding Event.portable_size Serialization.structured_json_bytes Serialization.structured_object
  portable_size-Safe content h =
      bind-Safe (Serialization.structured_json_bytes c k content) _
        (bind-Safe (Serialization.structured_object c k content) _
          (insert_data-Safe content.event_data _ h) (λ m. ok_or-Safe (k.to_vec m) _))
        (λ bytes.
          bind-Safe (ok_or (checked_add _ Event.content_type_bytes) _) _
            (ok_or-Safe (checked_add _ Event.content_type_bytes) _) (λ n p. absurd cc))

  type_is_json-total :
      (t : Option ContentType) → IsMedia t → (b : Bool) × (Event.type_is_json c k t ≡ some b)
  unfolding content_type_is_json new_content_type
  type_is_json-total none h = (false, refl)
  type_is_json-total (some t) h = elim (Option-cases (c.parse_mime t.value)) [
    | inl e ↦ absurd (ground (arith, e, h))
    | inr (m, e) ↦ (c.subtype_is_json m || c.suffix_is_json m, ground (arith, e))
  ]

  json_type-Safe :
      (b : Bool) (t : Option ContentType) → IsMedia t → Safe (Event.validate_json_type c k b t)
  unfolding Event.validate_json_type
  json_type-Safe false t h = λ p. absurd cc
  json_type-Safe true t h = let (b, found) = type_is_json-total t h in rw found (reject_if-Safe _ _)

  validate_data-Safe :
      (d : Option EventData) (t : Option ContentType)
      → IsMedia t
      → Safe (Event.validate_data c k d t)
  unfolding Event.validate_data
  validate_data-Safe none t h = λ p. absurd cc
  validate_data-Safe (some d) t h =
      then-Safe (reject_if _ (Event.wrong_type c k)) _ (reject_if-Safe _ _)
        (json_type-Safe (is_json d) t h)

  -- In the validation of a content whose media type and data come from their constructors, the `expect` of
  -- `JsonData::as_value` never fires.
  pub validate_content-NoPanic :
      (content : EventContent OffsetDateTime) (limit : EventSizeLimit)
      → IsMedia content.datacontenttype
      → IsData content.event_data
      → Event.validate_content c k content limit ≢ err Serialization.panicked
  unfolding Event.validate_content
  validate_content-NoPanic content limit media body =
      then-Safe (reject_if _ _) _ (reject_if-Safe _ _) (
        then-Safe (map_err Serialization.invalid (validate_optional_instant c "time" content.time))
          _ (invalid-Safe _)
          (then-Safe (map_err Serialization.invalid (validate_trace_context content.extensions)) _
            (invalid-Safe _)
            (then-Safe (Event.validate_data c k content.event_data content.datacontenttype) _
              (validate_data-Safe content.event_data content.datacontenttype media)
              (bind-Safe (Event.portable_size c k content) _ (portable_size-Safe content body)
                (λ n. reject_if-Safe _ _)))))
