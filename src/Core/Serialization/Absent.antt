-- ===== src/Core/Serialization/Absent.antt =====
-- crates/dovecote/src/serialization.rs: the structured projection as a list of members that may be absent.
use mathlib.Core.Option
use dovecote.Base.{
  ◌≡◌, refl, ◌∙◌, sym, codes, List, [], ◌∷◌, ◌++◌, Option, none, some, Result, ok, ◌>>=◌,
}
use dovecote.Core.Crates.{Crates}
use dovecote.Core.Json.{
  Json, Members, append_members, append_members_nil, append_members_assoc, insert_member-Lacks,
}
use dovecote.Core.Json.Slots.{Slots, members_present, Distinct, AllLack, AllLack-append}
use dovecote.Core.Codecs.{Codecs}
use dovecote.Core.Validation.Timestamps.{format_timestamp}
use dovecote.Core.Value.{EventData, json_data, binary}
use dovecote.Core.Extension.{ExtensionName, ExtensionValue}
use dovecote.Core.Extension.Durable.{structured_json_value}
use dovecote.Core.Event.Content.{EventContent}
use dovecote.Core.Serialization

module _ (c : Crates) (k : Codecs) where
  open c use {OffsetDateTime}
  open k use {Number}

  abbrev pub insert_slots : Slots Number → Members Number → Members Number
  insert_slots [] m = m
  insert_slots ((n, o) ∷ l) m = insert_slots l (Serialization.insert_optional_json_member c k n o m)

  pub insert_slots-append :
      (l r : Slots Number) (m : Members Number)
      → insert_slots (l ++ r) m ≡ insert_slots r (insert_slots l m)
  insert_slots-append [] r m = refl
  insert_slots-append (s ∷ l) r m = insert_slots-append l r _

  -- Under distinct names no insertion replaces a value.
  pub insert_slots-present :
      (l : Slots Number) (m : Members Number)
      → Distinct l
      → AllLack l m
      → insert_slots l m ≡ append_members m (members_present l)
  insert_slots-present [] m d h = sym (append_members_nil m)
  insert_slots-present ((n, none) ∷ l) m d h = insert_slots-present l m d.1 h.1
  insert_slots-present ((n, some v) ∷ l) m d h =
      rw (insert_member-Lacks n v m h.0)
        (insert_slots-present l _ d.1 (AllLack-append n v l m d.0 h.1) ∙ append_members_assoc m _ _)

  -- The attributes of the context, in the order that the format gives them.
  abbrev pub context_slots : EventContent OffsetDateTime → Slots Number
  context_slots content =
      (codes "specversion", some (Json.string Serialization.spec_version))
      ∷ (codes "id", some (Json.string content.id.value))
      ∷ (codes "source", some (Json.string content.source.value))
      ∷ (codes "type", some (Json.string content.event_type.value))
      ∷ (codes "subject", Option.map (λ v. Json.string v.value) content.subject)
      ∷ (codes "time", Option.map (λ v. Json.string (format_timestamp c v)) content.time)
      ∷ (codes "datacontenttype", Option.map (λ v. Json.string v.value) content.datacontenttype)
      ∷ (codes "dataschema", Option.map (λ v. Json.string v.value.value) content.dataschema)
      ∷ (codes "partitionkey", Option.map (λ v. Json.string v.value) content.partitionkey)
      ∷ []

  abbrev pub extension_slots : List (ExtensionName × ExtensionValue OffsetDateTime) → Slots Number
  extension_slots [] = []
  extension_slots ((name, value) ∷ rest) =
      (name.value, some (structured_json_value c k value)) ∷ extension_slots rest

  -- The member of the data: the parsed JSON with its names sorted, or the bytes in base64.
  abbrev pub data_slots : Option EventData → Result Serialization.Fault (Slots Number)
  data_slots none = ok []
  data_slots (some (json_data value)) = do
    parsed ← Serialization.as_value c k value
    ok ((codes "data", some (Serialization.canonicalize_json parsed)) ∷ [])
  data_slots (some (binary value)) =
      ok ((codes "data_base64", some (Json.string (k.base64_encode value))) ∷ [])

  pub insert_extensions-slots :
      (es : List (ExtensionName × ExtensionValue OffsetDateTime)) (m : Members Number)
      → Serialization.insert_extensions c k es m ≡ insert_slots (extension_slots es) m
  unfolding Serialization.insert_extensions
  insert_extensions-slots [] m = refl
  insert_extensions-slots (e ∷ es) m = insert_extensions-slots es _
