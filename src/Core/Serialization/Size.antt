-- ===== src/Core/Serialization/Size.antt =====
-- crates/dovecote/src/serialization.rs: the measure of the binary projection against the projection itself.
use mathlib.Core.Option
use dovecote.Base.{
  ℕ, ◌+◌, ◌*◌, ◌≡◌, refl, ◌∙◌, ap, arith, len, bytes, utf8_char, Text, codes, List, [], ◌∷◌, ◌++◌,
  map, Option, none, some, saturating_add, saturating_mul, clamp,
}
use dovecote.Core.Crates.{Crates}
use dovecote.Core.Codecs.{Codecs}
use dovecote.Core.Extension.{ExtensionName, ExtensionValue}
use dovecote.Core.Event.Content.{EventContent}
use dovecote.Core.Projection.{present, binary_attributes, extension_attribute}
use dovecote.Core.Serialization

-- What one attribute costs: `ce-` and its name, `: ` and the line break, and its value with every byte escaped.
abbrev pub attribute_material : Text × Text → ℕ
attribute_material (name, value) = 3 + len name + 4 + len value * 3

abbrev pub total_material : List (Text × Text) → ℕ
total_material [] = 0
total_material (x ∷ xs) = attribute_material x + total_material xs

-- The header of the media type.
abbrev pub content_type_material : Option Text → ℕ
content_type_material none = 0
content_type_material (some value) = len Serialization.content_type_header + 4 + len value * 3

total-append :
    (xs ys : List (Text × Text)) → total_material (xs ++ ys) ≡ total_material xs + total_material ys
total-append [] ys = omega arith
total-append (x ∷ xs) ys = omega (arith, total-append xs ys)

abbrev optional_material : Text → Option Text → ℕ
optional_material name none = 0
optional_material name (some value) = attribute_material (name, value)

abbrev total_optional : List (Text × Option Text) → ℕ
total_optional [] = 0
total_optional ((name, o) ∷ l) = optional_material name o + total_optional l

total-present : (l : List (Text × Option Text)) → total_material (present l) ≡ total_optional l
unfolding present
total-present [] = refl
total-present ((name, none) ∷ l) = omega (arith, total-present l)
total-present ((name, some v) ∷ l) = omega (arith, total-present l)

len-ce : (name : Text) → len (codes "ce-" ++ name) ≡ 3 + len name
unfolding len bytes utf8_char
len-ce name = omega arith

module _ (c : Crates) (k : Codecs) where
  open c use {OffsetDateTime}

  add_binary_context-any :
      (a : ℕ) (name value : Text)
      → Serialization.add_binary_context c k a name value
        ≡ clamp (a + (len name + 4 + len value * 3))
  unfolding Serialization.add_binary_context saturating_add saturating_mul clamp
  add_binary_context-any a name value = ground arith

  clamp_once : (a b : ℕ) → clamp (clamp a + b) ≡ clamp (a + b)
  unfolding clamp
  clamp_once a b = ground arith

  add_binary_context-clamp :
      (a : ℕ) (name value : Text)
      → Serialization.add_binary_context c k (clamp a) name value
        ≡ clamp (a + (len name + 4 + len value * 3))
  add_binary_context-clamp a name value =
      add_binary_context-any (clamp a) name value ∙ clamp_once a _

  add_optional-clamp :
      (a : ℕ) (name : Text) (value : Option Text)
      → Serialization.add_optional_binary_context c k (clamp a) (codes "ce-" ++ name) value
        ≡ clamp (a + optional_material name value)
  add_optional-clamp a name none = ap clamp (omega arith)
  add_optional-clamp a name (some v) =
      add_binary_context-clamp a (codes "ce-" ++ name) v ∙ rw len-ce refl

  add_extensions-clamp :
      (es : List (ExtensionName × ExtensionValue OffsetDateTime)) (a : ℕ)
      → Serialization.add_extensions c k (clamp a) es
        ≡ clamp (a + total_material (map (extension_attribute c k) es))
  unfolding Serialization.add_extensions
  add_extensions-clamp [] a = ap clamp (omega arith)
  add_extensions-clamp (e ∷ es) a =
      rw
        (
          add_binary_context-clamp a (codes "ce-" ++ e.0.value)
              (Serialization.extension_binary_string c k e.1),
          len-ce e.0.value,
        )
        (add_extensions-clamp es _ ∙ ap clamp (omega arith))

  add_media_type-clamp :
      (a : ℕ) (value : Option Text)
      → Serialization.add_optional_binary_context c k
          (clamp a)
          Serialization.content_type_header
          value
        ≡ clamp (a + content_type_material value)
  add_media_type-clamp a none = ap clamp (omega arith)
  add_media_type-clamp a (some v) = add_binary_context-clamp a _ v

  -- The measure of the binary projection is the length of the data, what each attribute of the projection costs,
  -- and the header of the media type, or the largest `usize` when that is greater.
  pub binary_material_bytes-attributes :
      (content : EventContent OffsetDateTime)
      → Serialization.binary_material_bytes c k content
        ≡ clamp (
            Serialization.data_len content.event_data
            + total_material (binary_attributes c k content)
            + content_type_material (Option.map (λ t. t.value) content.datacontenttype))
  unfolding Serialization.binary_material_bytes binary_attributes
  binary_material_bytes-attributes content =
      rw
        (
          add_binary_context-any (Serialization.data_len content.event_data)
              (codes "ce-specversion") Serialization.spec_version,
          add_binary_context-clamp _ (codes "ce-id") content.id.value,
          add_binary_context-clamp _ (codes "ce-source") content.source.value,
          add_binary_context-clamp _ (codes "ce-type") content.event_type.value,
          add_optional-clamp _ (codes "subject") _,
          add_optional-clamp _ (codes "time") _,
          add_optional-clamp _ (codes "dataschema") _,
          add_optional-clamp _ (codes "partitionkey") _,
          add_extensions-clamp content.extensions.entries _,
          add_media_type-clamp _ _,
        )
        (rw (total-append (present _) _, total-present _)
          (ap clamp (
            omega (
              arith,
              len-ce (codes "specversion"),
              len-ce (codes "id"),
              len-ce (codes "source"),
              len-ce (codes "type"),
            ))))
