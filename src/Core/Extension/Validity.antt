-- ===== src/Core/Extension/Validity.antt =====
-- crates/dovecote/src/extension.rs: the extension sets that the constructors of the crate can make.
use dovecote.Base.{◌≡◌, ◌∙◌, ap, >>=-eq-ok, All, IsOrdered, ok, some}
use dovecote.Core.Crates.{Crates}
use dovecote.Core.Bounds.Instants.{canonicalize_instant}
use dovecote.Core.Value.{new_absolute_uri, new_uri_reference}
use dovecote.Core.Extension.{
  ExtensionName, Timestamp, new_extension_name, ExtensionValue, boolean, integer, string, binary,
  uri, uri_reference, timestamp, new_extension_string, new_timestamp, Extensions,
  validate_trace_context,
}
use dovecote.Core.Extension.Durable.{i32_try_from}

-- A name that `ExtensionName::new` makes.
abbrev pub IsName : ExtensionName → Type 0
IsName name = new_extension_name name.value ≡ ok name

module _ (c : Crates) where
  open c use {OffsetDateTime}

  -- A value that its constructor makes.
  abbrev pub IsValue : ExtensionValue OffsetDateTime → Type 0
  IsValue (boolean b) = Unit
  IsValue (integer i) = i32_try_from i ≡ some i
  IsValue (string s) = new_extension_string s.value ≡ ok s
  IsValue (binary b) = Unit
  IsValue (uri u) = new_absolute_uri c u.value ≡ ok u
  IsValue (uri_reference u) = new_uri_reference c u.value ≡ ok u
  IsValue (timestamp t) = new_timestamp c t.value ≡ ok t

  -- Names in their order, each once, with valid values and a valid trace context.
  pub record IsExtensions (e : Extensions OffsetDateTime) : Type 0 where
    pub ordered : IsOrdered (λ n. n.value) e.entries
    pub entries : All (λ x. IsName x.0 × IsValue x.1) e.entries
    pub trace : validate_trace_context e ≡ ok tt

  pub timestamp_canonical :
      (t : Timestamp OffsetDateTime)
      → IsValue (timestamp t)
      → canonicalize_instant c "extension timestamp" t.value ≡ ok t.value
  unfolding new_timestamp
  timestamp_canonical t h =
      let (at, made, same) = >>=-eq-ok (canonicalize_instant c "extension timestamp" t.value) _ h in
      let stored : at ≡ t.value = cc in made ∙ ap ok stored
