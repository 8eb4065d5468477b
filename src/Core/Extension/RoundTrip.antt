-- ===== src/Core/Extension/RoundTrip.antt =====
-- crates/dovecote/src/extension.rs: reading back what `canonical_json` writes.
use mathlib.Core.List.{append_assoc, append-nil}
use dovecote.Base.{
  ◌≡◌, refl, ap, sym, list_eq_sym, ◌∙◌, Text, list_eq, list_eq_refl, list_lt-list_eq, List, [], ◌∷◌,
  ◌++◌, All, After, Before, Before-append, insert-last, IsOrdered, ok,
}
use dovecote.Core.Validation.Rfc3339.{SpellingLaws, parse-format_timestamp, canonical-IsWritable}
use dovecote.Core.Crates.{Crates}
use dovecote.Core.Json.{
  Json, Members, no_members, member, insert_member, get_member, without_member, append_members,
  append_members_nil, append_members_assoc, insert_member-Lacks, Lacks, Lacks-append_members,
  IsDistinct,
}
use dovecote.Core.Codecs.{Codecs, CodecLaws, IsRecord, HasRecords}
use dovecote.Core.Validation.Timestamps.{format_timestamp}
use dovecote.Core.Extension.{
  ExtensionName, ExtensionValue, string_value, uri_value, uri_reference_value, timestamp_value,
  Extensions, put,
}
use dovecote.Core.Extension.Durable
use dovecote.Core.Extension.Validity.{IsName, IsValue, timestamp_canonical, IsExtensions}

module _ (c : Crates) (k : Codecs) where
  open c use {OffsetDateTime}
  open k use {Number}

  abbrev Entry : Type 0
  Entry = ExtensionName × ExtensionValue OffsetDateTime

  -- The members of the durable object, in the order of the entries.
  abbrev tagged_members : List Entry → Members Number
  tagged_members [] = no_members
  tagged_members (e ∷ es) = member e.0.value (Durable.tagged_json c k e.1) (tagged_members es)

  abbrev AllLack : List Entry → Members Number → Type 0
  AllLack [] m = Unit
  AllLack (e ∷ es) m = Lacks e.0.value m × AllLack es m

  AllLack-append :
      (n : Text) (v : Json Number) (es : List Entry) (m : Members Number)
      → After (λ x. x.value) n es
      → AllLack es m
      → AllLack es (append_members m (member n v no_members))
  AllLack-append n v [] m a h = tt
  AllLack-append n v (e ∷ es) m a h = (
    Lacks-append_members e.0.value m _ h.0 (list_lt-list_eq n e.0.value a.0, tt),
    AllLack-append n v es m a.1 h.1,
  )

  canonical_members-tagged :
      (es : List Entry) (m : Members Number)
      → IsOrdered (λ n. n.value) es
      → AllLack es m
      → Durable.canonical_members c k es m ≡ append_members m (tagged_members es)
  unfolding Durable.canonical_members
  canonical_members-tagged [] m o h = sym (append_members_nil m)
  canonical_members-tagged (e ∷ es) m o h =
      let v = Durable.tagged_json c k e.1 in
      rw (insert_member-Lacks e.0.value v m h.0) (
        canonical_members-tagged es _ o.1 (AllLack-append e.0.value v es m o.0 h.1)
        ∙ append_members_assoc m _ _)

  AllLack-nothing : (es : List Entry) → AllLack es no_members
  AllLack-nothing [] = tt
  AllLack-nothing (e ∷ es) = (tt, AllLack-nothing es)

  pub canonical_json-tagged :
      (e : Extensions OffsetDateTime)
      → IsOrdered (λ n. n.value) e.entries
      → Durable.canonical_json c k e ≡ k.to_text (Json.object (tagged_members e.entries))
  unfolding Durable.canonical_json
  canonical_json-tagged e o =
      ap (λ m. k.to_text (Json.object m))
        (canonical_members-tagged e.entries no_members o (AllLack-nothing e.entries))

  Lacks-tagged :
      (n : Text) (es : List Entry) → After (λ x. x.value) n es → Lacks n (tagged_members es)
  Lacks-tagged n [] a = tt
  Lacks-tagged n (e ∷ es) a =
      (list_eq_sym e.0.value n ∙ list_lt-list_eq n e.0.value a.0, Lacks-tagged n es a.1)

  tagged-IsDistinct :
      (es : List Entry) → IsOrdered (λ n. n.value) es → IsDistinct (tagged_members es)
  tagged-IsDistinct [] o = tt
  tagged-IsDistinct (e ∷ es) o = (Lacks-tagged e.0.value es o.0, tagged-IsDistinct es o.1)

  tagged_json-IsRecord :
      (v : ExtensionValue OffsetDateTime) → IsRecord k (Durable.tagged_json c k v)
  unfolding Durable.tagged_json Durable.type_name_of Durable.structured_json_value insert_member
      list_eq
  tagged_json-IsRecord (ExtensionValue.boolean b) = (((refl, tt), (tt, tt)), (tt, (tt, tt)))
  tagged_json-IsRecord (ExtensionValue.integer i) = (((refl, tt), (tt, tt)), (tt, ((i, refl), tt)))
  tagged_json-IsRecord (ExtensionValue.string s) = (((refl, tt), (tt, tt)), (tt, (tt, tt)))
  tagged_json-IsRecord (ExtensionValue.binary b) = (((refl, tt), (tt, tt)), (tt, (tt, tt)))
  tagged_json-IsRecord (ExtensionValue.uri u) = (((refl, tt), (tt, tt)), (tt, (tt, tt)))
  tagged_json-IsRecord (ExtensionValue.uri_reference u) = (((refl, tt), (tt, tt)), (tt, (tt, tt)))
  tagged_json-IsRecord (ExtensionValue.timestamp t) = (((refl, tt), (tt, tt)), (tt, (tt, tt)))

  tagged-HasRecords : (es : List Entry) → HasRecords k (tagged_members es)
  tagged-HasRecords [] = tt
  tagged-HasRecords (e ∷ es) = (tagged_json-IsRecord e.1, tagged-HasRecords es)

  -- The names of the list come after all those that are there.
  abbrev AllBefore : List Entry → List Entry → Type 0
  AllBefore acc [] = Unit
  AllBefore acc (e ∷ es) = Before (λ n. n.value) e.0.value acc × AllBefore acc es

  AllBefore-nothing : (es : List Entry) → AllBefore [] es
  AllBefore-nothing [] = tt
  AllBefore-nothing (e ∷ es) = (tt, AllBefore-nothing es)

  module _ (laws : CodecLaws k) (spelling : SpellingLaws c) where
    decode_value-structured :
        (name : Text) (v : ExtensionValue OffsetDateTime)
        → IsValue c v
        → Durable.decode_value c k name
            (Durable.type_name_of c k v)
            (Durable.structured_json_value c k v)
          ≡ ok v
    unfolding Durable.decode_value Durable.type_name_of Durable.structured_json_value list_eq
        Durable.decode_boolean Durable.decode_integer Durable.decode_validated_string
        Durable.decode_binary Durable.decode_timestamp string_value uri_value uri_reference_value
        timestamp_value
    decode_value-structured name (ExtensionValue.boolean b) h = refl
    decode_value-structured name (ExtensionValue.integer i) h =
        rw (laws.as_i64-number_of_i32 i, h) refl
    decode_value-structured name (ExtensionValue.string s) h = rw h refl
    decode_value-structured name (ExtensionValue.binary b) h = rw (laws.base64_decode-encode b) refl
    decode_value-structured name (ExtensionValue.uri u) h = rw h refl
    decode_value-structured name (ExtensionValue.uri_reference u) h = rw h refl
    decode_value-structured name (ExtensionValue.timestamp t) h =
        rw
          (
            parse-format_timestamp c spelling t.value
                (canonical-IsWritable c "extension timestamp" t.value (timestamp_canonical c t h)),
            list_eq_refl (format_timestamp c t.value),
            h,
          )
          refl

    decode_entry-tagged :
        (e : Entry)
        → IsName e.0
        → IsValue c e.1
        → Durable.decode_entry c k e.0.value (Durable.tagged_json c k e.1) ≡ ok e
    unfolding Durable.decode_entry Durable.tagged_json insert_member get_member without_member
        list_eq
    decode_entry-tagged e n v = rw (n, decode_value-structured e.0.value e.1 v) refl

    AllBefore-append :
        (acc es : List Entry) (e : Entry)
        → AllBefore acc es
        → After (λ x. x.value) e.0.value es
        → AllBefore (acc ++ e ∷ []) es
    AllBefore-append acc [] e b a = tt
    AllBefore-append acc (d ∷ es) e b a =
        (Before-append (λ x. x.value) d.0.value acc e b.0 a.0, AllBefore-append acc es e b.1 a.1)

    decode_entries-tagged :
        (es acc : List Entry)
        → IsOrdered (λ n. n.value) es
        → AllBefore acc es
        → All (λ x. IsName x.0 × IsValue c x.1) es
        → Durable.decode_entries c k (tagged_members es) (record { entries = acc })
          ≡ ok (record { entries = acc ++ es })
    unfolding Durable.decode_entries put
    decode_entries-tagged [] acc o b v = rw append-nil refl
    decode_entries-tagged (e ∷ es) acc o b v =
        rw (decode_entry-tagged e v.0.0 v.0.1, insert-last (λ n. n.value) e.0 e.1 acc b.0)
          (decode_entries-tagged es (acc ++ e ∷ []) o.1 (AllBefore-append acc es e b.1 o.0) v.1
            ∙ rw append_assoc refl)

    -- Reading back the durable form of a valid extension set gives the set again: every name, every value
    -- with its type, and their order.
    pub from_canonical_json-canonical_json :
        (e : Extensions OffsetDateTime)
        → IsExtensions c e
        → Durable.from_canonical_json c k (Durable.canonical_json c k e) ≡ ok e
    unfolding Durable.from_canonical_json
    from_canonical_json-canonical_json e v =
        let parsed =
          laws.from_text-to_text (tagged_members e.entries) (tagged-IsDistinct e.entries v.ordered)
            (tagged-HasRecords e.entries) in
        let read =
          decode_entries-tagged e.entries [] v.ordered (AllBefore-nothing e.entries) v.entries in
        let same = list_eq_refl (Durable.canonical_json c k e) in
        let written = canonical_json-tagged e v.ordered in
        rw (ap k.from_text written ∙ parsed) (rw (read, v.trace, same) refl)
