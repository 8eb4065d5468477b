-- ===== src/Core/Extension/Sound.antt =====
-- crates/dovecote/src/extension.rs: what a text that decodes is.
use dovecote.Base.{
  ◌≡◌, refl, ap, ◌∙◌, sym, subst, arith, ℤ, pos, negsuc, not, ◌==◌, Text, codes, list_eq,
  list_eq_sound, All, IsOrdered, All-insert, insert-IsOrdered, Bool-cases, Result-cases, inl, inr,
  Result, ok, ok_or, map_err, reject_if, Yields, bind-Yields, then-Yields, if-Yields, ok-Yields,
  err-Yields, map_err-Yields, map_err-eq-ok, ok_or-eq-ok, >>=-eq-ok, some,
}
use dovecote.Core.Error.{ValidationError}
use dovecote.Core.Crates.{Crates, TimeLaws}
use dovecote.Core.Json.{
  Json, Members, no_members, member, as_bool, as_str, as_object, members_len, get_member,
  without_member,
}
use dovecote.Core.Codecs.{Codecs}
use dovecote.Core.Bounds.Instants.{canonicalize_instant, canonicalize_instant_iff}
use dovecote.Core.Value.{new_absolute_uri, new_uri_reference, AbsoluteUri, UriReference}
use dovecote.Core.Extension.{
  ExtensionName, new_extension_name, ExtensionString, new_extension_string, Timestamp,
  ExtensionValue, string_value, uri_value, uri_reference_value, timestamp_value, new_timestamp,
  Extensions, new_extensions, put, validate_trace_context,
}
use dovecote.Core.Extension.Durable
use dovecote.Core.Extension.Validity.{IsName, IsValue, IsExtensions}

-- What a constructor makes of a text is what it makes of the text of its result.
new_extension_name-IsName :
    (s : Text) (n : ExtensionName) → new_extension_name s ≡ ok n → (n.value ≡ s) × IsName n
unfolding new_extension_name
new_extension_name-IsName s n h =
    let same : n.value ≡ s = ground (arith, h) in (same, ap new_extension_name same ∙ h)

new_extension_string_again :
    (s : Text) (t : ExtensionString)
    → new_extension_string s ≡ ok t
    → new_extension_string t.value ≡ ok t
unfolding new_extension_string
new_extension_string_again s t h = ground (arith, h)

i32_try_from_again : (i j : ℤ) → Durable.i32_try_from i ≡ some j → Durable.i32_try_from j ≡ some j
i32_try_from_again (pos n) j h = ground (arith, h)
i32_try_from_again (negsuc n) j h = ground (arith, h)

module _ (c : Crates) (time : TimeLaws c) where
  open c use {OffsetDateTime, parse_rfc3339}

  new_absolute_uri_again :
      (s : Text) (u : AbsoluteUri) → new_absolute_uri c s ≡ ok u → new_absolute_uri c u.value ≡ ok u
  unfolding new_absolute_uri
  new_absolute_uri_again s u h =
      let same : u.value ≡ s = ground (arith, h) in ap (new_absolute_uri c) same ∙ h

  new_uri_reference_again :
      (s : Text) (u : UriReference)
      → new_uri_reference c s ≡ ok u
      → new_uri_reference c u.value ≡ ok u
  unfolding new_uri_reference
  new_uri_reference_again s u h =
      let same : u.value ≡ s = ground (arith, h) in ap (new_uri_reference c) same ∙ h

  new_timestamp_again :
      (t : OffsetDateTime) (at : Timestamp OffsetDateTime)
      → new_timestamp c t ≡ ok at
      → new_timestamp c at.value ≡ ok at
  unfolding new_timestamp
  new_timestamp_again t at h =
      let (canonical, made, same) =
        >>=-eq-ok (canonicalize_instant c "extension timestamp" t) _ h in
      let stored : canonical ≡ at.value = cc in
      let (_, _, again) =
        (canonicalize_instant_iff c time "extension timestamp" t canonical).1 made in
      let repeated : new_timestamp c canonical ≡ new_timestamp c t = rw (again, made) refl in
      ap (new_timestamp c) (sym stored) ∙ repeated ∙ h

  -- The result of a decoder is a valid value.
  abbrev Makes : {E : Type 0} → Result E (ExtensionValue OffsetDateTime) → Type 0
  Makes r = Yields (IsValue c) r

  string_value-Makes : (s : Text) → Makes (string_value c s)
  unfolding string_value
  string_value-Makes s = bind-Yields (IsValue c) (new_extension_string s) _ (λ t made.
      ok-Yields (IsValue c) (ExtensionValue.string t) (new_extension_string_again s t made))

  uri_value-Makes : (s : Text) → Makes (uri_value c s)
  unfolding uri_value
  uri_value-Makes s =
      bind-Yields (IsValue c) (new_absolute_uri c s) _
        (λ u made. ok-Yields (IsValue c) (ExtensionValue.uri u) (new_absolute_uri_again s u made))

  uri_reference_value-Makes : (s : Text) → Makes (uri_reference_value c s)
  unfolding uri_reference_value
  uri_reference_value-Makes s = bind-Yields (IsValue c) (new_uri_reference c s) _ (λ u made.
      ok-Yields (IsValue c) (ExtensionValue.uri_reference u) (new_uri_reference_again s u made))

  timestamp_value-Makes : (t : OffsetDateTime) → Makes (timestamp_value c t)
  unfolding timestamp_value
  timestamp_value-Makes t = bind-Yields (IsValue c) (new_timestamp c t) _ (λ at made.
      ok-Yields (IsValue c) (ExtensionValue.timestamp at) (new_timestamp_again t at made))

  module _ (k : Codecs) where
    open k use {Number}

    decode_boolean-Makes :
        (name ty : Text) (j : Json Number) → Makes (Durable.decode_boolean c k name ty j)
    unfolding Durable.decode_boolean
    decode_boolean-Makes name ty j =
        bind-Yields (IsValue c) (ok_or (as_bool j) _) _
          (λ b made. ok-Yields (IsValue c) (ExtensionValue.boolean b) tt)

    decode_integer-Makes :
        (name ty : Text) (j : Json Number) → Makes (Durable.decode_integer c k name ty j)
    unfolding Durable.decode_integer
    decode_integer-Makes name ty j =
        bind-Yields (IsValue c) (ok_or (Durable.json_as_i64 c k j) _) _ (λ wide read.
          bind-Yields (IsValue c) (ok_or (Durable.i32_try_from wide) _) _ (λ i made.
            ok-Yields (IsValue c) (ExtensionValue.integer i)
              (i32_try_from_again wide i (ok_or-eq-ok _ _ made))))

    decode_validated_string-Makes :
        (name ty : Text) (j : Json Number)
        (make : Text → Result ValidationError (ExtensionValue OffsetDateTime))
        → ((s : Text) → Makes (make s))
        → Makes (Durable.decode_validated_string c k name ty j make)
    unfolding Durable.decode_validated_string
    decode_validated_string-Makes name ty j make f =
        bind-Yields (IsValue c) (ok_or (as_str j) _) _
          (λ s read. map_err-Yields (IsValue c) _ (make s) (f s))

    decode_binary-Makes : (name : Text) (j : Json Number) → Makes (Durable.decode_binary c k name j)
    unfolding Durable.decode_binary
    decode_binary-Makes name j = bind-Yields (IsValue c) (ok_or (as_str j) _) _ (λ s read.
        bind-Yields (IsValue c) (ok_or (k.base64_decode s) _) _
          (λ b made. ok-Yields (IsValue c) (ExtensionValue.binary b) tt))

    decode_timestamp-Makes :
        (name ty : Text) (j : Json Number) → Makes (Durable.decode_timestamp c k name ty j)
    unfolding Durable.decode_timestamp
    decode_timestamp-Makes name ty j = bind-Yields (IsValue c) (ok_or (as_str j) _) _ (λ s read.
        bind-Yields (IsValue c) (ok_or (parse_rfc3339 s) _) _ (λ t parsed.
          then-Yields (IsValue c) _ _
            (map_err-Yields (IsValue c) _ (timestamp_value c t) (timestamp_value-Makes t))))

    decode_value-Makes :
        (name ty : Text) (j : Json Number) → Makes (Durable.decode_value c k name ty j)
    unfolding Durable.decode_value
    decode_value-Makes name ty j = if-Yields (IsValue c) _ _ _ (decode_boolean-Makes name ty j) (
        if-Yields (IsValue c) _ _ _ (decode_integer-Makes name ty j) (
          if-Yields (IsValue c) _ _ _
            (decode_validated_string-Makes name ty j (string_value c) string_value-Makes)
            (if-Yields (IsValue c) _ _ _ (decode_binary-Makes name j) (
              if-Yields (IsValue c) _ _ _
                (decode_validated_string-Makes name ty j (uri_value c) uri_value-Makes)
                (if-Yields (IsValue c) _ _ _
                  (decode_validated_string-Makes name ty j (uri_reference_value c)
                    uri_reference_value-Makes)
                  (if-Yields (IsValue c) _ _ _ (decode_timestamp-Makes name ty j)
                    (err-Yields (IsValue c) _)))))))

    abbrev IsEntry : ExtensionName × ExtensionValue OffsetDateTime → Type 0
    IsEntry e = IsName e.0 × IsValue c e.1

    decode_entry-valid :
        (name : Text) (j : Json Number) → Yields IsEntry (Durable.decode_entry c k name j)
    unfolding Durable.decode_entry
    decode_entry-valid name j =
        bind-Yields IsEntry (map_err Durable.invalid_name (new_extension_name name)) _ (λ n named.
          bind-Yields IsEntry (ok_or (as_object j) _) _ (λ m shaped.
            then-Yields IsEntry (reject_if (not (members_len m == 2)) (Durable.invalid_shape name))
              _
              (bind-Yields IsEntry
                (ok_or (Durable.string_member c k (get_member (codes "type") m)) _) _
                (λ ty typed.
                  bind-Yields IsEntry
                    (ok_or (get_member (codes "value") (without_member (codes "type") m)) _) _
                    (λ v found.
                      bind-Yields IsEntry (Durable.decode_value c k name ty v) _ (λ x read.
                        ok-Yields IsEntry (n, x)
                          (
                            (new_extension_name-IsName name n (map_err-eq-ok _ _ named)).1,
                            decode_value-Makes name ty v x read,
                          )))))))

    -- The names are ordered and the entries valid.
    abbrev Holds : Extensions OffsetDateTime → Type 0
    Holds e = IsOrdered (λ n. n.value) e.entries × All (λ x. IsName x.0 × IsValue c x.1) e.entries

    put-Holds :
        (e : Extensions OffsetDateTime) (n : ExtensionName) (v : ExtensionValue OffsetDateTime)
        → Holds e
        → IsName n
        → IsValue c v
        → Holds (put e n v)
    unfolding put
    put-Holds e n v h name value = (
      insert-IsOrdered (λ n. n.value) n v e.entries h.0,
      All-insert (λ n. n.value) IsName (IsValue c) n v e.entries name value h.1,
    )

    decode_entries-Holds :
        (m : Members Number) (acc e : Extensions OffsetDateTime)
        → Durable.decode_entries c k m acc ≡ ok e
        → Holds acc
        → Holds e
    unfolding Durable.decode_entries
    decode_entries-Holds no_members acc e h held = subst Holds (cc) held
    decode_entries-Holds (member n j m) acc e h held =
        let (x, read, rest) = >>=-eq-ok (Durable.decode_entry c k n j) _ h in
        let (name, value) = decode_entry-valid n j x read in
        decode_entries-Holds m (put acc x.0 x.1) e rest (put-Holds acc x.0 x.1 held name value)

    abbrev pub IsExact : Text → Extensions OffsetDateTime → Type 0
    IsExact text e = (text ≡ Durable.canonical_json c k e) × IsExtensions c e

    pub from_canonical_json-IsExact :
        (text : Text) → Yields (IsExact text) (Durable.from_canonical_json c k text)
    unfolding Durable.from_canonical_json
    from_canonical_json-IsExact text =
        bind-Yields (IsExact text) (ok_or (k.from_text text) _) _ (λ j parsed.
          bind-Yields (IsExact text) (ok_or (as_object j) _) _ (λ m shaped.
            bind-Yields (IsExact text) (Durable.decode_entries c k m new_extensions) _ (λ x read.
              let held = decode_entries-Holds m new_extensions x read (tt, tt) in
              elim (Result-cases (validate_trace_context x)) [
                | inr (e, failed) ↦ rw failed (err-Yields (IsExact text) _)
                | inl (u, passed) ↦
                    rw passed (elim (Bool-cases (list_eq (Durable.canonical_json c k x) text)) [
                      | inr other ↦ rw other (err-Yields (IsExact text) _)
                      | inl same ↦ rw same (
                          ok-Yields (IsExact text) x (
                            sym (list_eq_sound _ text same),
                            record { ordered = held.0; entries = held.1; trace = passed },
                          ))
                    ])
              ])))
