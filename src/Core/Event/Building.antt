-- ===== src/Core/Event/Building.antt =====
-- crates/dovecote/src/event.rs: exactly the contents that a builder accepts, and what becomes of them.
use dovecote.Base.{
  ℕ, ◌+◌, ◌≤◌, ◌≡◌, ◌↔◌, ◌⊎◌, refl, ap, sym, subst, arith, Bool, true, false, not, ◌&&◌, ltb,
  int_le, pos, ◌%◌, len, length, is_empty, is_some, List, Option, none, some, ok, ok_or, map_err,
  reject_if, ◌>>=◌, >>=-eq-ok, then-eq-ok, reject_if-eq-ok, checked_add, maximum, inl, inr,
  Option-cases, map_err-eq-ok,
}
use dovecote.Core.Crates.{Crates}
use dovecote.Core.Codecs.{Codecs}
use dovecote.Core.Bounds.{EventSizeLimit, max_identity_bytes}
use dovecote.Core.Bounds.Instants.{max_instant, validate_optional_instant, validate_instant}
use dovecote.Core.Extension.{validate_trace_context}
use dovecote.Core.Value.{ContentType, EventData, as_bytes, is_json}
use dovecote.Core.Event.Content.{EventContent, NewEventBuilder}
use dovecote.Core.Serialization.{invalid, structured_json_bytes, binary_material_bytes}
use dovecote.Core.Event
use dovecote.Core.Error.{error, size}

module _ (c : Crates) (k : Codecs) where
  open c use {OffsetDateTime, unix_nanos, nanosecond}

  -- An occurrence time within the range, at a whole microsecond.
  abbrev pub IsTime : Option OffsetDateTime → Type 0
  IsTime none = Unit
  IsTime (some t) =
      (int_le (pos 0) (unix_nanos t) ≡ true)
      × (int_le (unix_nanos t) (pos max_instant) ≡ true)
      × (nanosecond t % 1_000 ≡ 0)

  -- Data that is not empty has a media type, and JSON data one that is JSON.
  abbrev pub IsTyped : Option EventData → Option ContentType → Type 0
  IsTyped none media_type = Unit
  IsTyped (some d) media_type =
      ((is_empty (as_bytes d) ≡ true) ⊎ (is_some media_type ≡ true))
      × ((is_json d ≡ false) ⊎ (Event.type_is_json c k media_type ≡ some true))

  -- A content that a builder accepts under the limit.
  pub record IsEvent (content : EventContent OffsetDateTime) (limit : EventSizeLimit) : Type 0 where
    pub identity : len content.source.value + len content.id.value ≤ max_identity_bytes
    pub time : IsTime content.time
    pub trace : validate_trace_context content.extensions ≡ ok tt
    pub typed : IsTyped content.event_data content.datacontenttype
    pub size : (n : ℕ) × (Event.portable_size c k content ≡ ok n) × (n ≤ limit.value)

  identity-checked :
      (a b : ℕ) → (Event.identity_too_long (checked_add a b) ≡ false) ↔ (a + b ≤ max_identity_bytes)
  unfolding checked_add
  identity-checked a b = ground arith

  IsTime-checked :
      (t : Option OffsetDateTime) → (validate_optional_instant c "time" t ≡ ok tt) ↔ IsTime t
  unfolding validate_optional_instant validate_instant
  IsTime-checked none = (λ h. tt, λ h. refl)
  IsTime-checked (some t) = (
    λ h. (ground (arith, h), ground (arith, h), ground (arith, h)),
    λ h. ground (arith, h.0, h.1, h.2),
  )

  json_type-checked :
      (b : Bool) (t : Option ContentType)
      → (Event.validate_json_type c k b t ≡ ok tt)
        ↔ ((b ≡ false) ⊎ (Event.type_is_json c k t ≡ some true))
  unfolding Event.validate_json_type
  json_type-checked false t = (λ h. inl refl, λ h. refl)
  json_type-checked true t = elim (Option-cases (Event.type_is_json c k t)) [
    | inl e ↦ (λ h. ground (arith, e, h), λ h. ground (arith, e, h))
    | inr (true, e) ↦ (λ h. inr e, λ h. rw e refl)
    | inr (false, e) ↦ (λ h. ground (arith, e, h), λ h. ground (arith, e, h))
  ]

  IsTyped-checked :
      (d : Option EventData) (t : Option ContentType)
      → (Event.validate_data c k d t ≡ ok tt) ↔ IsTyped d t
  unfolding Event.validate_data
  IsTyped-checked none t = (λ h. tt, λ h. refl)
  IsTyped-checked (some d) t = (
    (λ h.
        let (first, second) =
          then-eq-ok
            (reject_if (not (is_empty (as_bytes d)) && not (is_some t)) (Event.wrong_type c k)) _
            h in
        (ground (arith, first), (json_type-checked (is_json d) t).0 second)),
    (λ h. let second = (json_type-checked (is_json d) t).1 h.1 in ground (arith, h.0, second)),
  )

  size-checked :
      (content : EventContent OffsetDateTime) (limit : EventSizeLimit)
      → (Event.portable_size c k content
          >>= (λ bytes. reject_if (ltb limit.value bytes) (invalid (error "event" size))))
        ≡ ok tt
      → (n : ℕ) × (Event.portable_size c k content ≡ ok n) × (n ≤ limit.value)
  size-checked content limit h =
      let (n, measured, fits) = >>=-eq-ok (Event.portable_size c k content) _ h in
      (n, measured, ground (arith, fits))

  validate_content-IsEvent :
      (content : EventContent OffsetDateTime) (limit : EventSizeLimit)
      → Event.validate_content c k content limit ≡ ok tt
      → IsEvent content limit
  unfolding Event.validate_content
  validate_content-IsEvent content limit h =
      let (one, h1) =
        then-eq-ok
          (reject_if
            (Event.identity_too_long
              (checked_add (len content.source.value) (len content.id.value)))
            _)
          _ h in
      let (two, h2) =
        then-eq-ok (map_err invalid (validate_optional_instant c "time" content.time)) _ h1 in
      let (three, h3) =
        then-eq-ok (map_err invalid (validate_trace_context content.extensions)) _ h2 in
      let (four, five) =
        then-eq-ok (Event.validate_data c k content.event_data content.datacontenttype) _ h3 in
      record {
        identity =
            (identity-checked (len content.source.value) (len content.id.value)).0
              (reject_if-eq-ok _ _ one);
        time = (IsTime-checked content.time).0 (map_err-eq-ok invalid _ two);
        trace = map_err-eq-ok invalid _ three;
        typed = (IsTyped-checked content.event_data content.datacontenttype).0 four;
        size = size-checked content limit five;
      }

  IsEvent-validate_content :
      (content : EventContent OffsetDateTime) (limit : EventSizeLimit)
      → IsEvent content limit
      → Event.validate_content c k content limit ≡ ok tt
  unfolding Event.validate_content
  IsEvent-validate_content content limit e =
      let (n, measured, fits) = e.size in
      rw
        (
          (identity-checked (len content.source.value) (len content.id.value)).1 e.identity,
          (IsTime-checked content.time).1 e.time,
          e.trace,
          (IsTyped-checked content.event_data content.datacontenttype).1 e.typed,
          measured,
        )
        (ground (arith, fits))

  -- A builder accepts its content under a limit exactly when the content is valid under it, and the event that
  -- it makes has this content and this limit.
  pub build_with_limit_iff :
      (b : NewEventBuilder OffsetDateTime) (limit : EventSizeLimit)
      (event : Event.NewEvent OffsetDateTime)
      → (Event.build_with_limit c k b limit ≡ ok event)
        ↔ (IsEvent b.content limit × (event ≡ record { content = b.content; size_limit = limit }))
  unfolding Event.build_with_limit
  build_with_limit_iff b limit event = (
    (λ h.
        let (checked, made) = then-eq-ok (Event.validate_content c k b.content limit) _ h in
        (validate_content-IsEvent b.content limit checked, cc)),
    (λ h. rw (IsEvent-validate_content b.content limit h.0) (ap ok (sym h.1))),
  )

  IsEvent-larger :
      (content : EventContent OffsetDateTime) (limit larger : EventSizeLimit)
      → limit.value ≤ larger.value
      → IsEvent content limit
      → IsEvent content larger
  IsEvent-larger content limit larger le e =
      let (n, measured, fits) = e.size in
      record {
        identity = e.identity;
        time = e.time;
        trace = e.trace;
        typed = e.typed;
        size = (n, measured, omega (arith, fits, le));
      }

  -- An event that was built becomes stored content with nothing changed, and passes its checks again under
  -- every limit that is not smaller.
  pub build_with_limit-from_new :
      (b : NewEventBuilder OffsetDateTime) (limit larger : EventSizeLimit)
      (event : Event.NewEvent OffsetDateTime)
      → Event.build_with_limit c k b limit ≡ ok event
      → limit.value ≤ larger.value
      → (Event.from_new c k event ≡ ok (record { content = b.content }))
        × (Event.validate_with_limit c k event larger ≡ ok tt)
  unfolding Event.from_new
  build_with_limit-from_new b limit larger event h le =
      let (valid, made) = (build_with_limit_iff b limit event).0 h in
      rw made (
        rw (IsEvent-validate_content b.content limit valid) refl,
        IsEvent-validate_content b.content larger (IsEvent-larger b.content limit larger le valid),
      )

  size-parts :
      (a m n : ℕ)
      → (ok_or (checked_add a Event.content_type_bytes) (invalid (error "event" size))
          >>= (λ s. ok (maximum s m)))
        ≡ ok n
      → (a + Event.content_type_bytes ≤ n) × (m ≤ n)
  unfolding checked_add maximum
  size-parts a m n h = ground (arith, h)

  abbrev WithinLimit : EventSizeLimit → EventContent OffsetDateTime → Type 0
  WithinLimit limit content =
      (bytes : List ℕ) × (structured_json_bytes c k content ≡ ok bytes)
      × (length bytes + Event.content_type_bytes ≤ limit.value)
      × (binary_material_bytes c k content ≤ limit.value)

  -- Both projections of a stored event are within the limit that it was built under: the structured bytes
  -- together with the line of their media type, and the measure of the binary attributes and the data.
  pub from_new-bounded :
      (event : Event.NewEvent OffsetDateTime) (stored : Event.StoredEvent OffsetDateTime)
      → Event.from_new c k event ≡ ok stored
      → (bytes : List ℕ) × (structured_json_bytes c k stored.content ≡ ok bytes)
        × (length bytes + Event.content_type_bytes ≤ event.size_limit.value)
        × (binary_material_bytes c k stored.content ≤ event.size_limit.value)
  unfolding Event.from_new Event.portable_size
  from_new-bounded event stored h =
      let (checked, made) =
        then-eq-ok (Event.validate_content c k event.content event.size_limit) _ h in
      let same : event.content ≡ stored.content = cc in
      let (n, measured, fits) =
        (validate_content-IsEvent event.content event.size_limit checked).size in
      let (bytes, written, rest) = >>=-eq-ok (structured_json_bytes c k event.content) _ measured in
      let (wide, narrow) =
        size-parts (length bytes) (binary_material_bytes c k event.content) n rest in
      subst (WithinLimit event.size_limit) same
        (bytes, written, omega (arith, wide, fits), omega (arith, narrow, fits))
