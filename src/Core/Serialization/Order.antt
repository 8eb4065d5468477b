-- ===== src/Core/Serialization/Order.antt =====
-- crates/dovecote/src/serialization.rs: the members of the structured projection, in their order.
use dovecote.Base.{
  ◌≡◌, refl, ◌∙◌, ap, sym, arith, false, any, list_eq, list_eq_sym, list_lt-list_eq, Text, codes,
  List, [], ◌∷◌, ◌++◌, Option, none, some, All, All-pair, After, IsOrdered, ok, ◌>>=◌, >>=-eq-ok,
  >>=-cong, subst, Yields, ok-Yields, bind-Yields, Result-cases, inl, inr,
}
use dovecote.Core.Crates.{Crates}
use dovecote.Core.Json.{Json, Members, no_members, IsDistinct}
use dovecote.Core.Json.Slots.{
  Slots, members_present, Differs, Distinct, AllLack, present-IsDistinct, Apart, Distinct-append,
  Apart-append,
}
use dovecote.Core.Codecs.{Codecs}
use dovecote.Core.Value.{EventData, json_data, binary}
use dovecote.Core.Extension.{ExtensionName, ExtensionValue, new_extension_name, reserved_names}
use dovecote.Core.Extension.Validity.{IsName, IsValue, IsExtensions}
use dovecote.Core.Event.Content.{EventContent}
use dovecote.Core.Serialization
use dovecote.Core.Serialization.Absent.{
  insert_slots, insert_slots-append, insert_slots-present, insert_extensions-slots, context_slots,
  extension_slots, data_slots,
}

module _ (c : Crates) (k : Codecs) where
  open c use {OffsetDateTime}
  open k use {Number}

  any_reserved :
      (n : Text) (names : List Text)
      → any (list_eq n) names ≡ false
      → All (λ r. list_eq r n ≡ false) names
  any_reserved n [] h = tt
  any_reserved n (r ∷ rs) h =
      (list_eq_sym r n ∙ ground (arith, h), any_reserved n rs (ground (arith, h)))

  -- A valid name is none of the reserved ones.
  IsName-reserved :
      (n : ExtensionName) → IsName n → All (λ r. list_eq r n.value ≡ false) reserved_names
  unfolding new_extension_name
  IsName-reserved n h = any_reserved n.value reserved_names (ground (arith, h))

  -- The entries of an extension set, by what their names are.
  abbrev Named : List (ExtensionName × ExtensionValue OffsetDateTime) → Type 0
  Named [] = Unit
  Named (e ∷ es) = IsName e.0 × Named es

  extensions_apart :
      (es : List (ExtensionName × ExtensionValue OffsetDateTime))
      → Named es
      → All (λ r. Differs r (extension_slots c k es)) reserved_names
  extensions_apart [] h = (tt, (tt, (tt, (tt, (tt, (tt, (tt, (tt, (tt, (tt, (tt, tt)))))))))))
  extensions_apart (e ∷ es) h =
      All-pair (λ r. list_eq r e.0.value ≡ false) (λ r. Differs r (extension_slots c k es))
        reserved_names (IsName-reserved e.0 h.0) (extensions_apart es h.1)

  After-Differs :
      (n : Text) (es : List (ExtensionName × ExtensionValue OffsetDateTime))
      → After (λ x. x.value) n es
      → Differs n (extension_slots c k es)
  After-Differs n [] a = tt
  After-Differs n (e ∷ es) a = (list_lt-list_eq n e.0.value a.0, After-Differs n es a.1)

  extensions-Distinct :
      (es : List (ExtensionName × ExtensionValue OffsetDateTime))
      → IsOrdered (λ n. n.value) es
      → Distinct (extension_slots c k es)
  extensions-Distinct [] o = tt
  extensions-Distinct (e ∷ es) o = (After-Differs e.0.value es o.0, extensions-Distinct es o.1)

  extensions-Apart :
      (r : Text) (v : Option (Json Number))
      (es : List (ExtensionName × ExtensionValue OffsetDateTime))
      → Differs r (extension_slots c k es)
      → Apart (extension_slots c k es) ((r, v) ∷ [])
  extensions-Apart r v [] d = tt
  extensions-Apart r v (e ∷ es) d =
      ((list_eq_sym e.0.value r ∙ d.0, tt), extensions-Apart r v es d.1)

  extensions-Apart-nil :
      (es : List (ExtensionName × ExtensionValue OffsetDateTime))
      → Apart (extension_slots c k es) []
  extensions-Apart-nil [] = tt
  extensions-Apart-nil (e ∷ es) = (tt, extensions-Apart-nil es)

  context-Distinct : (content : EventContent OffsetDateTime) → Distinct (context_slots c k content)
  unfolding list_eq
  context-Distinct content = (
    (refl, (refl, (refl, (refl, (refl, (refl, (refl, (refl, tt)))))))),
    (
      (refl, (refl, (refl, (refl, (refl, (refl, (refl, tt))))))),
      (
        (refl, (refl, (refl, (refl, (refl, (refl, tt)))))),
        (
          (refl, (refl, (refl, (refl, (refl, tt))))),
          (
            (refl, (refl, (refl, (refl, tt)))),
            ((refl, (refl, (refl, tt))), ((refl, (refl, tt)), ((refl, tt), (tt, tt)))),
          ),
        ),
      ),
    ),
  )

  -- The names of the context are reserved, so that no extension has one of them.
  context-Apart :
      (content : EventContent OffsetDateTime)
      (es : List (ExtensionName × ExtensionValue OffsetDateTime))
      → All (λ r. Differs r (extension_slots c k es)) reserved_names
      → Apart (context_slots c k content) (extension_slots c k es)
  context-Apart content es all = (
    all.1.1.1.0,
    (
      all.0,
      (
        all.1.0,
        (
          all.1.1.0,
          (
            all.1.1.1.1.0,
            (
              all.1.1.1.1.1.0,
              (all.1.1.1.1.1.1.0, (all.1.1.1.1.1.1.1.0, (all.1.1.1.1.1.1.1.1.1.1.0, tt))),
            ),
          ),
        ),
      ),
    ),
  )

  -- Every member of the structured object that may be there.
  abbrev pub all_slots : EventContent OffsetDateTime → Slots Number → Slots Number
  all_slots content d =
      context_slots c k content ++ (extension_slots c k content.extensions.entries ++ d)

  all_slots-Distinct :
      (content : EventContent OffsetDateTime) (d : Slots Number)
      → IsOrdered (λ n. n.value) content.extensions.entries
      → Named content.extensions.entries
      → Distinct d
      → Apart (context_slots c k content) d
      → Apart (extension_slots c k content.extensions.entries) d
      → Distinct (all_slots content d)
  all_slots-Distinct content d ordered named own before behind =
      let es = content.extensions.entries in
      Distinct-append (context_slots c k content) (extension_slots c k es ++ d)
        (context-Distinct content)
        (Distinct-append (extension_slots c k es) d (extensions-Distinct es ordered) own behind)
        (Apart-append (context_slots c k content) (extension_slots c k es) d
          (context-Apart content es (extensions_apart es named)) before)

  entries-Named :
      (es : List (ExtensionName × ExtensionValue OffsetDateTime))
      → All (λ x. IsName x.0 × IsValue c x.1) es
      → Named es
  entries-Named [] h = tt
  entries-Named (e ∷ es) h = (h.0.0, entries-Named es h.1)

  module _ (content : EventContent OffsetDateTime) (valid : IsExtensions c content.extensions) where
    named : Named content.extensions.entries
    named = entries-Named content.extensions.entries valid.entries

    reserved_apart :
        All (λ r. Differs r (extension_slots c k content.extensions.entries)) reserved_names
    reserved_apart = extensions_apart content.extensions.entries named

    -- Whatever the data is, the name of its member is no other member's.
    data_slots-Distinct :
        (o : Option EventData) → Yields (λ d. Distinct (all_slots content d)) (data_slots c k o)
    unfolding list_eq
    data_slots-Distinct none =
        ok-Yields (λ d. Distinct (all_slots content d)) []
          (all_slots-Distinct content [] valid.ordered named tt
            (tt, (tt, (tt, (tt, (tt, (tt, (tt, (tt, (tt, tt)))))))))
            (extensions-Apart-nil content.extensions.entries))
    data_slots-Distinct (some (json_data value)) =
        bind-Yields (λ d. Distinct (all_slots content d)) (Serialization.as_value c k value) _
          (λ parsed made.
            ok-Yields (λ d. Distinct (all_slots content d)) _
              (all_slots-Distinct content _ valid.ordered named (tt, tt)
                (
                  (refl, tt),
                  (
                    (refl, tt),
                    (
                      (refl, tt),
                      (
                        (refl, tt),
                        ((refl, tt), ((refl, tt), ((refl, tt), ((refl, tt), ((refl, tt), tt))))),
                      ),
                    ),
                  ),
                )
                (extensions-Apart (codes "data") _ content.extensions.entries
                  reserved_apart.1.1.1.1.1.1.1.1.0)))
    data_slots-Distinct (some (binary value)) =
        ok-Yields (λ d. Distinct (all_slots content d)) _
          (all_slots-Distinct content _ valid.ordered named (tt, tt)
            (
              (refl, tt),
              (
                (refl, tt),
                (
                  (refl, tt),
                  (
                    (refl, tt),
                    ((refl, tt), ((refl, tt), ((refl, tt), ((refl, tt), ((refl, tt), tt))))),
                  ),
                ),
              ),
            )
            (extensions-Apart (codes "data_base64") _ content.extensions.entries
              reserved_apart.1.1.1.1.1.1.1.1.1.0))

    insert_data-slots :
        (o : Option EventData) (m : Members Number)
        → Serialization.insert_data c k o m
          ≡ (data_slots c k o >>= (λ d. ok (insert_slots c k d m)))
    unfolding Serialization.insert_data
    insert_data-slots none m = refl
    insert_data-slots (some (json_data value)) m =
        elim (Result-cases (Serialization.as_value c k value)) [
          | inl (j, e) ↦ rw e refl
          | inr (f, e) ↦ rw e refl
        ]
    insert_data-slots (some (binary value)) m = refl

    AllLack-nothing : (l : Slots Number) → AllLack l no_members
    AllLack-nothing [] = tt
    AllLack-nothing (x ∷ l) = (tt, AllLack-nothing l)

    -- The insertions put the members in the order of the list, and replace none.
    structured_object-slots :
        Serialization.structured_object c k content
        ≡ (data_slots c k content.event_data >>= (λ d. ok (members_present (all_slots content d))))
    unfolding Serialization.structured_object Serialization.context_object
    structured_object-slots =
        insert_data-slots content.event_data _
        ∙ rw (insert_extensions-slots c k content.extensions.entries _) (
            >>=-cong (data_slots c k content.event_data) _ _ (λ d made.
              let distinct = data_slots-Distinct content.event_data d made in
              ap ok (
                sym (
                  insert_slots-append c k (context_slots c k content)
                    (extension_slots c k content.extensions.entries ++ d) no_members
                  ∙ insert_slots-append c k (extension_slots c k content.extensions.entries) d _)
                ∙ insert_slots-present c k (all_slots content d) no_members distinct
                    (AllLack-nothing (all_slots content d)))))

-- The structured object of a content has the attributes of the context in the order of the format, the
-- extensions in the order of their names, and the data, each that is there, and no name twice.
pub structured_object_order :
    (c : Crates) (k : Codecs) (content : EventContent c.OffsetDateTime) (object : Members k.Number)
    → IsExtensions c content.extensions
    → Serialization.structured_object c k content ≡ ok object
    → (d : Slots k.Number) × (data_slots c k content.event_data ≡ ok d)
      × (object
          ≡ members_present
              (context_slots c k content ++ (extension_slots c k content.extensions.entries ++ d)))
      × IsDistinct object
structured_object_order c k content object valid built =
    let (d, made, same) =
      >>=-eq-ok (data_slots c k content.event_data) _
        (sym (structured_object-slots c k content valid) ∙ built) in
    let shape : members_present (all_slots c k content d) ≡ object = cc in
    let distinct =
      present-IsDistinct (all_slots c k content d)
        (data_slots-Distinct c k content valid content.event_data d made) in
    (d, made, sym shape, subst IsDistinct shape distinct)
