-- ===== src/Core/Validation/Rfc3339.antt =====
-- What the time crate writes and reads in the format RFC 3339, and that the shortened spelling of validation.rs is
-- read back.
use dovecote.Base.{
  ℕ, ◌%◌, ◌≡◌, ◌≤◌, refl, ap, sym, ◌⊎◌, Option, String, ==_iff, then-eq-ok, ◌∙◌, arith, Bool, true,
  ◌==◌, int_le, pos, Text, codes, [], ◌∷◌, ◌++◌, All, All-append, none, some, ok, is_empty,
  if◌then◌else◌, Bool-cases, inl, inr,
}
use dovecote.Core.Crates.{Crates}
use dovecote.Core.Bounds.Instants.{max_instant, validate_instant, canonicalize_instant}
use dovecote.Core.Validation.Splitting.{
  split_once, trim_end, Without, split_once-append, split_once-none,
}
use dovecote.Core.Validation.Timestamps.{strip_z, trim_fraction, format_timestamp}

-- A decimal digit.
abbrev pub IsDigit : ℕ → Type 0
IsDigit x = (b'0' ≤ x) × (x ≤ b'9')

abbrev pub Digits : Text → Type 0
Digits = All IsDigit

-- A text up to the seconds, the digits of a fraction when there are any, and `Z`.
abbrev pub spelled_at : Text → Text → Text
spelled_at whole [] = whole ++ codes "Z"
spelled_at whole (d ∷ ds) = whole ++ b'.' ∷ ((d ∷ ds) ++ codes "Z")

-- A value in UTC within the range and the precision of the crate.
abbrev pub IsWritable : (c : Crates) → c.OffsetDateTime → Type 0
IsWritable c t =
    (int_le (pos 0) (c.unix_nanos t) ≡ true)
    × (int_le (c.unix_nanos t) (pos max_instant) ≡ true)
    × (c.nanosecond t % 1_000 ≡ 0)
    × (c.to_utc t ≡ t)

-- The documented behaviour of `time::format_description::well_known::Rfc3339`.
pub record SpellingLaws (c : Crates) : Type 0 where
  -- `format` writes the date and the time to the second, which has no full stop, a fraction or none, and `Z`
  pub format-spelled :
      (t : c.OffsetDateTime)
      → IsWritable c t
      → (whole fraction : Text) × Without b'.' whole
        × Digits fraction
        × (c.format_rfc3339 t ≡ spelled_at whole fraction)
  -- `parse` reads what `format` has written
  pub parse-format :
      (t : c.OffsetDateTime) → IsWritable c t → c.parse_rfc3339 (c.format_rfc3339 t) ≡ some t
  -- a zero at the end of a fraction does not change the value, nor does a fraction of one zero
  pub parse-zero :
      (whole fraction : Text)
      → Without b'.' whole
      → Digits fraction
      → c.parse_rfc3339 (spelled_at whole (fraction ++ codes "0"))
        ≡ c.parse_rfc3339 (spelled_at whole fraction)

strip_z-append : (s : Text) → strip_z (s ++ codes "Z") ≡ s
strip_z-append [] = refl
strip_z-append (x ∷ []) = refl
strip_z-append (x ∷ y ∷ s) = ap (◌∷◌ x) (strip_z-append (y ∷ s))

Without-append : (whole : Text) → Without b'.' whole → Without b'.' (whole ++ codes "Z")
Without-append [] w = (refl, tt)
Without-append (x ∷ s) w = (w.0, Without-append s w.1)

abbrev is_zero : ℕ → Bool
is_zero x = x == b'0'

pub append_assoc : (a b d : Text) → (a ++ b) ++ d ≡ a ++ (b ++ d)
append_assoc [] b d = refl
append_assoc (x ∷ a) b d = ap (◌∷◌ x) (append_assoc a b d)

append-nil : (a : Text) → a ++ [] ≡ a
append-nil [] = refl
append-nil (x ∷ a) = ap (◌∷◌ x) (append-nil a)

trim_whole : (s : Text) → split_once b'.' s ≡ none → trim_fraction s ≡ s
unfolding trim_fraction
trim_whole s h = rw (h, trim_fraction) refl

-- The spelling with the digits that are left.
rejoined : (whole digits : Text) → Text
rejoined whole digits =
    if is_empty digits then whole ++ codes "Z" else whole ++ codes "." ++ digits ++ codes "Z"

trim_split :
    (s whole fraction : Text)
    → split_once b'.' s ≡ some (whole, fraction)
    → trim_fraction s ≡ rejoined whole (trim_end is_zero (strip_z fraction))
unfolding trim_fraction rejoined
trim_split s whole fraction h = rw (h, trim_fraction) refl

rejoined-spelled : (whole digits : Text) → rejoined whole digits ≡ spelled_at whole digits
unfolding rejoined
rejoined-spelled whole [] = refl
rejoined-spelled whole (d ∷ ds) =
    append_assoc (whole ++ codes ".") (d ∷ ds) (codes "Z")
    ∙ append_assoc whole (codes ".") ((d ∷ ds) ++ codes "Z")

-- To trim a spelling is to trim the digits of its fraction.
trim_fraction-spelled :
    (whole digits : Text)
    → Without b'.' whole
    → trim_fraction (spelled_at whole digits) ≡ spelled_at whole (trim_end is_zero digits)
unfolding trim_end
trim_fraction-spelled whole [] w =
    trim_whole (whole ++ codes "Z")
      (split_once-none b'.' (whole ++ codes "Z") (Without-append whole w))
trim_fraction-spelled whole (d ∷ ds) w =
    let found = split_once-append b'.' whole ((d ∷ ds) ++ codes "Z") w in
    trim_split (spelled_at whole (d ∷ ds)) whole ((d ∷ ds) ++ codes "Z") found
    ∙ ap (λ s. rejoined whole (trim_end is_zero s)) (strip_z-append (d ∷ ds))
    ∙ rejoined-spelled whole (trim_end is_zero (d ∷ ds))

trim_end-step :
    (p : ℕ → Bool) (x : ℕ) (s : Text)
    → ((trim_end p (x ∷ s) ≡ []) × (p x ≡ true) × (trim_end p s ≡ []))
      ⊎ (trim_end p (x ∷ s) ≡ x ∷ trim_end p s)
unfolding trim_end
trim_end-step p x s = go (trim_end p s) refl
  where
    go :
        (r : Text)
        → trim_end p s ≡ r
        → ((trim_end p (x ∷ s) ≡ []) × (p x ≡ true) × (trim_end p s ≡ []))
          ⊎ (trim_end p (x ∷ s) ≡ x ∷ trim_end p s)
    go [] e = elim (Bool-cases (p x)) [
      | inl h ↦ inl (rw (e, trim_end) (rw h refl), h, e)
      | inr h ↦ inr (rw (e, trim_end) (rw h refl))
    ]
    go (d ∷ r) e = inr (rw (e, trim_end) refl)

module _ (c : Crates) (laws : SpellingLaws c) where
  abbrev reads : Text → Text → Option c.OffsetDateTime
  reads whole digits = c.parse_rfc3339 (spelled_at whole digits)

  -- The zeros at the end of a fraction, and a fraction of zeros, may go.
  parse-trim_end :
      (whole front digits : Text)
      → Without b'.' whole
      → Digits front
      → Digits digits
      → reads whole (front ++ trim_end is_zero digits) ≡ reads whole (front ++ digits)
  unfolding trim_end
  parse-trim_end whole front [] w f d = refl
  parse-trim_end whole front (x ∷ s) w f d =
      let rest =
        parse-trim_end whole (front ++ x ∷ []) s w (All-append IsDigit front (x ∷ []) f (d.0, tt))
          d.1 in
      let shown = rest ∙ ap (reads whole) (append_assoc front (x ∷ []) s) in
      elim (trim_end-step is_zero x s) [
        | inl (gone, zero, nothing) ↦
            let same : x ≡ b'0' = (==_iff x b'0').0 zero in
            ap (λ u. reads whole (front ++ u)) gone
            ∙ ap (reads whole) (append-nil front)
            ∙ sym (laws.parse-zero whole front w f)
            ∙ ap (λ u. reads whole (front ++ u ∷ [])) (sym same)
            ∙ ap (reads whole) (sym (append-nil (front ++ x ∷ [])))
            ∙ ap (λ u. reads whole ((front ++ x ∷ []) ++ u)) (sym nothing)
            ∙ shown
        | inr kept ↦
            ap (λ u. reads whole (front ++ u)) kept
            ∙ ap (reads whole) (sym (append_assoc front (x ∷ []) (trim_end is_zero s)))
            ∙ shown
      ]

  -- A value in UTC is read back from its shortened spelling.
  pub parse-format_timestamp :
      (t : c.OffsetDateTime) → IsWritable c t → c.parse_rfc3339 (format_timestamp c t) ≡ some t
  unfolding format_timestamp
  parse-format_timestamp t valid =
      let (whole, fraction, plain, digits, spelled) = laws.format-spelled t valid in
      let shown : c.format_rfc3339 (c.to_utc t) ≡ spelled_at whole fraction =
        ap c.format_rfc3339 valid.3 ∙ spelled in
      ap c.parse_rfc3339 (ap trim_fraction shown ∙ trim_fraction-spelled whole fraction plain)
      ∙ parse-trim_end whole [] fraction plain tt digits
      ∙ sym (ap c.parse_rfc3339 spelled)
      ∙ laws.parse-format t valid

module _ (c : Crates) where
  pub validate_instant-IsWritable :
      (field : String) (t : c.OffsetDateTime)
      → validate_instant c field t ≡ ok tt
      → c.to_utc t ≡ t
      → IsWritable c t
  unfolding validate_instant
  validate_instant-IsWritable field t h utc =
      (ground (arith, h), ground (arith, h), ground (arith, h), utc)

  pub canonical-IsWritable :
      (field : String) (t : c.OffsetDateTime)
      → canonicalize_instant c field t ≡ ok t
      → IsWritable c t
  unfolding canonicalize_instant
  canonical-IsWritable field t h =
      let (checked, same) = then-eq-ok (validate_instant c field t) _ h in
      let utc : c.to_utc t ≡ t = cc in validate_instant-IsWritable field t checked utc
