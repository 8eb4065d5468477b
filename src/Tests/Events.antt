-- ===== src/Tests/Events.antt =====
-- Extension sets, events and their projections at concrete values.
use mathlib.Core.Option
use dovecote.Base.{
  Bool-cases, inl, inr, ap, ◌∙◌, sym, Bool, false, ◌&&◌, ◌||◌, ◌==◌, ◌%◌, ltb, is_empty,
  if◌then◌else◌, ◌++◌, ℕ, ◌+◌, ◌-◌, ◌*◌, ◌/◌, ◌≡◌, ◌⊎◌, refl, arith, true, ℤ, pos, negsuc, bytes,
  utf8_char, len, list_eq, list_lt, Text, codes, [], ◌∷◌, Option, none, some, ok, err, map_get,
  IsOrdered,
}
use dovecote.Core.Error.{error, duplicate}
use dovecote.Core.Crates.{Crates, TimeLaws}
use dovecote.Core.Validation.Rfc3339.{append_assoc, spelled_at, IsWritable, Digits, SpellingLaws}
use dovecote.Core.Bounds.Instants.{canonicalize_instant, validate_instant}
use dovecote.Core.Validation.Splitting.{Without}
use dovecote.Core.Extension
use dovecote.Core.Extension.Insertion.{insert_lem}
use dovecote.Core.Extension.Durable.{from_canonical_json, canonical_json}
use dovecote.Core.Extension.Validity.{IsExtensions}
use dovecote.Core.Extension.RoundTrip.{from_canonical_json-canonical_json}
use dovecote.Tests.Data.{crates}
use dovecote.Tests.Codec.{codecs, codec_laws}

-- Two microseconds to a character, and the odd one as half a step behind a full stop.
abbrev pub spelling : ℤ → Text
spelling (pos n) =
    if (n / 1_000) % 2 == 0
    then spelled_at ((n / 2_000 + 91) ∷ []) []
    else spelled_at ((n / 2_000 + 91) ∷ []) (b'5' ∷ [])
spelling (negsuc n) = []

-- Zeros, then `Z`.
abbrev zeros : Text → Bool
zeros [] = false
zeros (x ∷ s) = (x == b'0' && zeros s) || (x == b'Z' && is_empty s)

-- What stands behind the character: nothing, `Z`, or a fraction of zeros or of one half.
abbrev fraction : Text → Option ℕ
fraction [] = none
fraction (x ∷ s) = if zeros (x ∷ s) then some 0 else if x == b'5' && zeros s then some 1 else none

abbrev behind : Text → Option ℕ
behind [] = some 0
behind (x ∷ s) = if x == b'.' then fraction s else if x == b'Z' && is_empty s then some 0 else none

abbrev pub spelled : Text → Option ℤ
spelled [] = none
spelled (x ∷ s) =
    if ltb 90 x then Option.map (λ k. pos (((x - 91) * 2 + k) * 1_000)) (behind s) else none

-- The clock of the tests, with its spelling.
abbrev pub clock : Crates
clock = record crates { format_rfc3339 = spelling; parse_rfc3339 = spelled }

pub clock_laws : TimeLaws clock
clock_laws = record {
  unix_nanos-to_utc = λ t. refl;
  nanosecond-to_utc = λ t. refl;
  to_utc-to_utc = λ t. refl;
}

spelled-spelling : (t : ℤ) → IsWritable clock t → spelled (spelling t) ≡ some t
spelled-spelling (pos n) w = elim (Bool-cases ((n / 1_000) % 2 == 0)) [
  | inl e ↦ ground (arith, e, w.2)
  | inr e ↦ ground (arith, e, w.2)
]
spelled-spelling (negsuc n) w = absurd (ground (arith, w.0))

spelling-spelled :
    (t : ℤ)
    → IsWritable clock t
    → (whole fraction : Text) × Without b'.' whole
      × Digits fraction
      × (spelling t ≡ spelled_at whole fraction)
spelling-spelled (pos n) w = elim (Bool-cases ((n / 1_000) % 2 == 0)) [
  | inl e ↦ ((n / 2_000 + 91) ∷ [], [], (ground arith, tt), tt, rw e refl)
  | inr e ↦ (
    (n / 2_000 + 91) ∷ [],
    b'5' ∷ [],
    (ground arith, tt),
    ((omega arith, omega arith), tt),
    rw e refl,
  )
]
spelling-spelled (negsuc n) w = absurd (ground (arith, w.0))

zeros-zero : (s : Text) → Digits s → zeros (s ++ b'0' ∷ b'Z' ∷ []) ≡ zeros (s ++ b'Z' ∷ [])
zeros-zero [] d = refl
zeros-zero (x ∷ s) d = ground (arith, d.0, zeros-zero s d.1)

fraction-zero :
    (x : ℕ) (s : Text)
    → Digits (x ∷ s)
    → fraction (x ∷ s ++ b'0' ∷ b'Z' ∷ []) ≡ fraction (x ∷ s ++ b'Z' ∷ [])
fraction-zero x s d = rw (zeros-zero s d.1) (ground (arith, d.0))

-- Only a full stop or a last `Z` may stand behind the character.
behind-other :
    (y : ℕ) (r : Text) (z : ℕ) (s : Text) → (y == b'.') ≡ false → behind (y ∷ r ++ z ∷ s) ≡ none
behind-other y [] z s h = ground (arith, h)
behind-other y (x ∷ r) z s h = ground (arith, h)

-- The digits behind a first character do not matter to a text that is no spelling.
spelled-long :
    (x y : ℕ) (r : Text) (digits : Text)
    → (y == b'.') ≡ false
    → spelled (spelled_at (x ∷ y ∷ r) digits) ≡ none
spelled-long x y r [] h = rw (behind-other y r b'Z' [] h) (ground arith)
spelled-long x y r (d ∷ ds) h = rw (behind-other y r b'.' ((d ∷ ds) ++ codes "Z") h) (ground arith)

spelled-zero :
    (whole digits : Text)
    → Without b'.' whole
    → Digits digits
    → spelled (spelled_at whole (digits ++ codes "0")) ≡ spelled (spelled_at whole digits)
spelled-zero [] [] w d = refl
spelled-zero [] (x ∷ s) w d = refl
spelled-zero (y ∷ []) [] w d = refl
spelled-zero (y ∷ []) (x ∷ s) w d =
    ap (λ r. spelled (y ∷ b'.' ∷ x ∷ r)) (append_assoc s (codes "0") (codes "Z"))
    ∙ ap (λ o. if ltb 90 y then Option.map (λ k. pos (((y - 91) * 2 + k) * 1_000)) o else none)
        (fraction-zero x s d)
spelled-zero (x ∷ y ∷ r) digits w d =
    spelled-long x y r (digits ++ codes "0") w.1.0 ∙ sym (spelled-long x y r digits w.1.0)

pub spelling_laws : SpellingLaws clock
spelling_laws = record {
  format-spelled = spelling-spelled;
  parse-format = spelled-spelling;
  parse-zero = spelled-zero;
}

-- The extensions `seen`, a time, and `tries`, a number.
abbrev pub extensions : Extension.Extensions ℤ
extensions = record {
  entries =
      (record { value = codes "seen" }, Extension.timestamp (record { value = pos 5_000 }))
      ∷ (record { value = codes "tries" }, Extension.integer (pos 3))
      ∷ [];
}

pub extensions-IsExtensions : IsExtensions clock extensions
unfolding Extension.new_extension_name Extension.new_timestamp canonicalize_instant validate_instant
    Extension.validate_trace_context Extension.validate_trace_extension Extension.get map_get
    list_eq list_lt bytes utf8_char len
extensions-IsExtensions = record {
  ordered = ((refl, tt), (tt, tt));
  entries = ((refl, refl), ((refl, refl), tt));
  trace = refl;
}

from_canonical_json-canonical_json_example :
    from_canonical_json clock codecs (canonical_json clock codecs extensions) ≡ ok extensions
from_canonical_json-canonical_json_example =
    from_canonical_json-canonical_json clock codecs codec_laws spelling_laws extensions
      extensions-IsExtensions

abbrev tries : Extension.ExtensionName
tries = record { value = codes "tries" }

insert_lem_example :
    ((old : Extension.ExtensionValue ℤ) × (Extension.get extensions tries ≡ some old)
      × (Extension.insert extensions tries (Extension.boolean true)
          ≡ err (error "extension name" duplicate)))
    ⊎ ((grown : Extension.Extensions ℤ) × (Extension.get extensions tries ≡ none)
        × (Extension.insert extensions tries (Extension.boolean true) ≡ ok grown)
        × (Extension.get grown tries ≡ some (Extension.boolean true))
        × ((other : Extension.ExtensionName)
            → (other.value ≡ tries.value)
              ⊎ (Extension.get grown other ≡ Extension.get extensions other))
        × IsOrdered (λ n. n.value) grown.entries)
insert_lem_example =
    insert_lem extensions tries (Extension.boolean true) extensions-IsExtensions.ordered
