-- ===== src/Core/Validation/Timestamps.antt =====
-- crates/dovecote/src/validation.rs: the spelling of an instant in the projections, and in the durable form of
-- an extension.
use dovecote.Base.{◌==◌, Text, codes, [], ◌∷◌, ◌++◌, none, some, is_empty, if◌then◌else◌}
use dovecote.Core.Crates.{Crates}
use dovecote.Core.Validation.Splitting.{split_once, trim_end}

-- `strip_suffix('Z').unwrap_or`: the text without one `Z` at its end.
abbrev pub strip_z : Text → Text
strip_z [] = []
strip_z (x ∷ []) = if x == b'Z' then [] else x ∷ []
strip_z (x ∷ y ∷ s) = x ∷ strip_z (y ∷ s)

-- The fraction of a second without the zeros at its end, and without its point when nothing is left.
unfoldable pub trim_fraction : Text → Text
trim_fraction formatted = elim (split_once b'.' formatted) [
  | none ↦ formatted
  | some (whole, fraction) ↦
      let digits = trim_end (λ x. x == b'0') (strip_z fraction) in
      if is_empty digits then whole ++ codes "Z" else whole ++ codes "." ++ digits ++ codes "Z"
]

-- The values that are formatted have passed `validate_instant`; the `expect` on any other is not modelled.
unfoldable pub format_timestamp : (c : Crates) → c.OffsetDateTime → Text
format_timestamp c value = trim_fraction (c.format_rfc3339 (c.to_utc value))
