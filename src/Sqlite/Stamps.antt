-- ===== src/Sqlite/Stamps.antt =====
-- The stamps that SQLite writes for the years 1970 to 9999: texts of one width, in the format of the adapter's
-- statements. How they compare and what RFC 3339 reads in them is a hypothesis of the theorems about time.
use dovecote.Base.{ℕ, ◌*◌, ◌≡◌, ltb, pos, Text, list_lt, some}
use dovecote.Core.Crates.{Crates}

pub record StampLaws (c : Crates) : Type 1 where
  -- a text of the form YYYY-MM-DDTHH:MM:SS.mmm000Z, and its milliseconds from the epoch
  pub IsStamp : Text → Type 0
  pub millis : Text → ℕ
  -- the order of the texts is the order of the instants
  pub list_lt-stamps :
      (s t : Text) → IsStamp s → IsStamp t → list_lt s t ≡ ltb (millis s) (millis t)
  -- RFC 3339 reads a stamp as its instant
  pub parse-stamp :
      (s : Text)
      → IsStamp s
      → (v : c.OffsetDateTime) × (c.parse_rfc3339 s ≡ some v)
        × (c.unix_nanos v ≡ pos (millis s * 1_000_000))
