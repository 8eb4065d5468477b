-- ===== src/Tests/Data.antt =====
-- A clock, a table and two tenants for the tests. A stamp is a text of one character, its number of
-- milliseconds.
use dovecote.Base.{
  ℕ, len, bytes, utf8_char, ◌+◌, ◌*◌, ◌/◌, ◌%◌, ◌≡◌, refl, true, false, ltb, ℤ, pos, negsuc, String,
  Text, list_lt, List, [], ◌∷◌, Option, none, some, Result, ok, arith,
}
use dovecote.Core.Crates.{Crates, TimeLaws}
use dovecote.Core.Bounds.{RowId}
use dovecote.Core.Bounds.Durations.{Lease, from_secs}
use dovecote.Core.Operational.{WorkerId}
use dovecote.Core.Value.{TenantId}
use dovecote.Core.State.{ClaimToken}
use dovecote.Sqlite.Stamps.{StampLaws}
use dovecote.Sqlite.Table.{pending, claimed, DeliveryRow, Table, Sqlite}
use dovecote.Sqlite.Table.Schema.{IsTable}
use dovecote.Sqlite.Claim.Candidates.{EventRow}
use dovecote.Sqlite.Claim.Run.{ClaimFaults, ClaimRequest}

abbrev nanos : Text → Option ℤ
nanos [] = none
nanos (n ∷ []) = some (pos (n * 1_000_000))
nanos (n ∷ m ∷ ns) = none

abbrev stamp : ℤ → Text
stamp (pos n) = (n / 1_000_000) ∷ []
stamp (negsuc n) = []

abbrev plus : Text → ℕ → ℕ → Text
plus [] secs ms = []
plus (n ∷ ns) secs ms = (n + secs * 1_000 + ms) ∷ ns

abbrev first : Text → ℕ
first [] = 0
first (n ∷ ns) = n

abbrev below_second : ℤ → ℕ
below_second (pos n) = n % 1_000_000_000
below_second (negsuc n) = 0

-- A clock whose values are nanoseconds from the epoch.
abbrev pub crates : Crates
crates = record {
  OffsetDateTime = ℤ;
  unix_nanos = λ t. t;
  nanosecond = below_second;
  to_utc = λ t. t;
  format_rfc3339 = stamp;
  parse_rfc3339 = nanos;
  parse_uri = λ t. true;
  parse_uri_ref = λ t. true;
  Mime = Text;
  parse_mime = some;
  subtype_is_json = λ m. true;
  suffix_is_json = λ m. false;
  from_utf8_is_ok = λ b. true;
  parses_json = λ b. true;
}

abbrev pub sqlite : Sqlite
sqlite = record { strftime_plus = plus }

abbrev pub time_laws : TimeLaws crates
time_laws = record {
  unix_nanos-to_utc = λ t. refl;
  nanosecond-to_utc = λ t. refl;
  to_utc-to_utc = λ t. refl;
}

abbrev pub IsOne : Text → Type 0
IsOne [] = ⊥
IsOne (n ∷ []) = Unit {0}
IsOne (n ∷ m ∷ ns) = ⊥

pub one_lt : (s t : Text) → IsOne s → IsOne t → list_lt s t ≡ ltb (first s) (first t)
unfolding list_lt
one_lt [] t i j = absurd i
one_lt (n ∷ []) [] i j = absurd j
one_lt (n ∷ []) (m ∷ []) i j = ground arith
one_lt (n ∷ []) (m ∷ k ∷ ms) i j = absurd j
one_lt (n ∷ k ∷ ns) t i j = absurd i

pub one_parse :
    (s : Text) → IsOne s → (v : ℤ) × (nanos s ≡ some v) × (v ≡ pos (first s * 1_000_000))
one_parse [] i = absurd i
one_parse (n ∷ []) i = (_, refl, refl)
one_parse (n ∷ m ∷ ns) i = absurd i

abbrev pub stamp_laws : StampLaws crates
stamp_laws = record {
  IsStamp = IsOne;
  millis = first;
  list_lt-stamps = one_lt;
  parse-stamp = one_parse;
}

abbrev pub at : ℕ → Text
at n = n ∷ []

-- Sixteen equal bytes.
abbrev pub token_of : ℕ → List ℕ
token_of b = b ∷ b ∷ b ∷ b ∷ b ∷ b ∷ b ∷ b ∷ b ∷ b ∷ b ∷ b ∷ b ∷ b ∷ b ∷ b ∷ []

abbrev pub acme : TenantId
acme = record { value = 97 ∷ [] }

abbrev pub other_tenant : Text
other_tenant = 98 ∷ []

abbrev pub worker : WorkerId
worker = record { value = 119 ∷ [] }

abbrev pub first_id : RowId
first_id = record { value = pos 1 }

abbrev pub old_token : ClaimToken
old_token = record { value = token_of 7 }

-- Claimed, with a lease that ends at 1000.
abbrev pub held_row : DeliveryRow
held_row = record {
  event_row_id = pos 1;
  tenant_id = 97 ∷ [];
  state = claimed;
  attempts = pos 1;
  claim_token = some (token_of 7);
  claimed_by = some (118 ∷ []);
  claim_expires_at = some (1000 ∷ []);
  last_failure_code = none;
  last_failure_detail = none;
  delivered_at = none;
  quarantined_at = none;
  quarantine_reason = none;
  available_at = 10 ∷ [];
}

-- Pending since 20, of another tenant.
abbrev pub waiting_row : DeliveryRow
waiting_row = record {
  event_row_id = pos 2;
  tenant_id = 98 ∷ [];
  state = pending;
  attempts = pos 0;
  claim_token = none;
  claimed_by = none;
  claim_expires_at = none;
  last_failure_code = none;
  last_failure_detail = none;
  delivered_at = none;
  quarantined_at = none;
  quarantine_reason = none;
  available_at = 20 ∷ [];
}

abbrev pub deliveries : Table
deliveries = held_row ∷ waiting_row ∷ []

abbrev pub events : List (EventRow String)
events =
    record { row_id = pos 1; tenant_id = 97 ∷ []; columns = "one" }
    ∷ record { row_id = pos 2; tenant_id = 98 ∷ []; columns = "two" }
    ∷ []

abbrev pub hydrate : String → Result String String
hydrate columns = ok columns

abbrev pub half_minute : Lease
half_minute = record { value = from_secs 30 }

abbrev pub request : ClaimRequest
request = record {
  tenant_id = none;
  worker = worker;
  lease_for = half_minute;
  limit = record { value = 2 };
}

-- A run at 2000 whose random source repeats the old token before two new ones.
abbrev pub claim_run : ClaimFaults
claim_run = record {
  begin = none;
  time = ok (at 2000);
  select = none;
  entropy = ok (token_of 7) ∷ ok (token_of 8) ∷ ok (token_of 9) ∷ [];
  update = λ i. none;
  commit = none;
}

pub deliveries-IsTable : IsTable deliveries
unfolding len bytes utf8_char
deliveries-IsTable = (
  record {
    shape = (tt, tt, tt, refl, refl, refl);
    width = refl;
    attempts = refl;
    failure = tt;
    tenant = (omega arith, omega arith);
    worker = omega arith;
    code = tt;
    detail = tt;
    reason = tt;
  },
  (
    record {
      shape = (refl, refl, refl, refl, refl, refl);
      width = tt;
      attempts = refl;
      failure = tt;
      tenant = (omega arith, omega arith);
      worker = tt;
      code = tt;
      detail = tt;
      reason = tt;
    },
    tt,
  ),
)
