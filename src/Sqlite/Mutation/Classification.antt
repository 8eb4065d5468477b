-- ===== src/Sqlite/Mutation/Classification.antt =====
-- Why a claimed, delivered, pending or quarantined row refuses a mutation.
use dovecote.Base.{
  ℕ, ◌*◌, ◌≡◌, refl, Bool, false, ◌&&◌, pos, Text, list_eq, list_lt, List, length, Option, none,
  some, ok, err, arith, Option-cases, inl, inr, ◌∙◌,
}
use dovecote.Core.Crates.{Crates, TimeLaws}
use dovecote.Core.State.{ClaimToken}
use dovecote.Core.State.Snapshot.{DeliveryState}
use dovecote.Sqlite.Errors.{MutationError, illegal_transition, lost_claim, serialization}
use dovecote.Sqlite.Stamps.{StampLaws}
use dovecote.Sqlite.Table.{
  StateText, pending, claimed, delivered, quarantined, other, DeliveryRow, Sqlite, is_claimed,
  null_eq, null_gt,
}
use dovecote.Sqlite.Table.Schema.{IsRow, ShapeOf}
use dovecote.Sqlite.Mutation.{parse_timestamp, classify_delivery}

-- The refusal that the state of a row calls for.
abbrev pub refusal : StateText → MutationError
refusal pending = illegal_transition DeliveryState.pending
refusal claimed = lost_claim
refusal delivered = illegal_transition DeliveryState.delivered
refusal quarantined = illegal_transition DeliveryState.quarantined
refusal (other text) = serialization "unknown delivery state"

-- The token is the row's and its lease runs on.
unfoldable pub holds : ClaimToken → Text → DeliveryRow → Bool
holds token now r =
    is_claimed r.state && null_eq r.claim_token token.value && null_gt r.claim_expires_at now

module _ (c : Crates) (q : Sqlite) (time : TimeLaws c) (stamps : StampLaws c) where
  open stamps use {IsStamp, millis, list_lt-stamps, parse-stamp}

  abbrev pub OptionalStamp : Option Text → Type 0
  OptionalStamp none = Unit {0}
  OptionalStamp (some t) = IsStamp t

  -- A stamp parses to a value at its milliseconds.
  parse_timestamp_lem :
      (t : Text)
      → IsStamp t
      → (v : c.OffsetDateTime) × (parse_timestamp c t ≡ ok v)
        × (c.unix_nanos v ≡ pos (millis t * 1_000_000))
  unfolding parse_timestamp
  parse_timestamp_lem t s =
      let (v, p, n) = parse-stamp t s in
      (c.to_utc v, rw (p, parse_timestamp) refl, time.unix_nanos-to_utc v ∙ n)

  -- A claimed row with another token, or whose lease is over, lost the claim.
  classify_claimed :
      (r : DeliveryRow) (token : ClaimToken) (now x : Text) (s : List ℕ)
      → r.state ≡ claimed
      → r.claim_token ≡ some s
      → length s ≡ 16
      → r.claim_expires_at ≡ some x
      → IsStamp x
      → IsStamp now
      → (list_eq s token.value && list_lt now x) ≡ false
      → classify_delivery c r token now ≡ err lost_claim
  unfolding classify_delivery
  classify_claimed r token now x s hs ht hw he ix inow late =
      let (v, p, n) = parse_timestamp_lem x ix in
      let (w, p', n') = parse_timestamp_lem now inow in
      ground (arith, p, p', n, n', list_lt-stamps now x inow ix)

  -- A row of the schema that does not hold the token refuses with the error of its state.
  pub classify-refusal :
      (r : DeliveryRow) (token : ClaimToken) (now : Text)
      → IsRow r
      → OptionalStamp r.claim_expires_at
      → IsStamp now
      → holds token now r ≡ false
      → classify_delivery c r token now ≡ err (refusal r.state)
  unfolding holds
  classify-refusal r token now v i inow h = go r.state refl v.shape
    where
      go :
          (s : StateText)
          → r.state ≡ s
          → ShapeOf s r
          → classify_delivery c r token now ≡ err (refusal s)
      go pending e p = unfold classify_delivery in simp e
      go delivered e p = unfold classify_delivery in simp e
      go quarantined e p = unfold classify_delivery in simp e
      go (other t) e p = absurd p
      go claimed e p = elim (Option-cases r.claim_token) [
        | inl n ↦ absurd (rw n at p.0)
        | inr (s, n) ↦ elim (Option-cases r.claim_expires_at) [
          | inl m ↦ absurd (rw m at p.2)
          | inr (x, m) ↦
              classify_claimed r token now x s e n (rw n at v.width) m (rw m at i) inow
                (ground arith)
        ]
      ]
