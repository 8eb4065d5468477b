-- ===== src/Sqlite/Hydrate/Rows.antt =====
-- crates/dovecote-sqlx-sqlite/src/hydrate.rs: the rows of a page, an event joined with its delivery.
use dovecote.Base.{
  ℕ, ℤ, ◌≡◌, refl, ap, ◌∙◌, not, ◌==◌, length, String, Text, is_some, List, Option, none, some,
  Result, ok, err, ok_or, map_err, reject_if, ◌>>◌, ◌>>=◌, Yields, bind-Yields, ok-Yields,
  map_err-Yields, map_err-eq-ok, arith,
}
use dovecote.Core.Crates.{Crates}
use dovecote.Core.Codecs.{Codecs}
use dovecote.Core.Bounds.{RowId, new_row_id, new_attempt_count, AttemptCount}
use dovecote.Core.Bounds.Instants.{canonicalize_instant}
use dovecote.Core.Operational.{Failure, new_failure, new_worker_id, new_quarantine_reason}
use dovecote.Core.Value.{TenantId, new_tenant_id, new_tenant_id_value}
use dovecote.Core.Event.{StoredEvent}
use dovecote.Core.State.Snapshot.{
  DeliverySnapshot, new_pending, new_claimed, new_delivered_snapshot, new_quarantined,
}
use dovecote.Core.Paged.{PagedEvent, new_paged_event}
use dovecote.Sqlite.Table.{StateText, pending, claimed, delivered, quarantined, other}
use dovecote.Sqlite.Mutation.{parse_timestamp}
use dovecote.Sqlite.Hydrate.{
  EventColumns, HydrateError, invalid, described, unknown_state, hydrate_event,
}

-- `struct DurableRow`; a left join leaves the columns of a missing delivery null.
pub record DurableRow : Type 0 where
  pub row_id : ℤ
  pub tenant_id : Text
  pub columns : EventColumns
  pub enqueued_at : Text
  pub state : Option StateText
  pub available_at : Option Text
  pub attempts : Option ℤ
  pub claim_token : Option (List ℕ)
  pub claimed_by : Option Text
  pub claim_expires_at : Option Text
  pub last_failure_code : Option Text
  pub last_failure_detail : Option Text
  pub delivered_at : Option Text
  pub quarantined_at : Option Text
  pub quarantine_reason : Option Text

-- The text names the field.
abbrev pub require_absent {ℓ} : {A : Type ℓ} → String → Option A → Result HydrateError (Unit {0})
require_absent field value = reject_if (is_some value) (described field)

abbrev pub require_token_width : Option (List ℕ) → Result HydrateError (Unit {0})
require_token_width none = err (described "claimed delivery has no claim token")
require_token_width (some value) =
    reject_if (not (length value == 16))
      (described "claimed delivery has an invalid claim token width")

abbrev pub parse_failure : Option Text → Option Text → Result HydrateError (Option Failure)
parse_failure none none = ok none
parse_failure (some code) (some detail) = do
  failure ← map_err invalid (new_failure code detail)
  ok (some failure)
parse_failure _ _ = err (described "delivery failure code and detail must be both NULL or non-NULL")

module _ (c : Crates) where
  open c use {OffsetDateTime}

  -- A required time column.
  abbrev pub time_of : Option Text → String → Result HydrateError OffsetDateTime
  time_of value missing = do
    text ← ok_or value (described missing)
    map_err described (parse_timestamp c text)

  unfoldable pub hydrate_pending :
      DurableRow
      → OffsetDateTime
      → AttemptCount
      → Option Failure
      → Result HydrateError (DeliverySnapshot OffsetDateTime)
  hydrate_pending row available_at attempts failure = do
    require_absent "pending claim token" row.claim_token
    require_absent "pending claimed worker" row.claimed_by
    require_absent "pending claim expiry" row.claim_expires_at
    require_absent "pending delivered time" row.delivered_at
    require_absent "pending quarantine time" row.quarantined_at
    require_absent "pending quarantine reason" row.quarantine_reason
    map_err invalid (new_pending c available_at attempts failure)

  unfoldable pub hydrate_claimed :
      DurableRow
      → OffsetDateTime
      → AttemptCount
      → Option Failure
      → Result HydrateError (DeliverySnapshot OffsetDateTime)
  hydrate_claimed row available_at attempts failure = do
    require_token_width row.claim_token
    name ← ok_or row.claimed_by (described "claimed delivery has no worker")
    worker ← map_err invalid (new_worker_id name)
    expires_at ← time_of row.claim_expires_at "claimed delivery has no claim expiry"
    require_absent "claimed delivered time" row.delivered_at
    require_absent "claimed quarantine time" row.quarantined_at
    require_absent "claimed quarantine reason" row.quarantine_reason
    map_err invalid (new_claimed c available_at worker expires_at attempts failure)

  unfoldable pub hydrate_delivered :
      DurableRow
      → OffsetDateTime
      → AttemptCount
      → Option Failure
      → Result HydrateError (DeliverySnapshot OffsetDateTime)
  hydrate_delivered row available_at attempts failure = do
    require_absent "delivered claim token" row.claim_token
    require_absent "delivered claimed worker" row.claimed_by
    require_absent "delivered claim expiry" row.claim_expires_at
    at ← time_of row.delivered_at "delivered delivery has no delivered time"
    require_absent "delivered quarantine time" row.quarantined_at
    require_absent "delivered quarantine reason" row.quarantine_reason
    map_err invalid (new_delivered_snapshot c available_at at attempts failure)

  unfoldable pub hydrate_quarantined :
      DurableRow
      → OffsetDateTime
      → AttemptCount
      → Option Failure
      → Result HydrateError (DeliverySnapshot OffsetDateTime)
  hydrate_quarantined row available_at attempts failure = do
    require_absent "quarantined claim token" row.claim_token
    require_absent "quarantined claimed worker" row.claimed_by
    require_absent "quarantined claim expiry" row.claim_expires_at
    require_absent "quarantined delivered time" row.delivered_at
    at ← time_of row.quarantined_at "quarantined delivery has no quarantine time"
    require_absent "quarantined delivered time" row.delivered_at
    text ← ok_or row.quarantine_reason (described "quarantined delivery has no quarantine reason")
    reason ← map_err invalid (new_quarantine_reason text)
    map_err invalid (new_quarantined c available_at at attempts failure reason)

  -- The match on the state.
  unfoldable pub hydrate_delivery :
      DurableRow
      → StateText
      → OffsetDateTime
      → AttemptCount
      → Option Failure
      → Result HydrateError (DeliverySnapshot OffsetDateTime)
  hydrate_delivery row pending available_at attempts failure =
      hydrate_pending row available_at attempts failure
  hydrate_delivery row claimed available_at attempts failure =
      hydrate_claimed row available_at attempts failure
  hydrate_delivery row delivered available_at attempts failure =
      hydrate_delivered row available_at attempts failure
  hydrate_delivery row quarantined available_at attempts failure =
      hydrate_quarantined row available_at attempts failure
  hydrate_delivery row (other text) available_at attempts failure = err (unknown_state text)

  unfoldable pub hydrate_page :
      Codecs → DurableRow → Result HydrateError (PagedEvent OffsetDateTime)
  hydrate_page k row = do
    tenant_id ← map_err invalid (new_tenant_id row.tenant_id)
    row_id ← map_err invalid (new_row_id row.row_id)
    event ← hydrate_event c k row.columns
    state ← ok_or row.state (described "event has no required delivery row")
    available_text ← ok_or row.available_at (described "delivery row has no available_at")
    count ← ok_or row.attempts (described "delivery row has no attempts")
    attempts ← map_err invalid (new_attempt_count count)
    failure ← parse_failure row.last_failure_code row.last_failure_detail
    available_at ← map_err described (parse_timestamp c available_text)
    delivery ← hydrate_delivery row state available_at attempts failure
    enqueued_at ← map_err described (parse_timestamp c row.enqueued_at)
    map_err invalid (new_paged_event c tenant_id row_id event enqueued_at delivery)

  new_paged_event-ids :
      (t : TenantId) (id : RowId) (e : StoredEvent OffsetDateTime) (at : OffsetDateTime)
      (d : DeliverySnapshot OffsetDateTime)
      → Yields (λ p. (p.row_id ≡ id) × (p.tenant_id ≡ t)) (new_paged_event c t id e at d)
  unfolding new_paged_event
  new_paged_event-ids t id e at d =
      bind-Yields (λ p. (p.row_id ≡ id) × (p.tenant_id ≡ t))
        (canonicalize_instant c "enqueued_at" at) _
        (λ u made. ok-Yields (λ p. (p.row_id ≡ id) × (p.tenant_id ≡ t)) _ (refl, refl))

  new_row_id-value : (v : ℤ) (id : RowId) → new_row_id v ≡ ok id → id.value ≡ v
  unfolding new_row_id
  new_row_id-value v id h = ground (arith, h)

  -- The event of a page has the row id and the tenant of its row.
  abbrev pub IsOf : DurableRow → PagedEvent OffsetDateTime → Type 0
  IsOf row p = (p.row_id.value ≡ row.row_id) × (p.tenant_id.value ≡ row.tenant_id)

  pub hydrate_page-IsOf : (k : Codecs) (row : DurableRow) → Yields (IsOf row) (hydrate_page k row)
  unfolding hydrate_page
  hydrate_page-IsOf k row =
      bind-Yields (IsOf row) (map_err invalid (new_tenant_id row.tenant_id)) _ (λ t h1.
        bind-Yields (IsOf row) (map_err invalid (new_row_id row.row_id)) _ (λ id h2.
          bind-Yields (IsOf row) (hydrate_event c k row.columns) _ (λ e h3.
            bind-Yields (IsOf row) (ok_or row.state _) _ (λ s h4.
              bind-Yields (IsOf row) (ok_or row.available_at _) _ (λ a h5.
                bind-Yields (IsOf row) (ok_or row.attempts _) _ (λ n h6.
                  bind-Yields (IsOf row) (map_err invalid (new_attempt_count n)) _ (λ m h7.
                    bind-Yields (IsOf row)
                      (parse_failure row.last_failure_code row.last_failure_detail) _
                      (λ f h8.
                        bind-Yields (IsOf row) (map_err described (parse_timestamp c a)) _ (λ at h9.
                          bind-Yields (IsOf row) (hydrate_delivery row s at m f) _ (λ d h10.
                            bind-Yields (IsOf row)
                              (map_err described (parse_timestamp c row.enqueued_at)) _
                              (λ q h11.
                                map_err-Yields (IsOf row) invalid (new_paged_event c t id e q d)
                                  (λ p made.
                                    let ids = new_paged_event-ids t id e q d p made in
                                    (
                                      ap (λ i. i.value) ids.0
                                          ∙ new_row_id-value row.row_id id (map_err-eq-ok _ _ h2),
                                      ap (λ i. i.value) ids.1
                                          ∙ new_tenant_id_value row.tenant_id t
                                              (map_err-eq-ok _ _ h1),
                                    )))))))))))))
