-- ===== src/Sqlite/Claim/Batch.antt =====
-- The tokens of one claimed batch.
use dovecote.Base.{
  ℕ, ◌≡◌, refl, true, false, list_eq, String, List, [], ◌∷◌, none, some, Result, ok, err, arith,
  subst,
}
use dovecote.Core.Value.{new_tenant_id_value}
use dovecote.Sqlite.Claim.Tokens.{Draws, is_fresh, fresh_token_sound}
use dovecote.Sqlite.Claim.Candidates.{Candidate}
use dovecote.Sqlite.Claim.Prepare.{
  Drawing, Prepared, checked_add_one, prepare_one, prepare_all, ◌>>=◌,
}

abbrev pub Differ : List ℕ → List ℕ → Type 0
Differ s t = list_eq s t ≡ false

-- What an entry of the batch takes from its candidate, given the tokens in use.
abbrev pub IsPreparedFor :
    {Columns Event : Type 0} → Candidate Columns → List (List ℕ) → Prepared Event → Type 0
IsPreparedFor x used p =
    (is_fresh x.delivery.claim_token used p.token ≡ true)
    × (checked_add_one x.delivery.attempts ≡ some p.attempts.value)
    × (p.event_row_id ≡ x.event.row_id)
    × (p.row_id.value ≡ x.event.row_id)
    × (p.tenant_id.value ≡ x.event.tenant_id)

-- The batch matches its candidates one by one, each token differing from those before it and from
-- the previous token of its row.
abbrev pub IsBatchFor :
    {Columns Event : Type 0}
    → List (Candidate Columns)
    → List (List ℕ)
    → List (Prepared Event)
    → Type 0
IsBatchFor [] used [] = Unit {0}
IsBatchFor (x ∷ xs) used (p ∷ ps) = IsPreparedFor x used p × IsBatchFor xs (p.token ∷ used) ps
IsBatchFor _ used _ = ⊥

pub >>=-done :
    {A B : Type 0} (m : Drawing A) (f : A → Drawing B) (b : B)
    → (m >>= f) ≡ some (ok b)
    → (a : A) × (m ≡ some (ok a)) × (f a ≡ some (ok b))
>>=-done none f b h = absurd (cc)
>>=-done (some (err e)) f b h = absurd (cc)
>>=-done (some (ok a)) f b h = (a, refl, h)

module _ {Columns Event : Type 0} (hydrate : Columns → Result String Event) where
  pub prepare_one_sound :
      (x : Candidate Columns) (used : List (List ℕ)) (draws : Draws) (p : Prepared Event)
      (rest : Draws)
      → prepare_one hydrate x used draws ≡ some (ok (p, rest))
      → IsPreparedFor x used p
  unfolding prepare_one
  prepare_one_sound x used draws p rest h = ground (
    arith,
    fresh_token_sound x.delivery.claim_token used draws p.token rest,
    new_tenant_id_value x.event.tenant_id p.tenant_id,
  )

  -- A batch that the first loop prepares matches its candidates.
  pub prepare_all_sound :
      (xs : List (Candidate Columns)) (used : List (List ℕ)) (draws : Draws)
      (ps : List (Prepared Event))
      → prepare_all hydrate xs used draws ≡ some (ok ps)
      → IsBatchFor xs used ps
  unfolding prepare_all
  prepare_all_sound [] used draws [] h = tt
  prepare_all_sound [] used draws (p ∷ ps) h = absurd (cc)
  prepare_all_sound (x ∷ xs) used draws out h =
      let ((p, rest), e, k) = >>=-done (prepare_one hydrate x used draws) _ out h in
      let (ps, e', k') = >>=-done (prepare_all hydrate xs (p.token ∷ used) rest) _ out k in
      let same : (p ∷ ps) ≡ out = ground (arith, k') in
      subst (IsBatchFor (x ∷ xs) used) same
        (prepare_one_sound x used draws p rest e, prepare_all_sound xs (p.token ∷ used) rest ps e')
