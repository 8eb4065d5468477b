-- ===== src/Sqlite/Claim/Distinct.antt =====
-- The tokens and the attempts of one claimed batch, as the relation to its candidates.
use dovecote.Base.{
  ℕ, zero, suc, ◌≤◌, ◌≡◌, refl, ap, ◌∙◌, true, not, all, All, ℤ, pos, negsuc, i64_max, int_le,
  list_eq, list_eq_refl, String, List, [], ◌∷◌, Option, none, some, Result, ok, arith, subst,
}
use dovecote.Core.Bounds.{new_attempt_count}
use dovecote.Sqlite.Claim.Tokens.{Draws, is_fresh}
use dovecote.Sqlite.Claim.Candidates.{Candidate}
use dovecote.Sqlite.Claim.Prepare.{Prepared, checked_add_one, prepare_one, prepare_all}
use dovecote.Sqlite.Claim.Batch.{>>=-done, prepare_one_sound}

-- One more, within `i64`, and never negative.
abbrev pub Successor : ℤ → ℤ → Type 0
Successor (pos n) b = (b ≡ pos (suc n)) × (suc n ≤ i64_max)
Successor (negsuc n) b = (n ≡ 0) × (b ≡ pos 0)

-- What an entry of the batch takes from its candidate, given the tokens in use: a token that is neither the
-- previous one of the row nor in use, one more attempt, and the key and the tenant of the event.
abbrev pub IsClaimOf :
    {Columns Event : Type 0} → Candidate Columns → List (List ℕ) → Prepared Event → Type 0
IsClaimOf x used p =
    (¬ (x.delivery.claim_token ≡ some p.token))
    × (All (λ t. ¬ (t ≡ p.token)) used)
    × (Successor x.delivery.attempts p.attempts.value)
    × (p.event_row_id ≡ x.event.row_id)
    × (p.row_id.value ≡ x.event.row_id)
    × (p.tenant_id.value ≡ x.event.tenant_id)

all_apart :
    (token : List ℕ) (used : List (List ℕ))
    → all (λ value. not (list_eq value token)) used ≡ true
    → All (λ t. ¬ (t ≡ token)) used
all_apart token [] h = tt
all_apart token (t ∷ used) h = (
  λ same. absurd (ground (arith, h, ap (λ v. list_eq v token) same ∙ list_eq_refl token)),
  all_apart token used (ground (arith, h)),
)

-- A fresh token is not the previous one, and is not in use.
is_fresh_sound :
    (previous : Option (List ℕ)) (used : List (List ℕ)) (token : List ℕ)
    → is_fresh previous used token ≡ true
    → (¬ (previous ≡ some token)) × All (λ t. ¬ (t ≡ token)) used
unfolding is_fresh
is_fresh_sound none used token h = (λ same. cc, all_apart token used h)
is_fresh_sound (some old) used token h = (
  λ same.
      let equal : old ≡ token = cc in
      absurd (ground (arith, h, ap (λ v. list_eq v token) equal ∙ list_eq_refl token)),
  all_apart token used (ground (arith, h)),
)

checked_add_one-Successor :
    (a b : ℤ) → checked_add_one a ≡ some b → int_le (pos 0) b ≡ true → Successor a b
unfolding checked_add_one
checked_add_one-Successor (pos n) b h k = ground (arith, h)
checked_add_one-Successor (negsuc zero) b h k = (refl, cc)
checked_add_one-Successor (negsuc (suc n)) b h k =
    let same : negsuc n ≡ b = cc in
    let bad : int_le (pos 0) (negsuc n) ≡ true = ap (int_le (pos 0)) same ∙ k in absurd cc

-- The batch matches its candidates one by one.
abbrev pub IsClaimFor :
    {Columns Event : Type 0}
    → List (Candidate Columns)
    → List (List ℕ)
    → List (Prepared Event)
    → Type 0
IsClaimFor [] used [] = Unit {0}
IsClaimFor (x ∷ xs) used (p ∷ ps) = IsClaimOf x used p × IsClaimFor xs (p.token ∷ used) ps
IsClaimFor _ used _ = ⊥

module _ {Columns Event : Type 0} (hydrate : Columns → Result String Event) where
  prepare_one-attempts :
      (x : Candidate Columns) (used : List (List ℕ)) (draws : Draws) (p : Prepared Event)
      (rest : Draws)
      → prepare_one hydrate x used draws ≡ some (ok (p, rest))
      → int_le (pos 0) p.attempts.value ≡ true
  unfolding prepare_one new_attempt_count
  prepare_one-attempts x used draws p rest h = ground (arith, h)

  prepare_one-IsClaimOf :
      (x : Candidate Columns) (used : List (List ℕ)) (draws : Draws) (p : Prepared Event)
      (rest : Draws)
      → prepare_one hydrate x used draws ≡ some (ok (p, rest))
      → IsClaimOf x used p
  prepare_one-IsClaimOf x used draws p rest h =
      let (fresh, next, key, row, tenant) = prepare_one_sound hydrate x used draws p rest h in
      let (other, apart) = is_fresh_sound x.delivery.claim_token used p.token fresh in
      let count =
        checked_add_one-Successor x.delivery.attempts p.attempts.value next
          (prepare_one-attempts x used draws p rest h) in
      (other, apart, count, key, row, tenant)

  -- A batch that the first loop prepares matches its candidates one by one: each token is neither the previous
  -- one of its row nor one that an earlier entry has, the attempts are one more, and the key and the tenant are
  -- those of the event.
  pub prepare_all-IsClaimFor :
      (xs : List (Candidate Columns)) (used : List (List ℕ)) (draws : Draws)
      (ps : List (Prepared Event))
      → prepare_all hydrate xs used draws ≡ some (ok ps)
      → IsClaimFor xs used ps
  unfolding prepare_all
  prepare_all-IsClaimFor [] used draws [] h = tt
  prepare_all-IsClaimFor [] used draws (p ∷ ps) h = absurd (cc)
  prepare_all-IsClaimFor (x ∷ xs) used draws out h =
      let ((p, rest), e, k) = >>=-done (prepare_one hydrate x used draws) _ out h in
      let (ps, e', k') = >>=-done (prepare_all hydrate xs (p.token ∷ used) rest) _ out k in
      let same : (p ∷ ps) ≡ out = ground (arith, k') in
      subst (IsClaimFor (x ∷ xs) used) same (
        prepare_one-IsClaimOf x used draws p rest e,
        prepare_all-IsClaimFor xs (p.token ∷ used) rest ps e',
      )
