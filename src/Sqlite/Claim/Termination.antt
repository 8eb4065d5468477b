-- ===== src/Sqlite/Claim/Termination.antt =====
-- How many tokens a claim has to draw.
use dovecote.Base.{
  ℕ, ◌≤◌, ◌≡◌, refl, true, not, all, list_eq, List, [], ◌∷◌, length, All, Option, none, some,
  String, Text, Result, ok, err, arith, Option-cases, Result-cases, inl, inr, sym, subst,
}
use dovecote.Core.Crates.{Crates}
use dovecote.Sqlite.Errors.{ClaimError}
use dovecote.Sqlite.Busy.{checked_milliseconds}
use dovecote.Sqlite.Table.{DeliveryRow, Table, Sqlite, begin_transaction}
use dovecote.Sqlite.Claim.Tokens.{Draws, is_fresh, fresh_token}
use dovecote.Sqlite.Claim.Candidates.{EventRow, Candidate, claim_candidates}
use dovecote.Sqlite.Claim.Prepare.{Prepared, Drawing, ◌>>=◌, prepare_one, prepare_all}
use dovecote.Sqlite.Claim.Selection.{All-claim_candidates, claim_candidates_sound}
use dovecote.Sqlite.Claim.Run.{
  ClaimFaults, ClaimRequest, update_all, claim_prepared, claim_selected, claim_once,
}

-- The tokens differ from each other, and from those in use.
abbrev pub AllNew : List (List ℕ) → List (List ℕ) → Type 0
AllNew used [] = Unit {0}
AllNew used (t ∷ ts) = (all (λ value. not (list_eq value t)) used ≡ true) × AllNew (t ∷ used) ts

-- None of the tokens is the one that the delivery has.
abbrev pub NewFor : List (List ℕ) → DeliveryRow → Type 0
NewFor ts d = All (λ t. is_fresh d.claim_token [] t ≡ true) ts

-- The source gives the tokens one after the other.
abbrev pub drawn_from : List (List ℕ) → Draws
drawn_from [] = []
drawn_from (t ∷ ts) = ok t ∷ drawn_from ts

is_fresh_of :
    (previous : Option (List ℕ)) (used : List (List ℕ)) (t : List ℕ)
    → all (λ value. not (list_eq value t)) used ≡ true
    → is_fresh previous [] t ≡ true
    → is_fresh previous used t ≡ true
unfolding is_fresh
is_fresh_of none used t a f = a
is_fresh_of (some p) used t a f = ground (arith, a, f)

All-tail :
    {Columns : Type 0} (t : List ℕ) (ts : List (List ℕ)) (xs : List (Candidate Columns))
    → All (λ (x : Candidate Columns). NewFor (t ∷ ts) x.delivery) xs
    → All (λ (x : Candidate Columns). NewFor ts x.delivery) xs
All-tail t ts [] h = tt
All-tail t ts (x ∷ xs) h = (h.0.1, All-tail t ts xs h.1)

-- The step has a result: an error, or a value with the property.
abbrev Done : {A : Type 0} → (A → Type 0) → Drawing A → Type 0
Done P none = ⊥
Done P (some (err e)) = Unit {0}
Done P (some (ok a)) = P a

abbrev Any : {A : Type 0} → A → Type 0
Any a = Unit {0}

Done-bind :
    {A B : Type 0} (P : A → Type 0) (Q : B → Type 0) (m : Drawing A) (f : A → Drawing B)
    → Done P m
    → ((a : A) → P a → Done Q (f a))
    → Done Q (m >>= f)
Done-bind P Q none f h k = absurd h
Done-bind P Q (some (err e)) f h k = tt
Done-bind P Q (some (ok a)) f h k = k a h

Done-now : {A : Type 0} (r : Result ClaimError A) → Done Any (some r)
Done-now (ok a) = tt
Done-now (err e) = tt

fresh_token_now :
    (previous : Option (List ℕ)) (used : List (List ℕ)) (t : List ℕ) (draws : Draws)
    → is_fresh previous used t ≡ true
    → fresh_token previous used (ok t ∷ draws) ≡ some (ok (t, draws))
unfolding fresh_token
fresh_token_now previous used t draws f = rw (f, fresh_token) refl

module _ {Columns Event : Type 0} (hydrate : Columns → Result String Event) where
  abbrev Took : List ℕ → Draws → Prepared Event × Draws → Type 0
  Took t draws out = (out.0.token ≡ t) × (out.1 ≡ draws)

  prepare_one-Done :
      (x : Candidate Columns) (used : List (List ℕ)) (t : List ℕ) (draws : Draws)
      → is_fresh x.delivery.claim_token used t ≡ true
      → Done (Took t draws) (prepare_one hydrate x used (ok t ∷ draws))
  unfolding prepare_one
  prepare_one-Done x used t draws f =
      ground (arith, fresh_token_now x.delivery.claim_token used t draws f)

  prepare_all-Done :
      (xs : List (Candidate Columns)) (used ts : List (List ℕ))
      → AllNew used ts
      → All (λ (x : Candidate Columns). NewFor ts x.delivery) xs
      → length xs ≤ length ts
      → Done Any (prepare_all hydrate xs used (drawn_from ts))
  unfolding prepare_all
  prepare_all-Done [] used ts a n l = tt
  prepare_all-Done (x ∷ xs) used [] a n l = absurd (omega (arith, l))
  prepare_all-Done (x ∷ xs) used (t ∷ ts) a n l =
      Done-bind (Took t (drawn_from ts)) Any (prepare_one hydrate x used (ok t ∷ drawn_from ts))
        (λ out. prepare_all hydrate xs (out.0.token ∷ used) out.1 >>= λ ps. some (ok (out.0 ∷ ps)))
        (prepare_one-Done x used t (drawn_from ts)
          (is_fresh_of x.delivery.claim_token used t a.0 n.0.0))
        (λ out k.
          Done-bind Any Any (prepare_all hydrate xs (out.0.token ∷ used) out.1)
            (λ ps. some (ok (out.0 ∷ ps)))
            (subst (λ draws. Done Any (prepare_all hydrate xs (out.0.token ∷ used) draws)) (sym k.1)
              (subst (λ u. Done Any (prepare_all hydrate xs (u ∷ used) (drawn_from ts))) (sym k.0)
                (prepare_all-Done xs (t ∷ used) ts a.1 (All-tail t ts xs n.1) (omega (arith, l)))))
            (λ ps _. tt))

-- The run ends: it is not still drawing.
abbrev pub Ends : {A : Type 0} → Option A → Type 0
Ends none = ⊥
Ends (some a) = Unit {0}

module _ {Columns Event : Type 0} (c : Crates) (q : Sqlite)
    (hydrate : Columns → Result String Event) (events : List (EventRow Columns))
    (request : ClaimRequest) (f : ClaimFaults) where
  claim_prepared-Ends :
      (now : Text) (lease_ms : ℕ) (ps : List (Prepared Event)) (db : Table)
      → Ends (claim_prepared c q hydrate events f request now lease_ms ps (begin_transaction db))
  unfolding claim_prepared
  claim_prepared-Ends now lease_ms ps db =
      elim (Result-cases (update_all c q f.update request.worker now lease_ms 0 ps db)) [
        | inr (e, h) ↦ rw (h, claim_prepared) tt
        | inl (out, h) ↦
            rw (h, claim_prepared)
              (elim (Option-cases f.commit) [ inr (s, k) ↦ simp k tt | inl k ↦ simp k tt ])
      ]

  claim_selected-Ends :
      (ts : List (List ℕ)) (now : Text) (lease_ms : ℕ) (db : Table)
      → f.entropy ≡ drawn_from ts
      → AllNew [] ts
      → All (NewFor ts) db
      → request.limit.value ≤ length ts
      → Ends (claim_selected c q hydrate events f request now lease_ms (begin_transaction db))
  unfolding claim_selected
  claim_selected-Ends ts now lease_ms db d a n l = elim (Option-cases f.select) [
    | inr (s, k) ↦ simp (k, claim_selected) tt
    | inl k ↦
        let xs = claim_candidates request.tenant_id now request.limit events db in
        let few = (claim_candidates_sound request.tenant_id now request.limit events db).0 in
        let done : Done Any (prepare_all hydrate xs [] f.entropy) =
          subst (λ draws. Done Any (prepare_all hydrate xs [] draws)) (sym d)
            (prepare_all-Done hydrate xs [] ts a
              (All-claim_candidates (NewFor ts) request.tenant_id now events request.limit db n)
              (omega (arith, few, l))) in
        simp (k, claim_selected)
          (elim (Option-cases (prepare_all hydrate xs [] f.entropy)) [
            | inl m ↦ absurd (subst (Done Any) m done)
            | inr (r, m) ↦ elim (Result-cases r) [
              | inr (e, o) ↦ simp (m, o) tt
              | inl (ps, o) ↦ simp (m, o) (claim_prepared-Ends now lease_ms ps db)
            ]
          ])
  ]

  -- A run of a claim ends when the random source gives as many tokens as the request's limit, all
  -- different from each other and from the tokens of the deliveries.
  pub claim_once-Ends :
      (ts : List (List ℕ)) (db : Table)
      → f.entropy ≡ drawn_from ts
      → AllNew [] ts
      → All (NewFor ts) db
      → request.limit.value ≤ length ts
      → Ends (claim_once c q hydrate events f request db)
  unfolding claim_once
  claim_once-Ends ts db d a n l =
      elim (Result-cases (checked_milliseconds request.lease_for.value)) [
        | inr (e, h) ↦ simp (h, claim_once) tt
        | inl (ms, h) ↦
            simp (h, claim_once)
              (elim (Option-cases f.begin) [
                | inr (s, k) ↦ simp k tt
                | inl k ↦ simp k (elim (Result-cases f.time) [
                  | inr (s, t) ↦ simp t tt
                  | inl (now, t) ↦ simp t (claim_selected-Ends ts now ms db d a n l)
                ])
              ])
      ]
