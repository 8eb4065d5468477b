-- ===== src/Sqlite/Busy/Retries.antt =====
-- The retries of an operation, as a relation between its runs.
use dovecote.Base.{
  ℕ, zero, suc, ◌+◌, ◌≤◌, ◌≡◌, refl, Bool, true, false, Result, ok, err, arith, Bool-cases,
  Result-cases, inl, inr, ◌⊎◌, ap,
}
use dovecote.Sqlite.Busy.{retry_loop}

module _ {S E A : Type 0} (is_busy : E → Bool) (attempt : ℕ → S → Result E A × S) where
  -- The runs from the `i`-th on, in the state `s`, found the database busy; the `j`-th starts in `t`.
  pub data BusyRuns (j : ℕ) (t : S) : ℕ → S → Type 0 where
    here : BusyRuns j t j t
    busy :
        (i : ℕ) (s s' : S) (e : E)
        → attempt i s ≡ (err e, s')
        → is_busy e ≡ true
        → BusyRuns j t (suc i) s'
        → BusyRuns j t i s

  -- A result that ends the retries by itself.
  abbrev pub IsFinal : Result E A → Type 0
  IsFinal (ok a) = Unit {0}
  IsFinal (err e) = is_busy e ≡ false

  -- The loop ended with a run that was not busy, or with one that was, after the last retry.
  pub record Ended (exhaust : E → E) (left i : ℕ) (s : S) (out : Result E A × S) : Type 0 where
    pub last : ℕ
    pub state : S
    pub runs : BusyRuns last state i s
    pub bounded : last ≤ i + left
    pub finish :
        ((attempt last state ≡ out) × IsFinal out.0)
        ⊎ ((e : E) × (last ≡ i + left)
            × (attempt last state ≡ (err e, out.1))
            × (is_busy e ≡ true)
            × (out.0 ≡ err (exhaust e)))

  outcome :
      (i : ℕ) (s : S) (r : Result E A) → (attempt i s).0 ≡ r → attempt i s ≡ (r, (attempt i s).1)
  outcome i s r h = ap (λ x. (x, (attempt i s).1)) h

  after :
      (exhaust : E → E) (left i : ℕ) (s : S) (e : E) (s' : S) (out : Result E A × S)
      → attempt i s ≡ (err e, s')
      → is_busy e ≡ true
      → Ended exhaust left (suc i) s' out
      → Ended exhaust (suc left) i s out
  after exhaust left i s e s' out h b x = record {
    last = x.last;
    state = x.state;
    runs = busy i s s' e h b x.runs;
    bounded = ground (arith, x.bounded);
    finish = elim x.finish [
      | inl a ↦ inl a
      | inr (e', n, a, b', o) ↦ inr (e', omega arith, a, b', o)
    ];
  }

  -- The loop runs the operation once, and once more after each busy run, `left` more times at most.
  -- It returns the result of the first run that is not busy; if all are, it returns the exhausted
  -- form of the last error.
  pub retry_loop_lem :
      (exhaust : E → E) (left i : ℕ) (s : S)
      → Ended exhaust left i s (retry_loop is_busy exhaust attempt left i s)
  unfolding retry_loop
  retry_loop_lem exhaust zero i s = elim (Result-cases (attempt i s).0) [
    | inl (a, h) ↦
        rw (h, retry_loop)
          (record {
            last = i;
            state = s;
            runs = here;
            bounded = omega arith;
            finish = inl (outcome i s (ok a) h, tt);
          })
    | inr (e, h) ↦
        rw (h, retry_loop)
          (elim (Bool-cases (is_busy e)) [
            | inl b ↦ rw b (record {
              last = i;
              state = s;
              runs = here;
              bounded = omega arith;
              finish = inr (e, omega arith, outcome i s (err e) h, b, refl);
            })
            | inr b ↦ rw b (record {
              last = i;
              state = s;
              runs = here;
              bounded = omega arith;
              finish = inl (outcome i s (err e) h, b);
            })
          ])
  ]
  retry_loop_lem exhaust (suc left) i s = elim (Result-cases (attempt i s).0) [
    | inl (a, h) ↦
        rw (h, retry_loop)
          (record {
            last = i;
            state = s;
            runs = here;
            bounded = omega arith;
            finish = inl (outcome i s (ok a) h, tt);
          })
    | inr (e, h) ↦
        rw (h, retry_loop)
          (elim (Bool-cases (is_busy e)) [
            | inl b ↦ rw b (
                after exhaust left i s e (attempt i s).1 _ (outcome i s (err e) h) b
                  (retry_loop_lem exhaust left (suc i) (attempt i s).1))
            | inr b ↦ rw b (record {
              last = i;
              state = s;
              runs = here;
              bounded = omega arith;
              finish = inl (outcome i s (err e) h, b);
            })
          ])
  ]

  -- What every run keeps, the loop keeps.
  pub retry_loop-keeps :
      (exhaust : E → E) (P : S → Type 0)
      → ((i : ℕ) (s : S) → P s → P (attempt i s).1)
      → (left i : ℕ) (s : S) → P s
      → P (retry_loop is_busy exhaust attempt left i s).1
  unfolding retry_loop
  retry_loop-keeps exhaust P keep zero i s h = elim (Result-cases (attempt i s).0) [
    | inl (a, k) ↦ rw (k, retry_loop) (keep i s h)
    | inr (e, k) ↦ rw (k, retry_loop) (keep i s h)
  ]
  retry_loop-keeps exhaust P keep (suc left) i s h = elim (Result-cases (attempt i s).0) [
    | inl (a, k) ↦ rw (k, retry_loop) (keep i s h)
    | inr (e, k) ↦
        rw (k, retry_loop)
          (elim (Bool-cases (is_busy e)) [
            | inl b ↦
                rw b (retry_loop-keeps exhaust P keep left (suc i) (attempt i s).1 (keep i s h))
            | inr b ↦ rw b (keep i s h)
          ])
  ]
