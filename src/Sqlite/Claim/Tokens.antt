-- ===== src/Sqlite/Claim/Tokens.antt =====
-- crates/dovecote-sqlx-sqlite/src/lifecycle.rs: `fresh_token`, which draws until a token is new.
use dovecote.Base.{
  ℕ, ◌≡◌, Bool, true, false, not, ◌&&◌, all, list_eq, List, [], ◌∷◌, Option, none, some, Result, ok,
  err, arith,
}
use dovecote.Sqlite.Errors.{EntropyError}

-- The entropy that `fill` will give, draw by draw.
abbrev pub Draws : Type 0
Draws = List (Result EntropyError (List ℕ))

-- `previous != Some(token) && used.iter().all(|value| value != &token)`
unfoldable pub is_fresh : Option (List ℕ) → List (List ℕ) → List ℕ → Bool
is_fresh none used token = all (λ value. not (list_eq value token)) used
is_fresh (some previous) used token =
    not (list_eq previous token) && all (λ value. not (list_eq value token)) used

-- The loop, on the draws to come; `none` says that they ran out, and that the loop still draws.
unfoldable pub fresh_token :
    Option (List ℕ) → List (List ℕ) → Draws → Option (Result EntropyError (List ℕ × Draws))
unfolding is_fresh
fresh_token previous used [] = none
fresh_token previous used (err e ∷ draws) = some (err e)
fresh_token previous used (ok token ∷ draws) = elim (is_fresh previous used token) [
  | true ↦ some (ok (token, draws))
  | false ↦ fresh_token previous used draws
]

-- A token that the loop returns differs from the row's previous token and from those in use.
pub fresh_token_sound :
    (previous : Option (List ℕ)) (used : List (List ℕ)) (draws : Draws) (token : List ℕ)
    (rest : Draws)
    → fresh_token previous used draws ≡ some (ok (token, rest))
    → is_fresh previous used token ≡ true
unfolding fresh_token
fresh_token_sound previous used [] token rest h = absurd (cc)
fresh_token_sound previous used (err e ∷ draws) token rest h = absurd (cc)
fresh_token_sound previous used (ok t ∷ draws) token rest h =
    ground (arith, fresh_token_sound previous used draws token rest)
