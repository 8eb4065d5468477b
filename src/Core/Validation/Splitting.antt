-- ===== src/Core/Validation/Splitting.antt =====
-- The `str` methods by which the trace-context grammars take a text apart.
use dovecote.Base.{
  ℕ, zero, suc, ◌≡◌, refl, Bool, false, ◌==◌, ==_iff, if◌then◌else◌, Text, List, [], ◌∷◌, ◌++◌,
  Option, none, some, arith, ap, ◌⊎◌, inl, inr, Bool-cases, Option-cases,
}

-- `split_once(sep)`: what stands before and after the first separator.
unfoldable pub split_once : ℕ → Text → Option (Text × Text)
split_once sep [] = none
split_once sep (c ∷ s) =
    let rest = split_once sep s in
    if c == sep then some ([], s) else elim rest [ none ↦ none | some (a, b) ↦ some (c ∷ a, b) ]

-- `splitn(n, sep)`: at most `n` pieces, the last with whatever separators are left.
unfoldable pub splitn : ℕ → ℕ → Text → List Text
unfolding split_once
splitn zero sep s = []
splitn (suc zero) sep s = s ∷ []
splitn (suc (suc n)) sep s = elim (split_once sep s) [
  | none ↦ s ∷ []
  | some (a, b) ↦ a ∷ splitn (suc n) sep b
]

abbrev cons_head : ℕ → List Text → List Text
cons_head c [] = (c ∷ []) ∷ []
cons_head c (p ∷ ps) = (c ∷ p) ∷ ps

-- `split(sep)`
unfoldable pub split : ℕ → Text → List Text
split sep [] = [] ∷ []
split sep (c ∷ s) = let rest = split sep s in if c == sep then [] ∷ rest else cons_head c rest

-- `trim_matches` with a set of characters, from the front and from both ends.
unfoldable pub trim_start : (ℕ → Bool) → Text → Text
trim_start p [] = []
trim_start p (c ∷ s) = let rest = trim_start p s in if p c then rest else c ∷ s

-- `trim_end_matches`
unfoldable pub trim_end : (ℕ → Bool) → Text → Text
trim_end p [] = []
trim_end p (c ∷ s) = elim (trim_end p s) [ [] ↦ if p c then [] else c ∷ [] | d ∷ r ↦ c ∷ d ∷ r ]

unfoldable pub trim_matches : (ℕ → Bool) → Text → Text
unfolding trim_start trim_end
trim_matches p s = trim_end p (trim_start p s)

-- No character of the text is the separator.
abbrev pub Without : ℕ → Text → Type 0
Without sep [] = Unit {0}
Without sep (c ∷ s) = ((c == sep) ≡ false) × Without sep s

-- A text whose first piece has no separator splits right after that piece.
pub split_once-append :
    (sep : ℕ) (a b : Text) → Without sep a → split_once sep (a ++ sep ∷ b) ≡ some (a, b)
unfolding split_once
split_once-append sep [] b w = ground (arith, ==_iff sep sep)
split_once-append sep (c ∷ a) b w = rw (w.0, split_once-append sep a b w.1)

pub split_once-none : (sep : ℕ) (a : Text) → Without sep a → split_once sep a ≡ none
unfolding split_once
split_once-none sep [] w = refl
split_once-none sep (c ∷ a) w = rw (w.0, split_once-none sep a w.1)

-- The two pieces of a split, seen from one character further left.
split_once-step :
    (sep c : ℕ) (s a b : Text)
    → split_once sep (c ∷ s) ≡ some (a, b)
    → ((c ≡ sep) × (a ≡ []) × (b ≡ s))
      ⊎ ((d : Text) × (a ≡ c ∷ d) × ((c == sep) ≡ false) × (split_once sep s ≡ some (d, b)))
unfolding split_once
split_once-step sep c s a b h = elim (Bool-cases (c == sep)) [
  | inl e ↦ inl (ground (arith, ==_iff c sep), ground arith, ground arith)
  | inr e ↦ elim (Option-cases (split_once sep s)) [
    | inl n ↦ absurd (ground arith)
    | inr ((d, r), f) ↦ inr (d, ground arith, e, ground arith)
  ]
]

-- What `split_once` returns puts the text together again.
pub split_once_sound :
    (sep : ℕ) (s a b : Text) → split_once sep s ≡ some (a, b) → (s ≡ a ++ sep ∷ b) × Without sep a
unfolding split_once
split_once_sound sep [] a b h = absurd (cc)
split_once_sound sep (c ∷ s) a b h = elim (split_once-step sep c s a b h) [
  | inl (e, f, g) ↦ (rw (e, f, g), rw f tt)
  | inr (d, f, e, g) ↦
      let (u, w) = split_once_sound sep s d b g in (rw f (ap (◌∷◌ c) u), rw f (e, w))
]
