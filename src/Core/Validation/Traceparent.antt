-- ===== src/Core/Validation/Traceparent.antt =====
-- The form of an accepted traceparent.
use dovecote.Base.{
  ℕ, zero, suc, ◌≡◌, refl, true, false, ◌==◌, all, bytes, codes, Text, list_eq, List, [], ◌∷◌, ◌++◌,
  ok, arith, Option-cases, inl, inr, sym,
}
use dovecote.Core.Validation.Splitting.{split_once, splitn, split_once_sound}
use dovecote.Core.Validation.TraceContext.{valid_lower_hex, check_traceparent, validate_traceparent}

-- The pieces, with the separator between them.
abbrev pub join : ℕ → List Text → Text
join sep [] = []
join sep (p ∷ []) = p
join sep (p ∷ q ∷ ps) = p ++ sep ∷ join sep (q ∷ ps)

splitn-cons :
    (n sep : ℕ) (s : Text) → (p : Text) × (ps : List Text) × (splitn (suc n) sep s ≡ p ∷ ps)
unfolding splitn
splitn-cons zero sep s = (s, [], refl)
splitn-cons (suc n) sep s = elim (Option-cases (split_once sep s)) [
  | inl e ↦ rw (e, splitn) (s, [], refl)
  | inr ((a, b), e) ↦ rw (e, splitn) (a, splitn (suc n) sep b, refl)
]

-- The pieces of a split are those of the text.
join-splitn : (n sep : ℕ) (s : Text) → join sep (splitn (suc n) sep s) ≡ s
unfolding splitn
join-splitn zero sep s = refl
join-splitn (suc n) sep s = elim (Option-cases (split_once sep s)) [
  | inl e ↦ rw (e, splitn) refl
  | inr ((a, b), e) ↦
      let (p, ps, cons) = splitn-cons n sep b in
      let rest : join sep (p ∷ ps) ≡ b = rw cons at (join-splitn n sep b) in
      rw (e, splitn) (rw (cons, rest) (sym (split_once_sound sep s a b e).0))
]

-- The fields of a traceparent that is accepted, and what a future version adds behind them.
pub record Fields (value : Text) : Type 0 where
  pub version : Text
  pub trace_id : Text
  pub parent_id : Text
  pub flags : Text
  pub future : List Text
  pub joined : value ≡ join b'-' (version ∷ trace_id ∷ parent_id ∷ flags ∷ future)
  pub hex_version : valid_lower_hex version 2 ≡ true
  pub hex_trace_id : valid_lower_hex trace_id 32 ≡ true
  pub hex_parent_id : valid_lower_hex parent_id 16 ≡ true
  pub hex_flags : valid_lower_hex flags 2 ≡ true
  pub known_version : list_eq version (codes "ff") ≡ false
  pub some_trace : all (λ b. b == b'0') (bytes trace_id) ≡ false
  pub some_parent : all (λ b. b == b'0') (bytes parent_id) ≡ false

check_traceparent-Fields :
    (value : Text) (parts : List Text)
    → value ≡ join b'-' parts
    → check_traceparent parts ≡ ok tt
    → Fields value
unfolding check_traceparent
check_traceparent-Fields value [] e h = absurd (cc)
check_traceparent-Fields value (v ∷ []) e h = absurd (cc)
check_traceparent-Fields value (v ∷ t ∷ []) e h = absurd (cc)
check_traceparent-Fields value (v ∷ t ∷ p ∷ []) e h = absurd (cc)
check_traceparent-Fields value (v ∷ t ∷ p ∷ f ∷ more) e h = record {
  version = v;
  trace_id = t;
  parent_id = p;
  flags = f;
  future = more;
  joined = e;
  hex_version = ground (arith, h);
  hex_trace_id = ground (arith, h);
  hex_parent_id = ground (arith, h);
  hex_flags = ground (arith, h);
  known_version = ground (arith, h);
  some_trace = ground (arith, h);
  some_parent = ground (arith, h);
}

-- An accepted traceparent is made of fields joined by hyphens: a version of two digits other than
-- ff, a trace id of 32 digits and a parent id of 16, neither all zeros, and flags of two digits, all
-- in lower hexadecimal.
pub validate_traceparent-Fields : (value : Text) → validate_traceparent value ≡ ok tt → Fields value
unfolding validate_traceparent
validate_traceparent-Fields value h =
    check_traceparent-Fields value (splitn 5 b'-' value) (sym (join-splitn 4 b'-' value)) h
