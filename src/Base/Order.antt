-- ===== src/Base/Order.antt =====
-- The byte order of texts, and Rust's `BTreeMap` as the list of its entries in the order of their keys.
use mathlib.Core.Path.{◌≡◌, refl, ◌∙◌, subst}
use mathlib.Core.Logic.{inl, inr}
use mathlib.Core.Bool.{true, false}
use mathlib.Core.Option.{Option, none, some}
use mathlib.Core.List.{List, [], ◌∷◌, ◌++◌}
use native.Mathlib.Omega.{arith}
use dovecote.Base.Tests.{if◌then◌else◌, Bool-cases}
use dovecote.Base.Lists.{All}
use dovecote.Base.Chars.{Text, list_eq, list_lt, list_eq_sound}

pub list_lt_irrefl : (a : Text) → list_lt a a ≡ false
unfolding list_lt
list_lt_irrefl [] = refl
list_lt_irrefl (x ∷ a) = ground (arith, list_lt_irrefl a)

pub list_lt_trans : (a b c : Text) → list_lt a b ≡ true → list_lt b c ≡ true → list_lt a c ≡ true
unfolding list_lt
list_lt_trans [] [] c h k = absurd cc
list_lt_trans [] (y ∷ b) [] h k = absurd cc
list_lt_trans [] (y ∷ b) (z ∷ c) h k = refl
list_lt_trans (x ∷ a) [] c h k = absurd cc
list_lt_trans (x ∷ a) (y ∷ b) [] h k = absurd cc
list_lt_trans (x ∷ a) (y ∷ b) (z ∷ c) h k = ground (arith, list_lt_trans a b c)

-- Two texts are the same or one comes before the other.
pub list_lt_total : (a b : Text) → list_lt a b ≡ false → list_eq a b ≡ false → list_lt b a ≡ true
unfolding list_lt list_eq
list_lt_total [] [] h k = absurd cc
list_lt_total [] (y ∷ b) h k = absurd cc
list_lt_total (x ∷ a) [] h k = refl
list_lt_total (x ∷ a) (y ∷ b) h k = ground (arith, list_lt_total a b)

pub list_lt-list_eq : (a b : Text) → list_lt a b ≡ true → list_eq a b ≡ false
unfolding list_lt list_eq
list_lt-list_eq [] [] h = absurd cc
list_lt-list_eq [] (y ∷ b) h = refl
list_lt-list_eq (x ∷ a) [] h = refl
list_lt-list_eq (x ∷ a) (y ∷ b) h = ground (arith, list_lt-list_eq a b)

pub list_lt_asym : (a b : Text) → list_lt a b ≡ true → list_lt b a ≡ false
unfolding list_lt
list_lt_asym [] [] h = refl
list_lt_asym [] (y ∷ b) h = refl
list_lt_asym (x ∷ a) [] h = absurd cc
list_lt_asym (x ∷ a) (y ∷ b) h = ground (arith, list_lt_asym a b)

pub list_eq_sym : (a b : Text) → list_eq a b ≡ list_eq b a
unfolding list_eq
list_eq_sym [] [] = refl
list_eq_sym [] (y ∷ b) = refl
list_eq_sym (x ∷ a) [] = refl
list_eq_sym (x ∷ a) (y ∷ b) = ground (arith, list_eq_sym a b)

-- Maps whose keys are compared as texts.
module _ {ℓ κ} {K : Type ℓ} {V : Type κ} (text : K → Text) where
  -- `BTreeMap::get`
  unfoldable pub map_get : Text → List (K × V) → Option V
  map_get k [] = none
  map_get k ((n, v) ∷ m) = let rest = map_get k m in if list_eq (text n) k then some v else rest

  -- `BTreeMap::insert`, which keeps the key that is there and replaces its value.
  unfoldable pub map_insert : K → V → List (K × V) → List (K × V)
  map_insert k v [] = (k, v) ∷ []
  map_insert k v ((n, w) ∷ m) =
      let rest = map_insert k v m in
      if list_lt (text k) (text n)
      then (k, v) ∷ (n, w) ∷ m
      else if list_eq (text k) (text n)
      then (n, v) ∷ m
      else (n, w) ∷ rest

  -- Every key comes after the text, or before it.
  abbrev pub After : Text → List (K × V) → Type 0
  After k [] = Unit
  After k (e ∷ m) = (list_lt k (text e.0) ≡ true) × After k m

  abbrev pub Before : Text → List (K × V) → Type 0
  Before k [] = Unit
  Before k (e ∷ m) = (list_lt (text e.0) k ≡ true) × Before k m

  -- The keys of a map, in their order and each once.
  abbrev pub IsOrdered : List (K × V) → Type 0
  IsOrdered [] = Unit
  IsOrdered (e ∷ m) = After (text e.0) m × IsOrdered m

  After-trans : (j k : Text) (m : List (K × V)) → list_lt j k ≡ true → After k m → After j m
  After-trans j k [] h a = tt
  After-trans j k (e ∷ m) h a = (list_lt_trans j k (text e.0) h a.0, After-trans j k m h a.1)

  pub After-get : (k : Text) (m : List (K × V)) → After k m → map_get k m ≡ none
  unfolding map_get
  After-get k [] a = refl
  After-get k (e ∷ m) a =
      let differ : list_eq (text e.0) k ≡ false =
        list_eq_sym (text e.0) k ∙ list_lt-list_eq k (text e.0) a.0 in
      rw (differ, After-get k m a.1) refl

  After-insert :
      (j : Text) (k : K) (v : V) (m : List (K × V))
      → list_lt j (text k) ≡ true
      → After j m
      → After j (map_insert k v m)
  unfolding map_insert
  After-insert j k v [] h a = (h, tt)
  After-insert j k v ((n, w) ∷ m) h a = elim (Bool-cases (list_lt (text k) (text n))) [
    | inl e ↦ rw e (h, a)
    | inr e ↦ rw e (elim (Bool-cases (list_eq (text k) (text n))) [
      | inl f ↦ rw f a
      | inr f ↦ rw f (a.0, After-insert j k v m h a.1)
    ])
  ]

  pub insert-IsOrdered :
      (k : K) (v : V) (m : List (K × V)) → IsOrdered m → IsOrdered (map_insert k v m)
  unfolding map_insert
  insert-IsOrdered k v [] o = (tt, tt)
  insert-IsOrdered k v ((n, w) ∷ m) o = elim (Bool-cases (list_lt (text k) (text n))) [
    | inl e ↦ rw e ((e, After-trans (text k) (text n) m e o.0), o)
    | inr e ↦ rw e (elim (Bool-cases (list_eq (text k) (text n))) [
      | inl f ↦ rw f o
      | inr f ↦ rw f (
        After-insert (text n) k v m (list_lt_total (text k) (text n) e f) o.0,
        insert-IsOrdered k v m o.1,
      )
    ])
  ]

  -- A key that comes after all the others is put at the end.
  pub insert-last :
      (k : K) (v : V) (m : List (K × V)) → Before (text k) m → map_insert k v m ≡ m ++ (k, v) ∷ []
  unfolding map_insert
  insert-last k v [] b = refl
  insert-last k v ((n, w) ∷ m) b =
      let later : list_lt (text k) (text n) ≡ false = list_lt_asym (text n) (text k) b.0 in
      let differ : list_eq (text k) (text n) ≡ false =
        list_eq_sym (text k) (text n) ∙ list_lt-list_eq (text n) (text k) b.0 in
      rw (later, differ, insert-last k v m b.1) refl

  pub Before-append :
      (k : Text) (m : List (K × V)) (e : K × V)
      → Before k m
      → list_lt (text e.0) k ≡ true
      → Before k (m ++ e ∷ [])
  Before-append k [] e b h = (h, tt)
  Before-append k (d ∷ m) e b h = (b.0, Before-append k m e b.1 h)

  pub get-insert :
      (k : K) (v : V) (m : List (K × V)) (j : Text)
      → map_get j (map_insert k v m) ≡ (if list_eq (text k) j then some v else map_get j m)
  unfolding map_insert map_get
  get-insert k v [] j = refl
  get-insert k v ((n, w) ∷ m) j = elim (Bool-cases (list_lt (text k) (text n))) [
    | inl e ↦ rw e refl
    | inr e ↦ rw e (elim (Bool-cases (list_eq (text k) (text n))) [
      | inl f ↦ rw f (rw (list_eq_sound (text k) (text n) f) ground arith)
      | inr f ↦ rw f (elim (Bool-cases (list_eq (text n) j)) [
        | inl g ↦
            let same = list_eq_sound (text n) j g in
            ground (arith, subst (λ t. list_eq (text k) t ≡ false) same f)
        | inr g ↦ rw (g, get-insert k v m j) refl
      ])
    ])
  ]

  -- What holds of every key and of every value still holds after an insertion.
  pub All-insert :
      (P : K → Type 0) (Q : V → Type 0) (k : K) (v : V) (m : List (K × V))
      → P k
      → Q v
      → All (λ e. P e.0 × Q e.1) m
      → All (λ e. P e.0 × Q e.1) (map_insert k v m)
  unfolding map_insert
  All-insert P Q k v [] p q h = ((p, q), tt)
  All-insert P Q k v ((n, w) ∷ m) p q h = elim (Bool-cases (list_lt (text k) (text n))) [
    | inl e ↦ rw e ((p, q), h)
    | inr e ↦ rw e (elim (Bool-cases (list_eq (text k) (text n))) [
      | inl f ↦ rw f ((h.0.0, q), h.1)
      | inr f ↦ rw f (h.0, All-insert P Q k v m p q h.1)
    ])
  ]
