-- ===== src/Sqlite/Page/Cut.antt =====
-- crates/dovecote-sqlx-sqlite/src/page.rs: a page as the front of the rows that are left, and what is behind it.
use dovecote.Base.{
  ℕ, zero, suc, ℤ, pos, negsuc, ◌≡◌, refl, ap, sym, arith, Bool, true, false, int_le, int_lt,
  int_eq, take, length, List, [], ◌∷◌, ◌++◌, Bool-cases, inl, inr, Option, some, Result, ok,
  >>=-eq-ok,
}
use dovecote.Core.Value.{TenantId}
use dovecote.Sqlite.Store.{EventRecord}
use dovecote.Sqlite.Page.{filter, selected, within, in_page_scope, collect, last}
use dovecote.Sqlite.Page.Select.{Ascending, int_lt_trans, int_lt-le}

abbrev pub drop {ℓ} : {A : Type ℓ} → ℕ → List A → List A
drop zero xs = xs
drop (suc n) [] = []
drop (suc n) (x ∷ xs) = drop n xs

-- The last entry of a list that begins with the first.
abbrev pub last_of {ℓ} : {A : Type ℓ} → A → List A → A
last_of x [] = x
last_of x (y ∷ ys) = last_of y ys

pub last-last_of {ℓ} : {A : Type ℓ} (x : A) (xs : List A) → last (x ∷ xs) ≡ some (last_of x xs)
last-last_of x [] = refl
last-last_of x (y ∷ ys) = last-last_of y ys

-- The keys of the rows after the number.
abbrev pub beyond : ℤ → EventRecord → Bool
beyond a e = int_lt a e.row_id

pub filter-selected :
    (tenant : Option TenantId) (a : ℤ) (u : Option ℤ) (es : List EventRecord)
    → filter (selected tenant a u) es
      ≡ filter (beyond a) (filter (λ e. within u e.row_id) (filter (in_page_scope tenant) es))
filter-selected tenant a u [] = refl
filter-selected tenant a u (e ∷ es) = ground (arith, filter-selected tenant a u es)

int_le_refl : (a : ℤ) → int_le a a ≡ true
int_le_refl (pos a) = ground arith
int_le_refl (negsuc a) = ground arith

int_lt_irrefl : (a : ℤ) → int_lt a a ≡ false
int_lt_irrefl (pos a) = ground arith
int_lt_irrefl (negsuc a) = ground arith

int_lt_asym : (a b : ℤ) → int_lt a b ≡ true → int_lt b a ≡ false
int_lt_asym (pos a) (pos b) h = ground arith
int_lt_asym (negsuc a) (negsuc b) h = ground arith
int_lt_asym (negsuc a) (pos b) h = refl
int_lt_asym (pos a) (negsuc b) h = absurd cc

pub int_lt-eq : (a b : ℤ) → int_lt a b ≡ true → int_eq a b ≡ false
int_lt-eq (pos a) (pos b) h = ground arith
int_lt-eq (negsuc a) (negsuc b) h = ground arith
int_lt-eq (negsuc a) (pos b) h = refl
int_lt-eq (pos a) (negsuc b) h = absurd cc

pub last_of-above :
    (a : ℤ) (x : EventRecord) (xs : List EventRecord)
    → Ascending a (x ∷ xs)
    → int_lt a (last_of x xs).row_id ≡ true
last_of-above a x [] s = s.0
last_of-above a x (y ∷ ys) s =
    last_of-above a y ys (int_lt_trans a x.row_id y.row_id s.0 s.1.0, s.1.1)

last_of-ge :
    (x : EventRecord) (xs : List EventRecord)
    → Ascending x.row_id xs
    → int_le x.row_id (last_of x xs).row_id ≡ true
last_of-ge x [] s = int_le_refl x.row_id
last_of-ge x (y ∷ ys) s = int_lt-le x.row_id (last_of y ys).row_id (last_of-above x.row_id y ys s)

-- Every row is within the last one.
pub filter-within :
    (x : EventRecord) (xs : List EventRecord)
    → Ascending x.row_id xs
    → filter (λ e. within (some (last_of x xs).row_id) e.row_id) (x ∷ xs) ≡ x ∷ xs
filter-within x [] s = rw (last_of-ge x [] s) refl
filter-within x (y ∷ ys) s = rw (last_of-ge x (y ∷ ys) s, filter-within y ys s.1) refl

Ascending-from :
    (a : ℤ) (e : EventRecord) (es : List EventRecord) → Ascending a (e ∷ es) → Ascending a es
Ascending-from a e [] s = tt
Ascending-from a e (y ∷ ys) s = (int_lt_trans a e.row_id y.row_id s.0 s.1.0, s.1.1)

pub filter-beyond : (a : ℤ) (es : List EventRecord) → Ascending a es → filter (beyond a) es ≡ es
filter-beyond a [] s = refl
filter-beyond a (e ∷ es) s = rw (s.0, filter-beyond a es (Ascending-from a e es s)) refl

pub take-IsAscending :
    (n : ℕ) (a : ℤ) (es : List EventRecord) → Ascending a es → Ascending a (take n es)
take-IsAscending zero a es s = tt
take-IsAscending (suc n) a [] s = tt
take-IsAscending (suc n) a (e ∷ es) s = (s.0, take-IsAscending n e.row_id es s.1)

-- What lies beyond the last row of a page is what the page leaves.
pub filter-drop :
    (n : ℕ) (x : EventRecord) (xs : List EventRecord)
    → Ascending x.row_id xs
    → filter (beyond (last_of x (take n xs)).row_id) (x ∷ xs) ≡ drop n xs
filter-drop zero x xs s = rw (int_lt_irrefl x.row_id, filter-beyond x.row_id xs s) refl
filter-drop (suc n) x [] s = rw (int_lt_irrefl x.row_id) refl
filter-drop (suc n) x (y ∷ ys) s =
    let above = last_of-above x.row_id y (take n ys) (s.0, take-IsAscending n y.row_id ys s.1) in
    rw (int_lt_asym x.row_id (last_of y (take n ys)).row_id above) (filter-drop n y ys s.1)

pub drop-Ascending :
    (n : ℕ) (x : EventRecord) (xs : List EventRecord)
    → Ascending x.row_id xs
    → Ascending (last_of x (take n xs)).row_id (drop n xs)
drop-Ascending zero x xs s = s
drop-Ascending (suc n) x [] s = tt
drop-Ascending (suc n) x (y ∷ ys) s = drop-Ascending n y ys s.1

-- A narrower selection of what was selected.
pub filter-narrow :
    (a b : ℤ) (es : List EventRecord)
    → int_lt a b ≡ true
    → filter (beyond b) (filter (beyond a) es) ≡ filter (beyond b) es
filter-narrow a b [] h = refl
filter-narrow a b (e ∷ es) h = elim (Bool-cases (int_lt b e.row_id)) [
  | inl g ↦ rw (g, int_lt_trans a b e.row_id h g, g, filter-narrow a b es h) refl
  | inr g ↦ elim (Bool-cases (int_lt a e.row_id)) [
    | inl f ↦ rw (f, g, filter-narrow a b es h) refl
    | inr f ↦ rw (f, g, filter-narrow a b es h) refl
  ]
]

module _ {ℓ} {A : Type ℓ} where
  pub last_of-drop :
      (n : ℕ) (x : A) (xs : List A) {y : A} {ys : List A}
      → drop n xs ≡ y ∷ ys
      → last_of x xs ≡ last_of y ys
  last_of-drop zero x xs h = rw h refl
  last_of-drop (suc n) x [] h = absurd cc
  last_of-drop (suc n) x (z ∷ zs) h = last_of-drop n z zs h

  pub length-take-full :
      (n : ℕ) (xs : List A) {y : A} {ys : List A} → drop n xs ≡ y ∷ ys → length (take n xs) ≡ n
  length-take-full zero xs h = refl
  length-take-full (suc n) [] h = absurd cc
  length-take-full (suc n) (z ∷ zs) h = ap suc (length-take-full n zs h)

  pub take-all : (n : ℕ) (xs : List A) → drop n xs ≡ [] → take n xs ≡ xs
  take-all zero [] h = refl
  take-all zero (x ∷ xs) h = absurd cc
  take-all (suc n) [] h = refl
  take-all (suc n) (x ∷ xs) h = ap (◌∷◌ x) (take-all n xs h)

  pub take-drop : (n : ℕ) (xs : List A) → take n xs ++ drop n xs ≡ xs
  take-drop zero xs = refl
  take-drop (suc n) [] = refl
  take-drop (suc n) (x ∷ xs) = ap (◌∷◌ x) (take-drop n xs)

module _ {E A B : Type 0} (f : A → Result E B) where
  pub collect-take :
      (n : ℕ) (xs : List A) (ys : List B)
      → collect f xs ≡ ok ys
      → collect f (take n xs) ≡ ok (take n ys)
  collect-take zero xs ys h = refl
  collect-take (suc n) [] ys h = let none_left : [] ≡ ys = cc in rw (sym none_left) refl
  collect-take (suc n) (x ∷ xs) ys h =
      let (y, one, h1) = >>=-eq-ok (f x) _ h in
      let (zs, more, h2) = >>=-eq-ok (collect f xs) _ h1 in
      let same : y ∷ zs ≡ ys = cc in rw (sym same) (rw (one, collect-take n xs zs more) refl)

  pub collect-drop :
      (n : ℕ) (xs : List A) (ys : List B)
      → collect f xs ≡ ok ys
      → collect f (drop n xs) ≡ ok (drop n ys)
  collect-drop zero xs ys h = h
  collect-drop (suc n) [] ys h = let none_left : [] ≡ ys = cc in rw (sym none_left) refl
  collect-drop (suc n) (x ∷ xs) ys h =
      let (y, one, h1) = >>=-eq-ok (f x) _ h in
      let (zs, more, h2) = >>=-eq-ok (collect f xs) _ h1 in
      let same : y ∷ zs ≡ ys = cc in rw (sym same) (collect-drop n xs zs more)

  pub length-collect : (xs : List A) (ys : List B) → collect f xs ≡ ok ys → length ys ≡ length xs
  length-collect [] ys h = let none_left : [] ≡ ys = cc in rw (sym none_left) refl
  length-collect (x ∷ xs) ys h =
      let (y, one, h1) = >>=-eq-ok (f x) _ h in
      let (zs, more, h2) = >>=-eq-ok (collect f xs) _ h1 in
      let same : y ∷ zs ≡ ys = cc in rw (sym same) (ap suc (length-collect xs zs more))

last-cons {ℓ} :
    {A : Type ℓ} (x : A) (xs : List A) {y : A} → last xs ≡ some y → last (x ∷ xs) ≡ some y
last-cons x [] h = absurd cc
last-cons x (z ∷ zs) h = h

-- The last of the collected values is that of the last row.
pub collect-last :
    {E A B : Type 0} (f : A → Result E B) (x : A) (xs : List A) (ys : List B)
    → collect f (x ∷ xs) ≡ ok ys
    → (y : B) × (last ys ≡ some y) × (f (last_of x xs) ≡ ok y)
collect-last f x [] ys h =
    let (y, one, h1) = >>=-eq-ok (f x) _ h in
    let same : y ∷ [] ≡ ys = cc in (y, rw (sym same) refl, one)
collect-last f x (w ∷ ws) ys h =
    let (y, one, h1) = >>=-eq-ok (f x) _ h in
    let (zs, more, h2) = >>=-eq-ok (collect f (w ∷ ws)) _ h1 in
    let (z, end, from) = collect-last f w ws zs more in
    let same : y ∷ zs ≡ ys = cc in (z, rw (sym same) (last-cons y zs end), from)
