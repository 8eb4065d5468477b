-- ===== src/Sqlite/Page/Select.antt =====
-- crates/dovecote-sqlx-sqlite/src/page.rs: the rows that a page selects, as a piece of the whole snapshot.
use dovecote.Base.{
  ℤ, pos, negsuc, ◌≡◌, refl, ◌∙◌, arith, Bool, true, false, int_le, int_lt, int_eq, if◌then◌else◌,
  List, [], ◌∷◌, Bool-cases, inl, inr,
}
use dovecote.Sqlite.Store.{EventRecord}
use dovecote.Sqlite.Page.{filter, insert_by_row, order_by_row}

pub int_lt_trans : (a b d : ℤ) → int_lt a b ≡ true → int_lt b d ≡ true → int_lt a d ≡ true
int_lt_trans (pos a) (pos b) (pos d) h g = ground arith
int_lt_trans (negsuc a) (negsuc b) (negsuc d) h g = ground arith
int_lt_trans (negsuc a) b (pos d) h g = refl
int_lt_trans (pos a) (negsuc b) d h g = absurd cc
int_lt_trans a (pos b) (negsuc d) h g = absurd cc

-- The keys of the rows ascend, all above the number.
abbrev pub Ascending : ℤ → List EventRecord → Type 0
Ascending a [] = Unit {0}
Ascending a (e ∷ es) = (int_lt a e.row_id ≡ true) × Ascending e.row_id es

-- No row has the key; no key comes twice.
abbrev pub LacksRow : ℤ → List EventRecord → Type 0
LacksRow a [] = Unit {0}
LacksRow a (e ∷ es) = (int_eq a e.row_id ≡ false) × LacksRow a es

abbrev pub HasRowIds : List EventRecord → Type 0
HasRowIds [] = Unit {0}
HasRowIds (e ∷ es) = (int_lt (pos 0) e.row_id ≡ true) × (LacksRow e.row_id es × HasRowIds es)

int_le-lt : (a b : ℤ) → int_le a b ≡ true → int_eq a b ≡ false → int_lt a b ≡ true
int_le-lt (pos a) (pos b) h g = ground arith
int_le-lt (negsuc a) (negsuc b) h g = ground arith
int_le-lt (negsuc a) (pos b) h g = refl
int_le-lt (pos a) (negsuc b) h g = absurd cc

int_le-flip : (a b : ℤ) → int_le a b ≡ false → int_lt b a ≡ true
int_le-flip (pos a) (pos b) h = ground arith
int_le-flip (negsuc a) (negsuc b) h = ground arith
int_le-flip (negsuc a) (pos b) h = absurd cc
int_le-flip (pos a) (negsuc b) h = refl

pub int_lt-le : (a b : ℤ) → int_lt a b ≡ true → int_le a b ≡ true
int_lt-le (pos a) (pos b) h = ground arith
int_lt-le (negsuc a) (negsuc b) h = ground arith
int_lt-le (negsuc a) (pos b) h = refl
int_lt-le (pos a) (negsuc b) h = absurd cc

Ascending-weaken :
    (a b : ℤ) (es : List EventRecord) → int_lt a b ≡ true → Ascending b es → Ascending a es
Ascending-weaken a b [] h s = tt
Ascending-weaken a b (e ∷ es) h s = (int_lt_trans a b e.row_id h s.0, s.1)

insert-Ascending :
    (x : EventRecord) (a : ℤ) (es : List EventRecord)
    → int_lt a x.row_id ≡ true
    → LacksRow x.row_id es
    → Ascending a es
    → Ascending a (insert_by_row x es)
unfolding insert_by_row
insert-Ascending x a [] h d s = (h, tt)
insert-Ascending x a (y ∷ ys) h d s = elim (Bool-cases (int_le x.row_id y.row_id)) [
  | inl e ↦ rw e (h, (int_le-lt x.row_id y.row_id e d.0, s.1))
  | inr e ↦ rw e (s.0, insert-Ascending x y.row_id ys (int_le-flip x.row_id y.row_id e) d.1 s.1)
]

-- A row that lies before all the others goes to the front.
insert-front :
    (x : EventRecord) (es : List EventRecord) → Ascending x.row_id es → insert_by_row x es ≡ x ∷ es
unfolding insert_by_row
insert-front x [] s = refl
insert-front x (y ∷ ys) s = rw (int_lt-le x.row_id y.row_id s.0) refl

module _ (p : EventRecord → Bool) where
  pub filter-Ascending :
      (a : ℤ) (es : List EventRecord) → Ascending a es → Ascending a (filter p es)
  filter-Ascending a [] s = tt
  filter-Ascending a (e ∷ es) s = elim (Bool-cases (p e)) [
    | inl h ↦ rw h (s.0, filter-Ascending e.row_id es s.1)
    | inr h ↦ rw h (filter-Ascending a es (Ascending-weaken a e.row_id es s.0 s.1))
  ]

  filter-LacksRow : (a : ℤ) (es : List EventRecord) → LacksRow a es → LacksRow a (filter p es)
  filter-LacksRow a [] s = tt
  filter-LacksRow a (e ∷ es) s = elim (Bool-cases (p e)) [
    | inl h ↦ rw h (s.0, filter-LacksRow a es s.1)
    | inr h ↦ rw h (filter-LacksRow a es s.1)
  ]

  pub filter-HasRowIds : (es : List EventRecord) → HasRowIds es → HasRowIds (filter p es)
  filter-HasRowIds [] s = tt
  filter-HasRowIds (e ∷ es) s = elim (Bool-cases (p e)) [
    | inl h ↦ rw h (s.0, (filter-LacksRow e.row_id es s.1.0, filter-HasRowIds es s.1.1))
    | inr h ↦ rw h (filter-HasRowIds es s.1.1)
  ]

  filter-insert :
      (x : EventRecord) (a : ℤ) (es : List EventRecord)
      → Ascending a es
      → LacksRow x.row_id es
      → filter p (insert_by_row x es) ≡ (if p x then insert_by_row x (filter p es) else filter p es)
  unfolding insert_by_row
  filter-insert x a [] s d = refl
  filter-insert x a (y ∷ ys) s d = elim (Bool-cases (int_le x.row_id y.row_id)) [
    | inl e ↦
        let above : Ascending x.row_id (y ∷ ys) = (int_le-lt x.row_id y.row_id e d.0, s.1) in
        rw (e, insert-front x (filter p (y ∷ ys)) (filter-Ascending x.row_id (y ∷ ys) above)) refl
    | inr e ↦ elim (Bool-cases (p y)) [
      | inl h ↦
          rw (e, h, filter-insert x y.row_id ys s.1 d.1)
            (elim (Bool-cases (p x)) [ inl g ↦ rw (g, e) refl | inr g ↦ rw g refl ])
      | inr h ↦ rw (e, h, filter-insert x y.row_id ys s.1 d.1) refl
    ]
  ]

LacksRow-insert :
    (a : ℤ) (x : EventRecord) (es : List EventRecord)
    → int_eq a x.row_id ≡ false
    → LacksRow a es
    → LacksRow a (insert_by_row x es)
unfolding insert_by_row
LacksRow-insert a x [] h s = (h, tt)
LacksRow-insert a x (y ∷ ys) h s = elim (Bool-cases (int_le x.row_id y.row_id)) [
  | inl e ↦ rw e (h, s)
  | inr e ↦ rw e (s.0, LacksRow-insert a x ys h s.1)
]

LacksRow-order : (a : ℤ) (es : List EventRecord) → LacksRow a es → LacksRow a (order_by_row es)
unfolding order_by_row
LacksRow-order a [] s = tt
LacksRow-order a (e ∷ es) s = LacksRow-insert a e (order_by_row es) s.0 (LacksRow-order a es s.1)

-- Rows with positive and distinct keys, in the order of the statement, ascend.
pub order-Ascending : (es : List EventRecord) → HasRowIds es → Ascending (pos 0) (order_by_row es)
unfolding order_by_row
order-Ascending [] s = tt
order-Ascending (e ∷ es) s =
    insert-Ascending e (pos 0) (order_by_row es) s.0 (LacksRow-order e.row_id es s.1.0)
      (order-Ascending es s.1.1)

-- To select and then order the rows is to order and then select them.
pub filter-order :
    (p : EventRecord → Bool) (es : List EventRecord)
    → HasRowIds es
    → filter p (order_by_row es) ≡ order_by_row (filter p es)
unfolding order_by_row
filter-order p [] s = refl
filter-order p (e ∷ es) s =
    filter-insert p e (pos 0) (order_by_row es) (order-Ascending es s.1.1)
      (LacksRow-order e.row_id es s.1.0)
    ∙ rw (filter-order p es s.1.1)
        (elim (Bool-cases (p e)) [ inl h ↦ rw h refl | inr h ↦ rw h refl ])
