-- ===== src/Sqlite/Page/Tenants.antt =====
-- crates/dovecote-sqlx-sqlite/src/page.rs: the pages of one tenant.
use dovecote.Base.{
  ℕ, zero, suc, ◌≤◌, ℤ, ◌≡◌, sym, ◌∙◌, arith, Bool, true, ◌&&◌, int_lt, int_le, list_eq,
  list_eq_sound, take, length, List, [], ◌∷◌, All, All-take, Bool-cases, inl, inr, Option, none,
  some, Result, ok, Yields, then-eq-ok, >>=-eq-ok, map_err-eq-ok,
}
use dovecote.Core.Crates.{Crates}
use dovecote.Core.Codecs.{Codecs}
use dovecote.Core.Bounds.{RowId, Limit}
use dovecote.Core.Value.{TenantId}
use dovecote.Core.Paged.{PagedEvent}
use dovecote.Sqlite.Errors.{SqlError}
use dovecote.Sqlite.Hydrate.Rows.{hydrate_page, hydrate_page-IsOf}
use dovecote.Sqlite.Store.{EventRecord, Store}
use dovecote.Sqlite.Page.Cut.{length-collect}
use dovecote.Sqlite.Page.{
  selected, filter, insert_by_row, order_by_row, page_rows, collect, joined_row, hydrate_rows,
  read_page_scoped, page_for_scope, Page, page_fails, row_or_zero,
}

module _ (P : EventRecord → Type 0) where
  All-filter :
      (p : EventRecord → Bool) (es : List EventRecord)
      → ((e : EventRecord) → p e ≡ true → P e)
      → All P (filter p es)
  All-filter p [] h = tt
  All-filter p (e ∷ es) h = elim (Bool-cases (p e)) [
    | inl kept ↦ rw kept (h e kept, All-filter p es h)
    | inr cut ↦ rw cut (All-filter p es h)
  ]

  All-insert :
      (x : EventRecord) (es : List EventRecord) → P x → All P es → All P (insert_by_row x es)
  unfolding insert_by_row
  All-insert x [] h hs = (h, tt)
  All-insert x (e ∷ es) h hs = elim (Bool-cases (int_le x.row_id e.row_id)) [
    | inl first ↦ rw first (h, hs)
    | inr behind ↦ rw behind (hs.0, All-insert x es h hs.1)
  ]

  All-order : (es : List EventRecord) → All P es → All P (order_by_row es)
  unfolding order_by_row
  All-order [] h = tt
  All-order (e ∷ es) h = All-insert e (order_by_row es) h.0 (All-order es h.1)

All-collect :
    {E A B : Type 0} (P : A → Type 0) (Q : B → Type 0) (f : A → Result E B)
    → ((a : A) → P a → Yields Q (f a))
    → (xs : List A) → All P xs
    → Yields (All Q) (collect f xs)
All-collect P Q f h [] hs ys made = let same : [] ≡ ys = cc in rw (sym same) tt
All-collect P Q f h (x ∷ xs) hs ys made =
    let (y, one, h1) = >>=-eq-ok (f x) _ made in
    let (zs, more, h2) = >>=-eq-ok (collect f xs) _ h1 in
    let same : y ∷ zs ≡ ys = cc in
    rw (sym same) (h x hs.0 y one, All-collect P Q f h xs hs.1 zs more)

and_true : (a b d : Bool) → (a && b && d) ≡ true → (a ≡ true) × (d ≡ true)
and_true a b d h = ground (arith, h)

length-take : {A : Type 0} (n : ℕ) (xs : List A) → length (take n xs) ≤ n
length-take zero xs = ground arith
length-take (suc n) [] = ground arith
length-take (suc n) (x ∷ xs) = ground (arith, length-take n xs)

module _ (c : Crates) (k : Codecs) (store : Store) (tenant : TenantId) where
  open c use {OffsetDateTime}

  -- The event is of the tenant, behind the row.
  abbrev pub InScope : ℤ → PagedEvent OffsetDateTime → Type 0
  InScope after p = (p.tenant_id.value ≡ tenant.value) × (int_lt after p.row_id.value ≡ true)

  abbrev Chosen : ℤ → EventRecord → Type 0
  Chosen after e = (e.tenant_id ≡ tenant.value) × (int_lt after e.row_id ≡ true)

  page_rows-Chosen :
      (after : ℤ) (limit : Limit)
      → All (Chosen after) (page_rows (some tenant) after none limit store)
  unfolding page_rows
  page_rows-Chosen after limit = All-take (Chosen after) limit.value _ (
      All-order (Chosen after) _ (
        All-filter (Chosen after) (selected (some tenant) after none) store.events (λ e h.
          let (later, same) =
            and_true (int_lt after e.row_id) true (list_eq e.tenant_id tenant.value) h in
          (list_eq_sound e.tenant_id tenant.value same, later))))

  hydrated-InScope :
      (after : ℤ) (e : EventRecord)
      → Chosen after e
      → Yields (InScope after) (hydrate_page c k (joined_row store e))
  unfolding joined_row
  hydrated-InScope after e chosen p made =
      let (id, owner) = hydrate_page-IsOf c k (joined_row store e) p made in
      (owner ∙ chosen.0, rw id chosen.1)

  hydrate_rows-InScope :
      (after : ℤ) (limit : Limit) (ps : Page c k store)
      → hydrate_rows c k store (page_rows (some tenant) after none limit store) ≡ ok ps
      → All (InScope after) ps × (length ps ≤ limit.value)
  unfolding hydrate_rows page_rows
  hydrate_rows-InScope after limit ps h =
      let rows = page_rows (some tenant) after none limit store in
      let made : collect (λ e. hydrate_page c k (joined_row store e)) rows ≡ ok ps =
        map_err-eq-ok _ _ h in
      (
        All-collect (Chosen after) (InScope after) (λ e. hydrate_page c k (joined_row store e))
            (hydrated-InScope after) rows (page_rows-Chosen after limit) ps made,
        rw (length-collect (λ e. hydrate_page c k (joined_row store e)) rows ps made)
            (length-take limit.value _),
      )

  read_page_scoped-ok :
      (fault : Option SqlError) (after : ℤ) (limit : Limit) (ps : Page c k store)
      → read_page_scoped c k store fault (some tenant) after none limit ≡ ok ps
      → hydrate_rows c k store (page_rows (some tenant) after none limit store) ≡ ok ps
  unfolding read_page_scoped
  read_page_scoped-ok none after limit ps h = h
  read_page_scoped-ok (some source) after limit ps h = absurd cc

  -- A live page for a tenant that is returned, whatever the environment answers, has only events of this tenant
  -- with row ids behind the cursor, and no more of them than the limit.
  pub page_for_scope-InScope :
      (acquire foreign_keys read : Option SqlError) (after : Option RowId) (limit : Limit)
      (ps : Page c k store)
      → page_for_scope c k store acquire foreign_keys read (some tenant) after limit ≡ ok ps
      → All (InScope (row_or_zero after)) ps × (length ps ≤ limit.value)
  unfolding page_for_scope
  page_for_scope-InScope acquire foreign_keys read after limit ps h =
      let connected = then-eq-ok (page_fails acquire "acquire live page connection") _ h in
      let enabled =
        then-eq-ok (page_fails foreign_keys "enable live-page foreign keys") _ connected.1 in
      hydrate_rows-InScope (row_or_zero after) limit ps
        (read_page_scoped-ok read (row_or_zero after) limit ps enabled.1)
