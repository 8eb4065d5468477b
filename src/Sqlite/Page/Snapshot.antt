-- ===== src/Sqlite/Page/Snapshot.antt =====
-- crates/dovecote-sqlx-sqlite/src/page.rs: the pages of a snapshot one after the other.
use dovecote.Base.{
  ℕ, suc, ℤ, pos, ◌≡◌, refl, ap, sym, ◌∙◌, subst, arith, Bool, true, false, ◌||◌, ltb, int_lt,
  int_eq, int_eq_refl, take, length, if◌then◌else◌, List, [], ◌∷◌, Option, none, some, ok, map_err,
}
use dovecote.Core.Crates.{Crates}
use dovecote.Core.Codecs.{Codecs}
use dovecote.Core.Bounds.{RowId, Limit}
use dovecote.Core.Value.{TenantId}
use dovecote.Core.Paged.{PagedEvent}
use dovecote.Sqlite.Hydrate.Rows.{hydrate_page, hydrate_page-IsOf}
use dovecote.Sqlite.Store.{EventRecord, Store}
use dovecote.Sqlite.Page.{
  filter, within, in_page_scope, collect, last, order_by_row, page_rows, joined_row, hydrate_rows,
  read_page_scoped, advance, SnapshotPager, Page, row_or_zero, same_row, serialization,
}
use dovecote.Sqlite.Page.Select.{
  Ascending, HasRowIds, order-Ascending, filter-order, filter-HasRowIds, filter-Ascending,
}
use dovecote.Sqlite.Page.Cut.{
  beyond, drop, last_of, filter-selected, filter-within, filter-drop, filter-narrow, drop-Ascending,
  last_of-above, last_of-drop, length-take-full, take-all, take-IsAscending, collect-take,
  length-collect, collect-last, int_lt-eq,
}

ltb_irrefl : (n : ℕ) → ltb n n ≡ false
ltb_irrefl n = ground arith

or_true : (b : Bool) → (b || true) ≡ true
or_true b = ground arith

-- The keys of the rows up to the number.
abbrev up_to : ℤ → EventRecord → Bool
up_to u e = within (some u) e.row_id

filter_comm :
    (p q : EventRecord → Bool) (es : List EventRecord)
    → filter p (filter q es) ≡ filter q (filter p es)
filter_comm p q [] = refl
filter_comm p q (e ∷ es) = ground (arith, filter_comm p q es)

module _ (c : Crates) (k : Codecs) (store : Store) (tenant : Option TenantId) where
  open c use {OffsetDateTime}

  -- The rows of the scope, in the order of their keys.
  abbrev pub scope_rows : List EventRecord
  scope_rows = order_by_row (filter (in_page_scope tenant) store.events)

  -- What is left for a pager: the rows behind its cursor, up to its bound.
  pub record IsLeft (pager : SnapshotPager) (x : EventRecord) (xs : List EventRecord) : Type 0 where
    pub open_still : pager.exhausted ≡ false
    pub in_transaction : pager.transaction ≡ true
    pub same_tenant : pager.tenant_id ≡ tenant
    pub upper : RowId
    pub has_bound : pager.upper_bound ≡ some upper
    pub bounds : upper.value ≡ (last_of x xs).row_id
    pub above : int_lt (row_or_zero pager.cursor) x.row_id ≡ true
    pub behind : filter (beyond (row_or_zero pager.cursor)) scope_rows ≡ x ∷ xs

  abbrev pub Left : SnapshotPager → List EventRecord → Type 0
  Left pager [] = pager.exhausted ≡ true
  Left pager (x ∷ xs) = IsLeft pager x xs

  pub scope-Ascending : HasRowIds store.events → Ascending (pos 0) scope_rows
  scope-Ascending h = order-Ascending _ (filter-HasRowIds (in_page_scope tenant) store.events h)

  pub left-Ascending :
      HasRowIds store.events
      → (a : ℤ) (x : EventRecord) (xs : List EventRecord) → filter (beyond a) scope_rows ≡ x ∷ xs
      → Ascending x.row_id xs
  left-Ascending h a x xs e =
      let s : Ascending (pos 0) (x ∷ xs) =
        subst (Ascending (pos 0)) e
          (filter-Ascending (beyond a) (pos 0) scope_rows (scope-Ascending h)) in
      s.1

  -- The statement returns the first of the rows that are left.
  page_rows-left :
      HasRowIds store.events
      → (limit : Limit) (a u : ℤ) (x : EventRecord) (xs : List EventRecord)
      → u ≡ (last_of x xs).row_id
      → filter (beyond a) scope_rows ≡ x ∷ xs
      → page_rows tenant a (some u) limit store ≡ take limit.value (x ∷ xs)
  unfolding page_rows
  page_rows-left h limit a u x xs at e =
      let kept = filter-within x xs (left-Ascending h a x xs e) in
      let known = filter-HasRowIds (in_page_scope tenant) store.events h in
      ap (take limit.value) (
        ap order_by_row (filter-selected tenant a (some u) store.events)
        ∙ sym (filter-order (beyond a) _ (filter-HasRowIds (up_to u) _ known))
        ∙ ap (filter (beyond a)) (sym (filter-order (up_to u) _ known))
        ∙ filter_comm (beyond a) (up_to u) scope_rows
        ∙ ap (filter (up_to u)) e
        ∙ ap (λ v. filter (up_to v) (x ∷ xs)) at
        ∙ kept)

  -- The read of the statement.
  pub read_page-left :
      HasRowIds store.events
      → (limit : Limit) (a u : ℤ) (x : EventRecord) (xs : List EventRecord) (ps : Page c k store)
      → u ≡ (last_of x xs).row_id
      → filter (beyond a) scope_rows ≡ x ∷ xs
      → collect (λ e. hydrate_page c k (joined_row store e)) (x ∷ xs) ≡ ok ps
      → read_page_scoped c k store none tenant a (some u) limit ≡ ok (take limit.value ps)
  unfolding read_page_scoped hydrate_rows
  read_page-left h limit a u x xs ps at e made = rw (page_rows-left h limit a u x xs at e) (
      ap (map_err serialization)
        (collect-take (λ e. hydrate_page c k (joined_row store e)) limit.value (x ∷ xs) ps made))

  -- The row id of the last event of a page is the key of the last row.
  last-hydrated :
      (x : EventRecord) (xs : List EventRecord) (ps : Page c k store)
      → collect (λ e. hydrate_page c k (joined_row store e)) (x ∷ xs) ≡ ok ps
      → (y : PagedEvent OffsetDateTime) × (last ps ≡ some y)
        × (y.row_id.value ≡ (last_of x xs).row_id)
  unfolding joined_row
  last-hydrated x xs ps made =
      let (y, end, from) = collect-last (λ e. hydrate_page c k (joined_row store e)) x xs ps made in
      (y, end, (hydrate_page-IsOf c k (joined_row store (last_of x xs)) y from).0)

  -- The pager after a page whose last event is known.
  abbrev after_event :
      SnapshotPager → Limit → Page c k store → PagedEvent OffsetDateTime → SnapshotPager
  after_event pager limit page y = record pager {
    cursor = some y.row_id;
    exhausted =
        if ltb (length page) limit.value || same_row (some y.row_id) pager.upper_bound
        then true
        else pager.exhausted;
  }

  advance-last :
      (pager : SnapshotPager) (limit : Limit) (page : Page c k store)
      (y : PagedEvent OffsetDateTime)
      → last page ≡ some y
      → advance c k store pager limit page ≡ after_event pager limit page y
  unfolding advance
  advance-last pager limit page y end = rw (end, advance) refl

  module _ (h : HasRowIds store.events) (pager : SnapshotPager) (limit : Limit) (n : ℕ) where
    -- After a page with the last of the rows, the pager is exhausted.
    pub advance-exhausted :
        (x : EventRecord) (xs : List EventRecord) (page : Page c k store)
        → IsLeft pager x xs
        → drop n xs ≡ []
        → collect (λ e. hydrate_page c k (joined_row store e)) (x ∷ take n xs) ≡ ok page
        → (advance c k store pager limit page).exhausted ≡ true
    advance-exhausted x xs page left none_left made =
        let (y, end, key) = last-hydrated x (take n xs) page made in
        let at_bound : y.row_id.value ≡ left.upper.value =
          key ∙ ap (λ l. (last_of x l).row_id) (take-all n xs none_left) ∙ sym left.bounds in
        let met : int_eq y.row_id.value left.upper.value ≡ true =
          ap (λ v. int_eq v left.upper.value) at_bound ∙ int_eq_refl left.upper.value in
        rw (advance-last pager limit page y end)
          (rw (left.has_bound, met, or_true (ltb (length page) limit.value)) refl)

    -- After a full page with more rows behind it, these are left.
    pub advance-IsLeft :
        (x : EventRecord) (xs : List EventRecord) (page : Page c k store) (z : EventRecord)
        (zs : List EventRecord)
        → limit.value ≡ suc n
        → IsLeft pager x xs
        → drop n xs ≡ z ∷ zs
        → collect (λ e. hydrate_page c k (joined_row store e)) (x ∷ take n xs) ≡ ok page
        → IsLeft (advance c k store pager limit page) z zs
    advance-IsLeft x xs page z zs size left more made =
        let (y, end, key) = last-hydrated x (take n xs) page made in
        let a = row_or_zero pager.cursor in
        let asc = left-Ascending h a x xs left.behind in
        let cut : Ascending (last_of x (take n xs)).row_id (z ∷ zs) =
          subst (Ascending (last_of x (take n xs)).row_id) more (drop-Ascending n x xs asc) in
        let full : length page ≡ limit.value =
          length-collect (λ e. hydrate_page c k (joined_row store e)) (x ∷ take n xs) page made
          ∙ ap suc (length-take-full n xs more)
          ∙ sym size in
        let b : ℤ = y.row_id.value in
        let beyond_a : int_lt a b ≡ true =
          rw key (last_of-above a x (take n xs) (left.above, take-IsAscending n x.row_id xs asc)) in
        let end_same : left.upper.value ≡ (last_of z zs).row_id =
          left.bounds ∙ ap (λ e. e.row_id) (last_of-drop n x xs more) in
        let not_yet : int_eq b left.upper.value ≡ false =
          rw (key, end_same)
            (int_lt-eq (last_of x (take n xs)).row_id (last_of z zs).row_id
              (last_of-above (last_of x (take n xs)).row_id z zs cut)) in
        rw (advance-last pager limit page y end) (record {
          open_still = rw (left.has_bound, not_yet, full, ltb_irrefl limit.value) left.open_still;
          in_transaction = left.in_transaction;
          same_tenant = left.same_tenant;
          upper = left.upper;
          has_bound = left.has_bound;
          bounds = end_same;
          above = rw key cut.0;
          behind =
              sym (filter-narrow a b scope_rows beyond_a)
              ∙ ap (filter (beyond b)) left.behind
              ∙ ap (λ v. filter (beyond v) (x ∷ xs)) key
              ∙ filter-drop n x xs asc
              ∙ more;
        })
