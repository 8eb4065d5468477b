-- ===== src/Sqlite/Page/Whole.antt =====
-- crates/dovecote-sqlx-sqlite/src/page.rs: a whole snapshot, read page by page.
use mathlib.Core.Option
use dovecote.Base.{
  ℕ, zero, suc, ◌≤◌, ℤ, pos, ◌≡◌, refl, ap, sym, ◌∙◌, subst, arith, true, false, not, int_lt, take,
  length, List, [], ◌∷◌, ◌++◌, Option, none, some, Result, ok, ◌>>=◌, is_some,
}
use dovecote.Core.Crates.{Crates}
use dovecote.Core.Codecs.{Codecs}
use dovecote.Core.Bounds.{RowId, new_row_id, Limit}
use dovecote.Core.Value.{TenantId}
use dovecote.Core.Paged.{PagedEvent}
use dovecote.Sqlite.Hydrate.{HydrateError}
use dovecote.Sqlite.Hydrate.Rows.{hydrate_page}
use dovecote.Sqlite.Store.{EventRecord, Store}
use dovecote.Sqlite.Page.{
  collect, last, joined_row, max_row, begin_snapshot_for_scope, next_page, read_next,
  read_page_scoped, row_or_zero, advance, SnapshotPager, Page, PageError,
}
use dovecote.Sqlite.Page.Select.{Ascending, HasRowIds}
use dovecote.Sqlite.Page.Cut.{
  drop, filter-beyond, last_of, last-last_of, last_of-above, take-drop, collect-take, collect-drop,
}
use dovecote.Sqlite.Page.Snapshot.{
  scope_rows, scope-Ascending, IsLeft, Left, read_page-left, advance-exhausted, advance-IsLeft,
}

-- Every limit admits a row, as `Limit::new` has checked.
abbrev pub AdmitRows : List Limit → Type 0
AdmitRows [] = Unit {0}
AdmitRows (l ∷ ls) = ((n : ℕ) × (l.value ≡ suc n)) × AdmitRows ls

module _ (c : Crates) (k : Codecs) (store : Store) where
  -- Both results, one behind the other.
  abbrev pub appended :
      Result PageError (Page c k store)
      → Result PageError (Page c k store)
      → Result PageError (Page c k store)
  appended first more = do a ← first; b ← more; ok (a ++ b)

  -- A client that asks for a page with each limit in turn, while no statement fails.
  unfoldable pub read_pages :
      List Limit → SnapshotPager → Result PageError (Page c k store) × SnapshotPager
  read_pages [] pager = (ok [], pager)
  read_pages (limit ∷ limits) pager =
      let step = next_page c k store none pager limit in
      let more = read_pages limits step.1 in (appended step.0 more.0, more.1)

module _ (c : Crates) (k : Codecs) (store : Store) (tenant : Option TenantId)
    (h : HasRowIds store.events) where
  abbrev hydrate_one : EventRecord → Result HydrateError (PagedEvent c.OffsetDateTime)
  hydrate_one e = hydrate_page c k (joined_row store e)

  abbrev Hydrated : List EventRecord → Page c k store → Type 0
  Hydrated rows ps = collect hydrate_one rows ≡ ok ps

  next_page-exhausted :
      (pager : SnapshotPager) (limit : Limit)
      → pager.exhausted ≡ true
      → next_page c k store none pager limit ≡ (ok [], pager)
  unfolding next_page
  next_page-exhausted pager limit e = simp (e, next_page)

  read_next-left :
      (pager : SnapshotPager) (upper : RowId) (limit : Limit) (page : Page c k store)
      → read_page_scoped c k store none pager.tenant_id
          (row_or_zero pager.cursor)
          (some upper.value)
          limit
        ≡ ok page
      → read_next c k store none pager upper limit ≡ (ok page, advance c k store pager limit page)
  unfolding read_next
  read_next-left pager upper limit page read = simp (read, read_next)

  next_page-open :
      (pager : SnapshotPager) (limit : Limit) (upper : RowId)
      → pager.exhausted ≡ false
      → pager.transaction ≡ true
      → pager.upper_bound ≡ some upper
      → next_page c k store none pager limit ≡ read_next c k store none pager upper limit
  unfolding next_page
  next_page-open pager limit upper e t u = simp (e, t, u, next_page)

  -- The page has the first of the rows that are left.
  next_page-left :
      (pager : SnapshotPager) (limit : Limit) (x : EventRecord) (xs : List EventRecord)
      (ps : Page c k store)
      → IsLeft c k store tenant pager x xs
      → Hydrated (x ∷ xs) ps
      → next_page c k store none pager limit
        ≡ (ok (take limit.value ps), advance c k store pager limit (take limit.value ps))
  next_page-left pager limit x xs ps left made =
      let a = row_or_zero pager.cursor in
      let read =
        read_page-left c k store tenant h limit a left.upper.value x xs ps left.bounds left.behind
          made in
      next_page-open pager limit left.upper left.open_still left.in_transaction left.has_bound
      ∙ read_next-left pager left.upper limit (take limit.value ps) (
          ap (λ t. read_page_scoped c k store none t a (some left.upper.value) limit)
            left.same_tenant
          ∙ read)

  -- A pager whose rows are all read.
  advance-Left :
      (pager : SnapshotPager) (limit : Limit) (n : ℕ) (x : EventRecord) (xs rest : List EventRecord)
      (page : Page c k store)
      → limit.value ≡ suc n
      → IsLeft c k store tenant pager x xs
      → drop n xs ≡ rest
      → Hydrated (x ∷ take n xs) page
      → Left c k store tenant (advance c k store pager limit page) rest
  advance-Left pager limit n x xs [] page size left cut made =
      advance-exhausted c k store tenant h pager limit n x xs page left cut made
  advance-Left pager limit n x xs (z ∷ zs) page size left cut made =
      advance-IsLeft c k store tenant h pager limit n x xs page z zs size left cut made

  Hydrated-front :
      (n : ℕ) (x : EventRecord) (xs : List EventRecord) (limit : Limit) (ps : Page c k store)
      → limit.value ≡ suc n
      → Hydrated (x ∷ xs) ps
      → Hydrated (x ∷ take n xs) (take limit.value ps)
  Hydrated-front n x xs limit ps size made =
      ap (λ m. collect hydrate_one (take m (x ∷ xs))) (sym size)
      ∙ collect-take hydrate_one limit.value (x ∷ xs) ps made

  Hydrated-back :
      (n : ℕ) (x : EventRecord) (xs : List EventRecord) (limit : Limit) (ps : Page c k store)
      → limit.value ≡ suc n
      → Hydrated (x ∷ xs) ps
      → Hydrated (drop n xs) (drop limit.value ps)
  Hydrated-back n x xs limit ps size made =
      ap (λ m. collect hydrate_one (drop m (x ∷ xs))) (sym size)
      ∙ collect-drop hydrate_one limit.value (x ∷ xs) ps made

  length-drop : (n : ℕ) (xs : List EventRecord) → length (drop n xs) ≤ length xs
  length-drop zero xs = ground arith
  length-drop (suc n) [] = ground arith
  length-drop (suc n) (x ∷ xs) = ground (arith, length-drop n xs)

  read_pages-step :
      (limit : Limit) (limits : List Limit) (pager next final : SnapshotPager)
      (page more : Page c k store)
      → next_page c k store none pager limit ≡ (ok page, next)
      → read_pages c k store limits next ≡ (ok more, final)
      → read_pages c k store (limit ∷ limits) pager ≡ (ok (page ++ more), final)
  unfolding read_pages
  read_pages-step limit limits pager next final page more one rest = simp (one, rest)

  read_pages-exhausted :
      (limits : List Limit) (pager : SnapshotPager)
      → pager.exhausted ≡ true
      → read_pages c k store limits pager ≡ (ok [], pager)
  unfolding read_pages
  read_pages-exhausted [] pager e = refl
  read_pages-exhausted (l ∷ ls) pager e =
      read_pages-step l ls pager pager pager [] [] (next_page-exhausted pager l e)
        (read_pages-exhausted ls pager e)

  read_pages-Left :
      (limits : List Limit) (pager : SnapshotPager) (rows : List EventRecord) (ps : Page c k store)
      → AdmitRows limits
      → length rows ≤ length limits
      → Left c k store tenant pager rows
      → Hydrated rows ps
      → (final : SnapshotPager) × ((read_pages c k store limits pager ≡ (ok ps, final))
          × (final.exhausted ≡ true))
  read_pages-Left limits pager [] ps admit enough left made =
      let same : [] ≡ ps = cc in
      (pager, (read_pages-exhausted limits pager left ∙ ap (λ p. (ok p, pager)) same, left))
  read_pages-Left [] pager (x ∷ xs) ps admit enough left made = absurd (omega arith)
  read_pages-Left (limit ∷ limits) pager (x ∷ xs) ps admit enough left made =
      let (n, size) = admit.0 in
      let page = take limit.value ps in
      let next = advance c k store pager limit page in
      let behind =
        advance-Left pager limit n x xs (drop n xs) page size left refl
          (Hydrated-front n x xs limit ps size made) in
      let few : length (drop n xs) ≤ length limits = omega (arith, length-drop n xs) in
      let (final, (read, done)) =
        read_pages-Left limits next (drop n xs) (drop limit.value ps) admit.1 few behind
          (Hydrated-back n x xs limit ps size made) in
      (
        final,
        (
          read_pages-step limit limits pager next final page (drop limit.value ps)
                (next_page-left pager limit x xs ps left made) read
              ∙ ap (λ p. (ok p, final)) (take-drop limit.value ps),
          done,
        ),
      )

  -- The pager at its start, with the bound of its rows.
  abbrev started : Option RowId → SnapshotPager
  started upper = record {
    transaction = true;
    upper_bound = upper;
    cursor = none;
    exhausted = not (is_some upper);
    tenant_id = tenant;
  }

  max_row-none : scope_rows c k store tenant ≡ [] → max_row tenant store ≡ none
  unfolding max_row
  max_row-none e = ap (λ rows. Option.map (λ e. e.row_id) (last rows)) e

  max_row-some :
      (x : EventRecord) (xs : List EventRecord)
      → scope_rows c k store tenant ≡ x ∷ xs
      → max_row tenant store ≡ some (last_of x xs).row_id
  unfolding max_row
  max_row-some x xs e =
      ap (λ rows. Option.map (λ e. e.row_id) (last rows)) e
      ∙ ap (Option.map (λ (e : EventRecord). e.row_id)) (last-last_of x xs)

  begin-none :
      max_row tenant store ≡ none
      → begin_snapshot_for_scope none none tenant store ≡ ok (started none)
  unfolding begin_snapshot_for_scope
  begin-none e = rw e refl

  begin-some :
      (v : ℤ)
      → max_row tenant store ≡ some v
      → int_lt (pos 0) v ≡ true
      → begin_snapshot_for_scope none none tenant store ≡ ok (started (some (record { value = v })))
  unfolding begin_snapshot_for_scope new_row_id
  begin-some v e positive = rw (e, positive) refl

  -- A snapshot without rows is exhausted from its start; any other has all its rows left.
  begin-Left :
      (rows : List EventRecord)
      → scope_rows c k store tenant ≡ rows
      → (pager : SnapshotPager) × ((begin_snapshot_for_scope none none tenant store ≡ ok pager)
          × Left c k store tenant pager rows)
  begin-Left [] e = (started none, (begin-none (max_row-none e), refl))
  begin-Left (x ∷ xs) e =
      let asc : Ascending (pos 0) (x ∷ xs) =
        subst (Ascending (pos 0)) e (scope-Ascending c k store tenant h) in
      let v = (last_of x xs).row_id in
      (
        started (some (record { value = v })),
        (
          begin-some v (max_row-some x xs e) (last_of-above (pos 0) x xs asc),
          record {
            open_still = refl;
            in_transaction = refl;
            same_tenant = refl;
            upper = record { value = v };
            has_bound = refl;
            bounds = refl;
            above = asc.0;
            behind =
                filter-beyond (pos 0) (scope_rows c k store tenant)
                  (scope-Ascending c k store tenant h)
                ∙ e;
          },
        ),
      )

-- When the rows have positive and distinct keys, no statement fails, and every row of the scope can be
-- hydrated, a snapshot starts; and a client that asks for pages with at least as many limits as there
-- are rows, each of one row or more, gets the events of the scope, each once and in the order of their
-- row ids, from a pager that is exhausted then.
pub read_pages_lem :
    (c : Crates) (k : Codecs) (store : Store) (tenant : Option TenantId) (limits : List Limit)
    (ps : Page c k store)
    → HasRowIds store.events
    → AdmitRows limits
    → length (scope_rows c k store tenant) ≤ length limits
    → collect (λ e. hydrate_page c k (joined_row store e)) (scope_rows c k store tenant) ≡ ok ps
    → (pager final : SnapshotPager) × ((begin_snapshot_for_scope none none tenant store ≡ ok pager)
        × ((read_pages c k store limits pager ≡ (ok ps, final)) × (final.exhausted ≡ true)))
read_pages_lem c k store tenant limits ps h admit enough made =
    let rows = scope_rows c k store tenant in
    let (pager, (begun, left)) = begin-Left c k store tenant h rows refl in
    let (final, done) =
      read_pages-Left c k store tenant h limits pager rows ps admit enough left made in
    (pager, final, (begun, done))
