-- ===== src/Core/Serialization/Sorting.antt =====
-- crates/dovecote/src/serialization.rs: the order that `canonicalize_json` gives to the members of every object.
use mathlib.Core.List.{append-nil, append_assoc}
use dovecote.Base.{
  ◌≡◌, refl, ap, sym, ◌∙◌, true, list_lt, list_lt-list_eq, Text, List, [], ◌∷◌, ◌++◌, All, After,
  Before, IsOrdered, Before-append, insert-last, insert-IsOrdered, All-insert, map_insert,
}
use dovecote.Core.Json.{
  Json, Values, Members, no_items, item, no_members, member, members_of, append_members,
  append_members_nil, append_members_assoc, insert_member-Lacks, Lacks, Lacks-append_members,
}
use dovecote.Core.Serialization

abbrev key : Text → Text
key s = s

module _ {N : Type 0} where
  -- The name comes before those of the members.
  abbrev AfterMembers : Text → Members N → Type 0
  AfterMembers k no_members = Unit
  AfterMembers k (member n j m) = (list_lt k n ≡ true) × AfterMembers k m

abbrev mutual
  -- Every object within the value has its names in their order, each once.
  pub IsSorted : {N : Type 0} → Json N → Type 0
  IsSorted Json.null = Unit {0}
  IsSorted (Json.bool b) = Unit {0}
  IsSorted (Json.number n) = Unit {0}
  IsSorted (Json.string s) = Unit {0}
  IsSorted (Json.array v) = AllSorted v
  IsSorted (Json.object m) = MembersSorted m

  AllSorted : {N : Type 0} → Values N → Type 0
  AllSorted no_items = Unit {0}
  AllSorted (item j v) = IsSorted j × AllSorted v

  MembersSorted : {N : Type 0} → Members N → Type 0
  MembersSorted no_members = Unit {0}
  MembersSorted (member k j m) = IsSorted j × (AfterMembers k m × MembersSorted m)

module _ {N : Type 0} where
  abbrev Holds : List (Text × Json N) → Type 0
  Holds l = IsOrdered key l × All (λ e. Unit {0} × IsSorted e.1) l

  abbrev AllLack : List (Text × Json N) → Members N → Type 0
  AllLack [] m = Unit {0}
  AllLack (e ∷ l) m = Lacks e.0 m × AllLack l m

  AllLack-append :
      (n : Text) (v : Json N) (l : List (Text × Json N)) (m : Members N)
      → After key n l
      → AllLack l m
      → AllLack l (append_members m (member n v no_members))
  AllLack-append n v [] m d h = tt
  AllLack-append n v (e ∷ l) m d h = (
    Lacks-append_members e.0 m _ h.0 (list_lt-list_eq n e.0 d.0, tt),
    AllLack-append n v l m d.1 h.1,
  )

  insert_all-ordered :
      (l : List (Text × Json N)) (m : Members N)
      → IsOrdered key l
      → AllLack l m
      → Serialization.insert_all l m ≡ append_members m (members_of l)
  insert_all-ordered [] m o h = sym (append_members_nil m)
  insert_all-ordered (e ∷ l) m o h =
      rw (insert_member-Lacks e.0 e.1 m h.0) (
        insert_all-ordered l _ o.1 (AllLack-append e.0 e.1 l m o.0 h.1)
        ∙ append_members_assoc m _ _)

  AllLack-nothing : (l : List (Text × Json N)) → AllLack l no_members
  AllLack-nothing [] = tt
  AllLack-nothing (e ∷ l) = (tt, AllLack-nothing l)

  After-members :
      (n : Text) (l : List (Text × Json N)) → After key n l → AfterMembers n (members_of l)
  After-members n [] a = tt
  After-members n (e ∷ l) a = (a.0, After-members n l a.1)

  members_of-Sorted : (l : List (Text × Json N)) → Holds l → MembersSorted (members_of l)
  members_of-Sorted [] h = tt
  members_of-Sorted (e ∷ l) h =
      (h.1.0.1, (After-members e.0 l h.0.0, members_of-Sorted l (h.0.1, h.1.1)))

mutual
  unfolding Serialization.canonicalize_json

  canonicalize_json-IsSorted :
      {N : Type 0} (j : Json N) → IsSorted (Serialization.canonicalize_json j)
  canonicalize_json-IsSorted Json.null = tt
  canonicalize_json-IsSorted (Json.bool b) = tt
  canonicalize_json-IsSorted (Json.number n) = tt
  canonicalize_json-IsSorted (Json.string s) = tt
  canonicalize_json-IsSorted (Json.array v) = canonicalize_items-AllSorted v
  canonicalize_json-IsSorted (Json.object m) =
      let held = sort_members-Holds m [] (tt, tt) in
      rw
        (insert_all-ordered (Serialization.sort_members m []) no_members held.0 (AllLack-nothing _))
        (members_of-Sorted _ held)

  canonicalize_items-AllSorted :
      {N : Type 0} (v : Values N) → AllSorted (Serialization.canonicalize_items v)
  canonicalize_items-AllSorted no_items = tt
  canonicalize_items-AllSorted (item j v) =
      (canonicalize_json-IsSorted j, canonicalize_items-AllSorted v)

  sort_members-Holds :
      {N : Type 0} (m : Members N) (l : List (Text × Json N))
      → Holds l
      → Holds (Serialization.sort_members m l)
  sort_members-Holds no_members l h = h
  sort_members-Holds (member k j m) l h =
      let v = Serialization.canonicalize_json j in
      sort_members-Holds m (map_insert key k v l) (
        insert-IsOrdered key k v l h.0,
        All-insert key (λ s. Unit {0}) IsSorted k v l tt (canonicalize_json-IsSorted j) h.1,
      )

module _ {N : Type 0} where
  abbrev entries_of : Members N → List (Text × Json N)
  entries_of no_members = []
  entries_of (member k j m) = (k, j) ∷ entries_of m

  members_of-entries_of : (m : Members N) → members_of (entries_of m) ≡ m
  members_of-entries_of no_members = refl
  members_of-entries_of (member k j m) = ap (member k j) (members_of-entries_of m)

  -- The names of the members come after all those of the list.
  abbrev AllBefore : List (Text × Json N) → Members N → Type 0
  AllBefore l no_members = Unit {0}
  AllBefore l (member k j m) = Before key k l × AllBefore l m

  AllBefore-nothing : (m : Members N) → AllBefore [] m
  AllBefore-nothing no_members = tt
  AllBefore-nothing (member k j m) = (tt, AllBefore-nothing m)

  AllBefore-append :
      (l : List (Text × Json N)) (e : Text × Json N) (m : Members N)
      → AllBefore l m
      → AfterMembers e.0 m
      → AllBefore (l ++ e ∷ []) m
  AllBefore-append l e no_members b a = tt
  AllBefore-append l e (member k j m) b a =
      (Before-append key k l e b.0 a.0, AllBefore-append l e m b.1 a.1)

  After-entries : (n : Text) (m : Members N) → AfterMembers n m → After key n (entries_of m)
  After-entries n no_members a = tt
  After-entries n (member k j m) a = (a.0, After-entries n m a.1)

  entries_of-IsOrdered : (m : Members N) → MembersSorted m → IsOrdered key (entries_of m)
  entries_of-IsOrdered no_members h = tt
  entries_of-IsOrdered (member k j m) h = (After-entries k m h.1.0, entries_of-IsOrdered m h.1.1)

mutual
  unfolding Serialization.canonicalize_json

  canonicalize_json-fixed :
      {N : Type 0} (j : Json N) → IsSorted j → Serialization.canonicalize_json j ≡ j
  canonicalize_json-fixed Json.null h = refl
  canonicalize_json-fixed (Json.bool b) h = refl
  canonicalize_json-fixed (Json.number n) h = refl
  canonicalize_json-fixed (Json.string s) h = refl
  canonicalize_json-fixed (Json.array v) h = ap Json.array (canonicalize_items-fixed v h)
  canonicalize_json-fixed (Json.object m) h =
      let sorted = sort_members-fixed m [] h (AllBefore-nothing m) in
      let order = entries_of-IsOrdered m h in
      rw sorted (
        ap Json.object (
          insert_all-ordered (entries_of m) no_members order (AllLack-nothing (entries_of m))
          ∙ members_of-entries_of m))

  canonicalize_items-fixed :
      {N : Type 0} (v : Values N) → AllSorted v → Serialization.canonicalize_items v ≡ v
  canonicalize_items-fixed no_items h = refl
  canonicalize_items-fixed (item j v) h =
      rw (canonicalize_json-fixed j h.0, canonicalize_items-fixed v h.1) refl

  sort_members-fixed :
      {N : Type 0} (m : Members N) (l : List (Text × Json N))
      → MembersSorted m
      → AllBefore l m
      → Serialization.sort_members m l ≡ l ++ entries_of m
  sort_members-fixed no_members l h b = rw append-nil refl
  sort_members-fixed (member k j m) l h b =
      rw (canonicalize_json-fixed j h.0, insert-last key k j l b.0)
        (sort_members-fixed m (l ++ (k, j) ∷ []) h.1.1 (AllBefore-append l (k, j) m b.1 h.1.0)
          ∙ rw append_assoc refl)

-- A canonical JSON value has the names of every object in their order, each once, and it is the value that
-- canonicalization leaves as it is.
pub canonicalize_json_lem :
    {N : Type 0} (j : Json N)
    → IsSorted (Serialization.canonicalize_json j)
      × (Serialization.canonicalize_json (Serialization.canonicalize_json j)
          ≡ Serialization.canonicalize_json j)
canonicalize_json_lem j =
    let sorted = canonicalize_json-IsSorted j in
    (sorted, canonicalize_json-fixed (Serialization.canonicalize_json j) sorted)
