-- ===== src/Core/Json.antt =====
-- The values of the crate `serde_json`, built with the feature `preserve_order`: a `Map` keeps its members in
-- the order in which they came. The numbers are a parameter.
pub mod Slots
use dovecote.Base.{
  ℕ, suc, ◌≡◌, Bool, true, false, Text, list_eq, ◌&&◌, List, [], ◌∷◌, Option, none, some,
  if◌then◌else◌, ap, refl,
}

mutual
  pub data Json (Number : Type 0) : Type 0 where
    null : Json Number
    bool : Bool → Json Number
    number : Number → Json Number
    string : Text → Json Number
    array : Values Number → Json Number
    object : Members Number → Json Number

  pub data Values (Number : Type 0) : Type 0 where
    no_items : Values Number
    item : Json Number → Values Number → Values Number

  -- `Map<String, Value>`
  pub data Members (Number : Type 0) : Type 0 where
    no_members : Members Number
    member : Text → Json Number → Members Number → Members Number

module _ {Number : Type 0} where
  -- `Value::as_bool`, `Value::as_str`, and the pattern `Value::Object`
  abbrev pub as_bool : Json Number → Option Bool
  as_bool (bool b) = some b
  as_bool _ = none

  abbrev pub as_str : Json Number → Option Text
  as_str (string s) = some s
  as_str _ = none

  abbrev pub as_object : Json Number → Option (Members Number)
  as_object (object m) = some m
  as_object _ = none

  -- `Map::len`
  abbrev pub members_len : Members Number → ℕ
  members_len no_members = 0
  members_len (member k v m) = suc (members_len m)

  -- `Map::insert`: a name that is there keeps its place and gets the new value.
  unfoldable pub insert_member : Text → Json Number → Members Number → Members Number
  insert_member k v no_members = member k v no_members
  insert_member k v (member n w m) =
      let rest = insert_member k v m in if list_eq n k then member n v m else member n w rest

  -- `Map::remove`: the value of the name, and the members without it. On the two members of a tagged
  -- value it does not matter which member takes the free place.
  unfoldable pub get_member : Text → Members Number → Option (Json Number)
  get_member k no_members = none
  get_member k (member n v m) = let rest = get_member k m in if list_eq n k then some v else rest

  unfoldable pub without_member : Text → Members Number → Members Number
  without_member k no_members = no_members
  without_member k (member n v m) =
      let rest = without_member k m in if list_eq n k then m else member n v rest

  -- The members of an object as a list, and back.
  abbrev pub members_of : List (Text × Json Number) → Members Number
  members_of [] = no_members
  members_of ((k, v) ∷ m) = member k v (members_of m)

  -- No member has the name.
  abbrev pub Lacks : Text → Members Number → Type 0
  Lacks k no_members = Unit {0}
  Lacks k (member n v m) = (list_eq n k ≡ false) × Lacks k m

  -- No two members have the same name.
  abbrev pub IsDistinct : Members Number → Type 0
  IsDistinct no_members = Unit {0}
  IsDistinct (member n v m) = Lacks n m × IsDistinct m

  -- One list of members behind another.
  abbrev pub append_members : Members Number → Members Number → Members Number
  append_members no_members m = m
  append_members (member n v l) m = member n v (append_members l m)

  pub append_members_nil : (m : Members Number) → append_members m no_members ≡ m
  append_members_nil no_members = refl
  append_members_nil (member n v m) = ap (member n v) (append_members_nil m)

  pub append_members_assoc :
      (l m r : Members Number)
      → append_members (append_members l m) r ≡ append_members l (append_members m r)
  append_members_assoc no_members m r = refl
  append_members_assoc (member n v l) m r = ap (member n v) (append_members_assoc l m r)

  -- A name that is not there goes to the end.
  pub insert_member-Lacks :
      (k : Text) (v : Json Number) (m : Members Number)
      → Lacks k m
      → insert_member k v m ≡ append_members m (member k v no_members)
  unfolding insert_member
  insert_member-Lacks k v no_members h = refl
  insert_member-Lacks k v (member n w m) h = rw (h.0, insert_member-Lacks k v m h.1) refl

  pub Lacks-append_members :
      (k : Text) (l m : Members Number) → Lacks k l → Lacks k m → Lacks k (append_members l m)
  Lacks-append_members k no_members m h g = g
  Lacks-append_members k (member n v l) m h g = (h.0, Lacks-append_members k l m h.1 g)
