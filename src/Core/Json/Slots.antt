-- ===== src/Core/Json/Slots.antt =====
-- Objects whose members may be absent, and when their names are distinct.
use dovecote.Base.{
  ◌≡◌, ◌∙◌, false, list_eq, list_eq_sym, Text, List, [], ◌∷◌, ◌++◌, Option, none, some,
}
use dovecote.Core.Json.{
  Json, Members, no_members, member, append_members, Lacks, Lacks-append_members, IsDistinct,
}

-- Members that may be absent.
abbrev pub Slots : Type 0 → Type 0
Slots N = List (Text × Option (Json N))

module _ {N : Type 0} where
  -- The members that are there, in their order.
  abbrev pub members_present : Slots N → Members N
  members_present [] = no_members
  members_present ((name, none) ∷ rest) = members_present rest
  members_present ((name, some value) ∷ rest) = member name value (members_present rest)

  -- No name of the list is the name; no name comes twice.
  abbrev pub Differs : Text → Slots N → Type 0
  Differs n [] = Unit
  Differs n (s ∷ l) = (list_eq n s.0 ≡ false) × Differs n l

  abbrev pub Distinct : Slots N → Type 0
  Distinct [] = Unit
  Distinct (s ∷ l) = Differs s.0 l × Distinct l

  abbrev pub AllLack : Slots N → Members N → Type 0
  AllLack [] m = Unit
  AllLack (s ∷ l) m = Lacks s.0 m × AllLack l m

  pub AllLack-append :
      (n : Text) (v : Json N) (l : Slots N) (m : Members N)
      → Differs n l
      → AllLack l m
      → AllLack l (append_members m (member n v no_members))
  AllLack-append n v [] m d h = tt
  AllLack-append n v (s ∷ l) m d h =
      (Lacks-append_members s.0 m _ h.0 (d.0, tt), AllLack-append n v l m d.1 h.1)

  pub Lacks-present : (n : Text) (l : Slots N) → Differs n l → Lacks n (members_present l)
  Lacks-present n [] d = tt
  Lacks-present n ((x, none) ∷ l) d = Lacks-present n l d.1
  Lacks-present n ((x, some v) ∷ l) d = (list_eq_sym x n ∙ d.0, Lacks-present n l d.1)

  pub present-IsDistinct : (l : Slots N) → Distinct l → IsDistinct (members_present l)
  present-IsDistinct [] d = tt
  present-IsDistinct ((n, none) ∷ l) d = present-IsDistinct l d.1
  present-IsDistinct ((n, some v) ∷ l) d = (Lacks-present n l d.0, present-IsDistinct l d.1)

  pub Differs-append : (n : Text) (l r : Slots N) → Differs n l → Differs n r → Differs n (l ++ r)
  Differs-append n [] r d e = e
  Differs-append n (s ∷ l) r d e = (d.0, Differs-append n l r d.1 e)

  -- No name of the one list is a name of the other.
  abbrev pub Apart : Slots N → Slots N → Type 0
  Apart [] r = Unit
  Apart (s ∷ l) r = Differs s.0 r × Apart l r

  pub Distinct-append : (l r : Slots N) → Distinct l → Distinct r → Apart l r → Distinct (l ++ r)
  Distinct-append [] r d e a = e
  Distinct-append (s ∷ l) r d e a = (Differs-append s.0 l r d.0 a.0, Distinct-append l r d.1 e a.1)

  pub Apart-append : (l r t : Slots N) → Apart l r → Apart l t → Apart l (r ++ t)
  Apart-append [] r t a b = tt
  Apart-append (s ∷ l) r t a b = (Differs-append s.0 r t a.0 b.0, Apart-append l r t a.1 b.1)
