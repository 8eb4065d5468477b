-- ===== src/Core/Extension/Insertion.antt =====
-- crates/dovecote/src/extension.rs: what `Extensions::insert` does to the set.
use dovecote.Base.{
  ◌≡◌, ◌⊎◌, ◌∙◌, Bool-cases, refl, sym, list_eq, list_eq_refl, list_eq_sound, none, some, ok, err,
  if◌then◌else◌, insert-IsOrdered, get-insert, IsOrdered, Option-cases, inl, inr,
}
use dovecote.Core.Error.{error, duplicate}
use dovecote.Core.Extension.{ExtensionName, ExtensionValue, Extensions, get, put, insert}

module _ {Time : Type 0} where
  get-put :
      (e : Extensions Time) (name other : ExtensionName) (value : ExtensionValue Time)
      → get (put e name value) other
        ≡ (if list_eq name.value other.value then some value else get e other)
  unfolding get put
  get-put e name other value = get-insert (λ n. n.value) name value e.entries other.value

  put-IsOrdered :
      (e : Extensions Time) (name : ExtensionName) (value : ExtensionValue Time)
      → IsOrdered (λ n. n.value) e.entries
      → IsOrdered (λ n. n.value) (put e name value).entries
  unfolding put
  put-IsOrdered e name value o = insert-IsOrdered (λ n. n.value) name value e.entries o

  -- On an ordered set, the insertion of a name that is there fails with the error for a duplicate. Any other
  -- succeeds whatever the value is, an invalid trace context included, and gives a set with the value under its
  -- name, every other name as it was, and the names in their order.
  pub insert_lem :
      (e : Extensions Time) (name : ExtensionName) (value : ExtensionValue Time)
      → IsOrdered (λ n. n.value) e.entries
      → ((old : ExtensionValue Time) × (get e name ≡ some old)
          × (insert e name value ≡ err (error "extension name" duplicate)))
        ⊎ ((grown : Extensions Time) × (get e name ≡ none)
            × (insert e name value ≡ ok grown)
            × (get grown name ≡ some value)
            × ((other : ExtensionName)
                → (other.value ≡ name.value) ⊎ (get grown other ≡ get e other))
            × IsOrdered (λ n. n.value) grown.entries)
  unfolding insert
  insert_lem e name value o = elim (Option-cases (get e name)) [
    | inr (old, found) ↦ inl (old, found, rw found refl)
    | inl absent ↦ inr (
      put e name value,
      absent,
      rw absent refl,
      get-put e name name value ∙ rw (list_eq_refl name.value) refl,
      (λ other. elim (Bool-cases (list_eq name.value other.value)) [
        | inl same ↦ inl (sym (list_eq_sound name.value other.value same))
        | inr differ ↦ inr (get-put e name other value ∙ rw differ refl)
      ]),
      put-IsOrdered e name value o,
    )
  ]
