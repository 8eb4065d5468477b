-- ===== src/Base/Outcome.antt =====
-- Rust's `Result`, with the `?` operator as the bind of a `do` block.
use mathlib.Core.Path.{◌≡◌, refl, ap, subst}
use mathlib.Core.Logic.{◌⊎◌, inl, inr}
use mathlib.Core.Bool.{Bool, true, false}
use dovecote.Base.Tests.{if◌then◌else◌}
use mathlib.Core.Option.{Option, none, some}

pub data Result {ℓ} (E : Type 0) (A : Type ℓ) : Type ℓ where
  ok : A → Result E A
  err : E → Result E A

-- `if failed { return Err(e); }`
abbrev pub reject_if : {E : Type 0} → Bool → E → Result E (Unit {0})
reject_if true e = err e
reject_if false e = ok tt

-- `Option::ok_or`
abbrev pub ok_or {ℓ} : {E : Type 0} {A : Type ℓ} → Option A → E → Result E A
ok_or none e = err e
ok_or (some a) e = ok a

-- `Result::map_err`
abbrev pub map_err {ℓ} : {E F : Type 0} {A : Type ℓ} → (E → F) → Result E A → Result F A
map_err f (ok a) = ok a
map_err f (err e) = err (f e)

-- `result?`, and the rest of the function after it
infixl 5 ◌>>=◌
abbrev pub ◌>>=◌ {ℓ κ} :
    {E : Type 0} {A : Type ℓ} {B : Type κ} → Result E A → (A → Result E B) → Result E B
err failure >>= rest = err failure
ok value >>= rest = rest value

pub Result-cases {ℓ} :
    {E : Type 0} {A : Type ℓ} (r : Result E A) → ((a : A) × (r ≡ ok a)) ⊎ ((e : E) × (r ≡ err e))
Result-cases (ok a) = inl (a, refl)
Result-cases (err e) = inr (e, refl)

-- `check()?;`
infixl 5 ◌>>◌
abbrev pub ◌>>◌ {ℓ} : {E : Type 0} {B : Type ℓ} → Result E (Unit {0}) → Result E B → Result E B
ok _ >> rest = rest
err failure >> rest = err failure

-- A function that returned a value has passed each `?` of its own.
pub >>=-eq-ok {ℓ κ} :
    {E : Type 0} {A : Type ℓ} {B : Type κ} (first : Result E A) (rest : A → Result E B) {value : B}
    → (first >>= rest) ≡ ok value
    → (a : A) × (first ≡ ok a) × (rest a ≡ ok value)
>>=-eq-ok (err failure) rest returned = cc
>>=-eq-ok (ok a) rest returned = (a, refl, returned)

-- Whatever the function returns satisfies the predicate.
abbrev pub Yields {ℓ κ} : {E : Type 0} {A : Type ℓ} → (A → Type κ) → Result E A → Type (ℓ ⊔ κ)
Yields {A = A} P r = (v : A) → r ≡ ok v → P v

module _ {ℓ κ} {E : Type 0} {A : Type ℓ} (P : A → Type κ) where
  pub ok-Yields : (a : A) → P a → Yields {E = E} P (ok a)
  ok-Yields a held v h = let same : a ≡ v = cc in subst P same held

  pub err-Yields : (e : E) → Yields P (err e)
  err-Yields e v h = absurd cc

  pub bind-Yields {μ} :
      {B : Type μ} (first : Result E B) (rest : B → Result E A)
      → ((b : B) → first ≡ ok b → Yields P (rest b))
      → Yields P (first >>= rest)
  bind-Yields first rest f v h = let (b, made, same) = >>=-eq-ok first rest h in f b made v same

  pub then-Yields :
      (check : Result E (Unit {0})) (rest : Result E A) → Yields P rest → Yields P (check >> rest)
  then-Yields (ok u) rest f = f
  then-Yields (err e) rest f = λ v h. absurd cc

  pub if-Yields :
      (b : Bool) (x y : Result E A) → Yields P x → Yields P y → Yields P (if b then x else y)
  if-Yields true x y f g = f
  if-Yields false x y f g = g

pub map_err-Yields {ℓ κ} :
    {E F : Type 0} {A : Type ℓ} (P : A → Type κ) (f : E → F) (r : Result E A)
    → Yields P r
    → Yields P (map_err f r)
map_err-Yields P f (ok w) g v h = g v (ap ok cc)
map_err-Yields P f (err e) g v h = absurd cc

pub ok_or-eq-ok {ℓ} :
    {E : Type 0} {A : Type ℓ} (o : Option A) (e : E) {a : A} → ok_or o e ≡ ok a → o ≡ some a
ok_or-eq-ok none e h = absurd cc
ok_or-eq-ok (some b) e h = ap some cc

pub map_err-eq-ok {ℓ} :
    {E F : Type 0} {A : Type ℓ} (f : E → F) (r : Result E A) {a : A} → map_err f r ≡ ok a → r ≡ ok a
map_err-eq-ok f (ok b) h = ap ok cc
map_err-eq-ok f (err e) h = absurd cc

-- What follows may be replaced by what agrees with it on the value.
pub >>=-cong {ℓ κ} :
    {E : Type 0} {A : Type ℓ} {B : Type κ} (r : Result E A) (f g : A → Result E B)
    → ((a : A) → r ≡ ok a → f a ≡ g a)
    → (r >>= f) ≡ (r >>= g)
>>=-cong (ok a) f g h = h a refl
>>=-cong (err e) f g h = refl

-- The checks that passed are those of a chain.
pub then-eq-ok :
    {E : Type 0} {B : Type 0} (check : Result E (Unit {0})) (rest : Result E B) {b : B}
    → (check >> rest) ≡ ok b
    → (check ≡ ok tt) × (rest ≡ ok b)
then-eq-ok (ok u) rest h = (refl, h)
then-eq-ok (err e) rest h = absurd cc

pub reject_if-eq-ok : {E : Type 0} (b : Bool) (e : E) → reject_if b e ≡ ok tt → b ≡ false
reject_if-eq-ok true e h = absurd cc
reject_if-eq-ok false e h = refl
