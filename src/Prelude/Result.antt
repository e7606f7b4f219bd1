-- ===== src/Prelude/Result.antt =====
-- The outcome of Python code that may raise: a value, or the exception.
use mathlib.Core.Path.{◌≡◌, refl, ap}
use mathlib.Core.Bool.{Bool, true, false}
use mathlib.Core.Logic.{◌⊎◌, inl, inr}

pub data Result {ℓ κ} (E : Type ℓ) (A : Type κ) : Type (ℓ ⊔ κ) where
  ok : A → Result E A
  raise : E → Result E A

module _ {ℓ κ μ} {E : Type ℓ} {A : Type κ} {B : Type μ} where
  infixl 5 ◌>>=◌
  abbrev pub ◌>>=◌ : Result E A → (A → Result E B) → Result E B
  ok a >>= f = f a
  raise e >>= f = raise e

  -- A chain that returns has a first step that returned, and went on to the result.
  pub >>=-eq-ok :
      (first : Result E A) (next : A → Result E B) {result : B}
      → (first >>= next) ≡ ok result
      → (a : A) × (first ≡ ok a) × (next a ≡ ok result)
  >>=-eq-ok (raise e) next h = cc
  >>=-eq-ok (ok a) next h = (a, refl, h)

  -- A chain that raises does so at its first step, or after it.
  pub >>=-eq-raise :
      (first : Result E A) (next : A → Result E B) {e : E}
      → (first >>= next) ≡ raise e
      → (first ≡ raise e) ⊎ ((a : A) × (first ≡ ok a) × (next a ≡ raise e))
  >>=-eq-raise (raise d) next h = inl (let same : d ≡ _ = cc (h) in ap raise same)
  >>=-eq-raise (ok a) next h = inr (a, refl, h)

module _ {ℓ κ} {E : Type ℓ} {B : Type κ} where
  infixl 5 ◌>>◌
  abbrev pub ◌>>◌ : Result E (Unit {0}) → Result E B → Result E B
  m >> k = m >>= λ _. k

pub ok_injective {ℓ κ} :
    {E : Type ℓ} {A : Type κ} {a b : A} → (let r : Result E A = ok a in r) ≡ ok b → a ≡ b
ok_injective h = cc (h)

-- `if not test: raise e`
abbrev pub check {ℓ} : {E : Type ℓ} → Bool → E → Result E (Unit {0})
check true e = ok tt
check false e = raise e

pub Result-cases {ℓ κ} :
    {E : Type ℓ} {A : Type κ} (r : Result E A) → ((a : A) × (r ≡ ok a)) ⊎ ((e : E) × (r ≡ raise e))
Result-cases (ok a) = inl (a, refl)
Result-cases (raise e) = inr (e, refl)
