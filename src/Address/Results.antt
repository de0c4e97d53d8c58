-- ===== src/Address/Results.antt =====
-- Reasoning about a result that is an address or an error. It models no code of the program.
use yumtech_umbrel_apps.Prelude.{◌≡◌, refl, ap, ◌⊎◌, inl, inr, arith}
use yumtech_umbrel_apps.Address.{Error, Expected, expected, unexpected, ◌>>=◌}

pub expected_inj {ℓ} : {A : Type ℓ} (a b : A) → expected a ≡ expected b → a ≡ b
expected_inj a b e = ap (value a) e
  where
    value : {A : Type ℓ} → A → Expected A → A
    value a (expected b) = b
    value a (unexpected e) = a

pub Expected-cases {ℓ} :
    {A : Type ℓ} (r : Expected A)
    → ((a : A) × (r ≡ expected a)) ⊎ ((e : Error) × (r ≡ unexpected e))
Expected-cases (expected a) = inl (a, refl)
Expected-cases (unexpected e) = inr (e, refl)

pub >>=-expected {ℓ κ} :
    {A : Type ℓ} {B : Type κ} (r : Expected A) (f : A → Expected B) (b : B)
    → (r >>= f) ≡ expected b
    → (a : A) × (r ≡ expected a) × (f a ≡ expected b)
>>=-expected (expected a) f b e = (a, refl, e)
>>=-expected (unexpected x) f b e = absurd (ground arith)
