-- ===== src/StratumProtocol/Versions.antt =====
-- Which versions of a block are accepted: `validate_version` digit by digit.
use yumtech_umbrel_apps.Prelude.{
  ℕ, zero, suc, ◌^◌, ◌<◌, ◌≡◌, refl, sym, ap, ◌∙◌, ◌↔◌, ◌⊎◌, inl, inr, bit_and, true, ==_iff, arith,
}
use yumtech_umbrel_apps.Prelude.And.{
  bit, bit-below, bit-bit_and, bit-complement, bit-equal, bit_and-below,
}
use yumtech_umbrel_apps.StratumProtocol.{complement, validate_version}

-- The digits that are compared.
outside :
    (i s m : ℕ) → i < 32 → m < 2 ^ 32 → bit i m ≡ 0 → bit i (bit_and s (complement m)) ≡ bit i s
outside i s m h k e =
    omega (arith, bit-bit_and i s (complement m), bit-complement i 32 m h k, bit-below i s)

inside : (i s m : ℕ) → i < 32 → m < 2 ^ 32 → bit i m ≡ 1 → bit i (bit_and s (complement m)) ≡ 0
inside i s m h k e = omega (arith, bit-bit_and i s (complement m), bit-complement i 32 m h k)

zero_or_one : (n : ℕ) → n < 2 → (n ≡ 0) ⊎ (n ≡ 1)
zero_or_one zero h = inl refl
zero_or_one (suc zero) h = inr refl
zero_or_one (suc (suc n)) h = absurd (omega arith)

-- A 32-bit version is accepted exactly if it has the digits of the template wherever the mask has
-- the digit 0.
pub validate_version-bits :
    (submitted templ mask : ℕ)
    → submitted < 2 ^ 32
    → templ < 2 ^ 32
    → mask < 2 ^ 32
    → (validate_version submitted templ mask ≡ true)
      ↔ ((i : ℕ) → i < 32 → bit i mask ≡ 0 → bit i submitted ≡ bit i templ)
unfolding validate_version
validate_version-bits s t m hs ht hm = (
  λ e i h z. sym (outside i s m h hm z) ∙ ap (bit i) ((==_iff _ _).0 e) ∙ outside i t m h hm z,
  λ same. (==_iff _ _).1 (
      bit-equal 32 _ _ (bit_and-below 32 s (complement m) hs) (bit_and-below 32 t (complement m) ht)
        (λ i h. elim (zero_or_one (bit i m) (bit-below i m)) [
          | inl z ↦ outside i s m h hm z ∙ same i h z ∙ sym (outside i t m h hm z)
          | inr o ↦ inside i s m h hm o ∙ sym (inside i t m h hm o)
        ])),
)
