-- ===== src/Address/Checksum.antt =====
-- The checksum of Bech32 keeps texts apart that differ in one symbol.
use yumtech_umbrel_apps.Prelude.{
  ℕ, ◌+◌, ◌*◌, ◌/◌, ◌%◌, ◌^◌, ◌<◌, bit_xor, ◌≡◌, refl, sym, subst, ap, ◌∙◌, inl, inr, true, false,
  List, [], ◌∷◌, ◌++◌, map, get_or, All, ◌==◌, ==_iff, Bool-cases, arith,
}
use yumtech_umbrel_apps.Prelude.Tables.{every_below, every_below-lookup}
use yumtech_umbrel_apps.Prelude.Xor.{zero-bit_xor, bit_xor-zero, bit_xor_cancel, bit_xor_fields}
use yumtech_umbrel_apps.Address.{Bytes}
use yumtech_umbrel_apps.Address.Bech32.{feedback, bech32_words, polymod_step, polymod_loop}

feedback-cancel : (gs : List ℕ) (b i u w : ℕ) → feedback gs b i u ≡ feedback gs b i w → u ≡ w
unfolding feedback
feedback-cancel [] b i u w e = e
feedback-cancel (g ∷ gs) b i u w e = elim (Bool-cases (b / 2 ^ i % 2 == 1)) [
  | inl set ↦
      bit_xor_cancel u w g (feedback-cancel gs b (i + 1) (bit_xor u g) (bit_xor w g) (rw set at e))
  | inr clear ↦ feedback-cancel gs b (i + 1) u w (rw clear at e)
]

bit_xor-below : (k a b : ℕ) → a < 2 ^ k → b < 2 ^ k → bit_xor a b < 2 ^ k
bit_xor-below k a b h l = (bit_xor_fields k 0 a 0 b h l).1

feedback-below :
    (gs : List ℕ) (b i u : ℕ) → All (λ g. g < 2 ^ 30) gs → u < 2 ^ 30 → feedback gs b i u < 2 ^ 30
unfolding feedback
feedback-below [] b i u v h = h
feedback-below (g ∷ gs) b i u (hg, v) h = elim (Bool-cases (b / 2 ^ i % 2 == 1)) [
  | inl set ↦ rw set (feedback-below gs b (i + 1) (bit_xor u g) v (bit_xor-below 30 u g h hg))
  | inr clear ↦ rw clear (feedback-below gs b (i + 1) u v h)
]

feedback_set :
    (g : ℕ) (gs : List ℕ) (b i u : ℕ)
    → (b / 2 ^ i % 2 == 1) ≡ true
    → feedback (g ∷ gs) b i u ≡ feedback gs b (i + 1) (bit_xor u g)
unfolding feedback
feedback_set g gs b i u e = rw e refl

feedback_clear :
    (g : ℕ) (gs : List ℕ) (b i u : ℕ)
    → (b / 2 ^ i % 2 == 1) ≡ false
    → feedback (g ∷ gs) b i u ≡ feedback gs b (i + 1) u
unfolding feedback
feedback_clear g gs b i u e = rw e refl

-- The lowest symbol of what the words add depends on the lowest symbol alone.
feedback-low :
    (gs : List ℕ) (b i h l : ℕ)
    → l < 32
    → feedback gs b i (h * 32 + l) % 32 ≡ feedback (map (λ g. g % 32) gs) b i l
feedback-low [] b i h l k = unfold feedback in omega arith
feedback-low (g ∷ gs) b i h l k = elim (Bool-cases (b / 2 ^ i % 2 == 1)) [
  | inl set ↦
      let (fields, small) = bit_xor_fields 5 h l (g / 32) (g % 32) k (omega arith) in
      let split : bit_xor (h * 32 + l) g ≡ bit_xor h (g / 32) * 32 + bit_xor l (g % 32) =
        ap (bit_xor (h * 32 + l)) {y = g / 32 * 2 ^ 5 + g % 32} (omega arith) ∙ fields in
      ap (λ t. t % 32) (feedback_set g gs b i (h * 32 + l) set ∙ ap (feedback gs b (i + 1)) split)
      ∙ feedback-low gs b (i + 1) (bit_xor h (g / 32)) (bit_xor l (g % 32)) small
      ∙ sym (feedback_set (g % 32) (map (λ g. g % 32) gs) b i l set)
  | inr clear ↦
      ap (λ t. t % 32) (feedback_clear g gs b i (h * 32 + l) clear)
      ∙ feedback-low gs b (i + 1) h l k
      ∙ sym (feedback_clear (g % 32) (map (λ g. g % 32) gs) b i l clear)
]

abbrev low_words : List ℕ
low_words = map (λ g. g % 32) bech32_words

-- The five bits that the words were chosen by, from the lowest symbol that they add.
abbrev chosen : List ℕ
chosen =
    0 ∷ 17 ∷ 11 ∷ 26 ∷ 22 ∷ 7 ∷ 29 ∷ 12 ∷ 5 ∷ 20 ∷ 14 ∷ 31 ∷ 19 ∷ 2 ∷ 24 ∷ 9 ∷ 10 ∷ 27 ∷ 1 ∷ 16 ∷ 28
    ∷ 13 ∷ 23 ∷ 6 ∷ 15 ∷ 30 ∷ 4 ∷ 21 ∷ 25 ∷ 8 ∷ 18 ∷ 3 ∷ []

chosen_table :
    every_below 1024 (λ n.
      get_or chosen
        (bit_xor (feedback (map (λ g. g % 32) bech32_words) (n / 32) 0 (n % 32)) (n % 32))
        0
      == n / 32)
    ≡ true
unfolding every_below feedback
chosen_table = refl

base-sum : (c v : ℕ) → v < 32 → bit_xor (c % 2 ^ 25 * 2 ^ 5) v ≡ c % 2 ^ 25 * 32 + v
base-sum c v h =
    ap (λ t. bit_xor t v) {y = c % 2 ^ 25 * 2 ^ 5 + 0} (omega arith)
    ∙ ap (bit_xor (c % 2 ^ 25 * 2 ^ 5 + 0)) {y = 0 * 2 ^ 5 + v} (omega arith)
    ∙ (bit_xor_fields 5 (c % 2 ^ 25) 0 0 v (omega arith) h).0
    ∙ omega (arith, bit_xor-zero (c % 2 ^ 25), zero-bit_xor v)

chosen-bits :
    (b v : ℕ) → b < 32 → v < 32 → get_or chosen (bit_xor (feedback low_words b 0 v) v) 0 ≡ b
chosen-bits b v h k = (==_iff _ _).0 (
    subst (λ q. (get_or chosen (bit_xor (feedback low_words q 0 v) v) 0 == q) ≡ true)
      {x = (b * 32 + v) / 32} {y = b} (omega arith)
      (subst
        (λ r.
          (get_or chosen (bit_xor (feedback low_words ((b * 32 + v) / 32) 0 r) r) 0
            == (b * 32 + v) / 32)
          ≡ true)
        {x = (b * 32 + v) % 32} {y = v} (omega arith)
        (every_below-lookup 1024 _ chosen_table (b * 32 + v) (omega arith))))

-- The step is one-to-one in the checksum.
step-cancel :
    (c d v : ℕ) → c < 2 ^ 30 → d < 2 ^ 30 → v < 32 → polymod_step c v ≡ polymod_step d v → c ≡ d
unfolding polymod_step
step-cancel c d v hc hd hv e = omega (
  arith,
  same,
  feedback-cancel bech32_words (d / 2 ^ 25) 0 (c % 2 ^ 25 * 32 + v) (d % 2 ^ 25 * 32 + v) (
      subst
        (λ b.
          feedback bech32_words b 0 (c % 2 ^ 25 * 32 + v)
          ≡ feedback bech32_words (d / 2 ^ 25) 0 (d % 2 ^ 25 * 32 + v))
        same steps),
)
  where
    steps :
        feedback bech32_words (c / 2 ^ 25) 0 (c % 2 ^ 25 * 32 + v)
        ≡ feedback bech32_words (d / 2 ^ 25) 0 (d % 2 ^ 25 * 32 + v)
    steps = rw (base-sum c v hv, base-sum d v hv) at e

    lows : feedback low_words (c / 2 ^ 25) 0 v ≡ feedback low_words (d / 2 ^ 25) 0 v
    lows =
        sym (feedback-low bech32_words (c / 2 ^ 25) 0 (c % 2 ^ 25) v hv)
        ∙ ap (λ t. t % 32) steps
        ∙ feedback-low bech32_words (d / 2 ^ 25) 0 (d % 2 ^ 25) v hv

    same : c / 2 ^ 25 ≡ d / 2 ^ 25
    same =
        sym (chosen-bits (c / 2 ^ 25) v (omega arith) hv)
        ∙ ap (λ t. get_or chosen (bit_xor t v) 0) lows
        ∙ chosen-bits (d / 2 ^ 25) v (omega arith) hv

step-below : (c v : ℕ) → v < 32 → polymod_step c v < 2 ^ 30
unfolding polymod_step
step-below c v h = rw (base-sum c v h) (
    feedback-below bech32_words (c / 2 ^ 25) 0 (c % 2 ^ 25 * 32 + v)
      (omega arith, (omega arith, (omega arith, (omega arith, (omega arith, tt))))) (omega arith))

loop-cancel :
    (vs : Bytes) (c d : ℕ)
    → All (λ v. v < 32) vs
    → c < 2 ^ 30
    → d < 2 ^ 30
    → polymod_loop c vs ≡ polymod_loop d vs
    → c ≡ d
unfolding polymod_loop
loop-cancel [] c d v hc hd e = e
loop-cancel (x ∷ vs) c d (hx, v) hc hd e = step-cancel c d x hc hd hx (
    loop-cancel vs (polymod_step c x) (polymod_step d x) v (step-below c x hx) (step-below d x hx)
      e)

-- Two lists of symbols that differ in one place only have different checksums.
pub polymod_loop-one :
    (pre : Bytes) (x y : ℕ) (post : Bytes) (c : ℕ)
    → x < 32
    → y < 32
    → All (λ v. v < 32) post
    → polymod_loop c (pre ++ (x ∷ post)) ≡ polymod_loop c (pre ++ (y ∷ post))
    → x ≡ y
unfolding polymod_loop
polymod_loop-one (p ∷ pre) x y post c hx hy v e =
    polymod_loop-one pre x y post (polymod_step c p) hx hy v e
polymod_loop-one [] x y post c hx hy v e = omega (
  arith,
  feedback-cancel bech32_words (c / 2 ^ 25) 0 (c % 2 ^ 25 * 32 + x) (c % 2 ^ 25 * 32 + y) steps,
)
  where
    steps :
        feedback bech32_words (c / 2 ^ 25) 0 (c % 2 ^ 25 * 32 + x)
        ≡ feedback bech32_words (c / 2 ^ 25) 0 (c % 2 ^ 25 * 32 + y)
    steps =
        unfold polymod_step in
        rw (base-sum c x hx, base-sum c y hy) at
          (loop-cancel post (polymod_step c x) (polymod_step c y) v (step-below c x hx)
            (step-below c y hy) e)
