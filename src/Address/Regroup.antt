-- ===== src/Address/Regroup.antt =====
-- `convert_bits` from groups of five bits to bytes keeps the number that the groups spell.
use yumtech_umbrel_apps.Prelude.{
  ℕ, zero, suc, ◌+◌, ◌-◌, ◌*◌, ◌/◌, ◌%◌, ◌^◌, ◌<◌, bit_or, ◌≡◌, refl, subst, ap, ◌∙◌, ◌⊎◌, inl, inr,
  false, ◌||◌, not, [], ◌∷◌, ◌++◌, length, All, leb, ◌==◌, ==_iff, Bool-cases, arith,
}
use native.Mathlib.Nat.{pow-suc}
use yumtech_umbrel_apps.Prelude.Bits.{bit_or_add_high}
use yumtech_umbrel_apps.Address.{Bytes, expected}
use yumtech_umbrel_apps.Address.Results.{expected_inj, Expected-cases, >>=-expected}
use yumtech_umbrel_apps.Address.ConvertBits.{emit, Rest, regroup, padding, convert_bits}

-- The number that digits spell, the first the highest.
unfoldable pub number : ℕ → Bytes → ℕ
number base [] = 0
number base (d ∷ ds) = d * base ^ length ds + number base ds

next_acc : (acc v : ℕ) → acc < 2 ^ 12 → v < 32 → bit_or (acc * 2 ^ 5 % 2 ^ 32) v ≡ acc * 32 + v
next_acc acc v h k = ap (λ t. bit_or t v) (omega arith) ∙ bit_or_add_high 5 v acc k

-- What one round of the outer loop makes of the bits that wait: it keeps them all, or moves the
-- upper eight out.
Round : (bits acc v acc1 : ℕ) (out : Bytes) (left : ℕ) → Type 0
Round bits acc v acc1 out left =
    ((out ≡ []) × (left ≡ bits + 5) × (left < 8) × (acc1 % 2 ^ left ≡ acc % 2 ^ bits * 32 + v))
    ⊎ ((b : ℕ) × (out ≡ b ∷ [])
        × (b < 256)
        × (left + 3 ≡ bits)
        × (b * 2 ^ left + acc1 % 2 ^ left ≡ acc % 2 ^ bits * 32 + v))

emit-Round :
    (bits acc v acc1 : ℕ)
    → bits < 8
    → v < 32
    → acc1 ≡ (acc * 32 + v) % 2 ^ 12
    → let (out, left) = emit (bits + 5) 8 acc1 (bits + 5) in Round bits acc v acc1 out left
unfolding Round emit
emit-Round zero acc v acc1 h k e = inl (refl, refl, omega arith, omega arith)
emit-Round (suc zero) acc v acc1 h k e = inl (refl, refl, omega arith, omega arith)
emit-Round (suc (suc zero)) acc v acc1 h k e = inl (refl, refl, omega arith, omega arith)
emit-Round (suc (suc (suc zero))) acc v acc1 h k e =
    inr (_, refl, omega arith, omega arith, omega arith)
emit-Round (suc (suc (suc (suc zero)))) acc v acc1 h k e =
    inr (_, refl, omega arith, omega arith, omega arith)
emit-Round (suc (suc (suc (suc (suc zero))))) acc v acc1 h k e =
    inr (_, refl, omega arith, omega arith, omega arith)
emit-Round (suc (suc (suc (suc (suc (suc zero)))))) acc v acc1 h k e =
    inr (_, refl, omega arith, omega arith, omega arith)
emit-Round (suc (suc (suc (suc (suc (suc (suc zero))))))) acc v acc1 h k e =
    inr (_, refl, omega arith, omega arith, omega arith)
emit-Round (suc (suc (suc (suc (suc (suc (suc (suc n)))))))) acc v acc1 h k e = absurd (omega arith)

pub two_pow_3 : (k : ℕ) → 2 ^ (k + 3) ≡ 8 * 2 ^ k
two_pow_3 k =
    ap (λ n. 2 ^ n) {x = k + 3} {y = suc (suc (suc k))} (omega arith)
    ∙ omega (arith, pow-suc 2 k, pow-suc 2 (suc k), pow-suc 2 (suc (suc k)))

pub two_pow_5 : (k : ℕ) → 2 ^ (k + 5) ≡ 32 * 2 ^ k
two_pow_5 k = omega (
  arith,
  two_pow_3 k,
  two_pow_3 (k + 1),
  ap (λ n. 2 ^ n) {x = k + 5} {y = suc (suc (k + 3))} (omega arith),
  pow-suc 2 (k + 3),
  pow-suc 2 (suc (k + 3)),
)

-- What the loop keeps of the groups `vs` and of the bits that wait.
record Kept (vs : Bytes) (r : Rest) (out : Bytes) (r' : Rest) : Type 0 where
  few : r'.bits < 8
  bytes : All (λ b. b < 256) out
  lengths : 8 * length out + r'.bits ≡ 5 * length vs + r.bits
  weights : 256 ^ length out * 2 ^ r'.bits ≡ 32 ^ length vs * 2 ^ r.bits
  value :
      r.acc % 2 ^ r.bits * 32 ^ length vs + number 32 vs
      ≡ number 256 out * 2 ^ r'.bits + r'.acc % 2 ^ r'.bits

wait-Kept :
    (v : ℕ) (vs : Bytes) (r s : Rest) (out : Bytes) (r' : Rest)
    → s.bits ≡ r.bits + 5
    → s.acc % 2 ^ s.bits ≡ r.acc % 2 ^ r.bits * 32 + v
    → Kept vs s out r'
    → Kept (v ∷ vs) r out r'
unfolding number
wait-Kept v vs r s out r' eb ea k = record {
  few = k.few;
  bytes = k.bytes;
  lengths = omega (arith, k.lengths);
  weights = omega (
    arith,
    k.weights,
    ap (λ t. t * 2 ^ r.bits) (pow-suc 32 (length vs)),
    ap (λ b. 32 ^ length vs * 2 ^ b) eb,
    ap (λ t. 32 ^ length vs * t) (two_pow_5 r.bits),
  );
  value = omega (
    arith,
    k.value,
    pow-suc 32 (length vs),
    ap (λ t. r.acc % 2 ^ r.bits * t) (pow-suc 32 (length vs)),
    ap (λ t. t * 32 ^ length vs) ea,
  );
}

move-Kept :
    (v b : ℕ) (vs : Bytes) (r s : Rest) (out : Bytes) (r' : Rest)
    → b < 256
    → s.bits + 3 ≡ r.bits
    → b * 2 ^ s.bits + s.acc % 2 ^ s.bits ≡ r.acc % 2 ^ r.bits * 32 + v
    → Kept vs s out r'
    → Kept (v ∷ vs) r (b ∷ out) r'
unfolding number
move-Kept v b vs r s out r' hb eb ea k = record {
  few = k.few;
  bytes = (hb, k.bytes);
  lengths = omega (arith, k.lengths);
  weights = omega (
    arith,
    ap (λ t. 256 * t) k.weights,
    ap (λ t. t * 2 ^ r'.bits) (pow-suc 256 (length out)),
    ap (λ t. t * 2 ^ r.bits) (pow-suc 32 (length vs)),
    ap (λ b. 32 ^ length vs * 2 ^ b) eb,
    ap (λ t. 32 ^ length vs * t) (two_pow_3 s.bits),
  );
  value = omega (
    arith,
    k.value,
    ap (λ t. b * t) k.weights,
    pow-suc 32 (length vs),
    ap (λ t. r.acc % 2 ^ r.bits * t) (pow-suc 32 (length vs)),
    ap (λ t. t * 32 ^ length vs) ea,
  );
}

Round-Kept :
    (v : ℕ) (vs : Bytes) (r s : Rest) (o out : Bytes) (r' : Rest)
    → r.bits < 8
    → Round r.bits r.acc v s.acc o s.bits
    → (s.bits < 8 → Kept vs s out r')
    → Kept (v ∷ vs) r (o ++ out) r'
unfolding Round
Round-Kept v vs r s o out r' h (inl (eo, eb, few, ea)) k =
    rw eo (wait-Kept v vs r s out r' eb ea (k few))
Round-Kept v vs r s o out r' h (inr (b, eo, hb, eb, ea)) k =
    rw eo (move-Kept v b vs r s out r' hb eb ea (k (omega arith)))

regroup-Kept :
    (vs : Bytes) (r : Rest) (out : Bytes) (r' : Rest)
    → r.bits < 8
    → r.acc < 2 ^ 12
    → regroup 5 8 vs r ≡ expected (out, r')
    → Kept vs r out r'
unfolding regroup number
regroup-Kept [] r out r' hb ha e =
    subst (λ (q : Bytes × Rest). Kept [] r q.0 q.1) (expected_inj _ _ e)
      (record { few = hb; bytes = tt; lengths = refl; weights = refl; value = omega arith })
regroup-Kept (v ∷ vs) r out r' hb ha e = elim (Bool-cases (v / 2 ^ 5 == 0)) [
  | inr big ↦ absurd (ground arith)
  | inl small ↦
      let low : v < 32 = omega (arith, (==_iff (v / 2 ^ 5) 0).0 small) in
      let (p, ep, eq) =
        >>=-expected (regroup 5 8 vs s) (λ p. expected (o ++ p.0, p.1)) (out, r') (rw small at e) in
      subst (λ (q : Bytes × Rest). Kept (v ∷ vs) r q.0 q.1) (expected_inj _ _ eq)
        (Round-Kept v vs r s o p.0 p.1 hb
          (emit-Round r.bits r.acc v acc1 hb low (ap (λ t. t % 2 ^ 12) (next_acc r.acc v ha low)))
          (λ few. regroup-Kept vs s p.0 p.1 few (omega arith) ep))
]
  where
    acc1 : ℕ
    acc1 = bit_or (r.acc * 2 ^ 5 % 2 ^ 32) v % 2 ^ (5 + 8 - 1)

    o : Bytes
    o = (emit (r.bits + 5) 8 acc1 (r.bits + 5)).0

    s : Rest
    s = record { acc = acc1; bits = (emit (r.bits + 5) 8 acc1 (r.bits + 5)).1 }

padding-zero :
    (bits acc : ℕ) → bits < 5 → acc * 2 ^ (8 - bits) % 2 ^ 32 % 2 ^ 8 ≡ 0 → acc % 2 ^ bits ≡ 0
padding-zero zero acc h e = omega arith
padding-zero (suc zero) acc h e = omega arith
padding-zero (suc (suc zero)) acc h e = omega arith
padding-zero (suc (suc (suc zero))) acc h e = omega arith
padding-zero (suc (suc (suc (suc zero)))) acc h e = omega arith
padding-zero (suc (suc (suc (suc (suc n))))) acc h e = absurd (omega arith)

-- The groups that `convert_bits` accepts from five bits to eight, without padding, spell the same
-- number as the bytes that it gives and fewer than five bits of zero behind them.
pub convert_bits-number :
    (vs out : Bytes)
    → convert_bits vs 5 8 false ≡ expected out
    → (rest : ℕ) × (rest < 5)
      × (5 * length vs ≡ 8 * length out + rest)
      × (number 32 vs ≡ number 256 out * 2 ^ rest)
      × All (λ b. b < 256) out
unfolding convert_bits
convert_bits-number vs out e = elim (Expected-cases (regroup 5 8 vs start)) [
  | inr (x, failed) ↦ absurd (ground arith)
  | inl ((o, r), done) ↦
      let k = regroup-Kept vs start o r (omega arith) (omega arith) done in
      elim (Bool-cases (leb 5 r.bits || not (padding 8 r == 0))) [
        | inl refused ↦ absurd (ground arith)
        | inr accepted ↦
            let same = expected_inj o out (rw (done, convert_bits, accepted) at e) in
            let few : r.bits < 5 = ground arith in
            let none' = padding-zero r.bits r.acc few ((==_iff (padding 8 r) 0).0 (ground arith)) in
            (
              r.bits,
              few,
              subst (λ b. 5 * length vs ≡ 8 * length b + r.bits) same (omega (arith, k.lengths)),
              subst (λ b. number 32 vs ≡ number 256 b * 2 ^ r.bits) same
                  (omega (arith, k.value, none')),
              subst (All (λ b. b < 256)) same k.bytes,
            )
      ]
]
  where
    start : Rest
    start = record { acc = 0; bits = 0 }
