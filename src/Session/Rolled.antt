-- ===== src/Session/Rolled.antt =====
-- The version of the header of a share that was hashed.
use yumtech_umbrel_apps.Prelude.{
  ℕ, ◌^◌, ◌<◌, ◌≡◌, refl, sym, ap, ◌∙◌, bit_and, bit_or, Option, none, some, if◌then◌else◌, ◌==◌,
  not, arith,
}
use yumtech_umbrel_apps.Prelude.Texts.{codes}
use yumtech_umbrel_apps.Prelude.And.{bit, bit-below, bit-bit_and, bit-bit_or, bit-complement}
use yumtech_umbrel_apps.StratumProtocol.{Json, complement}
use yumtech_umbrel_apps.Stratifier.{MiningJob, find_job}
use yumtech_umbrel_apps.Hex.{hex_to_bytes}
use yumtech_umbrel_apps.Block.{byte_reverse_hex, valid_ntime, target_from_bits_hex}
use yumtech_umbrel_apps.Session.{Outside, Clock, World, is_zcash}
use yumtech_umbrel_apps.Session.Submit.{
  Checked, passed, rejected, threw, ◌>>=◌, Fields, Share, rolled_version, effective_mask,
  hash_share, check_share, ensure, or_reject, or_throw, parse_hex_u32, coinbase_and_root, header_of,
  hash_of, read_fields,
}

>>=-passed {ℓ κ} :
    {A : Type ℓ} {B : Type κ} (m : Checked A) (f : A → Checked B) (b : B)
    → (m >>= f) ≡ passed b
    → (a : A) × (m ≡ passed a) × (f a ≡ passed b)
>>=-passed (passed a) f b e = (a, refl, e)
>>=-passed (rejected code reason) f b e = cc
>>=-passed threw f b e = cc

passed_inj {ℓ} : {A : Type ℓ} (a b : A) → passed a ≡ passed b → a ≡ b
passed_inj a b e = cc

-- Outside the mask the digits are those of the job's version.
rolled-bits :
    (version mask bits i : ℕ)
    → i < 32
    → mask < 2 ^ 32
    → bit i mask ≡ 0
    → bit i (bit_or (bit_and version (complement mask)) (bit_and bits mask)) ≡ bit i version
rolled-bits version mask bits i h k z = omega (
  arith,
  bit-bit_or i (bit_and version (complement mask)) (bit_and bits mask),
  bit-bit_and i version (complement mask),
  bit-bit_and i bits mask,
  bit-complement i 32 mask h k,
  bit-below i version,
)

rolled_version-bits :
    (version mask : ℕ) (bits : Option ℕ) (v i : ℕ)
    → i < 32
    → mask < 2 ^ 32
    → bit i mask ≡ 0
    → rolled_version version mask bits ≡ passed v
    → bit i v ≡ bit i version
unfolding rolled_version
rolled_version-bits version mask none v i h k z e = ap (bit i) (sym (passed_inj version v e))
rolled_version-bits version mask (some bits) v i h k z e =
    let (done, ok, same) =
      >>=-passed (ensure (not (mask == 0)) 20 (codes "version-rolling not negotiated")) _ v e in
    ap (bit i) (sym (passed_inj _ v same)) ∙ rolled-bits version mask bits i h k z

module _ {D : Type 0} (env : Outside D) where
  hash_share-version :
      (clock : Clock) (w : World D) (f : Fields) (job : MiningJob D) (x : Share D)
      → hash_share env clock w f job ≡ passed x
      → (x.job ≡ job)
        × (rolled_version job.version (effective_mask env w) f.version_bits ≡ passed x.version)
  unfolding hash_share
  hash_share-version clock w f job x e =
      let s = w.session in
      let ntime = if is_zcash s.coin.chain then byte_reverse_hex f.ntime else f.ntime in
      let (time, e1, r1) =
        >>=-passed (or_reject (parse_hex_u32 ntime) 20 (codes "bad ntime")) _ x e in
      let (ok, e2, r2) =
        >>=-passed
          (ensure (valid_ntime time job.mintime clock.now_unix 7200) 20
            (codes "ntime out of range"))
          _ x r1 in
      let (version, e3, r3) =
        >>=-passed (rolled_version job.version (effective_mask env w) f.version_bits) _ x r2 in
      let (parts, e4, r4) = >>=-passed (or_throw (coinbase_and_root env s job f)) _ x r3 in
      let header_hex = header_of env s.coin.chain job f version ntime parts.1 in
      let (header, e5, r5) = >>=-passed (or_throw (hex_to_bytes header_hex)) _ x r4 in
      let (hash, e6, r6) = >>=-passed (hash_of env s.coin.chain header f.solution) _ x r5 in
      let (target, e7, r7) = >>=-passed (or_throw (target_from_bits_hex job.bits)) _ x r6 in
      let same = passed_inj _ x r7 in
      (ap (λ x. x.job) (sym same), e3 ∙ ap (λ x. passed x.version) same)

  -- The version of a share that was hashed has the digits of its job's version wherever the mask of
  -- the session, or without one that of the pool, has the digit 0.
  pub check_share-version :
      {J N : Type 0} (json : Json J N) (clock : Clock) (w : World D) (params : Option J)
      (x : Share D) (i : ℕ)
      → check_share env json clock w params ≡ passed x
      → effective_mask env w < 2 ^ 32
      → i < 32
      → bit i (effective_mask env w) ≡ 0
      → bit i x.version ≡ bit i x.job.version
  unfolding check_share
  check_share-version json clock w params x i e small h z =
      let (f, e1, r1) = >>=-passed (read_fields json w.session params) _ x e in
      let (job, e2, r2) =
        >>=-passed (or_reject (find_job f.job_id w.stratifier) 21 (codes "job not found")) _ x r1 in
      let (same, rolled) = hash_share-version clock w f job x r2 in
      rolled_version-bits job.version (effective_mask env w) f.version_bits x.version i h small z
        rolled
      ∙ ap (λ j. bit i j.version) (sym same)
