-- ===== src/Session/Requests.antt =====
-- What a `mining.submit` says: the first checks of `handle_submit` in
-- yumtech/mkpool-src/src/client_session.cpp, in their order. JSON values are those of nlohmann::json, a
-- parameter.
use yumtech_umbrel_apps.Prelude.{
  ℕ, ◌-◌, ◌*◌, ◌%◌, ◌^◌, Bool, true, false, ◌&&◌, List, [], ◌∷◌, ◌++◌, Option, none, some, length,
  get_elem?, drop, replicate, leb, ◌==◌, if◌then◌else◌,
}
use yumtech_umbrel_apps.Prelude.Texts.{Text, text_eq, codes}
use yumtech_umbrel_apps.Hex.{valid_hex}
use yumtech_umbrel_apps.StratumProtocol.{Json, stoul}
use yumtech_umbrel_apps.Session.{Session, is_zcash}

-- A check passes, or rejects the share with a code and a reason, or an exception leaves it.
pub data Checked {ℓ} (A : Type ℓ) : Type ℓ where
  passed : A → Checked A
  rejected : ℕ → Text → Checked A
  threw : Checked A

infixl 5 ◌>>=◌ ◌>>◌
abbrev pub ◌>>=◌ {ℓ κ} : {A : Type ℓ} {B : Type κ} → Checked A → (A → Checked B) → Checked B
passed a >>= f = f a
rejected code reason >>= f = rejected code reason
threw >>= f = threw

abbrev pub ◌>>◌ {ℓ} : {B : Type ℓ} → Checked (Unit {0}) → Checked B → Checked B
m >> k = m >>= λ _. k

-- The share is rejected unless the test holds.
abbrev pub ensure : Bool → ℕ → Text → Checked (Unit {0})
ensure true code reason = passed tt
ensure false code reason = rejected code reason

abbrev pub or_reject {ℓ} : {A : Type ℓ} → Option A → ℕ → Text → Checked A
or_reject none code reason = rejected code reason
or_reject (some a) code reason = passed a

abbrev pub or_throw {ℓ} : {A : Type ℓ} → Option A → Checked A
or_throw none = threw
or_throw (some a) = passed a

unfoldable pub parse_hex_u32 : Text → Option ℕ
unfolding stoul
parse_hex_u32 h =
    if length h == 8 then (elim (stoul h) [ none ↦ none | some v ↦ some (v % 2 ^ 32) ]) else none

-- What a request says. `nonce2` is empty for Zcash and `solution` for the others.
pub record Fields : Type 0 where
  pub worker : Text
  pub job_id : Text
  pub nonce2 : Text
  pub ntime : Text
  pub nonce : Text
  pub solution : Text
  pub version_bits : Option ℕ

-- The worker up to its first dot, and what is behind it, or "0" without one.
unfoldable pub split_worker : Text → Text × Text
split_worker [] = ([], codes "0")
split_worker (c ∷ t) = let r = split_worker t in if c == b'.' then ([], t) else (c ∷ r.0, r.1)

module _ {J N : Type 0} (json : Json J N) where
  -- `p[i].get<std::string>()`.
  unfoldable pub string_at : List J → ℕ → Option Text
  string_at p i = elim (get_elem? p i) [ none ↦ none | some v ↦ json.text v ]

  abbrev bad_types : Text
  bad_types = codes "bad params types"

  unfoldable pub read_zcash : Text → List J → Checked Fields
  unfolding string_at
  read_zcash extranonce1 p = do
    worker ← or_reject (string_at p 0) 20 bad_types
    job_id ← or_reject (string_at p 1) 20 bad_types
    ntime ← or_reject (string_at p 2) 20 bad_types
    nonce2 ← or_reject (string_at p 3) 20 bad_types
    given ← or_reject (string_at p 4) 20 bad_types
    ensure (valid_hex ntime && length ntime == 8) 20 (codes "invalid time hex")
    ensure (valid_hex nonce2) 20 (codes "invalid nonce hex")
    let unpadded = extranonce1 ++ nonce2
    let nonce = unpadded ++ replicate (64 - length unpadded) b'0'
    ensure (length nonce == 64) 20 (codes "bad Zcash nonce size")
    ensure (valid_hex given) 20 (codes "bad Zcash solution hex")
    let solution = if length given == 2694 then drop 6 given else given
    ensure (length solution == 2688) 20 (codes "bad Zcash solution size")
    passed (record {
      worker = worker;
      job_id = job_id;
      nonce2 = [];
      ntime = ntime;
      nonce = nonce;
      solution = solution;
      version_bits = none;
    })

  unfoldable pub read_bitcoin : ℕ → List J → Checked Fields
  unfolding string_at parse_hex_u32
  read_bitcoin extranonce2_size p = do
    worker ← or_reject (string_at p 0) 20 bad_types
    job_id ← or_reject (string_at p 1) 20 bad_types
    nonce2 ← or_reject (string_at p 2) 20 bad_types
    ntime ← or_reject (string_at p 3) 20 bad_types
    nonce ← or_reject (string_at p 4) 20 bad_types
    ensure (valid_hex nonce2 && (valid_hex ntime && (valid_hex nonce && length ntime == 8))) 20
        (codes "invalid hex")
    ensure (length nonce == 8) 20 (codes "bad nonce size")
    ensure (length nonce2 == extranonce2_size * 2) 20 (codes "bad extranonce2 size")
    passed (record {
      worker = worker;
      job_id = job_id;
      nonce2 = nonce2;
      ntime = ntime;
      nonce = nonce;
      solution = [];
      version_bits = elim (string_at p 5) [ none ↦ none | some t ↦ parse_hex_u32 t ];
    })

  -- Who submits, and that the request has its parameters.
  unfoldable pub read_fields : {D : Type 0} → Session D → Option J → Checked Fields
  unfolding read_zcash read_bitcoin split_worker
  read_fields s params = do
    ensure s.authorized 24 (codes "not authorized")
    given ← or_reject params 20 (codes "bad params")
    p ← or_reject (json.elements given) 20 (codes "bad params")
    ensure (leb 5 (length p)) 20 (codes "bad params")
    f ←
        (if is_zcash s.coin.chain
          then read_zcash s.extranonce1 p
          else read_bitcoin s.extranonce2_size p)
    let w = split_worker f.worker
    ensure (text_eq w.0 s.worker_address && text_eq w.1 s.worker_name) 20
        (codes "address/worker mismatch")
    passed f
