-- ===== src/Session/Authorize.antt =====
-- `handle_authorize` of yumtech/mkpool-src/src/client_session.cpp: the local checks, and what the
-- answers of the nodes do, which come later on the session's strand. The message of a decoder's error
-- is left out.
use yumtech_umbrel_apps.Prelude.{
  ℕ, Bool, true, false, ◌&&◌, ◌||◌, not, List, [], ◌∷◌, ◌++◌, Option, none, some, length, ltb,
  if◌then◌else◌,
}
use yumtech_umbrel_apps.Prelude.Texts.{Text, codes}
use yumtech_umbrel_apps.Hex.{bytes_to_hex}
use yumtech_umbrel_apps.Address.{Decoded, expected, unexpected, script_pubkey_hex}
use yumtech_umbrel_apps.Address.Decoder.{decode}
use yumtech_umbrel_apps.Blacklist.{
  Blacklist, address_blocked, worker_is_free, free_granted, worker_blocked,
}
use yumtech_umbrel_apps.Zcash.Transparent.{taddr_to_script}
use yumtech_umbrel_apps.StratumProtocol.{Json}
use yumtech_umbrel_apps.Stratifier.{MiningJob, latest_job}
use yumtech_umbrel_apps.Vardiff.{set_current}
use yumtech_umbrel_apps.Session.{
  Outside, Clock, Chain, Session, World, emit, is_zcash, reply_true, reply_false, validate_address,
  validate_aux_address, presence_online,
}
use yumtech_umbrel_apps.Session.Coinbase.{is_empty}
use yumtech_umbrel_apps.Session.Notify.{emit_job, send_set_difficulty}
use yumtech_umbrel_apps.Session.Passwords.{custom_difficulty, doge_of}
use yumtech_umbrel_apps.Session.Requests.{split_worker}

-- What waits for the node's answer.
pub record Pending (D : Type 0) : Type 0 where
  pub address : Text
  pub worker : Text
  pub decoded : Decoded
  pub custom : Option D
  pub doge : Text

-- Why the blacklist refuses a worker, if it does.
unfoldable pub refusal : Blacklist → Text → Text → Option Text
refusal b addr worker =
    if address_blocked addr b
    then some (codes "address not allowed")
    else if worker_is_free worker
    then (if free_granted addr b then none else some (codes "worker name is reserved"))
    else if worker_blocked worker b
    then some (codes "worker name not allowed")
    else none

-- The local checks end in a refusal or wait for the node.
pub data Checks (D : Type 0) : Type 0 where
  denied : Text → Checks D
  waits : Pending D → Checks D

module _ {D J : Type 0} (env : Outside D) (json : Json J D) where
  -- The first of the parameters, if it is a text, and those behind it.
  unfoldable pub first_text : Option J → Option (Text × List J)
  first_text none = none
  first_text (some p) = elim (json.elements p) [
    | none ↦ none
    | some [] ↦ none
    | some (v ∷ vs) ↦ (elim (json.text v) [ none ↦ none | some t ↦ some (t, vs) ])
  ]

  -- The password, if it is a text.
  unfoldable pub password_of : List J → Option Text
  password_of [] = none
  password_of (v ∷ vs) = json.text v

  abbrev custom_of : Session D → Option Text → Option D
  custom_of s none = none
  custom_of s (some password) =
      if s.coin.vardiff_enabled then custom_difficulty env.real s.coin.chain password else none

  abbrev doge_in : Option Text → Text
  doge_in none = []
  doge_in (some password) = doge_of password

  -- An address that was decoded, against the blacklist.
  unfoldable pub check_worker : Blacklist → Pending D → Checks D
  unfolding refusal
  check_worker b p = elim (refusal b p.address p.worker) [
    | some reason ↦ denied reason
    | none ↦ waits p
  ]

  unfoldable pub check_address : Blacklist → Session D → Text × Text → Option Text → Checks D
  unfolding check_worker
  check_address b s (addr, worker) password = elim (decode (λ d. some (env.sha256 d)) addr) [
    | unexpected e ↦ denied (codes "invalid address: ")
    | expected d ↦ check_worker b (record {
      address = addr;
      worker = worker;
      decoded = d;
      custom = custom_of s password;
      doge = doge_in password;
    })
  ]

  unfoldable pub check_names : Blacklist → Session D → Text × List J → Checks D
  unfolding check_address split_worker password_of
  check_names b s (full, more) =
      let names = split_worker full in
      if ltb 128 (length names.0) || ltb 64 (length names.1)
      then denied (codes "name too long")
      else check_address b s names (password_of more)

  unfoldable pub check_authorize : Blacklist → Session D → Option J → Checks D
  unfolding first_text check_names
  check_authorize b s params = elim (first_text params) [
    | none ↦ denied (codes "missing worker name")
    | some given ↦ check_names b s given
  ]

  abbrev pub after_checks : Checks D → World D → World D × Option (Pending D)
  after_checks (denied reason) w = (emit (reply_false reason) w, none)
  after_checks (waits p) w = (emit (validate_address p.address) w, some p)

  unfoldable pub handle_authorize : Blacklist → Option J → World D → World D × Option (Pending D)
  unfolding check_authorize
  handle_authorize b params w = after_checks (check_authorize b w.session params) w

module _ {D : Type 0} (env : Outside D) where
  -- The script that pays a worker.
  unfoldable pub worker_script : Chain → Text → Decoded → Text
  worker_script chain addr d =
      if is_zcash chain then bytes_to_hex (taddr_to_script env.sha256 addr) else script_pubkey_hex d

  -- The difficulty that the password asked for is set and sent.
  unfoldable pub apply_custom : Clock → Option D → World D → World D
  unfolding send_set_difficulty
  apply_custom clock none w = w
  apply_custom clock (some d) w = send_set_difficulty env clock d none (record w {
    session = record w.session {
      has_custom_difficulty = true;
      vardiff = set_current env.real d w.session.vardiff;
    };
  })

  abbrev pub send_first : Option (MiningJob D) → World D → World D
  send_first none w = w
  send_first (some j) w = emit_job env j false w

  -- `proceed_auth`, with the number that the database gives the miner.
  unfoldable pub proceed_auth : Clock → ℕ → Pending D → World D → World D
  unfolding worker_script apply_custom
  proceed_auth clock miner p w =
      let w1 = apply_custom clock p.custom (record w {
        session = record w.session {
          worker_address = p.address;
          worker_name = p.worker;
          worker_script_hex = worker_script w.session.coin.chain p.address p.decoded;
        };
      }) in
      let w2 = emit reply_true w1 in
      let w3 =
        emit (presence_online p.address)
          (record w2 { session = record w2.session { miner_id = miner; authorized = true } }) in
      send_first (latest_job w3.stratifier) w3

  -- The pool's own address of the merge-mined chain, if it is one.
  unfoldable pub pool_default : World D → World D
  pool_default w =
      let a = w.session.coin.payout_address in
      if w.session.has_aux_client && not (is_empty a)
      then (elim (decode (λ d. some (env.sha256 d)) a) [
        | unexpected e ↦ w
        | expected d ↦ record w {
          session = record w.session {
            aux_doge_address = a;
            doge_script_hex = script_pubkey_hex d;
          };
        }
      ])
      else w

  -- The node's answer; a reason is an error or that the address is not valid.
  unfoldable pub on_validated :
      Clock → ℕ → Pending D → Option Text → World D → World D × Option (Pending D)
  unfolding proceed_auth pool_default
  on_validated clock miner p (some reason) w =
      if w.session.closed
      then (w, none)
      else (emit (reply_false (codes "invalid address: " ++ reason)) w, none)
  on_validated clock miner p none w =
      if w.session.closed
      then (w, none)
      else if not (is_empty p.doge) && w.session.has_aux_client
      then (emit (validate_aux_address p.doge) w, some p)
      else (proceed_auth clock miner p (pool_default w), none)

  -- The session with the address that the other node has confirmed.
  unfoldable pub with_doge : Text → World D → World D
  with_doge a w = elim (decode (λ d. some (env.sha256 d)) a) [
    | unexpected e ↦ record w { session = record w.session { aux_doge_address = a } }
    | expected d ↦ record w {
      session = record w.session { aux_doge_address = a; doge_script_hex = script_pubkey_hex d };
    }
  ]

  unfoldable pub on_aux_validated : Clock → ℕ → Pending D → Bool → World D → World D
  unfolding proceed_auth with_doge
  on_aux_validated clock miner p valid w =
      if w.session.closed
      then w
      else if valid
      then proceed_auth clock miner p (with_doge p.doge w)
      else emit (reply_false (codes "invalid Dogecoin address")) w
