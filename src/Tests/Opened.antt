-- ===== src/Tests/Opened.antt =====
-- A session that is authorized, and a suggested difficulty, at concrete inputs.
use yumtech_umbrel_apps.Address.Bech32.{segwit_decode}
use yumtech_umbrel_apps.Address.CashAddr.{find_colon}
use yumtech_umbrel_apps.Address.Decoder.{decode, looks_like, try_bech, witness_result, witness_type}
use yumtech_umbrel_apps.Prelude.{
  ℕ, ◌*◌, ltb, ◌≡◌, refl, ap, false, true, [], ◌∷◌, Option, none, some,
}
use yumtech_umbrel_apps.Prelude.Texts.{codes, text_eq}
use yumtech_umbrel_apps.Blacklist.{
  Blacklist, address_blocked, any_word, is_alnum, member, normalize, worker_blocked, worker_is_free,
}
use yumtech_umbrel_apps.Session.{Clock, World, bitcoin, is_zcash}
use yumtech_umbrel_apps.Session.Authorize.{Pending, on_validated}
use yumtech_umbrel_apps.Session.Lines.{
  authorize, process_line, first_number, handle_suggest_difficulty,
}
use yumtech_umbrel_apps.Session.Difficulty.{is_low, difficulty_of, tolerance}
use yumtech_umbrel_apps.Session.Suggestions.{handle_suggest_difficulty-unset}
use yumtech_umbrel_apps.Address.{p2wpkh, bitcoin_mainnet}
use yumtech_umbrel_apps.StratumProtocol.{Json}
use yumtech_umbrel_apps.Tests.Submits.{share}
use yumtech_umbrel_apps.Session.Guards.{IsGuarded, queued}
use yumtech_umbrel_apps.Session.Admission.{Reach-IsGuarded, opened, line, validated}
use yumtech_umbrel_apps.Tests.Miner.{outside, clock, session, world, json, Value, array}

abbrev new_world : World ℕ
new_world = record world { session = record session { authorized = false; shares_accepted = 0 } }

abbrev blacklist : Blacklist
blacklist = record { addresses = []; banned_words = codes "spam" ∷ []; free_grants = [] }

abbrev params : Option Value
params = some (array (codes "bc1qw508d6qejxtdg4y5r3zarvary0c5xw7kv8f3t4.rig" ∷ []))

abbrev asked : Option (Pending ℕ)
asked = (process_line outside json blacklist clock (authorize params) new_world).1

abbrev pending : Pending ℕ
pending = record {
  address = codes "bc1qw508d6qejxtdg4y5r3zarvary0c5xw7kv8f3t4";
  worker = codes "rig";
  decoded = record {
    kind = p2wpkh;
    network = bitcoin_mainnet;
    program =
        117 ∷ 30 ∷ 118 ∷ 232 ∷ 25 ∷ 145 ∷ 150 ∷ 212 ∷ 84 ∷ 148 ∷ 28 ∷ 69 ∷ 209 ∷ 179 ∷ 163 ∷ 35
        ∷ 241 ∷ 67 ∷ 59 ∷ 214 ∷ [];
  };
  custom = none;
  doge = [];
}

is_asked : asked ≡ some pending
unfolding process_line decode find_colon try_bech looks_like witness_result segwit_decode text_eq
    witness_type address_blocked member worker_is_free normalize is_alnum worker_blocked any_word
is_asked = refl

abbrev after_line : World ℕ
after_line = (process_line outside json blacklist clock (authorize params) new_world).0

Reach-IsGuarded_example :
    IsGuarded outside json blacklist (on_validated outside clock 3 pending none after_line).0
Reach-IsGuarded_example = Reach-IsGuarded outside json blacklist (
    validated (line (opened new_world refl refl) clock (authorize params)) [] [] pending
      (ap (λ o. queued o []) is_asked) clock 3 none)

-- Numbers as parameters.
abbrev numbers : Json ℕ ℕ
numbers = record {
  elements = λ v. some (v ∷ []);
  members = λ v. none;
  text = λ v. none;
  number = λ v. some v;
  no_number = 0;
}

abbrev varied : World ℕ
varied = record world {
  session = record session { coin = record session.coin { vardiff_enabled = true } };
}

abbrev later : Clock
later = record { now_unix = 0x65000000; now = 100_000_000_000 }

is_suggested : first_number outside numbers (some 2) ≡ some 2
unfolding first_number
is_suggested = refl

handle_suggest_difficulty-unset_example :
    ((handle_suggest_difficulty outside numbers clock (some 2) varied).session.last_difficulty ≡ 2)
    × (is_low outside later
          (handle_suggest_difficulty outside numbers clock (some 2) varied).session
          share
        ≡ ltb (difficulty_of outside bitcoin share.hash_be) (16 * tolerance outside bitcoin))
unfolding is_zcash
handle_suggest_difficulty-unset_example =
    handle_suggest_difficulty-unset outside numbers clock later (some 2) 2 varied share refl refl
      is_suggested refl refl
