-- ===== src/Tests/Blocking.antt =====
-- The blacklist at concrete inputs.
use yumtech_umbrel_apps.Prelude.{◌≡◌, refl, ◌↔◌, ◌≢◌, true, false, [], ◌∷◌, ◌++◌, some}
use yumtech_umbrel_apps.Prelude.Texts.{Text}
use yumtech_umbrel_apps.Blacklist.{Blacklist, Tables, is_alnum, normalize, reload, worker_blocked}
use yumtech_umbrel_apps.Blacklist.Words.{Listed, worker_blocked-reload}

abbrev bad : Text
bad = b'B' ∷ b'a' ∷ b'd' ∷ []

abbrev tables : Tables
tables = record {
  address_blacklist = [];
  workers_blacklist = (bad ∷ []) ∷ [];
  free_hashrate_grants = [];
}

abbrev nothing : Blacklist
nothing = record { addresses = []; banned_words = []; free_grants = [] }

abbrev loaded : Blacklist
loaded = reload (some tables) nothing

abbrev dotted : Text
dotted = b'x' ∷ b'b' ∷ b'.' ∷ b'A' ∷ b'd' ∷ []

worker_blocked-reload_example : (worker_blocked dotted loaded ≡ true) ↔ (
    (word : Text) × Listed word tables.workers_blacklist
    × (normalize word ≢ [])
    × ((front : Text) × (back : Text) × (normalize dotted ≡ front ++ (normalize word ++ back))))
worker_blocked-reload_example = worker_blocked-reload dotted tables nothing

dot : is_alnum b'.' ≡ false
unfolding is_alnum
dot = refl
