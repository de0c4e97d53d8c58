-- ===== src/Blacklist.antt =====
-- Blocked addresses and workers: yumtech/mkpool-src/src/blacklist.hpp and blacklist.cpp. The sets are
-- lists, a lock held for a whole method makes it one step, and the rows of the three queries are an
-- argument of `reload`: `none` is an exception of the database. The counts for the log are left out.
pub mod Words
use yumtech_umbrel_apps.Prelude.{
  ℕ, ◌+◌, Bool, true, false, ◌&&◌, ◌||◌, not, List, [], ◌∷◌, Option, none, some, length, leb, ltb,
  ◌==◌, if◌then◌else◌,
}
use yumtech_umbrel_apps.Prelude.Texts.{Text, text_eq}
use yumtech_umbrel_apps.Address.{to_lower}

-- `std::isalnum` in the C locale.
unfoldable pub is_alnum : ℕ → Bool
is_alnum c = leb b'0' c && leb c b'9' || leb b'A' c && leb c b'Z' || leb b'a' c && leb c b'z'

unfoldable pub normalize : Text → Text
normalize [] = []
normalize (c ∷ s) = let rest = normalize s in if is_alnum c then to_lower c ∷ rest else rest

-- Does a text begin with a word? And `n.find(w) != npos`.
unfoldable pub starts_with : Text → Text → Bool
starts_with n [] = true
starts_with [] (y ∷ w) = false
starts_with (x ∷ n) (y ∷ w) = x == y && starts_with n w

unfoldable pub contains : Text → Text → Bool
unfolding starts_with
contains [] w = starts_with [] w
contains (x ∷ n) w = starts_with (x ∷ n) w || contains n w

unfoldable pub member : Text → List Text → Bool
member t [] = false
member t (s ∷ ss) = text_eq s t || member t ss

pub record Blacklist : Type 0 where
  pub addresses : List Text
  pub banned_words : List Text
  pub free_grants : List Text

-- The rows of the queries, each with its columns.
pub record Tables : Type 0 where
  pub address_blacklist : List (List Text)
  pub workers_blacklist : List (List Text)
  pub free_hashrate_grants : List (List Text)

-- The first columns that are not empty.
unfoldable pub first_columns : List (List Text) → List Text
first_columns [] = []
first_columns ([] ∷ rows) = first_columns rows
first_columns (([] ∷ r) ∷ rows) = first_columns rows
first_columns (((c ∷ t) ∷ r) ∷ rows) = (c ∷ t) ∷ first_columns rows

unfoldable pub add_word : Text → List Text → List Text
add_word [] words = words
add_word (c ∷ w) words = (c ∷ w) ∷ words

unfoldable pub read_words : List (List Text) → List Text
read_words [] = []
read_words ([] ∷ rows) = read_words rows
read_words ((t ∷ r) ∷ rows) = add_word (normalize t) (read_words rows)

unfoldable pub reload : Option Tables → Blacklist → Blacklist
unfolding first_columns read_words
reload none b = b
reload (some t) b = record {
  addresses = first_columns t.address_blacklist;
  banned_words = read_words t.workers_blacklist;
  free_grants = first_columns t.free_hashrate_grants;
}

unfoldable pub address_blocked : Text → Blacklist → Bool
address_blocked addr b = member addr b.addresses

unfoldable pub any_word : Text → List Text → Bool
any_word n [] = false
any_word n (w ∷ ws) = contains n w || any_word n ws

unfoldable pub worker_blocked : Text → Blacklist → Bool
worker_blocked worker b =
    let n = normalize worker in if length n == 0 then false else any_word n b.banned_words

-- The word that marks a worker as free of charge.
abbrev pub free_token : Text
free_token = b'f' ∷ b'r' ∷ b'e' ∷ b'e' ∷ b'h' ∷ b'a' ∷ b's' ∷ b'h' ∷ b'r' ∷ b'a' ∷ b't' ∷ b'e' ∷ []

unfoldable pub worker_is_free : Text → Bool
worker_is_free worker = contains (normalize worker) free_token

unfoldable pub free_granted : Text → Blacklist → Bool
free_granted addr b = member addr b.free_grants
