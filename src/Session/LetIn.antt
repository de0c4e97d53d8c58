-- ===== src/Session/LetIn.antt =====
-- What `handle_authorize` of yumtech/mkpool-src/src/client_session.cpp asks the node about: an address
-- that decodes, and a worker whom the blacklist lets in.
use yumtech_umbrel_apps.Prelude.{
  ◌≡◌, refl, List, Option, none, some, subst, inl, inr, ◌⊎◌, ◌||◌, Bool-cases, Option-cases, ltb,
  length,
}
use yumtech_umbrel_apps.Prelude.Texts.{Text, codes}
use yumtech_umbrel_apps.Address.{Decoded, Error, Expected, expected, unexpected}
use yumtech_umbrel_apps.Address.Decoder.{decode}
use yumtech_umbrel_apps.Blacklist.{Blacklist}
use yumtech_umbrel_apps.StratumProtocol.{Json}
use yumtech_umbrel_apps.Session.{Outside, Session}
use yumtech_umbrel_apps.Session.Authorize.{
  Pending, refusal, Checks, denied, waits, check_worker, check_address, check_names,
  check_authorize, first_text, password_of, worker_script,
}
use yumtech_umbrel_apps.Session.Requests.{split_worker}

Expected-cases :
    (r : Expected Decoded) → ((d : Decoded) × (r ≡ expected d)) ⊎ ((x : Error) × (r ≡ unexpected x))
Expected-cases (expected d) = inl (d, refl)
Expected-cases (unexpected x) = inr (x, refl)

module _ {D J : Type 0} (env : Outside D) (json : Json J D) (b : Blacklist) where
  -- The address decodes, and the blacklist lets the worker in.
  abbrev pub IsLetIn : Text → Text → Decoded → Type 0
  IsLetIn addr worker d =
      (decode (λ x. some (env.sha256 x)) addr ≡ expected d) × (refusal b addr worker ≡ none)

  abbrev pub IsChecked : Pending D → Type 0
  IsChecked p = IsLetIn p.address p.worker p.decoded

  -- A session that is authorized works for a worker who was let in, and pays to that address.
  abbrev pub IsAdmitted : Session D → Type 0
  IsAdmitted s =
      (d : Decoded) × IsLetIn s.worker_address s.worker_name d
      × (s.worker_script_hex ≡ worker_script env s.coin.chain s.worker_address d)

  check_worker-IsChecked :
      (p q : Pending D)
      → decode (λ x. some (env.sha256 x)) p.address ≡ expected p.decoded
      → check_worker env json b p ≡ waits q
      → IsChecked q
  unfolding check_worker
  check_worker-IsChecked p q e c = elim (Option-cases (refusal b p.address p.worker)) [
    | inl free ↦ subst IsChecked (waits_inj (rw (check_worker, free) at c)) (e, free)
    | inr (reason, refused) ↦ absurd (denied_waits reason (rw (check_worker, refused) at c))
  ]
    where
      waits_inj : ◌≡◌ {A = Checks D} (waits p) (waits q) → p ≡ q
      waits_inj e = cc

      denied_waits : (reason : Text) → ◌≡◌ {A = Checks D} (denied reason) (waits q) → ⊥
      denied_waits reason e = cc

  check_address-IsChecked :
      (s : Session D) (names : Text × Text) (password : Option Text) (q : Pending D)
      → check_address env json b s names password ≡ waits q
      → IsChecked q
  unfolding check_address
  check_address-IsChecked s (addr, worker) password q c =
      elim (Expected-cases (decode (λ x. some (env.sha256 x)) addr)) [
        | inl (d, e) ↦ check_worker-IsChecked _ q e (rw (check_address, e) at c)
        | inr (x, e) ↦ absurd (denied_waits (rw (check_address, e) at c))
      ]
    where
      denied_waits : ◌≡◌ {A = Checks D} (denied (codes "invalid address: ")) (waits q) → ⊥
      denied_waits e = cc

  check_names-IsChecked :
      (s : Session D) (given : Text × List J) (q : Pending D)
      → check_names env json b s given ≡ waits q
      → IsChecked q
  unfolding check_names
  check_names-IsChecked s (full, more) q c =
      elim (Bool-cases
        (ltb 128 (length (split_worker full).0) || ltb 64 (length (split_worker full).1))) [
          | inl long ↦ absurd (denied_waits (rw (check_names, long) at c))
          | inr short ↦
              check_address-IsChecked s (split_worker full) (password_of env json more) q
                (rw (check_names, short) at c)
        ]
    where
      denied_waits : ◌≡◌ {A = Checks D} (denied (codes "name too long")) (waits q) → ⊥
      denied_waits e = cc

  pub check_authorize-IsChecked :
      (s : Session D) (params : Option J) (q : Pending D)
      → check_authorize env json b s params ≡ waits q
      → IsChecked q
  unfolding check_authorize
  check_authorize-IsChecked s params q c = elim (Option-cases (first_text env json params)) [
    | inl missing ↦ absurd (denied_waits (rw (check_authorize, missing) at c))
    | inr (given, found) ↦ check_names-IsChecked s given q (rw (check_authorize, found) at c)
  ]
    where
      denied_waits : ◌≡◌ {A = Checks D} (denied (codes "missing worker name")) (waits q) → ⊥
      denied_waits e = cc
