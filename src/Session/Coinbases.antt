-- ===== src/Session/Coinbases.antt =====
-- The coinbase that a miner is told against the one that `handle_submit` rebuilds.
use yumtech_umbrel_apps.Prelude.{
  ◌-◌, ◌≤◌, ◌≡◌, refl, sym, ap, ap₂, ◌∙◌, inl, inr, Bool, true, false, ◌&&◌, ◌||◌, not, [], ◌∷◌,
  ◌++◌, Option, none, some, Bool-cases, Option-cases, if◌then◌else◌, subst, length, take, drop, ltb,
  le→ltb, length-take, drop-length_append, arith,
}
use yumtech_umbrel_apps.Prelude.Texts.{Text, text_eq_refl}
use yumtech_umbrel_apps.Hex.Reading.{some_inj}
use yumtech_umbrel_apps.Block.{rebuild_coinbase, compute_coinbase_txid_le}
use yumtech_umbrel_apps.Merkle.{compute_root_le_hex}
use yumtech_umbrel_apps.RateLimiter.Maps.{Map, lookup, lookup-insert}
use yumtech_umbrel_apps.Stratifier.{MiningJob}
use yumtech_umbrel_apps.Session.{Outside, Session, SessionAuxJob, World, notify, is_zcash, emit}
use yumtech_umbrel_apps.Session.Coinbase.{is_empty, build_session_aux}
use yumtech_umbrel_apps.Session.Payouts.{build_session_coinbase2}
use yumtech_umbrel_apps.Session.Notify.{
  notify_open, insert_bounded, splice, emit_job, emit_job_custom, notify_aux, notify_with,
  notify_new_job,
}
use yumtech_umbrel_apps.Session.Submit.{Fields, active_coinbase1, coinbase_and_root}

splice-long : (c m : Text) → 88 ≤ length c → splice c m ≡ take (length c - 88) c ++ m
unfolding splice
splice-long c m h = rw (le→ltb (length c) 88 h) refl

-- A text that a splice does not change ends in what is spliced in.
splice-drop : (c m : Text) → 88 ≤ length c → splice c m ≡ c → drop (length c - 88) c ≡ m
splice-drop c m h e =
    let n = length c - 88 in
    let t = take n c in
    let long : length t ≡ n = omega (arith, length-take n c) in
    ap (drop n) (sym e ∙ splice-long c m h)
    ∙ ap (λ k. drop k (t ++ m)) (sym long)
    ∙ drop-length_append t m

module _ {D : Type 0} (env : Outside D) where
  -- The coinbase that a miner makes of a notification, the session's first extranonce and its own.
  abbrev pub mined : Session D → Fields → Text → Text → Text
  mined s f cb1 cb2 = rebuild_coinbase cb1 cb2 (s.extranonce1 ++ f.nonce2)

  -- The session has sent the job, in these two parts, as its latest effect.
  abbrev pub Told : World D → World D → MiningJob D → Text → Text → Type 0
  Told w w' job cb1 cb2 =
      (clean : Bool) × (w'.effects ≡ w.effects ++ (notify job.job_id cb1 cb2 clean ∷ []))

  rebuilt :
      (s : Session D) (job : MiningJob D) (f : Fields) (cb root : Text)
      → is_zcash s.coin.chain ≡ false
      → coinbase_and_root env s job f ≡ some (cb, root)
      → cb
        ≡ mined s f
            (active_coinbase1 env s job f.job_id)
            (build_session_coinbase2 env s.coin.chain job s.worker_script_hex)
  unfolding coinbase_and_root
  rebuilt s job f cb root z e =
      let c =
        mined s f (active_coinbase1 env s job f.job_id)
          (build_session_coinbase2 env s.coin.chain job s.worker_script_hex) in
      elim (Option-cases (compute_coinbase_txid_le env.sha256 c)) [
        | inl none_made ↦ absurd (none_some (rw (z, none_made) at e))
        | inr (txid, made) ↦
            elim (Option-cases (compute_root_le_hex env.sha256 txid job.merkle_branch_le)) [
              | inl none_made ↦ absurd (none_some (rw (z, made, none_made) at e))
              | inr (r, rooted) ↦ sym (ap (λ p. p.0) (some_inj _ _ (rw (z, made, rooted) at e)))
            ]
      ]
    where
      none_some : ◌≡◌ {A = Option (Text × Text)} none (some (cb, root)) → ⊥
      none_some e = cc

  -- Without merge-mined work the first part is the job's.
  plain :
      (s : Session D) (job : MiningJob D) (id : Text)
      → lookup id s.session_aux_jobs ≡ none
      → active_coinbase1 env s job id ≡ job.coinbase1
  unfolding active_coinbase1
  plain s job id absent = elim (Bool-cases (is_empty s.aux_doge_address)) [
    | inl e ↦ rw e refl
    | inr e ↦ rw (e, absent) refl
  ]

  with_work :
      (s : Session D) (job : MiningJob D) (id : Text) (a : SessionAuxJob)
      → is_empty s.aux_doge_address ≡ false
      → lookup id s.session_aux_jobs ≡ some a
      → active_coinbase1 env s job id ≡ splice job.coinbase1 a.aux_commit
  unfolding active_coinbase1
  with_work s job id a e found = rw (e, found) refl

  -- What a miner is told is what is rebuilt.
  abbrev pub Agrees : World D → World D → MiningJob D → Fields → Type 0
  Agrees w w' job f =
      (cb root : Text)
      → coinbase_and_root env w'.session job f ≡ some (cb, root)
      → (cb1 : Text) × (cb2 : Text) × Told w w' job cb1 cb2 × (cb ≡ mined w'.session f cb1 cb2)

  emit-Agrees :
      (w v : World D) (job : MiningJob D) (f : Fields) (cb1 : Text) (clean : Bool)
      → v.effects ≡ w.effects
      → is_zcash v.session.coin.chain ≡ false
      → f.job_id ≡ job.job_id
      → active_coinbase1 env v.session job job.job_id ≡ cb1
      → Agrees w
          (emit
            (notify job.job_id cb1
              (build_session_coinbase2 env v.session.coin.chain job v.session.worker_script_hex)
              clean)
            v)
          job
          f
  emit-Agrees w v job f cb1 clean same z id active cb root e =
      let cb2 = build_session_coinbase2 env v.session.coin.chain job v.session.worker_script_hex in
      (
        cb1,
        cb2,
        (clean, ap (λ es. es ++ (notify job.job_id cb1 cb2 clean ∷ [])) same),
        rebuilt v.session job f cb root z e
            ∙ ap (λ c. mined v.session f c cb2)
                (ap (active_coinbase1 env v.session job) id ∙ active),
      )

  emit_job-sends :
      (job : MiningJob D) (force : Bool) (w : World D)
      → is_zcash w.session.coin.chain ≡ false
      → emit_job env job force w
        ≡ emit
            (notify job.job_id job.coinbase1
              (build_session_coinbase2 env w.session.coin.chain job w.session.worker_script_hex)
              (job.clean_jobs || force))
            w
  unfolding emit_job
  emit_job-sends job force w z = rw z refl

  emit_job-Agrees :
      (job : MiningJob D) (force : Bool) (w : World D) (f : Fields)
      → is_zcash w.session.coin.chain ≡ false
      → lookup job.job_id w.session.session_aux_jobs ≡ none
      → f.job_id ≡ job.job_id
      → Agrees w (emit_job env job force w) job f
  emit_job-Agrees job force w f z absent id =
      subst (λ u. Agrees w u job f) (sym (emit_job-sends job force w z))
        (emit-Agrees w w job f job.coinbase1 (job.clean_jobs || force) refl z id
          (plain w.session job job.job_id absent))

  lookup-insert_bounded :
      (k : Text) (a : SessionAuxJob) (m : Map SessionAuxJob)
      → lookup k (insert_bounded k a m) ≡ some a
  unfolding insert_bounded
  lookup-insert_bounded k a m =
      lookup-insert k k a (if ltb 256 (length m) then [] else m)
      ∙ ap (λ b. if b then some a else lookup k (if ltb 256 (length m) then [] else m))
          (text_eq_refl k)

  notify_aux-Agrees :
      (job : MiningJob D) (a : SessionAuxJob) (w : World D) (f : Fields)
      → is_zcash w.session.coin.chain ≡ false
      → is_empty w.session.aux_doge_address ≡ false
      → f.job_id ≡ job.job_id
      → Agrees w (notify_aux env job a w) job f
  unfolding notify_aux emit_job_custom
  notify_aux-Agrees job a w f z address id =
      let m = insert_bounded job.job_id a w.session.session_aux_jobs in
      let v = record w { session = record w.session { session_aux_jobs = m } } in
      emit-Agrees w v job f (splice job.coinbase1 a.aux_commit) job.clean_jobs refl z id (
        with_work v.session job job.job_id a address
          (lookup-insert_bounded job.job_id a w.session.session_aux_jobs))

  notify_with-Agrees :
      (job : MiningJob D) (o : Option SessionAuxJob) (w : World D) (f : Fields)
      → is_zcash w.session.coin.chain ≡ false
      → lookup job.job_id w.session.session_aux_jobs ≡ none
      → is_empty w.session.aux_doge_address ≡ false
      → f.job_id ≡ job.job_id
      → Agrees w (notify_with env job o w) job f
  unfolding notify_with
  notify_with-Agrees job none w f z absent address id = emit_job-Agrees job false w f z absent id
  notify_with-Agrees job (some a) w f z absent address id = notify_aux-Agrees job a w f z address id

  notify_open-Agrees :
      (merge : Bool) (job : MiningJob D) (w w' : World D) (f : Fields)
      → is_zcash w.session.coin.chain ≡ false
      → lookup job.job_id w.session.session_aux_jobs ≡ none
      → (merge ≡ true → is_empty w.session.aux_doge_address ≡ false)
      → notify_open env merge job w ≡ some w'
      → f.job_id ≡ job.job_id
      → Agrees w w' job f
  unfolding notify_open
  notify_open-Agrees false job w w' f z absent merged e id =
      subst (λ u. Agrees w u job f) (some_inj _ _ e) (emit_job-Agrees job false w f z absent id)
  notify_open-Agrees true job w w' f z absent merged e id =
      elim (Option-cases (build_session_aux env w.session job)) [
        | inl none_made ↦ absurd (none_some w' (rw none_made at e))
        | inr (o, made) ↦
            subst (λ u. Agrees w u job f) (some_inj _ _ (rw made at e))
              (notify_with-Agrees job o w f z absent (merged refl) id)
      ]
    where
      none_some : (u : World D) → ◌≡◌ {A = Option (World D)} none (some u) → ⊥
      none_some u e = cc

  merges : (enabled empty client : Bool) → (enabled && (not empty && client)) ≡ true → empty ≡ false
  merges true true client e = cc
  merges false empty client e = cc
  merges true false client e = refl

  -- When a session that is subscribed and open, and not of Zcash, is notified of a job that is new to
  -- it, then the coinbase that a submit for the job rebuilds afterwards is the one that a miner makes
  -- of the two parts that the notification has.
  pub notify_new_job-Agrees :
      (job : MiningJob D) (w w' : World D) (f : Fields) (cb root : Text)
      → is_zcash w.session.coin.chain ≡ false
      → w.session.subscribed ≡ true
      → w.session.closed ≡ false
      → lookup job.job_id w.session.session_aux_jobs ≡ none
      → notify_new_job env job w ≡ some w'
      → f.job_id ≡ job.job_id
      → coinbase_and_root env w'.session job f ≡ some (cb, root)
      → (cb1 : Text) × (cb2 : Text) × Told w w' job cb1 cb2 × (cb ≡ mined w'.session f cb1 cb2)
  unfolding notify_new_job
  notify_new_job-Agrees job w w' f cb root z sub open' absent e id made =
      notify_open-Agrees
        (job.aux_enabled && (not (is_empty w.session.aux_doge_address) && w.session.has_aux_client))
        job w w' f z absent
        (merges job.aux_enabled (is_empty w.session.aux_doge_address) w.session.has_aux_client)
        (rw (ap₂ (λ a b. not a || b) sub open') at e) id cb root made

  -- In a session that merge-mines, of a chain that is not Zcash, a job that is sent again is sent with
  -- the coinbase of the job, and that is another one than `handle_submit` rebuilds, unless it ends in
  -- the session's commitment by itself.
  pub emit_job-unspliced :
      (job : MiningJob D) (force : Bool) (w : World D) (a : SessionAuxJob)
      → is_zcash w.session.coin.chain ≡ false
      → is_empty w.session.aux_doge_address ≡ false
      → lookup job.job_id w.session.session_aux_jobs ≡ some a
      → 88 ≤ length job.coinbase1
      → ¬ drop (length job.coinbase1 - 88) job.coinbase1 ≡ a.aux_commit
      → ((cb2 : Text) × Told w (emit_job env job force w) job job.coinbase1 cb2)
        × ¬ active_coinbase1 env w.session job job.job_id ≡ job.coinbase1
  emit_job-unspliced job force w a z address found long other = (
    (
      build_session_coinbase2 env w.session.coin.chain job w.session.worker_script_hex,
      (job.clean_jobs || force, ap (λ u. u.effects) (emit_job-sends job force w z)),
    ),
    λ same. other (commit (sym (with_work w.session job job.job_id a address found) ∙ same)),
  )
    where
      commit :
          splice job.coinbase1 a.aux_commit ≡ job.coinbase1
          → drop (length job.coinbase1 - 88) job.coinbase1 ≡ a.aux_commit
      commit e = splice-drop job.coinbase1 a.aux_commit long e
