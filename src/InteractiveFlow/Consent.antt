-- ===== src/InteractiveFlow/Consent.antt =====
-- What a session has called, whatever its caller does.
use sec_app.Base.{
  ℕ, Bool, true, false, not, ◌&&◌, String, Option, none, some, List, [], ◌∷◌, ◌++◌, ◌≡◌, ◌≢◌, ◌⊎◌,
  refl, sym, ap, ◌∙◌, inl, inr, arith, is_some, if◌then◌else◌, Bool-cases,
}
use sec_app.InteractiveFlow.{
  preparing, awaiting_confirmation, running, Message, cancelled_note, uac_note, offer, preparation,
  report_text, cleaned_note, cleanup_warning, failure_warning, directory_warning, Effect, phase,
  stdout, stderr, stderr, prepare, prompt, run, report, Build, Reading, World, Session, Step, threw,
  done, Async, from_reply, return, ◌>>=◌, ◌>>◌, is_confirmed, perform, warn, ask, discard_prepared,
  start_run, set_build, cancelled, concluded, confirmed, attempt, recover,
  run_defender_check_session, opened, caught, dropped,
}
use sec_app.InteractiveFlow.Sound.{
  next-Prepared, Post, is_run, is_discard, count-append, runs, whole-IsBefore, Prepared, Consented,
  next-Consented, Sound, Fresh, Started, Discarding, Triple, in_turn, Fresh-Sound, Started-Sound,
  Discarding-Sound, performed, next-Fresh, call-Fresh, call-Started, call-Discarding, and_call,
  and_ask, discard_prepared-Discarding,
}

module _ (world : World) where
  -- How a session ends whose body did not throw.
  pub Ended : ℕ → Session → Type 0
  Ended code s =
      Sound world s × (((code ≡ 3) × (runs s ≡ 0)) ⊎ ((code ≢ 3) × (s.run_started ≡ true)))

  cancelled-Ended : Triple world (Fresh world) (cancelled world) Ended
  unfolding cancelled Ended
  cancelled-Ended =
      in_turn world (Fresh world) (discard_prepared world >> perform world (stdout cancelled_note))
        (λ _. Discarding world 1) (λ _. return 3) Ended
        (and_call world (Fresh world) (discard_prepared world) (Discarding world 1)
          (Discarding world 1) (stdout cancelled_note) (discard_prepared-Discarding world)
          (call-Discarding world 1 (stdout cancelled_note) (omega arith) refl))
        (λ _ s f. (Discarding-Sound world 1 (omega arith) s f, inl (refl, f.no_runs)))

  given-Ended : (code : ℕ) → code ≢ 3 → (s : Session) → Started world 1 s → Ended code s
  unfolding Ended
  given-Ended code other s f = (Started-Sound world 1 (omega arith) s f, inr (other, f.started))

  warned-Started :
      (text : Message) → Triple world (Started world 1) (warn world text) (λ _. Started world 1)
  warned-Started text s f = record {
    few = omega (arith, count-append is_run s.calls (stderr text), f.few);
    no_discards = ground (arith, count-append is_discard s.calls (stderr text), f.no_discards);
    started = f.started;
    consent = next-Consented world s.calls (stderr text) f.consent;
  }

  concluded-Ended : (r : Reading) → Triple world (Started world 1) (concluded world r) Ended
  concluded-Ended r s f = elim (Bool-cases r.data_files_removed) [
    | inr e ↦ rw e (given-Ended 1 (λ h. ground arith) _ (warned-Started cleanup_warning s f))
    | inl e ↦ rw e (
        (in_turn world) (Started world 1) (perform world (stdout cleaned_note))
          (λ _. Started world 1) (λ _. return (if r.is_tested then 0 else 2)) Ended
          (call-Started world 1 (stdout cleaned_note) (omega arith) refl)
          (λ _ s f. given-Ended (if r.is_tested then 0 else 2) (not_three r.is_tested) s f) s f)
  ]
    where
      not_three : (b : Bool) → ◌≢◌ {A = ℕ} (if b then 0 else 2) 3
      not_three true = λ h. ground arith
      not_three false = λ h. ground arith

  -- A session that may start the run.
  abbrev Agreed : Session → Type 0
  Agreed s = Fresh world s × Consented world s.calls

  started : Triple world Agreed (start_run world) (λ _. Started world 0)
  started s (f, consent) = record {
    few = omega (arith, f.no_runs);
    no_discards = f.no_discards;
    started = refl;
    consent = consent;
  }

  -- A reply that is there.
  given :
      {S : Type 0} (Q : Session → Type 0)
      → ((s : Session) → Q s → Sound world s)
      → (f : List Effect → Option S) (o : Option S)
      → Triple world (λ s. Q s × (o ≡ f s.calls)) (from_reply o) (λ x s. Q s × (f s.calls ≡ some x))
  given Q weak f none s (q, e) = weak s q
  given Q weak f (some x) s (q, e) = (q, sym e)

  confirmed-Ended : Triple world Agreed (confirmed world) Ended
  unfolding confirmed
  confirmed-Ended =
      let one = Started-Sound world 1 (omega arith) in
      let asked : Async (Option Reading) =
        start_run world
        >> perform world (phase running)
        >> perform world (stdout uac_note)
        >> ask world run world.ran in
      (in_turn world) Agreed (asked >>= from_reply)
        (λ r s. Started world 1 s × (world.ran s.calls ≡ some r))
        (λ r. (perform world report >> perform world (stdout report_text) >> concluded world r))
        Ended
        (in_turn world Agreed asked (λ o s. Started world 1 s × (o ≡ world.ran s.calls)) from_reply
          (λ r s. Started world 1 s × (world.ran s.calls ≡ some r))
          (and_ask world Agreed
            (start_run world >> perform world (phase running) >> perform world (stdout uac_note))
            (Started world 0) (Started world 1) run world.ran
            (and_call world Agreed (start_run world >> perform world (phase running))
              (Started world 0) (Started world 0) (stdout uac_note)
              (and_call world Agreed (start_run world) (Started world 0) (Started world 0)
                (phase running) started (call-Started world 0 (phase running) (omega arith) refl))
              (call-Started world 0 (stdout uac_note) (omega arith) refl))
            (call-Started world 0 run (omega arith) refl))
          (given (Started world 1) one world.ran))
        (λ r s (f, _).
          (in_turn world) (Started world 1)
            (perform world report >> perform world (stdout report_text)) (λ _. Started world 1)
            (λ _. concluded world r) Ended
            (and_call world (Started world 1) (perform world report) (Started world 1)
              (Started world 1) (stdout report_text)
              (call-Started world 1 report (omega arith) refl)
              (call-Started world 1 (stdout report_text) (omega arith) refl))
            (λ _. concluded-Ended r) s f)

  -- A session whose build is prepared.
  abbrev Ready : Build → Session → Type 0
  Ready b s = Fresh world s × Prepared world b s.calls

  call-Ready :
      (b : Build) (e : Effect)
      → is_run e ≡ false
      → is_discard e ≡ false
      → Triple world (Ready b) (perform world e) (λ _. Ready b)
  call-Ready b e no_run no_discard =
      performed world (Ready b) (Ready b) e
        (λ s (f, prepared).
          (next-Fresh world e no_run no_discard s f, next-Prepared world b s.calls e prepared))
        (λ s (f, _). Fresh-Sound world s f)

  answered-Ended :
      (b : Build) (answer : Option String)
      → Triple world
          (λ s. Ready b s × (answer ≡ world.answered s.calls))
          (if is_confirmed b answer then confirmed world else cancelled world)
          Ended
  answered-Ended b answer s ((f, prepared), told) = elim (Bool-cases (is_confirmed b answer)) [
    | inl agreed ↦ rw agreed (
        confirmed-Ended s (
          f,
          record {
            build = b;
            answered_by = s.calls;
            heard = whole-IsBefore s.calls;
            prepared = prepared;
            answered = ap (is_confirmed b) (sym told) ∙ agreed;
          },
        ))
    | inr other ↦ rw other (cancelled-Ended s f)
  ]

  built : (b : Build) → Triple world (Ready b) (set_build world b) (λ _. Ready b)
  built b s (f, prepared) = (
    record {
      no_runs = f.no_runs;
      no_discards = f.no_discards;
      unstarted = f.unstarted;
      unattempted = f.unattempted;
    },
    prepared,
  )

  offered-Ended :
      (b : Build)
      → Triple world
          (Ready b)
          (set_build world b
            >> perform world (phase awaiting_confirmation)
            >> perform world (stdout offer)
            >> ask world prompt world.answered
            >>= λ answer. (if is_confirmed b answer then confirmed world else cancelled world))
          Ended
  offered-Ended b =
      in_turn world (Ready b)
        (set_build world b
          >> perform world (phase awaiting_confirmation)
          >> perform world (stdout offer)
          >> ask world prompt world.answered)
        (λ answer s. Ready b s × (answer ≡ world.answered s.calls))
        (λ answer. if is_confirmed b answer then confirmed world else cancelled world) Ended
        (and_ask world (Ready b)
          (set_build world b
            >> perform world (phase awaiting_confirmation)
            >> perform world (stdout offer))
          (Ready b) (Ready b) prompt world.answered
          (and_call world (Ready b)
            (set_build world b >> perform world (phase awaiting_confirmation)) (Ready b) (Ready b)
            (stdout offer)
            (and_call world (Ready b) (set_build world b) (Ready b) (Ready b)
              (phase awaiting_confirmation) (built b)
              (call-Ready b (phase awaiting_confirmation) refl refl))
            (call-Ready b (stdout offer) refl refl))
          (call-Ready b prompt refl refl))
        (answered-Ended b)

  attempt-Ended : Triple world (Fresh world) (attempt world) Ended
  unfolding attempt
  attempt-Ended =
      let asked : Async (Option Build) =
        perform world (phase preparing)
        >> perform world (stdout preparation)
        >> ask world prepare world.prepared in
      (in_turn world) (Fresh world) (asked >>= from_reply)
        (λ b s. Fresh world s × (world.prepared s.calls ≡ some b))
        (λ b.
          (set_build world b
            >> perform world (phase awaiting_confirmation)
            >> perform world (stdout offer)
            >> ask world prompt world.answered
            >>= λ answer. (if is_confirmed b answer then confirmed world else cancelled world)))
        Ended
        (in_turn world (Fresh world) asked (λ o s. Fresh world s × (o ≡ world.prepared s.calls))
          from_reply (λ b s. Fresh world s × (world.prepared s.calls ≡ some b))
          (and_ask world (Fresh world)
            (perform world (phase preparing) >> perform world (stdout preparation)) (Fresh world)
            (Fresh world) prepare world.prepared
            (and_call world (Fresh world) (perform world (phase preparing)) (Fresh world)
              (Fresh world) (stdout preparation) (call-Fresh world (phase preparing) refl refl)
              (call-Fresh world (stdout preparation) refl refl))
            (call-Fresh world prepare refl refl))
          (given (Fresh world) (Fresh-Sound world) world.prepared))
        (λ b s (f, e). offered-Ended b s (f, (s.calls, whole-IsBefore s.calls, e)))

  warned-Sound :
      (text : Message) (s : Session)
      → Sound world s
      → Sound world (record s { calls = s.calls ++ stderr text ∷ [] })
  warned-Sound text s w = record {
    run_once = omega (arith, count-append is_run s.calls (stderr text), w.run_once);
    discard_once = omega (arith, count-append is_discard s.calls (stderr text), w.discard_once);
    unstarted = λ e. omega (arith, count-append is_run s.calls (stderr text), w.unstarted e);
    undiscarded =
        λ e. omega (arith, count-append is_discard s.calls (stderr text), w.undiscarded e);
    kept = λ e. omega (arith, count-append is_discard s.calls (stderr text), w.kept e);
    consented = λ e. next-Consented world s.calls (stderr text) (w.consented e);
  }

  dropped-Sound :
      (r : Step (Unit {0}) × Session)
      → Post world (λ _. Discarding world 1) r
      → Sound world (dropped world r).1
  dropped-Sound (threw, s) h = h
  dropped-Sound (done x, s) h = Discarding-Sound world 1 (omega arith) s h

  -- The session ends with an exit code, and never throws.
  pub Closed : Step ℕ × Session → Type 0
  Closed (threw, s) = ⊥
  Closed (done code, s) = ((code ≡ 1) × Sound world s) ⊎ Ended code s

  may_discard :
      (s : Session)
      → Sound world s
      → (is_some s.build && not s.run_started && not s.discard_attempted) ≡ true
      → Fresh world s
  may_discard s w e =
      let unstarted : s.run_started ≡ false = ground (arith, e) in
      let unattempted : s.discard_attempted ≡ false = ground (arith, e) in
      record {
        no_runs = w.unstarted unstarted;
        no_discards = w.undiscarded unattempted;
        unstarted = unstarted;
        unattempted = unattempted;
      }

  warned-Closed :
      (s : Session)
      → Sound world s
      → Closed ((warn world failure_warning >> warn world directory_warning >> return 1) s)
  unfolding Closed
  warned-Closed s w =
      inl (refl, warned-Sound directory_warning _ (warned-Sound failure_warning s w))

  recover-Closed : (s : Session) → Sound world s → Closed (recover world s)
  unfolding recover
  recover-Closed s w =
      elim (Bool-cases (is_some s.build && not s.run_started && not s.discard_attempted)) [
        | inl e ↦ rw e (
            warned-Closed (dropped world (discard_prepared world s)).1 (
              dropped-Sound (discard_prepared world s)
                (discard_prepared-Discarding world s (may_discard s w e))))
        | inr e ↦ rw e (warned-Closed s w)
      ]

  caught-Closed : (r : Step ℕ × Session) → Post world Ended r → Closed (caught world r)
  unfolding Closed
  caught-Closed (threw, s) w = recover-Closed s w
  caught-Closed (done code, s) w = inr w

  -- Whatever the caller does, throws included, a session returns an exit code. It runs the backend
  -- at most once, only where a build was prepared and its confirmation answered earlier in the
  -- session, and never with a discard, and it discards at most once. Where the code is 3 it did not
  -- run the backend, and where it is neither 1 nor 3 the run was started.
  pub run_defender_check_session-Closed : Closed (run_defender_check_session world)
  unfolding run_defender_check_session
  run_defender_check_session-Closed = caught-Closed (attempt world (opened world)) (
      attempt-Ended (opened world)
        (record { no_runs = refl; no_discards = refl; unstarted = refl; unattempted = refl }))
