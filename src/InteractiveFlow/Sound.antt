-- ===== src/InteractiveFlow/Sound.antt =====
-- What the calls of a session keep, whatever its caller does.
use sec_app.Base.{
  ℕ, ◌+◌, ◌≤◌, Bool, true, false, some, List, [], ◌∷◌, ◌++◌, ◌≡◌, refl, ap, ◌∙◌, inl, inr, arith,
  if◌then◌else◌, Bool-cases,
}
use sec_app.InteractiveFlow.{
  discarding, discarded_note, Effect, phase, stdout, run, discard, Build, World, Session, Step,
  threw, done, Async, then_do, ◌>>=◌, ◌>>◌, is_confirmed, perform, ask, attempt_discard,
  discard_prepared,
}

abbrev pub is_run : Effect → Bool
is_run run = true
is_run _ = false

abbrev pub is_discard : Effect → Bool
is_discard discard = true
is_discard _ = false

-- How many calls are of a kind.
abbrev pub count : (Effect → Bool) → List Effect → ℕ
count f [] = 0
count f (e ∷ es) = (if f e then 1 else 0) + count f es

pub count-append :
    (f : Effect → Bool) (es : List Effect) (e : Effect)
    → count f (es ++ e ∷ []) ≡ count f es + (if f e then 1 else 0)
count-append f [] e = omega arith
count-append f (x ∷ es) e = omega (arith, count-append f es e)

abbrev pub runs : Session → ℕ
runs s = count is_run s.calls

abbrev pub discards : Session → ℕ
discards s = count is_discard s.calls

-- The calls of an earlier moment.
abbrev pub IsBefore : List Effect → List Effect → Type 0
IsBefore before calls = (rest : List Effect) × (before ++ rest ≡ calls)

pub whole-IsBefore : (calls : List Effect) → IsBefore calls calls
whole-IsBefore calls = ([], nothing calls)
  where
    nothing : (es : List Effect) → es ++ [] ≡ es
    nothing [] = refl
    nothing (e ∷ es) = ap (λ l. e ∷ l) (nothing es)

next-IsBefore :
    (before calls : List Effect) (e : Effect)
    → IsBefore before calls
    → IsBefore before (calls ++ e ∷ [])
next-IsBefore before calls e (rest, h) = (rest ++ e ∷ [], shift before ∙ ap (λ l. l ++ e ∷ []) h)
  where
    shift : (es : List Effect) → es ++ (rest ++ e ∷ []) ≡ (es ++ rest) ++ e ∷ []
    shift [] = refl
    shift (x ∷ es) = ap (λ l. x ∷ l) (shift es)

module _ (world : World) where
  -- `prepare` was answered by this build, at an earlier moment of the session.
  abbrev pub Prepared : Build → List Effect → Type 0
  Prepared b calls =
      (before : List Effect) × (IsBefore before calls) × (world.prepared before ≡ some b)

  -- The build was prepared, and `prompt` was answered by its confirmation, at earlier moments of the
  -- session.
  pub record Consented (calls : List Effect) : Type 0 where
    pub build : Build
    pub answered_by : List Effect
    pub heard : IsBefore answered_by calls
    pub prepared : Prepared build calls
    pub answered : is_confirmed build (world.answered answered_by) ≡ true

  pub next-Prepared :
      (b : Build) (calls : List Effect) (e : Effect)
      → Prepared b calls
      → Prepared b (calls ++ e ∷ [])
  next-Prepared b calls e (before, earlier, h) = (before, next-IsBefore before calls e earlier, h)

  pub next-Consented :
      (calls : List Effect) (e : Effect) → Consented calls → Consented (calls ++ e ∷ [])
  next-Consented calls e c = record {
    build = c.build;
    answered_by = c.answered_by;
    heard = next-IsBefore c.answered_by calls e c.heard;
    prepared = next-Prepared c.build calls e c.prepared;
    answered = c.answered;
  }

  -- The backend was run at most once, only after consent, and then without a discard; the prepared
  -- data was discarded at most once.
  pub record Sound (s : Session) : Type 0 where
    pub run_once : runs s ≤ 1
    pub discard_once : discards s ≤ 1
    pub unstarted : s.run_started ≡ false → runs s ≡ 0
    pub undiscarded : s.discard_attempted ≡ false → discards s ≡ 0
    pub kept : s.run_started ≡ true → discards s ≡ 0
    pub consented : s.run_started ≡ true → Consented s.calls

  -- Neither a run nor a discard yet.
  pub record Fresh (s : Session) : Type 0 where
    pub no_runs : runs s ≡ 0
    pub no_discards : discards s ≡ 0
    pub unstarted : s.run_started ≡ false
    pub unattempted : s.discard_attempted ≡ false

  -- The backend may be run: it was run at most `k` times.
  pub record Started (k : ℕ) (s : Session) : Type 0 where
    pub few : runs s ≤ k
    pub no_discards : discards s ≡ 0
    pub started : s.run_started ≡ true
    pub consent : Consented s.calls

  -- The prepared data is being discarded: it was discarded at most `k` times.
  pub record Discarding (k : ℕ) (s : Session) : Type 0 where
    pub no_runs : runs s ≡ 0
    pub few : discards s ≤ k
    pub unstarted : s.run_started ≡ false
    pub attempted : s.discard_attempted ≡ true

  abbrev pub Post : {S : Type 0} → (S → Session → Type 0) → Step S × Session → Type 0
  Post Q (threw, s) = Sound s
  Post Q (done x, s) = Q x s

  abbrev pub Triple : {S : Type 0} → (Session → Type 0) → Async S → (S → Session → Type 0) → Type 0
  Triple P m Q = (s : Session) → P s → Post Q (m s)

  chained :
      {S T : Type 0} (Q : S → Session → Type 0) (U : T → Session → Type 0) (next : S → Async T)
      (r : Step S × Session)
      → Post Q r
      → ((x : S) → Triple (Q x) (next x) U)
      → Post U (then_do next r)
  chained Q U next (threw, s) h k = h
  chained Q U next (done x, s) h k = k x s h

  pub in_turn :
      {S T : Type 0} (P : Session → Type 0) (m : Async S) (Q : S → Session → Type 0)
      (next : S → Async T) (U : T → Session → Type 0)
      → Triple P m Q
      → ((x : S) → Triple (Q x) (next x) U)
      → Triple P (m >>= next) U
  in_turn P m Q next U h k s p = chained Q U next (m s) (h s p) k

  pub Fresh-Sound : (s : Session) → Fresh s → Sound s
  Fresh-Sound s f = record {
    run_once = omega (arith, f.no_runs);
    discard_once = omega (arith, f.no_discards);
    unstarted = λ _. f.no_runs;
    undiscarded = λ _. f.no_discards;
    kept = λ e. ground (arith, f.unstarted, e);
    consented = λ e. ground (arith, f.unstarted, e);
  }

  pub Started-Sound : (k : ℕ) → k ≤ 1 → (s : Session) → Started k s → Sound s
  Started-Sound k small s f = record {
    run_once = omega (arith, f.few, small);
    discard_once = omega (arith, f.no_discards);
    unstarted = λ e. ground (arith, f.started, e);
    undiscarded = λ _. f.no_discards;
    kept = λ _. f.no_discards;
    consented = λ _. f.consent;
  }

  pub Discarding-Sound : (k : ℕ) → k ≤ 1 → (s : Session) → Discarding k s → Sound s
  Discarding-Sound k small s f = record {
    run_once = omega (arith, f.no_runs);
    discard_once = omega (arith, f.few, small);
    unstarted = λ _. f.no_runs;
    undiscarded = λ e. ground (arith, f.attempted, e);
    kept = λ e. ground (arith, f.unstarted, e);
    consented = λ e. ground (arith, f.unstarted, e);
  }

  pub performed :
      (P Q : Session → Type 0) (e : Effect)
      → ((s : Session) → P s → Q (record s { calls = s.calls ++ e ∷ [] }))
      → ((s : Session) → Q s → Sound s)
      → Triple P (perform world e) (λ _. Q)
  performed P Q e grown weak s p = elim (Bool-cases (world.throws (s.calls ++ e ∷ []))) [
    | inl b ↦ rw b (weak _ (grown s p))
    | inr b ↦ rw b (grown s p)
  ]

  pub next-Fresh :
      (e : Effect)
      → is_run e ≡ false
      → is_discard e ≡ false
      → (s : Session) → Fresh s
      → Fresh (record s { calls = s.calls ++ e ∷ [] })
  next-Fresh e a b s f = record {
    no_runs = ground (arith, count-append is_run s.calls e, f.no_runs, a);
    no_discards = ground (arith, count-append is_discard s.calls e, f.no_discards, b);
    unstarted = f.unstarted;
    unattempted = f.unattempted;
  }

  pub call-Fresh :
      (e : Effect)
      → is_run e ≡ false
      → is_discard e ≡ false
      → Triple Fresh (perform world e) (λ _. Fresh)
  call-Fresh e a b = performed Fresh Fresh e (next-Fresh e a b) Fresh-Sound

  pub call-Started :
      (k : ℕ) (e : Effect)
      → k + (if is_run e then 1 else 0) ≤ 1
      → is_discard e ≡ false
      → Triple (Started k) (perform world e) (λ _. Started (k + (if is_run e then 1 else 0)))
  call-Started k e a b =
      performed (Started k) (Started (k + (if is_run e then 1 else 0))) e
        (λ s f. record {
          few = omega (arith, count-append is_run s.calls e, f.few);
          no_discards = ground (arith, count-append is_discard s.calls e, f.no_discards, b);
          started = f.started;
          consent = next-Consented s.calls e f.consent;
        })
        (Started-Sound (k + (if is_run e then 1 else 0)) a)

  pub call-Discarding :
      (k : ℕ) (e : Effect)
      → k + (if is_discard e then 1 else 0) ≤ 1
      → is_run e ≡ false
      → Triple
          (Discarding k)
          (perform world e)
          (λ _. Discarding (k + (if is_discard e then 1 else 0)))
  call-Discarding k e a b =
      performed (Discarding k) (Discarding (k + (if is_discard e then 1 else 0))) e
        (λ s f. record {
          no_runs = ground (arith, count-append is_run s.calls e, f.no_runs, b);
          few = omega (arith, count-append is_discard s.calls e, f.few);
          unstarted = f.unstarted;
          attempted = f.attempted;
        })
        (Discarding-Sound (k + (if is_discard e then 1 else 0)) a)

  -- The reply of a call that went through.
  replied :
      {S : Type 0} (P Q : Session → Type 0) (e : Effect) (reply : List Effect → S)
      → Triple P (perform world e) (λ _. Q)
      → Triple P (ask world e reply) (λ x s. Q s × (x ≡ reply s.calls))
  replied P Q e reply h =
      in_turn P (perform world e) (λ _. Q) (λ _ s. (done (reply s.calls), s)) _ h
        (λ _ s q. (q, refl))

  attempted-Discarding : Triple Fresh (attempt_discard world) (λ _. Discarding 0)
  attempted-Discarding s f = record {
    no_runs = f.no_runs;
    few = omega (arith, f.no_discards);
    unstarted = f.unstarted;
    attempted = refl;
  }

  noted-Discarding :
      (is_accepted : Bool)
      → Triple
          (λ s. Discarding 1 s × (is_accepted ≡ world.discard_accepted s.calls))
          (if is_accepted then perform world (stdout discarded_note) else λ s. (threw, s))
          (λ _. Discarding 1)
  noted-Discarding true s (f, _) = call-Discarding 1 (stdout discarded_note) (omega arith) refl s f
  noted-Discarding false s (f, _) = Discarding-Sound 1 (omega arith) s f

  pub and_call :
      (P : Session → Type 0) (m : Async (Unit {0})) (Q U : Session → Type 0) (e : Effect)
      → Triple P m (λ _. Q)
      → Triple Q (perform world e) (λ _. U)
      → Triple P (m >> perform world e) (λ _. U)
  and_call P m Q U e h k = in_turn P m (λ _. Q) (λ _. perform world e) (λ _. U) h (λ _. k)

  pub and_ask :
      {S : Type 0} (P : Session → Type 0) (m : Async (Unit {0})) (Q U : Session → Type 0)
      (e : Effect) (reply : List Effect → S)
      → Triple P m (λ _. Q)
      → Triple Q (perform world e) (λ _. U)
      → Triple P (m >> ask world e reply) (λ x s. U s × (x ≡ reply s.calls))
  and_ask P m Q U e reply h k =
      in_turn P m (λ _. Q) (λ _. ask world e reply) (λ x s. U s × (x ≡ reply s.calls)) h
        (λ _. replied Q U e reply k)

  pub discard_prepared-Discarding : Triple Fresh (discard_prepared world) (λ _. Discarding 1)
  unfolding discard_prepared
  discard_prepared-Discarding =
      in_turn Fresh
        (attempt_discard world
          >> perform world (phase discarding)
          >> ask world discard world.discard_accepted)
        (λ is_accepted s. Discarding 1 s × (is_accepted ≡ world.discard_accepted s.calls))
        (λ is_accepted.
          if is_accepted then perform world (stdout discarded_note) else λ s. (threw, s))
        (λ _. Discarding 1)
        (and_ask Fresh (attempt_discard world >> perform world (phase discarding)) (Discarding 0)
          (Discarding 1) discard world.discard_accepted
          (and_call Fresh (attempt_discard world) (Discarding 0) (Discarding 0) (phase discarding)
            attempted-Discarding (call-Discarding 0 (phase discarding) (omega arith) refl))
          (call-Discarding 0 discard (omega arith) refl))
        noted-Discarding
