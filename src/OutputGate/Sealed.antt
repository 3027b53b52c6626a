-- ===== src/OutputGate/Sealed.antt =====
-- A gate that has failed stays failed, and holds no more than its limit.
use sec_app.Base.{
  ℕ, ◌-◌, ◌≤◌, ◌++◌, if◌then◌else◌, Bool, true, false, Option, none, some, List, [], ◌∷◌, ◌≡◌, ◌||◌,
  not, refl, inl, inr, arith, length, length-append, Option-cases, Bool-cases, ◌==◌, ltb,
}
use sec_app.OutputGate.{
  Code, already_completed, stdout_after_end, stdout_limit, stderr_after_end, stderr_present,
  stdout_duplicate_end, stderr_duplicate_end, exit_invalid, exit_nonzero, streams_incomplete,
  reject, Call, Gate, Reply, accepted, thrown, stdout, stderr, end_stdout, end_stderr, abort,
  complete, created, max_source_bytes, served, guarded, call, run, replies, deliver,
}

-- Each call of a list answered by one code.
abbrev pub all_thrown {ℓ} : {P : Type ℓ} → Code → List Call → List (Reply P)
all_thrown code [] = []
all_thrown code (c ∷ cs) = thrown code ∷ all_thrown code cs

-- The bytes held are within the storage, and there are none once the gate has failed or delivered.
pub record Bounded (g : Gate) : Type 0 where
  pub within : length g.held ≤ g.capacity
  pub capacity : g.capacity ≤ max_source_bytes
  pub failed : (code : Code) → g.first_failure ≡ some code → g.held ≡ []
  pub ended : g.completed ≡ true → g.held ≡ []

module _ {ℓ} {P : Type ℓ} (preview : List ℕ → Option P) where
  pub failed-call :
      (g : Gate) (c : Call) (code : Code)
      → g.first_failure ≡ some code
      → ((call preview g c).0.first_failure ≡ some code) × ((call preview g c).1 ≡ thrown code)
  unfolding call
  failed-call g c code e = rw e (refl, refl)

  thrown-served :
      (g : Gate) (c : Call) (code : Code)
      → (served preview g c).1 ≡ thrown code
      → g.first_failure ≡ none
      → (served preview g c).0.first_failure ≡ some code
  unfolding served
  thrown-served g (stdout none) code h e = ground arith
  thrown-served g (stdout (some b)) code h e = ground arith
  thrown-served g (stderr none) code h e = ground arith
  thrown-served g (stderr (some b)) code h e = ground arith
  thrown-served g end_stdout code h e = ground arith
  thrown-served g end_stderr code h e = ground arith
  thrown-served g (abort r) code h e = ground arith
  thrown-served g (complete none) code h e = ground arith
  thrown-served g (complete (some x)) code h e = elim (Option-cases (preview g.held)) [
    | inl seen ↦ ground (arith, seen)
    | inr (report, seen) ↦ ground (arith, seen)
  ]

  thrown-call :
      (g : Gate) (c : Call) (code : Code)
      → (call preview g c).1 ≡ thrown code
      → (call preview g c).0.first_failure ≡ some code
  unfolding call
  thrown-call g c code h = elim (Option-cases g.first_failure) [
    | inr (first, e) ↦ ground (arith, failed-call g c first e)
    | inl e ↦ elim (Bool-cases g.completed) [
      | inl over ↦ ground (arith, e, over)
      | inr on ↦ ground (arith, e, on, thrown-served g c code)
    ]
  ]

  failed-replies :
      (g : Gate) (cs : List Call) (code : Code)
      → g.first_failure ≡ some code
      → replies preview g cs ≡ all_thrown code cs
  unfolding replies
  failed-replies g [] code e = refl
  failed-replies g (c ∷ cs) code e =
      let (stays, told) = failed-call g c code e in
      cc (told, failed-replies (call preview g c).0 cs code stays)

  -- Once a call throws a code, every later call throws the same code, whatever it is.
  pub replies-Sealed :
      (g : Gate) (c : Call) (code : Code) (cs : List Call)
      → (call preview g c).1 ≡ thrown code
      → replies preview (call preview g c).0 cs ≡ all_thrown code cs
  replies-Sealed g c code cs h =
      failed-replies (call preview g c).0 cs code (thrown-call g c code h)

  cleared-Bounded :
      (x y z : Bool) (f : Option Code)
      → Bounded (record {
        capacity = 0;
        held = [];
        stdout_ended = x;
        stderr_ended = y;
        completed = z;
        first_failure = f;
      })
  cleared-Bounded x y z f = record {
    within = omega arith;
    capacity = omega arith;
    failed = λ code e. refl;
    ended = λ e. refl;
  }

  -- A check that clears the gate where it fails.
  checked-Bounded :
      (b : Bool) (g : Gate) (code : Code) (x : Gate × Reply P)
      → (b ≡ false → Bounded x.0)
      → Bounded (if b then reject preview g code else x).0
  checked-Bounded true g code x h = cleared-Bounded _ _ _ _
  checked-Bounded false g code x h = h refl

  deliver-Bounded : (g : Gate) (o : Option P) → Bounded (deliver preview g o).0
  deliver-Bounded g none = cleared-Bounded _ _ _ _
  deliver-Bounded g (some report) = cleared-Bounded _ _ _ _

  held-Bounded :
      (g : Gate) (b : List ℕ)
      → Bounded g
      → g.first_failure ≡ none
      → g.completed ≡ false
      → ltb (g.capacity - length g.held) (length b) ≡ false
      → Bounded (record g { held = g.held ++ b })
  held-Bounded g b w e on fits = record {
    within = ground (arith, length-append g.held b, w.within);
    capacity = w.capacity;
    failed = λ code f. ground arith;
    ended = λ f. ground arith;
  }

  served-Bounded :
      (g : Gate) (c : Call)
      → Bounded g
      → g.first_failure ≡ none
      → g.completed ≡ false
      → Bounded (served preview g c).0
  unfolding served
  served-Bounded g (stdout none) w e on = cleared-Bounded _ _ _ _
  served-Bounded g (stdout (some b)) w e on =
      checked-Bounded g.stdout_ended g stdout_after_end _ (λ _.
        checked-Bounded (ltb (g.capacity - length g.held) (length b)) g stdout_limit
          (record g { held = g.held ++ b }, accepted) (held-Bounded g b w e on))
  served-Bounded g (stderr none) w e on = cleared-Bounded _ _ _ _
  served-Bounded g (stderr (some b)) w e on =
      checked-Bounded g.stderr_ended g stderr_after_end _
        (λ _. checked-Bounded (not (length b == 0)) g stderr_present (g, accepted) (λ _. w))
  served-Bounded g end_stdout w e on =
      checked-Bounded g.stdout_ended g stdout_duplicate_end
        (record g { stdout_ended = true }, accepted)
        (λ _. record {
          within = w.within;
          capacity = w.capacity;
          failed = w.failed;
          ended = w.ended;
        })
  served-Bounded g end_stderr w e on =
      checked-Bounded g.stderr_ended g stderr_duplicate_end
        (record g { stderr_ended = true }, accepted)
        (λ _. record {
          within = w.within;
          capacity = w.capacity;
          failed = w.failed;
          ended = w.ended;
        })
  served-Bounded g (abort r) w e on = cleared-Bounded _ _ _ _
  served-Bounded g (complete none) w e on = cleared-Bounded _ _ _ _
  served-Bounded g (complete (some x)) w e on =
      checked-Bounded (ltb 0xffffffff x) g exit_invalid _ (λ _.
        checked-Bounded (not (x == 0)) g exit_nonzero _ (λ _.
          checked-Bounded (not g.stdout_ended || not g.stderr_ended) g streams_incomplete
            (deliver preview g (preview g.held)) (λ _. deliver-Bounded g (preview g.held))))

  guarded-Bounded :
      (g : Gate) (o : Option Code) (c : Call)
      → Bounded g
      → g.first_failure ≡ o
      → Bounded (guarded preview g o c).0
  guarded-Bounded g (some code) c w e = cleared-Bounded _ _ _ _
  guarded-Bounded g none c w e =
      checked-Bounded g.completed g already_completed (served preview g c)
        (λ on. served-Bounded g c w e on)

  call-Bounded : (g : Gate) (c : Call) → Bounded g → Bounded (call preview g c).0
  unfolding call
  call-Bounded g c w = guarded-Bounded g g.first_failure c w refl

  run-Bounded : (g : Gate) (cs : List Call) → Bounded g → Bounded (run preview g cs)
  unfolding run
  run-Bounded g [] w = w
  run-Bounded g (c ∷ cs) w = run-Bounded (call preview g c).0 cs (call-Bounded g c w)

  -- Whatever the calls, a new gate holds at most as many bytes as its storage has, at most 4096, and
  -- holds none after a call has thrown or the output was delivered.
  pub run-created-Bounded : (cs : List Call) → Bounded (run preview created cs)
  run-created-Bounded cs = run-Bounded created cs (record {
    within = omega arith;
    capacity = omega arith;
    failed = λ code e. refl;
    ended = λ e. refl;
  })
