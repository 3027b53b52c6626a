-- ===== src/OutputGate/Streams/Delivery.antt =====
-- The gate delivers a report exactly where its two streams are complete.
use sec_app.Base.{
  ℕ, ◌-◌, Bool, true, false, Option, none, some, List, [], ◌∷◌, ◌++◌, ◌≡◌, ◌≢◌, ◌⊎◌, ◌↔◌, refl, sym,
  ap, ◌∙◌, inl, inr, arith, length, length-append, Option-cases, Bool-cases, ltb, is_some,
}
use sec_app.OutputGate.{
  Call, stdout, stderr, end_stdout, end_stderr, abort, complete, Gate, delivered, created, call,
  run,
}
use sec_app.OutputGate.Sealed.{failed-call}
use sec_app.OutputGate.Streams.{
  stdout_of, append_assoc, Complete, answer, Open, taken, end-answer, answer-end, takes_stdout,
  takes_stderr, takes_end_stdout, takes_end_stderr, Bad, late_stdout, long_stdout, late_stderr,
  some_stderr, no_stdout, no_stderr, late_end_stdout, late_end_stderr, aborted, Bad-fails,
}

module _ {ℓ} {P : Type ℓ} (preview : List ℕ → Option P) where
  -- A gate that is over delivers nothing.
  abbrev IsOver : Gate → Type 0
  IsOver g = (is_some g.first_failure ≡ true) ⊎ (g.completed ≡ true)

  over-call : (g : Gate) (c : Call) → IsOver g → is_some (call preview g c).0.first_failure ≡ true
  unfolding call
  over-call g c o = elim (Option-cases g.first_failure) [
    | inr (code, e) ↦ rw e refl
    | inl e ↦ ground (arith, e, o)
  ]

  over-told :
      (g : Gate) (c : Call) {report : P} → IsOver g → (call preview g c).1 ≢ delivered report
  unfolding call
  over-told g c o h = elim (Option-cases g.first_failure) [
    | inr (code, e) ↦ ground (arith, failed-call preview g c code e, h)
    | inl e ↦ ground (arith, e, o, h)
  ]

  over-answer :
      (g : Gate) (cs : List Call) {report : P} → IsOver g → answer preview g cs ≢ delivered report
  unfolding run
  over-answer g [] o h = over-told g (complete (some 0)) o h
  over-answer g (c ∷ cs) o h = over-answer (call preview g c).0 cs (inl (over-call g c o)) h

  complete-IsOver :
      (g : Gate) (x : Option ℕ) → Open preview g → IsOver (call preview g (complete x)).0
  unfolding call
  complete-IsOver g none o = inl (rw (o.free, o.going) refl)
  complete-IsOver g (some x) o = elim (Option-cases (preview g.held)) [
    | inl e ↦ ground (arith, o.free, o.going, e)
    | inr (report, e) ↦ ground (arith, o.free, o.going, e)
  ]

  no_answer :
      (g : Gate) (c : Call) (cs : List Call) {report : P}
      → IsOver (call preview g c).0
      → answer preview g (c ∷ cs) ≢ delivered report
  unfolding run
  no_answer g c cs o h = over-answer (call preview g c).0 cs o h

  Bad-answer :
      {g : Gate} {c : Call} (cs : List Call) {report : P}
      → Open preview g
      → Bad preview g c
      → answer preview g (c ∷ cs) ≢ delivered report
  Bad-answer {g} {c} cs o bad h = no_answer g c cs (inl (Bad-fails preview g o bad)) h

  held-Open :
      (g : Gate) (b : List ℕ)
      → Open preview g
      → ltb (g.capacity - length g.held) (length b) ≡ false
      → Open preview (record g { held = g.held ++ b })
  held-Open g b o fits = record {
    free = o.free;
    going = o.going;
    within = ground (arith, length-append g.held b, o.within);
  }

  ended-Open :
      (g : Gate) (x y : Bool)
      → Open preview g
      → Open preview (record g { stdout_ended = x; stderr_ended = y })
  ended-Open g x y o = record { free = o.free; going = o.going; within = o.within }

  chunk-Complete :
      (g : Gate) (b : List ℕ) (cs : List Call) {report : P}
      → Open preview g
      → g.stdout_ended ≡ false
      → Complete preview (record g { held = g.held ++ b }) cs report
      → Complete preview g (stdout (some b) ∷ cs) report
  chunk-Complete g b cs o e c = record {
    only = c.only;
    out = (e, c.out);
    err = c.err;
    fits = omega (arith, c.fits, length-append b (stdout_of cs), length-append g.held b);
    seen = ap preview (sym (append_assoc g.held b (stdout_of cs))) ∙ c.seen;
  }

  forward :
      (g : Gate) (cs : List Call) {report : P}
      → Open preview g
      → answer preview g cs ≡ delivered report
      → Complete preview g cs report
  forward g [] o h = end-answer preview g o h
  forward g (stdout none ∷ cs) o h = absurd (Bad-answer cs o no_stdout h)
  forward g (stdout (some b) ∷ cs) o h = elim (Bool-cases g.stdout_ended) [
    | inl e ↦ absurd (Bad-answer cs o (late_stdout e) h)
    | inr e ↦ elim (Bool-cases (ltb (g.capacity - length g.held) (length b))) [
      | inl f ↦ absurd (Bad-answer cs o (long_stdout e f) h)
      | inr f ↦ chunk-Complete g b cs o e (
          forward (record g { held = g.held ++ b }) cs (held-Open g b o f)
            (sym (taken preview g _ (stdout (some b)) cs (takes_stdout preview g b o e f)) ∙ h))
    ]
  ]
  forward g (stderr none ∷ cs) o h = absurd (Bad-answer cs o no_stderr h)
  forward g (stderr (some []) ∷ cs) o h = elim (Bool-cases g.stderr_ended) [
    | inl e ↦ absurd (Bad-answer cs o (late_stderr e) h)
    | inr e ↦
        let c =
          forward g cs o
            (sym (taken preview g g (stderr (some [])) cs (takes_stderr preview g o e)) ∙ h) in
        record { only = c.only; out = c.out; err = (e, refl, c.err); fits = c.fits; seen = c.seen }
  ]
  forward g (stderr (some (x ∷ b)) ∷ cs) o h = elim (Bool-cases g.stderr_ended) [
    | inl e ↦ absurd (Bad-answer cs o (late_stderr e) h)
    | inr e ↦ absurd (Bad-answer cs o (some_stderr e) h)
  ]
  forward g (end_stdout ∷ cs) o h = elim (Bool-cases g.stdout_ended) [
    | inl e ↦ absurd (Bad-answer cs o (late_end_stdout e) h)
    | inr e ↦
        let c =
          forward (record g { stdout_ended = true }) cs (ended-Open g true g.stderr_ended o)
            (sym (taken preview g _ end_stdout cs (takes_end_stdout preview g o e)) ∙ h) in
        record { only = c.only; out = (e, c.out); err = c.err; fits = c.fits; seen = c.seen }
  ]
  forward g (end_stderr ∷ cs) o h = elim (Bool-cases g.stderr_ended) [
    | inl e ↦ absurd (Bad-answer cs o (late_end_stderr e) h)
    | inr e ↦
        let c =
          forward (record g { stderr_ended = true }) cs (ended-Open g g.stdout_ended true o)
            (sym (taken preview g _ end_stderr cs (takes_end_stderr preview g o e)) ∙ h) in
        record { only = c.only; out = c.out; err = (e, c.err); fits = c.fits; seen = c.seen }
  ]
  forward g (abort r ∷ cs) o h = absurd (Bad-answer cs o aborted h)
  forward g (complete x ∷ cs) o h = absurd (no_answer g (complete x) cs (complete-IsOver g x o) h)

  backward :
      (g : Gate) (cs : List Call) {report : P}
      → Open preview g
      → Complete preview g cs report
      → answer preview g cs ≡ delivered report
  backward g [] o c = answer-end preview g o c
  backward g (stdout none ∷ cs) o c = absurd c.only
  backward g (stdout (some b) ∷ cs) o c =
      let e : g.stdout_ended ≡ false = c.out.0 in
      let f : ltb (g.capacity - length g.held) (length b) ≡ false =
        ground (arith, c.fits, length-append b (stdout_of cs)) in
      taken preview g _ (stdout (some b)) cs (takes_stdout preview g b o e f)
      ∙ backward (record g { held = g.held ++ b }) cs (held-Open g b o f)
          (record {
            only = c.only;
            out = c.out.1;
            err = c.err;
            fits = omega (arith, c.fits, length-append b (stdout_of cs), length-append g.held b);
            seen = ap preview (append_assoc g.held b (stdout_of cs)) ∙ c.seen;
          })
  backward g (stderr none ∷ cs) o c = absurd c.only
  backward g (stderr (some []) ∷ cs) o c =
      taken preview g g (stderr (some [])) cs (takes_stderr preview g o c.err.0)
      ∙ backward g cs o
          (record { only = c.only; out = c.out; err = c.err.2; fits = c.fits; seen = c.seen })
  backward g (stderr (some (x ∷ b)) ∷ cs) o c = ground (arith, c.err.1)
  backward g (end_stdout ∷ cs) o c =
      taken preview g _ end_stdout cs (takes_end_stdout preview g o c.out.0)
      ∙ backward (record g { stdout_ended = true }) cs (ended-Open g true g.stderr_ended o)
          (record { only = c.only; out = c.out.1; err = c.err; fits = c.fits; seen = c.seen })
  backward g (end_stderr ∷ cs) o c =
      taken preview g _ end_stderr cs (takes_end_stderr preview g o c.err.0)
      ∙ backward (record g { stderr_ended = true }) cs (ended-Open g g.stdout_ended true o)
          (record { only = c.only; out = c.out; err = c.err.1; fits = c.fits; seen = c.seen })
  backward g (abort r ∷ cs) o c = absurd c.only
  backward g (complete x ∷ cs) o c = absurd c.only

  -- A new gate answers the exit code 0 with a report exactly where the calls before it are those of
  -- two streams, in any interleaving: a standard output of at most 4096 bytes in all, ended once and
  -- last, an empty standard error, ended once and last, and the report is that of all bytes in order.
  pub delivered_iff :
      (cs : List Call) (report : P)
      → (answer preview created cs ≡ delivered report) ↔ Complete preview created cs report
  delivered_iff cs report =
      let start : Open preview created = record {
        free = refl;
        going = refl;
        within = omega arith;
      } in
      (forward created cs start, backward created cs start)
