-- ===== src/OutputGate/Streams.antt =====
-- What the gate delivers, against the two streams that it is given, in whatever order they arrive.
pub mod Delivery
use sec_app.Base.{
  ℕ, ◌+◌, ◌-◌, ◌≤◌, Bool, true, false, not, ◌||◌, Option, none, some, List, [], ◌∷◌, ◌++◌, ◌≡◌, ◌≢◌,
  ◌↔◌, refl, sym, ap, ◌∙◌, subst, inl, inr, arith, length, length-append, Option-cases, Bool-cases,
  ◌==◌, ltb, if◌then◌else◌, is_some,
}
use sec_app.OutputGate.{
  Code, AbortReason, Call, stdout, stderr, end_stdout, end_stderr, abort, complete, Gate, Reply,
  accepted, delivered, thrown, max_source_bytes, created, served, deliver, finish, call, run,
}
use sec_app.OutputGate.Sealed.{failed-call}

-- The bytes of the standard output.
abbrev pub stdout_of : List Call → List ℕ
stdout_of [] = []
stdout_of (stdout (some chunk) ∷ cs) = chunk ++ stdout_of cs
stdout_of (_ ∷ cs) = stdout_of cs

-- The standard output ends once, and has no chunk after its end; `ended` where it ended before.
abbrev pub OutOk : Bool → List Call → Type 0
OutOk ended [] = ended ≡ true
OutOk ended (stdout (some chunk) ∷ cs) = (ended ≡ false) × OutOk ended cs
OutOk ended (end_stdout ∷ cs) = (ended ≡ false) × OutOk true cs
OutOk ended (_ ∷ cs) = OutOk ended cs

-- The standard error ends once, and has no chunk after its end and no byte before it.
abbrev pub ErrOk : Bool → List Call → Type 0
ErrOk ended [] = ended ≡ true
ErrOk ended (stderr (some chunk) ∷ cs) = (ended ≡ false) × (length chunk ≡ 0) × ErrOk ended cs
ErrOk ended (end_stderr ∷ cs) = (ended ≡ false) × ErrOk true cs
ErrOk ended (_ ∷ cs) = ErrOk ended cs

-- No call but those of the two streams, and no chunk that is no buffer.
abbrev pub OnlyStreams : List Call → Type 0
OnlyStreams [] = Unit {0}
OnlyStreams (stdout none ∷ cs) = ⊥
OnlyStreams (stderr none ∷ cs) = ⊥
OnlyStreams (abort reason ∷ cs) = ⊥
OnlyStreams (complete exit_code ∷ cs) = ⊥
OnlyStreams (_ ∷ cs) = OnlyStreams cs

pub append_assoc {ℓ} : {A : Type ℓ} (xs ys zs : List A) → (xs ++ ys) ++ zs ≡ xs ++ (ys ++ zs)
append_assoc [] ys zs = refl
append_assoc (x ∷ xs) ys zs = ap (λ l. x ∷ l) (append_assoc xs ys zs)

module _ {ℓ} {P : Type ℓ} (preview : List ℕ → Option P) where
  -- The two streams from a gate on, and the report of all bytes.
  pub record Complete (g : Gate) (cs : List Call) (report : P) : Type ℓ where
    pub only : OnlyStreams cs
    pub out : OutOk g.stdout_ended cs
    pub err : ErrOk g.stderr_ended cs
    pub fits : length g.held + length (stdout_of cs) ≤ g.capacity
    pub seen : preview (g.held ++ stdout_of cs) ≡ some report

  -- What the exit code 0 is answered after the calls.
  abbrev pub answer : Gate → List Call → Reply P
  answer g cs = (call preview (run preview g cs) (complete (some 0))).1

  -- A gate that takes calls.
  pub record Open (g : Gate) : Type 0 where
    pub free : g.first_failure ≡ none
    pub going : g.completed ≡ false
    pub within : length g.held ≤ g.capacity

  pub failed-answer :
      (g : Gate) (cs : List Call) (code : Code)
      → g.first_failure ≡ some code
      → answer g cs ≡ thrown code
  unfolding run
  failed-answer g [] code e = (failed-call preview g (complete (some 0)) code e).1
  failed-answer g (c ∷ cs) code e =
      failed-answer (call preview g c).0 cs code (failed-call preview g c code e).0

  pub refused :
      (g : Gate) (c : Call) (cs : List Call) (code : Code) {report : P}
      → (call preview g c).0.first_failure ≡ some code
      → answer g (c ∷ cs) ≢ delivered report
  unfolding run
  refused g c cs code e h = ground (arith, failed-answer (call preview g c).0 cs code e, h)

  pub taken :
      (g h : Gate) (c : Call) (cs : List Call)
      → (call preview g c).0 ≡ h
      → answer g (c ∷ cs) ≡ answer h cs
  unfolding run
  taken g h c cs e = ap (λ x. answer x cs) e

  append_nil : {A : Type 0} (xs : List A) → xs ++ [] ≡ xs
  append_nil [] = refl
  append_nil (x ∷ xs) = ap (λ l. x ∷ l) (append_nil xs)

  delivered-deliver :
      (g : Gate) (o : Option P) {report : P}
      → (deliver preview g o).1 ≡ delivered report
      → o ≡ some report
  delivered-deliver g none h = ground arith
  delivered-deliver g (some x) h = ground arith

  finish-delivers :
      (g : Gate) {report : P}
      → (finish preview g (some 0)).1 ≡ delivered report
      → (g.stdout_ended ≡ true) × (g.stderr_ended ≡ true) × (preview g.held ≡ some report)
  finish-delivers g h = elim (Bool-cases g.stdout_ended) [
    | inr e ↦ ground (arith, e)
    | inl e ↦ elim (Bool-cases g.stderr_ended) [
      | inr f ↦ ground (arith, e, f)
      | inl f ↦ (
        e,
        f,
        delivered-deliver (record g { stdout_ended = true; stderr_ended = true }) (preview g.held)
            (rw (e, f) at h),
      )
    ]
  ]

  Open-answer : (g : Gate) → Open g → answer g [] ≡ (finish preview g (some 0)).1
  unfolding call run
  Open-answer g o = rw (o.free, o.going) refl

  pub end-answer :
      (g : Gate) {report : P} → Open g → answer g [] ≡ delivered report → Complete g [] report
  end-answer g o h =
      let (out, err, seen) = finish-delivers g (sym (Open-answer g o) ∙ h) in
      record {
        only = tt;
        out = out;
        err = err;
        fits = omega (arith, o.within);
        seen = ap preview (append_nil g.held) ∙ seen;
      }

  pub answer-end :
      (g : Gate) {report : P} → Open g → Complete g [] report → answer g [] ≡ delivered report
  answer-end g o c =
      Open-answer g o ∙ finished g c.out c.err (ap preview (sym (append_nil g.held)) ∙ c.seen)
    where
      finished :
          (g : Gate) {report : P}
          → g.stdout_ended ≡ true
          → g.stderr_ended ≡ true
          → preview g.held ≡ some report
          → (finish preview g (some 0)).1 ≡ delivered report
      finished g e f s = rw (e, f, s) refl

  -- The calls that an open gate takes.
  pub takes_stdout :
      (g : Gate) (b : List ℕ)
      → Open g
      → g.stdout_ended ≡ false
      → ltb (g.capacity - length g.held) (length b) ≡ false
      → (call preview g (stdout (some b))).0 ≡ record g { held = g.held ++ b }
  unfolding call
  takes_stdout g b o e fits = rw (o.free, o.going, e, fits) refl

  pub takes_stderr :
      (g : Gate) → Open g → g.stderr_ended ≡ false → (call preview g (stderr (some []))).0 ≡ g
  unfolding call
  takes_stderr g o e = ground (arith, o.free, o.going, e)

  pub takes_end_stdout :
      (g : Gate)
      → Open g
      → g.stdout_ended ≡ false
      → (call preview g end_stdout).0 ≡ record g { stdout_ended = true }
  unfolding call
  takes_end_stdout g o e = rw (o.free, o.going, e) refl

  pub takes_end_stderr :
      (g : Gate)
      → Open g
      → g.stderr_ended ≡ false
      → (call preview g end_stderr).0 ≡ record g { stderr_ended = true }
  unfolding call
  takes_end_stderr g o e = rw (o.free, o.going, e) refl

  -- The calls that fail an open gate.
  pub data Bad (g : Gate) : Call → Type 0 where
    late_stdout : {b : List ℕ} → g.stdout_ended ≡ true → Bad g (stdout (some b))
    long_stdout :
        {b : List ℕ}
        → g.stdout_ended ≡ false
        → ltb (g.capacity - length g.held) (length b) ≡ true
        → Bad g (stdout (some b))
    late_stderr : {b : List ℕ} → g.stderr_ended ≡ true → Bad g (stderr (some b))
    some_stderr : {x : ℕ} {b : List ℕ} → g.stderr_ended ≡ false → Bad g (stderr (some (x ∷ b)))
    no_stdout : Bad g (stdout none)
    no_stderr : Bad g (stderr none)
    late_end_stdout : g.stdout_ended ≡ true → Bad g end_stdout
    late_end_stderr : g.stderr_ended ≡ true → Bad g end_stderr
    aborted : {r : AbortReason} → Bad g (abort r)

  pub Bad-fails :
      (g : Gate) {c : Call} → Open g → Bad g c → is_some (call preview g c).0.first_failure ≡ true
  unfolding call
  Bad-fails g o (late_stdout e) = rw (o.free, o.going, e) refl
  Bad-fails g o (long_stdout e f) = rw (o.free, o.going, e, f) refl
  Bad-fails g o (late_stderr e) = rw (o.free, o.going, e) refl
  Bad-fails g o (some_stderr {x} {b} e) = ground (arith, o.free, o.going, e)
  Bad-fails g o no_stdout = rw (o.free, o.going) refl
  Bad-fails g o no_stderr = rw (o.free, o.going) refl
  Bad-fails g o (late_end_stdout e) = rw (o.free, o.going, e) refl
  Bad-fails g o (late_end_stderr e) = rw (o.free, o.going, e) refl
  Bad-fails g o (aborted {r}) = rw (o.free, o.going) refl
