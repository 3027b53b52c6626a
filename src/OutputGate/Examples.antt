-- ===== src/OutputGate/Examples.antt =====
-- Two interleaved streams, and a failed one.
use sec_app.Base.{ℕ, Option, none, some, List, [], ◌∷◌, ◌≡◌, refl}
use sec_app.OutputGate.{
  Call, stdout, stderr, end_stdout, end_stderr, stderr_present, delivered, thrown, complete,
  created, call, run, replies,
}
use sec_app.OutputGate.Sealed.{all_thrown, Bounded, replies-Sealed, run-created-Bounded}
use sec_app.OutputGate.Streams.{Complete, answer}
use sec_app.OutputGate.Streams.Delivery.{delivered_iff}

-- A stand-in for the preview: the bytes themselves, if there are any.
abbrev preview : List ℕ → Option (List ℕ)
preview [] = none
preview (b ∷ bs) = some (b ∷ bs)

abbrev interleaved : List Call
interleaved =
    stdout (some (123 ∷ 34 ∷ []))
    ∷ stderr (some [])
    ∷ end_stderr
    ∷ stdout (some (125 ∷ 10 ∷ []))
    ∷ end_stdout
    ∷ []

abbrev report : List ℕ
report = 123 ∷ 34 ∷ 125 ∷ 10 ∷ []

told : answer preview created interleaved ≡ delivered report
unfolding run call
told = refl

delivered_iff_example : Complete preview created interleaved report
delivered_iff_example = (delivered_iff preview interleaved report).0 told

failed : (call preview created (stderr (some (10 ∷ [])))).1 ≡ thrown stderr_present
unfolding call
failed = refl

replies-Sealed_example :
    replies preview
      (call preview created (stderr (some (10 ∷ [])))).0
      (end_stdout ∷ complete (some 0) ∷ [])
    ≡ all_thrown stderr_present (end_stdout ∷ complete (some 0) ∷ [])
replies-Sealed_example =
    replies-Sealed preview created (stderr (some (10 ∷ []))) stderr_present
      (end_stdout ∷ complete (some 0) ∷ []) failed

run-created-Bounded_example : Bounded (run preview created interleaved)
run-created-Bounded_example = run-created-Bounded preview interleaved
