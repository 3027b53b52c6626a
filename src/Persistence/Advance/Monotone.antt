-- ===== src/Persistence/Advance/Monotone.antt =====
-- What a record never takes back.
use sec_app.Base.{ℕ, ◌+◌, ◌≤◌, String, Option, some, ◌≡◌, ◌⊎◌, refl, inl, inr, arith}
use sec_app.Persistence.Types.{
  ok, RecordKind, reserve, commit, admitted, blocked, Intent, Active, State,
}
use sec_app.Persistence.Advance.{advance}
use sec_app.Persistence.Advance.Cases.{
  Advanced, reserves, blocks, commits, completes, advance-Advanced,
}
use sec_app.Persistence.Advance.Invariant.{WellFormed, stage_of}

-- One more if the record is a reservation.
abbrev pub counted : RecordKind → ℕ
counted reserve = 1
counted _ = 0

-- `Grows k s n`: from `s` to `n` the counter has grown by `k`, and no watermark has fallen.
pub record Grows (k : ℕ) (s n : State) : Type 0 where
  pub counter : n.counter ≡ s.counter + k
  pub generation : s.generation ≤ n.generation
  pub generation_floor : s.generation_floor ≤ n.generation_floor
  pub security_floor : s.security_floor ≤ n.security_floor
  pub machine : n.machine_id ≡ s.machine_id

module _ (sha256 : String → String) where
  Advanced-Grows :
      {s n : State} {t : String} {kind : RecordKind} {intent : Option Intent}
      → WellFormed s
      → Advanced sha256 s t n kind intent
      → Grows (counted kind) s n
  Advanced-Grows w (reserves can made) = ground arith
  Advanced-Grows {s} w (blocks {a} e _ stage _ made) =
      let (facts, _) = stage_of sha256 s a admitted w e stage in ground (arith, facts.0)
  Advanced-Grows {s} w (commits {a} e _ stage made) =
      let (facts, _) = stage_of sha256 s a blocked w e stage in ground (arith, facts.0)
  Advanced-Grows w (completes e _ _ made) = ground arith

  -- A record raises the counter by one if it is a reservation and not at all otherwise, and lowers
  -- neither the generation, nor its floor, nor the security floor.
  pub advance-Grows :
      (s n : State) (kind : RecordKind) (intent : Option Intent) (t : String)
      → WellFormed s
      → advance sha256 s kind intent t ≡ ok n
      → Grows (counted kind) s n
  advance-Grows s n kind intent t w h =
      Advanced-Grows w (advance-Advanced sha256 s t n kind intent h)

  Advanced-selection :
      {s n : State} {t : String} {kind : RecordKind} {intent : Option Intent}
      → Advanced sha256 s t n kind intent
      → ((n.selection_digest ≡ s.selection_digest) × (n.selection_epoch ≡ s.selection_epoch))
        ⊎ ((kind ≡ commit)
            × (a : Active) × (s.active ≡ some a)
            × (a.stage ≡ blocked)
            × (n.selection_digest ≡ a.candidate_digest)
            × (n.selection_epoch ≡ a.candidate_epoch))
  Advanced-selection (reserves can made) = inl (ground arith, ground arith)
  Advanced-selection (blocks e _ _ _ made) = inl (ground arith, ground arith)
  Advanced-selection (commits {a} e _ stage made) =
      inr (refl, a, e, stage, ground arith, ground arith)
  Advanced-selection (completes e _ _ made) = inl (ground arith, ground arith)

  -- A record changes the selection only where it is a commit, and then to the candidate of the
  -- transaction in progress, which is blocked.
  pub advance-Selects :
      (s n : State) (kind : RecordKind) (intent : Option Intent) (t : String)
      → advance sha256 s kind intent t ≡ ok n
      → ((n.selection_digest ≡ s.selection_digest) × (n.selection_epoch ≡ s.selection_epoch))
        ⊎ ((kind ≡ commit)
            × (a : Active) × (s.active ≡ some a)
            × (a.stage ≡ blocked)
            × (n.selection_digest ≡ a.candidate_digest)
            × (n.selection_epoch ≡ a.candidate_epoch))
  advance-Selects s n kind intent t h =
      Advanced-selection (advance-Advanced sha256 s t n kind intent h)
