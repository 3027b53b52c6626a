-- ===== src/Persistence/Machine/Replies.antt =====
-- tools/lib/maintenance-persistence-model.mjs: quiescence, acknowledgements and status queries.
use sec_app.Base.{
  ℕ, String, Bool, true, false, not, ◌&&◌, ◌||◌, Option, none, some, ltb, ◌==◌, str_eq, opt_eq,
  is_some, any, if◌then◌else◌,
}
use sec_app.Persistence.Types.{
  order_rejected, status_rejected, runtime_busy, Result, ok, refuse_if, ◌>>◌, Intent, Active,
  LineageEntry, tx,
}
use sec_app.Persistence.State.{is_pending}
use sec_app.Persistence.Advance.{is_admitted, is_committed}
use sec_app.Persistence.Machine.Types.{
  Quiescence, quiescent, AckPhase, admission_phase, result_phase, Delivery, delivered, lost, Ack,
  not_sent, sent, LastStatus, active_status, completed_status, retired_status,
  recovery_required_status, Machine, head_current, stop,
}

-- `text === input.intent?.transaction_id`
abbrev pub is_own : Option String → Option Intent → Bool
is_own none i = false
is_own (some t) none = false
is_own (some t) (some i) = str_eq t i.transaction_id

abbrev pub is_lost : Delivery → Bool
is_lost lost = true
is_lost delivered = false

abbrev pub is_sent : Ack → Bool
is_sent not_sent = false
is_sent (sent _) = true

module _ (sha256 : String → String) (intent : Option Intent) where
  abbrev stage_is_admitted : Option Active → Bool
  stage_is_admitted none = false
  stage_is_admitted (some a) = is_admitted a.stage

  unfoldable pub observe_quiescence_case : Machine → Quiescence → Result Machine
  observe_quiescence_case m result = do
    refuse_if
        (is_some m.pending
          || m.head_required
          || not m.session_reserved
          || not (stage_is_admitted m.state.active))
        order_rejected
    ok (elim result [
      | quiescent ↦ record m { quiescent = true }
      | _ ↦ stop sha256 runtime_busy false m
    ])

  -- The stages in which an admission is acknowledged.
  abbrev is_admission_stage : Option Active → Bool
  is_admission_stage none = false
  is_admission_stage (some a) = is_admitted a.stage || is_committed a.stage

  unfoldable pub acknowledge_case : Machine → AckPhase → Delivery → Result Machine
  acknowledge_case m phase delivery = do
    refuse_if
        (is_some m.pending
          || m.head_required
          || is_some m.disk.checkpoint_candidate
          || not (head_current sha256 m)
          || not m.session_reserved)
        order_rejected
    elim phase [
      | admission_phase ↦
          refuse_if (not (is_admission_stage m.state.active) || is_sent m.admission_ack)
            order_rejected
          >> ok (record m { admission_ack = sent delivery; waiting_status = is_lost delivery })
      | result_phase ↦
          refuse_if
            (is_some m.state.active
              || not (is_own m.state.last_transaction_id intent)
              || is_sent m.result_ack)
            order_rejected
          >> ok (record m { result_ack = sent delivery; waiting_status = is_lost delivery })
    ]

  -- `state.active?.lineage.some(entry => entry.transaction_id === transaction)`
  abbrev in_lineage : Option Active → String → Bool
  in_lineage none t = false
  in_lineage (some a) t = any (λ (e : LineageEntry). str_eq e.transaction_id t) a.lineage

  unfoldable pub status_of : Machine → String → LastStatus
  status_of m t =
      if is_some m.pending
        || m.head_required
        || not (head_current sha256 m)
        || is_some m.disk.checkpoint_candidate
      then recovery_required_status
      else if opt_eq (some t) m.state.last_transaction_id
      then completed_status
      else if in_lineage m.state.active t
      then if is_pending m.state.active && not m.session_reserved
        then recovery_required_status
        else active_status
      else retired_status

  unfoldable pub query_status_case : Machine → String → ℕ → Result Machine
  unfolding status_of
  query_status_case m t counter = do
    refuse_if (not (str_eq t (tx counter)) || ltb m.state.counter counter) status_rejected
    ok (record m {
      last_status = status_of m t;
      waiting_status =
          if is_own (some t) intent && (counter == m.state.counter)
          then false
          else m.waiting_status;
    })
