-- ===== src/History/Calls.antt =====
-- Any sequence of calls of packages/operations/src/history-service.ts.
pub mod Restored
mod Examples
use trust_core.Core.Types.{Revision}
use trust_core.History.Tables.{Tables}
use trust_core.History.Service.{
  CreateRevisionInput, DeleteResourceInput, RestoreResourceInput, create_revision, delete_resource,
  restore_resource,
}
use trust_core.Common.{string_eq, number_eq, option_eq, discrete_eq, String, List, [], ◌∷◌, arith}

-- The calls, each with the instants and the ids that it draws.
pub data HistoryCall (P : Type 0) : Type 0 where
  creates : (now id : String) → CreateRevisionInput P → HistoryCall P
  deletes : (now id : String) → DeleteResourceInput → HistoryCall P
  restores : (checked_at now id db_now : String) → RestoreResourceInput → HistoryCall P

module _ {P : Type 0} (hash : P → String) where
  -- The tables after a call, which a call that throws leaves as they were.
  pub step_history : HistoryCall P → Tables P → Tables P
  step_history (creates now id input) t = (create_revision hash now id input t).0
  step_history (deletes now id input) t = (delete_resource now id input t).0
  step_history (restores checked_at now id db_now input) t =
      (restore_resource hash checked_at now id db_now input t).0

  pub run_history : List (HistoryCall P) → Tables P → Tables P
  run_history [] t = t
  run_history (c ∷ cs) t = run_history cs (step_history c t)
