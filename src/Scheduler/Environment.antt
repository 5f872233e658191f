-- ===== src/Scheduler/Environment.antt =====
-- What surrounds internal/scheduler/reconciler.go: the parts of the reconciler, the answers of the
-- API server to the calls of one Reconcile, and what comes out of it.
use kruntimes.Base.{ℕ, String, string_eq, List, Option}
use kruntimes.Base.Int.{ℤ}
use kruntimes.Api.Quantity.{QuantityOps}
use kruntimes.Api.Conditions.{MetaOps}
use kruntimes.Api.Pod.{Pod}
use kruntimes.Api.Run.{Run}
use kruntimes.Api.Resources.{InvalidRequest}
use kruntimes.Api.Workspace.{PersistentWorkspace}
use kruntimes.Scheduler.Cache.{Reservations}
use kruntimes.Scheduler.Affinity.{SelectorParser}
use kruntimes.Scheduler.Score.{ScoreRegistration}
use kruntimes.Scheduler.Framework.{PlanError, FilterFactory}

-- The parts of the reconciler and of the code it calls outside the repository.
pub record Scheduler (Q : Type 0) : Type 0 where
  pub quantities : QuantityOps Q
  pub meta : MetaOps
  pub parse : SelectorParser
  pub out_of_range : ℤ → ℤ
  pub stale_after : ℤ
  -- the texts of the two kinds of errors that become status messages
  pub plan_error_text : PlanError → String
  pub invalid_request_text : InvalidRequest → String
  pub filter_registrations : List (Option (FilterFactory Q))
  pub score_registrations : List (ScoreRegistration Q)

pub data Answer (A : Type 0) : Type 0 where
  found : A → Answer A
  not_found : Answer A
  unavailable : Answer A

pub data UpdateAnswer : Type 0 where
  updated conflict update_failed : UpdateAnswer

pub record World (Q : Type 0) : Type 0 where
  pub run : Answer (Run Q)
  pub mode_update : UpdateAnswer
  pub pods : Answer (List Pod)
  pub workspace : Answer PersistentWorkspace
  pub runs : Answer (List (Run Q))
  pub status_update : UpdateAnswer
  pub now : ℕ

pub data ReconcileError : Type 0 where
  get_run list_pods get_workspace list_runs update_mode update_status bind_run : ReconcileError
  planning : PlanError → ReconcileError

pub data Reply : Type 0 where
  done : Reply
  requeue : Reply
  requeue_after : ℤ → Reply
  fail : ReconcileError → Reply

pub record Outcome (Q : Type 0) : Type 0 where
  pub cache : Reservations Q
  pub writes : List (Run Q)
  pub reply : Reply
