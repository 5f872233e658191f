-- ===== src/Runtimed/SessionQueue/Manager.antt =====
-- The SessionOperationQueue of one runtimed: the queues of its sessions by the UID of their Run, and
-- the limits that a Run may lower. Each function is one critical section under the queue's mutex;
-- that the worker may step in between accept and send is in the histories of Steps.
pub mod Limits
pub mod Reopening
use kruntimes.Base.{
  ℕ, ◌+◌, String, string_eq, ◌==◌, Bool, true, false, ◌||◌, not, List, [], ◌∷◌, Option, none, some,
  nat_eq, if◌then◌else◌,
}
use kruntimes.Base.Int.{ℤ, pos, pos_part, leb_ℤ}
use kruntimes.Base.Maps.{Map, lookup, insert, delete}
use kruntimes.Base.Results.{Result, ok, err, ◌>>=◌}
use kruntimes.Api.Run.{Run, RunSessionMode}
use kruntimes.Runtimed.SessionQueue.{
  Job, Entry, new_entry, is_accepting, accept, send, begin_drain, mark_closed, touch_lease,
}

pub data QueueError : Type 0 where
  session_run_required queue_size_not_positive timeout_not_positive : QueueError
  finalizing queue_full : QueueError

pub record SessionOperationQueue : Type 0 where
  pub max_queue_size : ℤ
  pub max_operation_timeout : ℤ
  pub sessions : Map String Entry

abbrev pub default_queue_size : ℤ
default_queue_size = pos 32

-- 5 minutes
abbrev pub default_operation_timeout : ℤ
default_operation_timeout = pos 300000000000

unfoldable pub new_session_operation_queue : ℤ → ℤ → SessionOperationQueue
new_session_operation_queue max_queue_size max_operation_timeout = record {
  max_queue_size = if leb_ℤ max_queue_size (pos 0) then default_queue_size else max_queue_size;
  max_operation_timeout =
      if leb_ℤ max_operation_timeout (pos 0)
      then default_operation_timeout
      else max_operation_timeout;
  sessions = [];
}

-- A limit of the Run, which can only lower the maximum.
unfoldable pub limited : QueueError → ℤ → Option ℤ → Result QueueError ℤ
limited error maximum none = ok maximum
limited error maximum (some limit) =
    if leb_ℤ limit (pos 0) then err error else ok (if leb_ℤ maximum limit then maximum else limit)

module _ (q : SessionOperationQueue) where
  session_limits : String → Option RunSessionMode → Result QueueError (String × ℤ × ℤ)
  unfolding limited
  session_limits uid none = err session_run_required
  session_limits uid (some session) = if uid == "" then err session_run_required else do
    size ← limited queue_size_not_positive q.max_queue_size session.queue_size
    timeout ← limited timeout_not_positive q.max_operation_timeout session.operation_timeout
    ok (uid, size, timeout)

  unfoldable pub limits : {Q : Type 0} → Option (Run Q) → Result QueueError (String × ℤ × ℤ)
  unfolding session_limits
  limits none = err session_run_required
  limits (some run) = session_limits run.uid run.spec.mode.session

  abbrev with_sessions : Map String Entry → SessionOperationQueue
  with_sessions sessions = record q { sessions = sessions }

  abbrev or_new : ℤ → ℕ → Option Entry → Entry
  or_new size now none = new_entry (pos_part size) now
  or_new size now (some entry) = entry

  -- Ensure: a session that is tracked stays as it is; the zero time is now.
  unfoldable pub ensure :
      {Q : Type 0} → Option (Run Q) → ℕ → ℕ → Result QueueError SessionOperationQueue
  unfolding limits
  ensure run activity now = do
    (uid, size, timeout) ← limits run
    ok (
        with_sessions (
          insert uid
            (or_new size (if nat_eq activity 0 then now else activity) (lookup uid q.sessions))
            q.sessions))

  admit_to : String → Entry → Job → SessionOperationQueue × Result QueueError Job
  admit_to uid entry job =
      if is_accepting entry
      then (let (sent, admitted) = send job (accept job entry) in
          (with_sessions (insert uid sent q.sessions), if admitted then ok job else err queue_full))
      else (with_sessions (insert uid entry q.sessions), err finalizing)

  admit_limited :
      Result QueueError (String × ℤ × ℤ) → Job → ℕ → SessionOperationQueue × Result QueueError Job
  unfolding admit_to
  admit_limited (err e) job now = (q, err e)
  admit_limited (ok (uid, size, timeout)) job now =
      admit_to uid (or_new size now (lookup uid q.sessions)) job

  -- ExecuteWithAdmission up to the send: the operation is admitted, or the error.
  unfoldable pub admit :
      {Q : Type 0} → Option (Run Q) → Job → ℕ → SessionOperationQueue × Result QueueError Job
  unfolding limits admit_limited
  admit run job now = admit_limited (limits run) job now

  renew_found : String → ℕ → Option Entry → SessionOperationQueue × Bool
  renew_found uid heartbeat none = (q, false)
  renew_found uid heartbeat (some entry) =
      (with_sessions (insert uid (touch_lease heartbeat entry) q.sessions), true)

  -- RenewLease; the zero time is now.
  unfoldable pub renew_lease : String → ℕ → ℕ → SessionOperationQueue × Bool
  unfolding renew_found
  renew_lease uid heartbeat now =
      if uid == ""
      then (q, false)
      else renew_found uid (if nat_eq heartbeat 0 then now else heartbeat) (lookup uid q.sessions)

  deadline_of : ℤ → Option Entry → Option ℕ
  deadline_of timeout none = none
  deadline_of timeout (some entry) = some (entry.last_lease_heartbeat + pos_part timeout)

  unfoldable pub lease_deadline : String → ℤ → Option ℕ
  unfolding deadline_of
  lease_deadline uid timeout =
      if uid == "" || leb_ℤ timeout (pos 0)
      then none
      else deadline_of timeout (lookup uid q.sessions)

  drain_found : String → Option Entry → SessionOperationQueue × Bool
  unfolding begin_drain
  drain_found uid none = (q, true)
  drain_found uid (some entry) =
      (with_sessions (insert uid (begin_drain entry).0 q.sessions), (begin_drain entry).1)

  unfoldable pub drain_session : String → SessionOperationQueue × Bool
  unfolding drain_found
  drain_session uid = if uid == "" then (q, true) else drain_found uid (lookup uid q.sessions)

  close_found : String → Option Entry → SessionOperationQueue × Option Entry
  unfolding mark_closed
  close_found uid none = (q, none)
  close_found uid (some entry) =
      if entry.closed
      then (q, none)
      else (with_sessions (delete uid q.sessions), some (mark_closed entry))

  -- Close: the queue without the session, and the closed entry that its worker still serves.
  unfoldable pub close_session : String → SessionOperationQueue × Option Entry
  unfolding close_found
  close_session uid = if uid == "" then (q, none) else close_found uid (lookup uid q.sessions)
