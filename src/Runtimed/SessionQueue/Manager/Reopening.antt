-- ===== src/Runtimed/SessionQueue/Manager/Reopening.antt =====
-- What follows Close in internal/runtimed/session_queue.go: the queue has no trace of the session.
use kruntimes.Base.{
  ℕ, String, string_eq, ◌==◌, ◌≡◌, ◌≢◌, refl, sym, ◌∙◌, true, false, none, some, arith, eq_iff, [],
  ◌∷◌, ltb,
}
use mathlib.Core.Path.{subst}
use kruntimes.Base.Int.{ℤ, pos, pos_part, ◌≤ℤ◌}
use kruntimes.Base.Maps.{lookup, lookup-delete_self, lookup-insert_self, delete}
use kruntimes.Base.Results.{Result, ok}
use kruntimes.Api.Run.{Run}
use kruntimes.Runtimed.SessionQueue.{Job, Entry, new_entry, accept, send}
use kruntimes.Runtimed.SessionQueue.Manager.{
  QueueError, SessionOperationQueue, limits, session_limits, admit, admit_to, admit_limited,
  close_session, close_found,
}

-- The entry under the UID takes operations and has this one first.
pub record IsReopened (uid : String) (job : Job) (q : SessionOperationQueue) : Type 0 where
  pub entry : Entry
  pub tracked : lookup uid q.sessions ≡ some entry
  pub holds : entry.jobs ≡ job ∷ []
  pub opened : (entry.closed ≡ false) × (entry.draining ≡ false)

admit_limited-new :
    (q : SessionOperationQueue) (r : Result QueueError (String × ℤ × ℤ)) (uid : String)
    (size timeout : ℤ) (job : Job) (now : ℕ)
    → r ≡ ok (uid, size, timeout)
    → pos 1 ≤ℤ size
    → lookup uid q.sessions ≡ none
    → ((admit_limited q r job now).1 ≡ ok job) × IsReopened uid job (admit_limited q r job now).0
unfolding admit_limited admit_to accept send
admit_limited-new q r uid size timeout job now e large missing =
    let room : ltb 0 (pos_part size) ≡ true = ground (arith, large) in
    rw (e, missing, room)
      (
        refl,
        record {
          entry = record (accept job (new_entry (pos_part size) now)) {
            jobs = job ∷ [];
            submitting = none;
          };
          tracked = lookup-insert_self uid _ q.sessions;
          holds = refl;
          opened = (refl, refl);
        },
      )

close_session-deleted :
    (q : SessionOperationQueue) (uid : String) (entry : Entry)
    → uid ≢ ""
    → lookup uid q.sessions ≡ some entry
    → entry.closed ≡ false
    → (close_session q uid).0 ≡ record q { sessions = delete uid q.sessions }
unfolding close_session close_found
close_session-deleted q uid entry named found opened =
    let name : (uid == "") ≡ false = ground (arith, eq_iff uid "") in rw (name, found, opened) refl

limits-deleted :
    {Q : Type 0} (q : SessionOperationQueue) (run : Run Q) (uid : String)
    → limits (record q { sessions = delete uid q.sessions }) (some run) ≡ limits q (some run)
unfolding limits session_limits
limits-deleted q run uid = refl

-- For a session Run whose limits are accepted, with a positive queue size, and an open entry under
-- its UID: after Close of that UID, the next ExecuteWithAdmission for the same Run is admitted,
-- to a new entry that is neither closed nor draining and holds this operation alone.
pub close_session-admits :
    {Q : Type 0} (q : SessionOperationQueue) (run : Run Q) (uid : String) (size timeout : ℤ)
    (entry : Entry) (job : Job) (now : ℕ)
    → limits q (some run) ≡ ok (uid, size, timeout)
    → pos 1 ≤ℤ size
    → uid ≢ ""
    → lookup uid q.sessions ≡ some entry
    → entry.closed ≡ false
    → let after = (close_session q uid).0 in
      ((admit after (some run) job now).1 ≡ ok job)
      × IsReopened uid job (admit after (some run) job now).0
unfolding admit
close_session-admits q run uid size timeout entry job now accepted large named found opened =
    subst
      (λ (after : SessionOperationQueue).
        ((admit_limited after (limits after (some run)) job now).1 ≡ ok job)
        × IsReopened uid job (admit_limited after (limits after (some run)) job now).0)
      (sym (close_session-deleted q uid entry named found opened))
      (admit_limited-new (record q { sessions = delete uid q.sessions }) _ uid size timeout job now
        (limits-deleted q run uid ∙ accepted) large (lookup-delete_self uid q.sessions))
