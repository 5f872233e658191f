-- ===== src/Runtimed/SessionQueue/Manager/Limits.antt =====
-- The limits of a Run, and the leases and the end of a runtimed's sessions.
use kruntimes.Base.{
  ℕ, ◌+◌, String, string_eq, ◌==◌, ◌≡◌, ◌≢◌, refl, sym, ap, ◌∙◌, eq_iff, arith, true, false, inl,
  inr, Bool-cases, Option-cases, Option, none, some, nat_eq, ltb, if◌then◌else◌,
}
use kruntimes.Base.Int.{ℤ, pos, pos_part, leb_ℤ, ◌≤ℤ◌}
use kruntimes.Base.Maps.{
  lookup, lookup-insert, lookup-delete, lookup-insert_self, lookup-delete_self,
}
use kruntimes.Base.Results.{ok, >>=-eq-ok}
use kruntimes.Api.Run.{Run, RunSessionMode}
use kruntimes.Runtimed.SessionQueue.{Entry, mark_closed, touch_lease}
use kruntimes.Runtimed.SessionQueue.Manager.{
  QueueError, queue_size_not_positive, timeout_not_positive, SessionOperationQueue,
  new_session_operation_queue, limited, session_limits, limits, renew_found, renew_lease,
  lease_deadline, deadline_of, close_session, close_found, drain_session, drain_found,
}

abbrev pub InLimit : ℤ → ℤ → Type 0
InLimit maximum x = (pos 1 ≤ℤ x) × (x ≤ℤ maximum)

limited-InLimit :
    (error : QueueError) (maximum : ℤ) (limit : Option ℤ) (out : ℤ)
    → pos 1 ≤ℤ maximum
    → limited error maximum limit ≡ ok out
    → InLimit maximum out × ((l : ℤ) → limit ≡ some l → out ≤ℤ l)
unfolding limited
limited-InLimit error maximum none out h e =
    ((ground arith, ground arith), λ l s. absurd (ground arith))
limited-InLimit error maximum (some limit) out h e =
    ((ground arith, ground arith), λ l s. ground arith)

new-positive :
    (a b : ℤ)
    → (pos 1 ≤ℤ (new_session_operation_queue a b).max_queue_size)
      × (pos 1 ≤ℤ (new_session_operation_queue a b).max_operation_timeout)
unfolding new_session_operation_queue
new-positive a b = (ground arith, ground arith)

-- The limits of a session Run of a new queue.
pub record IsLimited (q : SessionOperationQueue) (session : RunSessionMode) (size timeout : ℤ)
    : Type 0 where
  pub size_in : InLimit q.max_queue_size size
  pub timeout_in : InLimit q.max_operation_timeout timeout
  pub size_at_most : (l : ℤ) → session.queue_size ≡ some l → size ≤ℤ l
  pub timeout_at_most : (l : ℤ) → session.operation_timeout ≡ some l → timeout ≤ℤ l

session_limits-IsLimited :
    (q : SessionOperationQueue) (uid : String) (session : RunSessionMode) (id : String)
    (size timeout : ℤ)
    → pos 1 ≤ℤ q.max_queue_size
    → pos 1 ≤ℤ q.max_operation_timeout
    → session_limits q uid (some session) ≡ ok (id, size, timeout)
    → (id ≡ uid) × IsLimited q session size timeout
unfolding session_limits
session_limits-IsLimited q uid session id size timeout h h' e = elim (Bool-cases (uid == "")) [
  | inl nameless ↦ absurd (ground arith)
  | inr named ↦
      let (size', sized, e₁) =
        >>=-eq-ok (limited queue_size_not_positive q.max_queue_size session.queue_size) _
          (rw named at e) in
      let (timeout', timed, e₂) =
        >>=-eq-ok (limited timeout_not_positive q.max_operation_timeout session.operation_timeout) _
          e₁ in
      let a : uid ≡ id = cc in
      let b : size' ≡ size = cc in
      let c : timeout' ≡ timeout = cc in
      let (size_in, size_at_most) =
        limited-InLimit _ q.max_queue_size session.queue_size size h (sized ∙ ap ok b) in
      let (timeout_in, timeout_at_most) =
        limited-InLimit _ q.max_operation_timeout session.operation_timeout timeout h'
          (timed ∙ ap ok c) in
      (
        sym a,
        record {
          size_in = size_in;
          timeout_in = timeout_in;
          size_at_most = size_at_most;
          timeout_at_most = timeout_at_most;
        },
      )
]

-- Whatever limits a runtimed is started with, and for any session Run: if the Run's limits are
-- accepted, the queue size and the operation timeout are positive, at most the process-wide
-- maximum, and at most what the Run itself sets.
pub limits-IsLimited :
    {Q : Type 0} (a b : ℤ) (run : Run Q) (session : RunSessionMode) (id : String) (size timeout : ℤ)
    → run.spec.mode.session ≡ some session
    → limits (new_session_operation_queue a b) (some run) ≡ ok (id, size, timeout)
    → (id ≡ run.uid) × IsLimited (new_session_operation_queue a b) session size timeout
unfolding limits
limits-IsLimited a b run session id size timeout mode e =
    let (h, h') = new-positive a b in
    session_limits-IsLimited (new_session_operation_queue a b) run.uid session id size timeout h h'
      (rw mode at e)

-- The later of two times.
abbrev pub later : ℕ → ℕ → ℕ
later a b = if ltb a b then b else a

abbrev pub or_now : ℕ → ℕ → ℕ
or_now heartbeat now = if nat_eq heartbeat 0 then now else heartbeat

-- A heartbeat never brings a lease forward: for a session with a lease deadline, renewing succeeds
-- and moves the deadline to the later of the old one and the heartbeat's, the heartbeat of the zero
-- time counting as now; the other sessions are left alone.
pub lease_deadline-renew_lease :
    (q : SessionOperationQueue) (uid other : String) (heartbeat now d : ℕ) (timeout : ℤ)
    → lease_deadline q uid timeout ≡ some d
    → other ≢ uid
    → ((renew_lease q uid heartbeat now).1 ≡ true)
      × (lease_deadline (renew_lease q uid heartbeat now).0 uid timeout
          ≡ some (later d (or_now heartbeat now + pos_part timeout)))
      × (lookup other (renew_lease q uid heartbeat now).0.sessions ≡ lookup other q.sessions)
unfolding lease_deadline renew_lease renew_found deadline_of touch_lease
lease_deadline-renew_lease q uid other heartbeat now d timeout e ne =
    elim (Bool-cases (uid == "")) [
      | inl nameless ↦ absurd (ground arith)
      | inr named ↦ elim (Bool-cases (leb_ℤ timeout (pos 0))) [
        | inl never ↦ absurd (ground arith)
        | inr positive ↦ elim (Option-cases (lookup uid q.sessions)) [
          | inl missing ↦ absurd (ground arith)
          | inr (entry, found) ↦
              let old : some (entry.last_lease_heartbeat + pos_part timeout) ≡ some d =
                rw (named, positive, found) at e in
              rw (named, found)
                (
                  refl,
                  rw
                      (
                        positive,
                        lookup-insert_self uid (touch_lease (or_now heartbeat now) entry)
                            q.sessions,
                      )
                      (ground arith),
                  ground (
                    arith,
                    lookup-insert uid other (touch_lease (or_now heartbeat now) entry) q.sessions,
                    eq_iff uid other,
                  ),
                )
        ]
      ]
    ]

-- Closing a session that the queue tracks and has not closed hands its closed entry to its worker
-- and forgets it: a later drain reports it as drained, a later heartbeat is refused, and the other
-- sessions are left alone.
pub close_session-forgets :
    (q : SessionOperationQueue) (uid other : String) (entry : Entry)
    → other ≢ uid
    → uid ≢ ""
    → lookup uid q.sessions ≡ some entry
    → entry.closed ≡ false
    → let (after, handed) = close_session q uid in
      (handed ≡ some (mark_closed entry))
      × ((drain_session after uid).1 ≡ true)
      × ((heartbeat now : ℕ) → (renew_lease after uid heartbeat now).1 ≡ false)
      × (lookup other after.sessions ≡ lookup other q.sessions)
unfolding close_session close_found drain_session drain_found renew_lease renew_found
close_session-forgets q uid other entry ne named found opened =
    let name : (uid == "") ≡ false = ground (arith, eq_iff uid "") in
    rw (name, found, opened)
      (
        refl,
        rw (lookup-delete_self uid q.sessions) refl,
        λ heartbeat now. rw (lookup-delete_self uid q.sessions) refl,
        ground (arith, lookup-delete uid other q.sessions, eq_iff uid other),
      )
