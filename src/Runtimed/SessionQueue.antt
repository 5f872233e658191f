-- ===== src/Runtimed/SessionQueue.antt =====
-- internal/runtimed/session_queue.go: the operations of one Session Run, executed one at a time in
-- the order of their admission. The queue's mutex is held from accept to the send on the channel,
-- so `submitting` is the operation of the goroutine that holds it. The goroutine of
-- sessionOperationQueueEntry.run is `worker`, which stands between two of its blocking points.
pub mod Manager
pub mod Steps
pub mod Counting
pub mod Fifo
pub mod Draining
pub mod Progress
use kruntimes.Base.{
  ℕ, ◌+◌, ◌-◌, String, Bool, true, false, ◌&&◌, not, List, [], ◌∷◌, ◌++◌, Option, none, some, ltb,
  nat_eq, length, if◌then◌else◌,
}

-- An operation, known by its number.
abbrev pub Job : Type 0
Job = ℕ

-- What an operation's result channel receives: the end of its context, the end of the session, or
-- what the operation returned, with its command's time-out mark and an error.
pub data ContextError : Type 0 where
  context_canceled deadline_exceeded : ContextError

pub data SessionReply : Type 0 where
  context_ended : ContextError → SessionReply
  session_closed : SessionReply
  -- the response, if any, with its timed-out mark, and whether there was an error
  responded : Option Bool → Bool → SessionReply

pub data Worker : Type 0 where
  idle : Worker
  -- received from the channel, before it is known to be admitted
  taken : Job → Worker
  -- found the session open, before setActive
  checked : Job → Worker
  active : Job → Worker
  -- the channel is closed and empty
  stopped : Worker

pub record Entry : Type 0 where
  pub queue_size : ℕ
  pub jobs : List Job
  pub closed : Bool
  pub draining : Bool
  pub pending : ℕ
  pub last_lease_heartbeat : ℕ
  pub worker : Worker
  pub submitting : Option Job
  -- what the result channels received, in order
  pub results : List (Job × SessionReply)

abbrev pub new_entry : ℕ → ℕ → Entry
new_entry queue_size activity = record {
  queue_size = queue_size;
  jobs = [];
  closed = false;
  draining = false;
  pending = 0;
  last_lease_heartbeat = activity;
  worker = idle;
  submitting = none;
  results = [];
}

abbrev pub is_accepting : Entry → Bool
is_accepting e = not e.closed && not e.draining

unfoldable pub complete : Entry → Entry
complete e = if ltb 0 e.pending then record e { pending = e.pending - 1 } else e

-- accept, with the mutex taken.
unfoldable pub accept : Job → Entry → Entry
accept job e = record e { pending = e.pending + 1; submitting = some job }

-- The non-blocking send: whether the operation was admitted.
unfoldable pub send : Job → Entry → Entry × Bool
unfolding complete
send job e =
    if ltb (length e.jobs) e.queue_size
    then (record e { jobs = e.jobs ++ job ∷ []; submitting = none }, true)
    else (complete (record e { submitting = none }), false)

-- beginDrain: whether no accepted work is left.
unfoldable pub begin_drain : Entry → Entry × Bool
begin_drain e = (record e { draining = true }, nat_eq e.pending 0)

-- markClosed, with the channel closed.
unfoldable pub mark_closed : Entry → Entry
mark_closed e = record e { closed = true }

unfoldable pub touch_lease : ℕ → Entry → Entry
touch_lease heartbeat e = record e {
  last_lease_heartbeat =
      if ltb e.last_lease_heartbeat heartbeat then heartbeat else e.last_lease_heartbeat;
}

-- deliver and complete, back at the head of the loop.
unfoldable pub finish_job : Job → SessionReply → Entry → Entry
unfolding complete
finish_job job reply e =
    complete (record e { results = e.results ++ (job, reply) ∷ []; worker = idle })

-- What the environment decides at a step: whether the operation's context has ended, and what the
-- operation returns.
pub record Choice : Type 0 where
  pub context_done : Option ContextError
  pub reply : SessionReply

receive : List Job → Entry → Entry
receive [] e = if e.closed then record e { worker = stopped } else e
receive (job ∷ jobs) e = record e { jobs = jobs; worker = taken job }

-- The test for the closed session, and then the next point.
unless_closed : Bool → Worker → Job → Entry → Entry
unfolding finish_job
unless_closed true next job e = finish_job job session_closed e
unless_closed false next job e = record e { worker = next }

or_give_up : Option ContextError → Worker → Job → Entry → Entry
unfolding finish_job unless_closed
or_give_up (some reason) next job e = finish_job job (context_ended reason) e
or_give_up none next job e = unless_closed e.closed next job e

work_at : Worker → Choice → Entry → Entry
unfolding receive or_give_up finish_job
work_at idle c e = receive e.jobs e
work_at (taken job) c e = or_give_up c.context_done (checked job) job e
work_at (checked job) c e = or_give_up c.context_done (active job) job e
work_at (active job) c e = finish_job job c.reply e
work_at stopped c e = e

-- One step of the worker's loop.
unfoldable pub work : Choice → Entry → Entry
unfolding work_at
work c e = work_at e.worker c e

abbrev or_timed_out : Option Bool → Bool
or_timed_out (some timed_out) = timed_out
or_timed_out none = false

-- The error of an operation whose context ended while it ran: the context's, unless the operation
-- failed for another reason or its command reports its own time-out. `is_same` is errors.Is.
unfoldable pub operation_reply : Option ContextError → Option Bool → Bool → Bool → SessionReply
operation_reply none response failed is_same = responded response failed
operation_reply (some reason) response failed is_same =
    if failed && not is_same
    then responded response failed
    else if or_timed_out response
    then responded response failed
    else context_ended reason
