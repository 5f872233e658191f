-- ===== src/Tests/Sessions.antt =====
-- The theorems on session queues at a queue of two places and three operations.
use kruntimes.Base.{
  String, string_eq, ◌≡◌, ◌≢◌, ◌↔◌, refl, arith, eq_iff, true, false, List, [], ◌∷◌, none, some,
}
use kruntimes.Base.Int.{ℤ, pos}
use kruntimes.Base.Maps.{lookup}
use kruntimes.Base.Results.{ok}
use kruntimes.Api.Run.{Run}
use kruntimes.Runtimed.SessionQueue.Manager.{
  SessionOperationQueue, limits, limited, admit, close_session,
}
use kruntimes.Runtimed.SessionQueue.Manager.Reopening.{IsReopened, close_session-admits}
use kruntimes.Tests.Samples.{waiting_run}
use kruntimes.Runtimed.SessionQueue.{
  Job, Entry, Choice, new_entry, active, responded, accept, send, begin_drain, work,
}
use kruntimes.Runtimed.SessionQueue.Steps.{Reaches, created, accepts, sends, works}
use kruntimes.Runtimed.SessionQueue.Counting.{IsConsistent, answered, in_hand}
use kruntimes.Runtimed.SessionQueue.Fifo.{Reaches-IsConsistent}
use kruntimes.Runtimed.SessionQueue.Draining.{begin_drain_iff}
use kruntimes.Runtimed.SessionQueue.Progress.{work_all, work_all_answers}

abbrev empty : Entry
empty = new_entry 2 100

empty-IsConsistent : IsConsistent [] empty
empty-IsConsistent = record {
  counted = refl;
  bounded = omega arith;
  in_order = refl;
  open_to_submit = λ job s. absurd (ground arith);
  busy_is_open = λ s. absurd (ground arith);
}

abbrev goes_on : Choice
goes_on = record { context_done = none; reply = responded (some false) false }

-- One operation admitted and taken by the worker.
one_taken : Reaches empty [] (7 ∷ []) (work goes_on (send 7 (accept 7 empty)).0)
unfolding accept send
one_taken = works goes_on (sends 7 (accepts 7 created refl refl) refl)

Reaches-IsConsistent_example : IsConsistent (7 ∷ []) (work goes_on (send 7 (accept 7 empty)).0)
Reaches-IsConsistent_example = Reaches-IsConsistent empty-IsConsistent one_taken

-- One operation with the worker, one in the channel.
abbrev loaded : Entry
loaded = record empty { jobs = 8 ∷ []; pending = 2; worker = active 7 }

loaded-IsConsistent : IsConsistent (7 ∷ 8 ∷ []) loaded
loaded-IsConsistent = record {
  counted = refl;
  bounded = omega arith;
  in_order = refl;
  open_to_submit = λ job s. absurd (ground arith);
  busy_is_open = λ s. absurd (ground arith);
}

begin_drain_iff_example :
    ((begin_drain loaded).1 ≡ true)
    ↔ ((in_hand loaded.worker loaded.jobs ≡ []) × (answered loaded.results [] ≡ 7 ∷ 8 ∷ []))
begin_drain_iff_example = begin_drain_iff (7 ∷ 8 ∷ []) loaded loaded-IsConsistent refl

abbrev admitted_two : List Job
admitted_two = 7 ∷ 8 ∷ []

abbrev draining_entry : Entry
draining_entry = record loaded { draining = true }

abbrev eight : List Choice
eight = goes_on ∷ goes_on ∷ goes_on ∷ goes_on ∷ goes_on ∷ goes_on ∷ goes_on ∷ goes_on ∷ []

work_all_answers_example : answered (work_all eight loaded).results [] ≡ 7 ∷ 8 ∷ []
work_all_answers_example =
    work_all_answers (7 ∷ 8 ∷ []) eight loaded loaded-IsConsistent (omega arith)

run_uid≢nothing : ◌≢◌ {A = String} "run-uid" ""
run_uid≢nothing = ground (arith, eq_iff "run-uid" "")

abbrev session_run : Run ℤ
session_run = record waiting_run {
  spec = record (waiting_run.spec) {
    mode = record (waiting_run.spec.mode) {
      session =
          some
            (record { queue_size = none; operation_timeout = none; lease_timeout_seconds = none });
    };
  };
}

abbrev one_session : SessionOperationQueue
one_session = record {
  max_queue_size = pos 2;
  max_operation_timeout = pos 300;
  sessions = ("run-uid", empty) ∷ [];
}

session_limited : limits one_session (some session_run) ≡ ok ("run-uid", pos 2, pos 300)
unfolding limits limited
session_limited = refl

session_tracked : lookup "run-uid" one_session.sessions ≡ some empty
unfolding lookup
session_tracked = refl

close_session-admits_example :
    let after = (close_session one_session "run-uid").0 in
    ((admit after (some session_run) 7 500).1 ≡ ok 7)
    × IsReopened "run-uid" 7 (admit after (some session_run) 7 500).0
close_session-admits_example =
    close_session-admits one_session session_run "run-uid" (pos 2) (pos 300) empty 7 500
      session_limited (omega arith) run_uid≢nothing session_tracked refl
