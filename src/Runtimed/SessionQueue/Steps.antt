-- ===== src/Runtimed/SessionQueue/Steps.antt =====
-- The histories of one session's queue: any interleaving of submitting callers, the worker, drains,
-- leases and the close, from a given state on, with the operations admitted so far.
use kruntimes.Base.{ℕ, ◌≡◌, Bool, true, false, List, [], ◌∷◌, ◌++◌, none, some}
use kruntimes.Runtimed.SessionQueue.{
  Job, Entry, Choice, is_accepting, accept, send, begin_drain, mark_closed, touch_lease, work,
}

abbrev pub noted : Bool → Job → List Job → List Job
noted true job admitted = admitted ++ job ∷ []
noted false job admitted = admitted

pub data Reaches (start : Entry) (before : List Job) : List Job → Entry → Type 0 where
  created : Reaches start before before start
  accepts :
      {admitted : List Job} {e : Entry} (job : Job)
      → Reaches start before admitted e
      → e.submitting ≡ none
      → is_accepting e ≡ true
      → Reaches start before admitted (accept job e)
  sends :
      {admitted : List Job} {e : Entry} (job : Job)
      → Reaches start before admitted e
      → e.submitting ≡ some job
      → Reaches start before (noted (send job e).1 job admitted) (send job e).0
  drains :
      {admitted : List Job} {e : Entry}
      → Reaches start before admitted e
      → e.submitting ≡ none
      → Reaches start before admitted (begin_drain e).0
  closes :
      {admitted : List Job} {e : Entry}
      → Reaches start before admitted e
      → e.submitting ≡ none
      → e.closed ≡ false
      → Reaches start before admitted (mark_closed e)
  renews :
      {admitted : List Job} {e : Entry} (heartbeat : ℕ)
      → Reaches start before admitted e
      → Reaches start before admitted (touch_lease heartbeat e)
  works :
      {admitted : List Job} {e : Entry} (c : Choice)
      → Reaches start before admitted e
      → Reaches start before admitted (work c e)
