-- ===== src/Runtimed/SessionQueue/Progress.antt =====
-- The worker answers all that was admitted, in boundedly many steps.
use kruntimes.Base.{
  ℕ, ◌+◌, ◌-◌, ◌*◌, ◌≤◌, ◌≡◌, refl, sym, ap, ◌∙◌, arith, Bool, true, false, inl, inr, Bool-cases,
  List, [], ◌∷◌, Option, none, some, length,
}
use kruntimes.Runtimed.SessionQueue.{
  Job, SessionReply, ContextError, Worker, idle, taken, checked, active, stopped, Entry, Choice,
  complete, finish_job, receive, unless_closed, or_give_up, work_at, work,
}
use kruntimes.Runtimed.SessionQueue.Counting.{IsConsistent, answered, in_hand}
use kruntimes.Runtimed.SessionQueue.Fifo.{work-IsConsistent}

-- The steps that the worker still needs.
cost : Worker → ℕ → ℕ
cost idle n = 4 * n
cost (taken _) n = 4 * n + 3
cost (checked _) n = 4 * n + 2
cost (active _) n = 4 * n + 1
cost stopped n = 4 * n

abbrev cost_of : Entry → ℕ
cost_of e = cost e.worker (length e.jobs)

finish_job-cost :
    (job : Job) (reply : SessionReply) (e : Entry)
    → cost_of (finish_job job reply e) ≡ 4 * length e.jobs
unfolding finish_job complete cost
finish_job-cost job reply e = ground arith

unless_closed-cost :
    (closed : Bool) (next : Worker) (job : Job) (e : Entry) (bound : ℕ)
    → cost next (length e.jobs) ≤ bound
    → 4 * length e.jobs ≤ bound
    → cost_of (unless_closed closed next job e) ≤ bound
unfolding unless_closed
unless_closed-cost true next job e bound h h' = omega (arith, finish_job-cost job _ e)
unless_closed-cost false next job e bound h h' = h

or_give_up-cost :
    (reason : Option ContextError) (next : Worker) (job : Job) (e : Entry) (bound : ℕ)
    → cost next (length e.jobs) ≤ bound
    → 4 * length e.jobs ≤ bound
    → cost_of (or_give_up reason next job e) ≤ bound
unfolding or_give_up
or_give_up-cost (some reason) next job e bound h h' = omega (arith, finish_job-cost job _ e)
or_give_up-cost none next job e bound h h' = unless_closed-cost e.closed next job e bound h h'

receive-cost :
    (jobs : List Job) (e : Entry)
    → e.jobs ≡ jobs
    → e.worker ≡ idle
    → cost_of (receive jobs e) ≤ 4 * length jobs - 1
unfolding receive cost
receive-cost [] e same free = elim (Bool-cases e.closed) [
  | inl closed ↦ ground (arith, ap length same)
  | inr opened ↦ ground (arith, ap length same, ap (λ (w : Worker). cost w (length e.jobs)) free)
]
receive-cost (job ∷ jobs) e same free = omega arith

work_at-cost :
    (w : Worker) (c : Choice) (e : Entry)
    → e.worker ≡ w
    → (w ≡ stopped → e.jobs ≡ [])
    → cost_of (work_at w c e) ≤ cost w (length e.jobs) - 1
unfolding work_at cost
work_at-cost idle c e same empty = receive-cost e.jobs e refl same
work_at-cost (taken job) c e same empty =
    or_give_up-cost c.context_done (checked job) job e _ (omega arith) (omega arith)
work_at-cost (checked job) c e same empty =
    or_give_up-cost c.context_done (active job) job e _ (omega arith) (omega arith)
work_at-cost (active job) c e same empty = omega (arith, finish_job-cost job c.reply e)
work_at-cost stopped c e same empty =
    omega (arith, ap length (empty refl), ap (λ (w : Worker). cost w (length e.jobs)) same)

-- The worker's loop, one choice of the environment for each step.
unfoldable pub work_all : List Choice → Entry → Entry
work_all [] e = e
work_all (c ∷ cs) e = work_all cs (work c e)

work_all-IsConsistent :
    (admitted : List Job) (cs : List Choice) (e : Entry)
    → IsConsistent admitted e
    → IsConsistent admitted (work_all cs e)
unfolding work_all
work_all-IsConsistent admitted [] e h = h
work_all-IsConsistent admitted (c ∷ cs) e h =
    work_all-IsConsistent admitted cs (work c e) (work-IsConsistent admitted c e h)

work_all-cost :
    (admitted : List Job) (cs : List Choice) (e : Entry)
    → IsConsistent admitted e
    → cost_of (work_all cs e) ≤ cost_of e - length cs
unfolding work_all work
work_all-cost admitted [] e h = omega arith
work_all-cost admitted (c ∷ cs) e h = omega (
  arith,
  work_all-cost admitted cs (work c e) (work-IsConsistent admitted c e h),
  work_at-cost e.worker c e refl (λ s. (h.busy_is_open s).1),
)

cost-zero : (w : Worker) (jobs : List Job) → cost w (length jobs) ≡ 0 → in_hand w jobs ≡ []
unfolding cost
cost-zero idle [] h = refl
cost-zero idle (j ∷ jobs) h = absurd (omega arith)
cost-zero stopped [] h = refl
cost-zero stopped (j ∷ jobs) h = absurd (omega arith)
cost-zero (taken job) jobs h = absurd (omega arith)
cost-zero (checked job) jobs h = absurd (omega arith)
cost-zero (active job) jobs h = absurd (omega arith)

cost-le-in_hand :
    (w : Worker) (jobs : List Job) → cost w (length jobs) ≤ 4 * length (in_hand w jobs)
unfolding cost
cost-le-in_hand idle jobs = omega arith
cost-le-in_hand (taken job) jobs = omega arith
cost-le-in_hand (checked job) jobs = omega arith
cost-le-in_hand (active job) jobs = omega arith
cost-le-in_hand stopped jobs = omega arith

-- From any consistent state, whatever the environment decides: after at least four steps of the
-- worker for each pending operation, every admitted operation has been answered, in order.
pub work_all_answers :
    (admitted : List Job) (cs : List Choice) (e : Entry)
    → IsConsistent admitted e
    → 4 * e.pending ≤ length cs
    → answered (work_all cs e).results [] ≡ admitted
work_all_answers admitted cs e h enough =
    let k = work_all-IsConsistent admitted cs e h in
    let done : cost_of (work_all cs e) ≡ 0 =
      omega (arith, h.counted, cost-le-in_hand e.worker e.jobs, work_all-cost admitted cs e h) in
    ap (λ (l : List Job). answered (work_all cs e).results l)
      (sym (cost-zero (work_all cs e).worker (work_all cs e).jobs done))
    ∙ k.in_order
