-- ===== src/Runtimed/SessionQueue/Fifo.antt =====
-- Each admitted operation is answered once, in the order of admission, and is counted until then.
use mathlib.Core.Path.{subst}
use kruntimes.Base.{
  ◌≢◌, ◌≡◌, refl, sym, ap, ◌∙◌, arith, Bool, true, false, inl, inr, Bool-cases, List, [], ◌∷◌,
  Option, none, some, length, if◌then◌else◌,
}
use kruntimes.Runtimed.SessionQueue.{
  Job, ContextError, Worker, idle, taken, checked, active, stopped, Entry, Choice, begin_drain,
  mark_closed, touch_lease, receive, unless_closed, or_give_up, work_at, work, session_closed,
  context_ended,
}
use kruntimes.Runtimed.SessionQueue.Steps.{
  Reaches, created, accepts, sends, drains, closes, renews, works,
}
use kruntimes.Runtimed.SessionQueue.Counting.{
  IsConsistent, answered, in_hand, accept-IsConsistent, send-IsConsistent, finish_job-IsConsistent,
}

-- The worker's two waiting points hold the same operation.
moved-IsConsistent :
    (admitted : List Job) (job : Job) (next : Worker) (e : Entry)
    → ((jobs : List Job) → in_hand next jobs ≡ job ∷ jobs)
    → next ≢ stopped
    → IsConsistent admitted (record e { worker = active job })
    → IsConsistent admitted (record e { worker = next })
moved-IsConsistent admitted job next e holds going h = record {
  counted = omega (arith, h.counted, ap length (holds e.jobs));
  bounded = h.bounded;
  in_order = ap (λ (l : List Job). answered e.results l) (holds e.jobs) ∙ h.in_order;
  open_to_submit = h.open_to_submit;
  busy_is_open = λ s. absurd (going s);
}

as_active :
    (admitted : List Job) (job : Job) (w : Worker) (e : Entry)
    → ((jobs : List Job) → in_hand w jobs ≡ job ∷ jobs)
    → IsConsistent admitted (record e { worker = w })
    → IsConsistent admitted (record e { worker = active job })
as_active admitted job w e holds h = record {
  counted = omega (arith, h.counted, ap length (holds e.jobs));
  bounded = h.bounded;
  in_order = ap (λ (l : List Job). answered e.results l) (sym (holds e.jobs)) ∙ h.in_order;
  open_to_submit = h.open_to_submit;
  busy_is_open = λ s. absurd (ground arith);
}

unless_closed-IsConsistent :
    (admitted : List Job) (closed : Bool) (next : Worker) (job : Job) (e : Entry)
    → ((jobs : List Job) → in_hand next jobs ≡ job ∷ jobs)
    → next ≢ stopped
    → IsConsistent admitted (record e { worker = active job })
    → IsConsistent admitted (unless_closed closed next job e)
unfolding unless_closed
unless_closed-IsConsistent admitted true next job e holds going h =
    finish_job-IsConsistent admitted job session_closed e h
unless_closed-IsConsistent admitted false next job e holds going h =
    moved-IsConsistent admitted job next e holds going h

or_give_up-IsConsistent :
    (admitted : List Job) (reason : Option ContextError) (next : Worker) (job : Job) (e : Entry)
    → ((jobs : List Job) → in_hand next jobs ≡ job ∷ jobs)
    → next ≢ stopped
    → IsConsistent admitted (record e { worker = active job })
    → IsConsistent admitted (or_give_up reason next job e)
unfolding or_give_up
or_give_up-IsConsistent admitted (some reason) next job e holds going h =
    finish_job-IsConsistent admitted job (context_ended reason) e h
or_give_up-IsConsistent admitted none next job e holds going h =
    unless_closed-IsConsistent admitted e.closed next job e holds going h

receive-IsConsistent :
    (admitted : List Job) (jobs : List Job) (e : Entry)
    → e.jobs ≡ jobs
    → e.worker ≡ idle
    → IsConsistent admitted e
    → IsConsistent admitted (receive jobs e)
unfolding receive
receive-IsConsistent admitted [] e same free h = elim (Bool-cases e.closed) [
  | inl closed ↦
      let base : in_hand e.worker e.jobs ≡ e.jobs = ap (λ (w : Worker). in_hand w e.jobs) free in
      subst (λ b. IsConsistent admitted (if b then record e { worker = stopped } else e))
        (sym closed)
        (record {
          counted = omega (arith, h.counted, ap length base);
          bounded = h.bounded;
          in_order = ap (λ (l : List Job). answered e.results l) (sym base) ∙ h.in_order;
          open_to_submit = h.open_to_submit;
          busy_is_open = λ _. (closed, same);
        })
  | inr opened ↦
      subst (λ b. IsConsistent admitted (if b then record e { worker = stopped } else e))
        (sym opened) h
]
receive-IsConsistent admitted (job ∷ jobs) e same free h =
    let base : in_hand e.worker e.jobs ≡ job ∷ jobs =
      ap (λ (w : Worker). in_hand w e.jobs) free ∙ same in
    record {
      counted = omega (arith, h.counted, ap length base);
      bounded = omega (arith, h.bounded, ap length same);
      in_order = ap (λ (l : List Job). answered e.results l) (sym base) ∙ h.in_order;
      open_to_submit = h.open_to_submit;
      busy_is_open = λ s. absurd (ground arith);
    }

work_at-IsConsistent :
    (admitted : List Job) (w : Worker) (c : Choice) (e : Entry)
    → e.worker ≡ w
    → IsConsistent admitted e
    → IsConsistent admitted (record e { worker = w })
    → IsConsistent admitted (work_at w c e)
unfolding work_at
work_at-IsConsistent admitted idle c e same h h' =
    receive-IsConsistent admitted e.jobs e refl same h
work_at-IsConsistent admitted (taken job) c e same h h' =
    or_give_up-IsConsistent admitted c.context_done (checked job) job e (λ _. refl) (λ s. cc)
      (as_active admitted job (taken job) e (λ _. refl) h')
work_at-IsConsistent admitted (checked job) c e same h h' =
    or_give_up-IsConsistent admitted c.context_done (active job) job e (λ _. refl) (λ s. cc)
      (as_active admitted job (checked job) e (λ _. refl) h')
work_at-IsConsistent admitted (active job) c e same h h' =
    finish_job-IsConsistent admitted job c.reply e h'
work_at-IsConsistent admitted stopped c e same h h' = h

pub work-IsConsistent :
    (admitted : List Job) (c : Choice) (e : Entry)
    → IsConsistent admitted e
    → IsConsistent admitted (work c e)
unfolding work
work-IsConsistent admitted c e h = work_at-IsConsistent admitted e.worker c e refl h h

-- From any consistent state, and so from a new queue, whatever the callers, the worker and the
-- environment do: the answered operations, the worker's and those in the channel are together the
-- admitted ones, in the order of admission; `pending` counts the unanswered ones and the one being
-- submitted; the channel never holds more than its size; and while a caller submits, the channel is
-- open.
pub Reaches-IsConsistent :
    {start : Entry} {before admitted : List Job} {e : Entry}
    → IsConsistent before start
    → Reaches start before admitted e
    → IsConsistent admitted e
unfolding begin_drain mark_closed touch_lease
Reaches-IsConsistent h created = h
Reaches-IsConsistent h (accepts {admitted} {e} job r free accepting) =
    accept-IsConsistent admitted job e free (ground arith) (Reaches-IsConsistent h r)
Reaches-IsConsistent h (sends {admitted} {e} job r held) =
    send-IsConsistent admitted job e held (Reaches-IsConsistent h r)
Reaches-IsConsistent h (drains {admitted} {e} r free) =
    let k = Reaches-IsConsistent h r in
    record {
      counted = k.counted;
      bounded = k.bounded;
      in_order = k.in_order;
      open_to_submit = k.open_to_submit;
      busy_is_open = k.busy_is_open;
    }
Reaches-IsConsistent h (closes {admitted} {e} r free opened) =
    let k = Reaches-IsConsistent h r in
    record {
      counted = k.counted;
      bounded = k.bounded;
      in_order = k.in_order;
      open_to_submit = λ job s. absurd (ground arith);
      busy_is_open = λ s. (refl, (k.busy_is_open s).1);
    }
Reaches-IsConsistent h (renews {admitted} {e} heartbeat r) =
    let k = Reaches-IsConsistent h r in
    record {
      counted = k.counted;
      bounded = k.bounded;
      in_order = k.in_order;
      open_to_submit = k.open_to_submit;
      busy_is_open = k.busy_is_open;
    }
Reaches-IsConsistent h (works {admitted} {e} c r) =
    work-IsConsistent admitted c e (Reaches-IsConsistent h r)
