-- ===== src/Runtimed/SessionQueue/Counting.antt =====
-- The count and the order of the unanswered operations, kept by the callers' operations.
use mathlib.Core.Bool.{false≢true}
use kruntimes.Base.{
  ◌≢◌, ℕ, suc, ◌+◌, ◌≤◌, ◌≡◌, refl, sym, ap, ◌∙◌, arith, true, false, inl, inr, Bool-cases, List,
  [], ◌∷◌, ◌++◌, Option, none, some, ltb, length,
}
use kruntimes.Runtimed.SessionQueue.{
  Job, SessionReply, Worker, idle, taken, checked, active, stopped, Entry, complete, accept, send,
  finish_job,
}
use kruntimes.Runtimed.SessionQueue.Steps.{noted}

-- The operations that were answered, before those still to be.
abbrev pub answered : List (Job × SessionReply) → List Job → List Job
answered [] rest = rest
answered ((job, _) ∷ results) rest = job ∷ answered results rest

-- The worker's operation, before those in the channel.
abbrev pub in_hand : Worker → List Job → List Job
in_hand idle jobs = jobs
in_hand (taken job) jobs = job ∷ jobs
in_hand (checked job) jobs = job ∷ jobs
in_hand (active job) jobs = job ∷ jobs
in_hand stopped jobs = jobs

abbrev pub count : Option Job → ℕ
count none = 0
count (some _) = 1

pub answered-snoc :
    (results : List (Job × SessionReply)) (job : Job) (reply : SessionReply) (rest : List Job)
    → answered (results ++ (job, reply) ∷ []) rest ≡ answered results (job ∷ rest)
answered-snoc [] job reply rest = refl
answered-snoc ((j, r) ∷ results) job reply rest =
    ap (λ (l : List Job). j ∷ l) (answered-snoc results job reply rest)

pub answered-append :
    (results : List (Job × SessionReply)) (xs ys : List Job)
    → answered results (xs ++ ys) ≡ answered results xs ++ ys
answered-append [] xs ys = refl
answered-append ((j, r) ∷ results) xs ys =
    ap (λ (l : List Job). j ∷ l) (answered-append results xs ys)

pub in_hand-append : (w : Worker) (xs ys : List Job) → in_hand w (xs ++ ys) ≡ in_hand w xs ++ ys
in_hand-append idle xs ys = refl
in_hand-append (taken job) xs ys = refl
in_hand-append (checked job) xs ys = refl
in_hand-append (active job) xs ys = refl
in_hand-append stopped xs ys = refl

pub length-snoc : (xs : List Job) (x : Job) → length (xs ++ x ∷ []) ≡ length xs + 1
length-snoc [] x = refl
length-snoc (y ∷ xs) x = omega (arith, length-snoc xs x)

-- `admitted` are the operations admitted so far.
pub record IsConsistent (admitted : List Job) (e : Entry) : Type 0 where
  pub counted : e.pending ≡ length (in_hand e.worker e.jobs) + count e.submitting
  pub bounded : length e.jobs ≤ e.queue_size
  pub in_order : answered e.results (in_hand e.worker e.jobs) ≡ admitted
  pub open_to_submit : (job : Job) → e.submitting ≡ some job → e.closed ≡ false
  pub busy_is_open : e.worker ≡ stopped → (e.closed ≡ true) × (e.jobs ≡ [])

pub accept-IsConsistent :
    (admitted : List Job) (job : Job) (e : Entry)
    → e.submitting ≡ none
    → e.closed ≡ false
    → IsConsistent admitted e
    → IsConsistent admitted (accept job e)
unfolding accept
accept-IsConsistent admitted job e free opened h = record {
  counted = ground (arith, h.counted, ap count free);
  bounded = h.bounded;
  in_order = h.in_order;
  open_to_submit = λ _ _. opened;
  busy_is_open = h.busy_is_open;
}

pub complete-IsConsistent :
    (admitted : List Job) (e : Entry)
    → e.pending ≡ suc (length (in_hand e.worker e.jobs) + count e.submitting)
    → length e.jobs ≤ e.queue_size
    → answered e.results (in_hand e.worker e.jobs) ≡ admitted
    → ((job : Job) → e.submitting ≡ some job → e.closed ≡ false)
    → (e.worker ≡ stopped → (e.closed ≡ true) × (e.jobs ≡ []))
    → IsConsistent admitted (complete e)
unfolding complete
complete-IsConsistent admitted e counted bounded in_order submits busy =
    let positive : ltb 0 e.pending ≡ true = ground (arith, counted) in
    rw positive (record {
      counted = omega (arith, counted);
      bounded = bounded;
      in_order = in_order;
      open_to_submit = submits;
      busy_is_open = busy;
    })

pub stopped-not-submitting :
    (admitted : List Job) (job : Job) (e : Entry)
    → IsConsistent admitted e
    → e.submitting ≡ some job
    → e.worker ≢ stopped
stopped-not-submitting admitted job e h held s =
    false≢true (sym (h.open_to_submit job held) ∙ (h.busy_is_open s).0)

pub send-IsConsistent :
    (admitted : List Job) (job : Job) (e : Entry)
    → e.submitting ≡ some job
    → IsConsistent admitted e
    → IsConsistent (noted (send job e).1 job admitted) (send job e).0
unfolding send
send-IsConsistent admitted job e held h = elim (Bool-cases (ltb (length e.jobs) e.queue_size)) [
  | inl room ↦ rw room (record {
    counted = omega (
      arith,
      h.counted,
      ap count held,
      ap length (in_hand-append e.worker e.jobs (job ∷ [])),
      length-snoc (in_hand e.worker e.jobs) job,
    );
    bounded = ground (arith, length-snoc e.jobs job);
    in_order =
        ap (λ (l : List Job). answered e.results l) (in_hand-append e.worker e.jobs (job ∷ []))
        ∙ answered-append e.results (in_hand e.worker e.jobs) (job ∷ [])
        ∙ ap (λ (l : List Job). l ++ job ∷ []) h.in_order;
    open_to_submit = λ _ s. absurd (ground arith);
    busy_is_open = λ s. absurd (stopped-not-submitting admitted job e h held s);
  })
  | inr full ↦ rw full (
      complete-IsConsistent admitted (record e { submitting = none })
        (omega (arith, h.counted, ap count held)) h.bounded h.in_order
        (λ _ s. absurd (ground arith)) h.busy_is_open)
]

pub finish_job-IsConsistent :
    (admitted : List Job) (job : Job) (reply : SessionReply) (e : Entry)
    → IsConsistent admitted (record e { worker = active job })
    → IsConsistent admitted (finish_job job reply e)
unfolding finish_job
finish_job-IsConsistent admitted job reply e h =
    complete-IsConsistent admitted
      (record e { results = e.results ++ (job, reply) ∷ []; worker = idle })
      (omega (arith, h.counted)) h.bounded (answered-snoc e.results job reply e.jobs ∙ h.in_order)
      h.open_to_submit (λ s. absurd (ground arith))
