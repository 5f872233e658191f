-- ===== src/Runtimed/SessionQueue/Draining.antt =====
-- One entry of the queue, from drain or close on.
use kruntimes.Base.{◌≡◌, ◌↔◌, sym, ap, ◌∙◌, arith, true, false, List, [], none, length}
use kruntimes.Runtimed.SessionQueue.{Job, Entry, is_accepting, begin_drain}
use kruntimes.Runtimed.SessionQueue.Counting.{IsConsistent, answered, in_hand, count}

-- Drain reports the truth: in any consistent state with no caller submitting, it answers that no
-- work is left exactly if no operation is in the channel or with the worker and each admitted
-- operation has been answered, in order.
pub begin_drain_iff :
    (admitted : List Job) (e : Entry)
    → IsConsistent admitted e
    → e.submitting ≡ none
    → ((begin_drain e).1 ≡ true)
      ↔ ((in_hand e.worker e.jobs ≡ []) × (answered e.results [] ≡ admitted))
unfolding begin_drain
begin_drain_iff admitted e h free = (
  λ z.
      let empty : in_hand e.worker e.jobs ≡ [] = ground (arith, h.counted) in
      (empty, ap (λ (l : List Job). answered e.results l) (sym empty) ∙ h.in_order),
  λ z. ground (arith, h.counted, ap length z.0, ap count free),
)

-- An entry that was drained or closed while no caller submitted.
pub record IsShut (e : Entry) : Type 0 where
  pub refuses : is_accepting e ≡ false
  pub nobody : e.submitting ≡ none
