-- ===== src/Runtimed/OperationStore/Calls/Survival.antt =====
-- The fence of an idempotency key through the later calls of the store, in memory.
use kruntimes.Base.{
  ℕ, ◌≡◌, ◌≢◌, inl, inr, refl, sym, ap, ◌∙◌, String, string_eq, ◌==◌, Bool, true, false, ◌||◌, List,
  Option, none, some, arith, eq_iff, Bool-cases, if◌then◌else◌, ltb,
}
use mathlib.Core.Path.{subst}
use kruntimes.Base.Int.{ℤ, pos, ltb_ℤ}
use kruntimes.Base.Maps.{lookup, insert, lookup-insert}
use kruntimes.Base.Results.{Result, ok, err}
use kruntimes.Api.Run.{Run}
use kruntimes.Runtimed.OperationStore.{
  SessionEvent, StoredOperation, StoreError, already_exists, Codec, append_stored_event,
  max_stored_bytes,
}
use kruntimes.Runtimed.OperationStore.Broadcast.{Channel}
use kruntimes.Runtimed.OperationStore.Journal.{new_operation}
use kruntimes.Runtimed.OperationStore.Calls.{
  JournalWorld, OperationStore, Begun, memory_key, begin_in_memory, begin_operation,
}
use kruntimes.Runtimed.OperationStore.Calls.Append.{
  Appended, append_event, append_marshalled, append_in_memory, append_accepted, published,
  published_to, ended,
}
use kruntimes.Runtimed.OperationStore.Calls.Subscribe.{
  subscribe, subscribe_read, subscribe_replayed, cancel_subscription, others,
}
use kruntimes.Runtimed.OperationStore.Calls.Fence.{
  IsBegun, begin_in_memory-IsBegun, begin_operation-key, begin_in_memory-again,
  begin_in_memory-other,
}

-- The stores that calls lead to: Begin, Append and Subscribe of any keys, and the cancel functions.
pub data Leads (c : Codec) (Q : Type 0) (start : OperationStore) : OperationStore → Type 0 where
  unchanged : Leads c Q start start
  begins :
      {s : OperationStore} (w : JournalWorld) (run : Option (Run Q)) (id digest : String)
      → Leads c Q start s
      → Leads c Q start (begin_operation c w run id digest s).1
  appends :
      {s : OperationStore} (w : JournalWorld) (key : String) (event : SessionEvent)
      → Leads c Q start s
      → Leads c Q start (append_event c w key event s).1
  subscribes :
      {s : OperationStore} (w : JournalWorld) (channel : ℕ) (run : Option (Run Q)) (id : String)
      (after : ℤ)
      → Leads c Q start s
      → Leads c Q start (subscribe c w channel run id after s).1
  cancels :
      {s : OperationStore} (key : String) (channel : ℕ)
      → Leads c Q start s
      → Leads c Q start (cancel_subscription key channel s)

pick_memory : {A : Type 0} (b : Bool) (x y : A) → b ≡ false → (if b then x else y) ≡ y
pick_memory b x y h = rw h refl

module _ (c : Codec) (key digest : String) where
  -- Some record is under the key, with the digest.
  abbrev IsFenced : OperationStore → Type 0
  IsFenced s = (o : StoredOperation) × IsBegun c key digest o s

  same_memory-IsFenced :
      (s new : OperationStore)
      → new.memory ≡ s.memory
      → new.has_client ≡ s.has_client
      → IsFenced s
      → IsFenced new
  same_memory-IsFenced s new same same' (o, h) = (
    o,
    record {
      in_memory = same' ∙ h.in_memory;
      kept = ap (lookup key) same ∙ h.kept;
      same_digest = h.same_digest;
    },
  )

  inserted-IsFenced :
      (s new : OperationStore) (written : String) (o : StoredOperation)
      → new.memory ≡ insert written o s.memory
      → new.has_client ≡ s.has_client
      → (written ≡ key → o.digest ≡ digest)
      → IsFenced s
      → IsFenced new
  inserted-IsFenced s new written o same same' keeps (old, h) =
      let found : lookup key new.memory ≡ (if written == key then some o else lookup key s.memory) =
        ap (lookup key) same ∙ lookup-insert written key o s.memory in
      elim (Bool-cases (written == key)) [
        | inl here ↦ (
          o,
          record {
            in_memory = same' ∙ h.in_memory;
            kept = rw here at found;
            same_digest = keeps ((eq_iff written key).0 here);
          },
        )
        | inr there ↦ (
          old,
          record {
            in_memory = same' ∙ h.in_memory;
            kept = (rw there at found) ∙ h.kept;
            same_digest = h.same_digest;
          },
        )
      ]

  begin_in_memory-IsFenced :
      (w : JournalWorld) (k id d : String) (entry : Option StoredOperation) (s : OperationStore)
      → lookup k s.memory ≡ entry
      → IsFenced s
      → IsFenced (begin_in_memory c w k id d entry s).1
  unfolding begin_in_memory
  begin_in_memory-IsFenced w k id d (some o) s e h = h
  begin_in_memory-IsFenced w k id d none s e (o, h) =
      inserted-IsFenced s _ k (new_operation id d w.now) refl refl
        (λ same.
          let here : lookup k s.memory ≡ some o =
            ap (λ (j : String). lookup j s.memory) same ∙ h.kept in
          absurd (ground (arith, e, here)))
        (o, h)

  begin_operation-IsFenced :
      {Q : Type 0} (w : JournalWorld) (run : Option (Run Q)) (id d : String) (s : OperationStore)
      → IsFenced s
      → IsFenced (begin_operation c w run id d s).1
  begin_operation-IsFenced w none id d s h = unfold begin_operation in h
  begin_operation-IsFenced w (some run) id d s (o, h) =
      elim (Bool-cases (run.uid == "" || (run.namespace == "" || (id == "" || d == "")))) [
        | inl nameless ↦ unfold begin_operation in rw nameless (o, h)
        | inr named ↦
            subst (λ (p : Begun × OperationStore). IsFenced p.1)
              (sym (begin_operation-key c w run id d s named h.in_memory))
              (begin_in_memory-IsFenced w _ id d _ s refl (o, h))
      ]

  published-kept :
      (w : JournalWorld) (k : String) (event : SessionEvent) (o : StoredOperation)
      (channels : Option (List Channel)) (s : OperationStore)
      → ((published_to c w k event o channels s).0.memory ≡ s.memory)
        × ((published_to c w k event o channels s).0.has_client ≡ s.has_client)
  unfolding published_to ended
  published-kept w k event o none s = elim (Bool-cases o.terminal) [
    | inl over ↦ rw over (refl, refl)
    | inr going ↦ rw going (refl, refl)
  ]
  published-kept w k event o (some channels) s = elim (Bool-cases o.terminal) [
    | inl over ↦ rw over (refl, refl)
    | inr going ↦ rw going (refl, refl)
  ]

  append_stored_event-digest :
      (now : ℕ) (o new : StoredOperation) (event : SessionEvent) (encoded : String)
      → append_stored_event now o event encoded ≡ ok new
      → new.digest ≡ o.digest
  unfolding append_stored_event
  append_stored_event-digest now o new event encoded h = ground arith

  append_accepted-IsFenced :
      (w : JournalWorld) (k : String) (event : SessionEvent) (r : Result StoreError StoredOperation)
      (s : OperationStore)
      → ((new : StoredOperation) → r ≡ ok new → k ≡ key → new.digest ≡ digest)
      → IsFenced s
      → IsFenced (append_accepted c w k event r s).1
  unfolding append_accepted published
  append_accepted-IsFenced w k event (err e) s keeps h = h
  append_accepted-IsFenced w k event (ok o) s keeps h =
      let stored : OperationStore = record s { memory = insert k o s.memory } in
      let (same, same') = published-kept w k event o (lookup k s.subscribers) stored in
      same_memory-IsFenced stored _ same same'
        (inserted-IsFenced s stored k o refl refl (keeps o refl) h)

  append_in_memory-IsFenced :
      (w : JournalWorld) (k : String) (event : SessionEvent) (encoded : String)
      (entry : Option StoredOperation) (s : OperationStore)
      → lookup k s.memory ≡ entry
      → IsFenced s
      → IsFenced (append_in_memory c w k event encoded entry s).1
  unfolding append_in_memory
  append_in_memory-IsFenced w k event encoded none s e h = h
  append_in_memory-IsFenced w k event encoded (some old) s e (o, h) =
      append_accepted-IsFenced w k event _ s
        (λ new taken same.
          let here : lookup k s.memory ≡ some o =
            ap (λ (j : String). lookup j s.memory) same ∙ h.kept in
          let both : some old ≡ some o = sym e ∙ here in
          let is_o : old ≡ o = cc in
          append_stored_event-digest w.now old new event encoded taken
          ∙ ap (λ (x : StoredOperation). x.digest) is_o
          ∙ h.same_digest)
        (o, h)

  append_marshalled-IsFenced :
      (w : JournalWorld) (k : String) (event : SessionEvent) (encoded : Option String)
      (s : OperationStore)
      → IsFenced s
      → IsFenced (append_marshalled c w k event encoded s).1
  unfolding append_marshalled
  append_marshalled-IsFenced w k event none s h = h
  append_marshalled-IsFenced w k event (some encoded) s (o, h) =
      elim (Bool-cases (ltb max_stored_bytes (c.byte_length encoded))) [
        | inl large ↦ rw large (o, h)
        | inr small ↦ rw small (
            subst (λ (a : Appended). IsFenced a.1) (sym (pick_memory s.has_client _ _ h.in_memory))
              (append_in_memory-IsFenced w k event encoded _ s refl (o, h)))
      ]

  append_event-IsFenced :
      (w : JournalWorld) (k : String) (event : SessionEvent) (s : OperationStore)
      → IsFenced s
      → IsFenced (append_event c w k event s).1
  unfolding append_event
  append_event-IsFenced w k event s h = elim (Bool-cases (ltb_ℤ (pos 0) event.sequence)) [
    | inl counted ↦ rw counted (append_marshalled-IsFenced w k event (c.marshal event) s h)
    | inr uncounted ↦ rw uncounted h
  ]

  subscribe_replayed-IsFenced :
      (w : JournalWorld) (k : String) (channel : Channel) (terminal : Bool)
      (r : Result StoreError (List SessionEvent)) (s : OperationStore)
      → IsFenced s
      → IsFenced (subscribe_replayed c w k channel terminal r s).1
  unfolding subscribe_replayed
  subscribe_replayed-IsFenced w k channel terminal (err e) s h = h
  subscribe_replayed-IsFenced w k channel true (ok events) s h = h
  subscribe_replayed-IsFenced w k channel false (ok events) s h =
      same_memory-IsFenced s _ refl refl h

  subscribe_read-IsFenced :
      (w : JournalWorld) (k : String) (channel : Channel) (after : ℤ)
      (r : Result StoreError StoredOperation) (s : OperationStore)
      → IsFenced s
      → IsFenced (subscribe_read c w k channel after r s).1
  unfolding subscribe_read
  subscribe_read-IsFenced w k channel after (err e) s h = h
  subscribe_read-IsFenced w k channel after (ok o) s h =
      subscribe_replayed-IsFenced w k channel o.terminal _ s h

  subscribe-IsFenced :
      {Q : Type 0} (w : JournalWorld) (channel : ℕ) (run : Option (Run Q)) (id : String) (after : ℤ)
      (s : OperationStore)
      → IsFenced s
      → IsFenced (subscribe c w channel run id after s).1
  unfolding subscribe
  subscribe-IsFenced w channel run id after s h = elim (Bool-cases (ltb_ℤ after (pos 0))) [
    | inl negative ↦ rw negative h
    | inr counted ↦ rw counted (subscribe_read-IsFenced w _ _ after _ s h)
  ]

  cancel_subscription-IsFenced :
      (k : String) (channel : ℕ) (s : OperationStore)
      → IsFenced s
      → IsFenced (cancel_subscription k channel s)
  unfolding cancel_subscription
  cancel_subscription-IsFenced k channel s h =
      elim (lookup k s.subscribers)
        as (λ found. IsFenced (elim found as (λ _. OperationStore) [
          | none ↦ s
          | some channels ↦ record s {
            subscribers = insert k (others channel channels) s.subscribers;
          }
        ])) [ none ↦ h | some channels ↦ same_memory-IsFenced s _ refl refl h ]

  Leads-IsFenced :
      {Q : Type 0} {start s : OperationStore} → IsFenced start → Leads c Q start s → IsFenced s
  Leads-IsFenced h unchanged = h
  Leads-IsFenced h (begins {s} w run id d r) =
      begin_operation-IsFenced w run id d s (Leads-IsFenced h r)
  Leads-IsFenced h (appends {s} w k event r) =
      append_event-IsFenced w k event s (Leads-IsFenced h r)
  Leads-IsFenced h (subscribes {s} w channel run id after r) =
      subscribe-IsFenced w channel run id after s (Leads-IsFenced h r)
  Leads-IsFenced h (cancels {s} k channel r) =
      cancel_subscription-IsFenced k channel s (Leads-IsFenced h r)

module _ (c : Codec) where
  -- In memory, for any store, a Run with its identity, and an operation with an identifier: once Begin
  -- has returned a record, then after any calls of Begin, Append, Subscribe and cancel functions, a
  -- Begin of the same operation with the same digest returns the record that is then kept, as an
  -- existing one with that digest, and one with another digest is refused; both change nothing.
  pub begin_operation-again :
      {Q : Type 0} (w later : JournalWorld) (run : Run Q) (id digest other : String)
      (s after : OperationStore) (o : StoredOperation) (fresh : Bool)
      → s.has_client ≡ false
      → (run.uid == "" || (run.namespace == "" || (id == "" || digest == ""))) ≡ false
      → (run.uid == "" || (run.namespace == "" || (id == "" || other == ""))) ≡ false
      → other ≢ digest
      → (begin_operation c w (some run) id digest s).0 ≡ ok (o, fresh)
      → Leads c Q (begin_operation c w (some run) id digest s).1 after
      → (kept : StoredOperation) × (lookup (memory_key (some run) id) after.memory ≡ some kept)
        × (kept.digest ≡ digest)
        × (begin_operation c later (some run) id digest after ≡ (ok (kept, false), after))
        × (begin_operation c later (some run) id other after ≡ (err already_exists, after))
  begin_operation-again w later run id digest other s after o fresh m named named_other ne h calls =
      let key = memory_key (some run) id in
      let first = begin_operation-key c w run id digest s named m in
      let start = begin_in_memory c w key id digest (lookup key s.memory) s in
      let begun : IsBegun c key digest o start.1 =
        begin_in_memory-IsBegun c w key id digest (lookup key s.memory) s o fresh refl m
          (sym (ap (λ (p : Begun × OperationStore). p.0) first) ∙ h) in
      let (kept, k) =
        Leads-IsFenced c key digest
          (o, subst (λ (p : Begun × OperationStore). IsBegun c key digest o p.1) (sym first) begun)
          calls in
      (
        kept,
        k.kept,
        k.same_digest,
        begin_operation-key c later run id digest _ named k.in_memory
            ∙ begin_in_memory-again c later key id digest _ kept k,
        begin_operation-key c later run id other _ named_other k.in_memory
            ∙ begin_in_memory-other c later key id digest other _ kept ne k,
      )
