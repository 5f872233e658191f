-- ===== src/Runtimed/OperationStore/Calls/Subscribe.antt =====
-- Record, Subscribe, the cancel function that it returns, and Active.
use kruntimes.Base.{
  ℕ, String, string_eq, ◌==◌, Bool, true, false, List, [], ◌∷◌, Option, none, some, if◌then◌else◌,
  nat_eq,
}
use kruntimes.Base.Int.{ℤ, pos, ltb_ℤ}
use kruntimes.Base.Maps.{lookup, insert}
use kruntimes.Base.Results.{Result, ok, err}
use kruntimes.Api.Run.{Run}
use kruntimes.Scheduler.Environment.{Answer, found, not_found, unavailable}
use kruntimes.Runtimed.OperationStore.{
  SessionEvent, StoredOperation, StoreError, invalid_argument, unavailable_error, not_found_error,
  Codec, events_after, decode_journal,
}
use kruntimes.Runtimed.OperationStore.Broadcast.{Channel}
use kruntimes.Runtimed.OperationStore.Calls.{JournalWorld, OperationStore, memory_key}

module _ (c : Codec) (w : JournalWorld) where
  read_durable : Answer String → Result StoreError StoredOperation
  read_durable (found text) = decode_journal c text
  read_durable not_found = err not_found_error
  read_durable unavailable = err unavailable_error

  read_in_memory : Option StoredOperation → Result StoreError StoredOperation
  read_in_memory none = err not_found_error
  read_in_memory (some o) = ok o

  -- readLocked, which is Record too
  unfoldable pub read_record :
      {Q : Type 0} → Option (Run Q) → String → OperationStore → Result StoreError StoredOperation
  unfolding read_durable read_in_memory
  read_record none id s = err invalid_argument
  read_record (some run) id s =
      if run.uid == ""
      then err invalid_argument
      else if s.has_client
      then read_durable w.journal
      else read_in_memory (lookup (memory_key (some run) id) s.memory)

  -- The replayed events, and the channel unless the operation has ended.
  abbrev pub Subscription : Type 0
  Subscription = Result StoreError (List SessionEvent × Option Channel)

  with_channel : Option (List Channel) → Channel → List Channel
  with_channel none channel = channel ∷ []
  with_channel (some channels) channel = channel ∷ channels

  unfoldable pub subscribe_replayed :
      String
      → Channel
      → Bool
      → Result StoreError (List SessionEvent)
      → OperationStore
      → Subscription × OperationStore
  unfolding with_channel
  subscribe_replayed key channel terminal (err e) s = (err e, s)
  subscribe_replayed key channel true (ok events) s = (ok (events, none), s)
  subscribe_replayed key channel false (ok events) s = (
    ok (events, some channel),
    record s {
      subscribers = insert key (with_channel (lookup key s.subscribers) channel) s.subscribers;
    },
  )

  unfoldable pub subscribe_read :
      String
      → Channel
      → ℤ
      → Result StoreError StoredOperation
      → OperationStore
      → Subscription × OperationStore
  unfolding subscribe_replayed
  subscribe_read key channel after (err e) s = (err e, s)
  subscribe_read key channel after (ok o) s =
      subscribe_replayed key channel o.terminal (events_after c o.events after) s

  -- Subscribe, with the number of the channel that it makes.
  unfoldable pub subscribe :
      {Q : Type 0}
      → ℕ
      → Option (Run Q)
      → String
      → ℤ
      → OperationStore
      → Subscription × OperationStore
  unfolding subscribe_read
  subscribe id run operation_id after s =
      let answer =
        subscribe_read (memory_key run operation_id) (record { id = id; buffer = [] }) after
          (read_record run operation_id s) s in
      if ltb_ℤ after (pos 0) then (err invalid_argument, s) else answer

is_set : Option Bool → Bool
is_set none = false
is_set (some b) = b

-- Active
unfoldable pub is_active_operation : {Q : Type 0} → Option (Run Q) → String → OperationStore → Bool
unfolding is_set
is_active_operation run id s = is_set (lookup (memory_key run id) s.active)

pub others : ℕ → List Channel → List Channel
others id [] = []
others id (channel ∷ channels) =
    let rest = others id channels in if nat_eq channel.id id then rest else channel ∷ rest

-- The cancel function that Subscribe returns.
unfoldable pub cancel_subscription : String → ℕ → OperationStore → OperationStore
unfolding others
cancel_subscription key id s = elim (lookup key s.subscribers) [
  | none ↦ s
  | some channels ↦ record s { subscribers = insert key (others id channels) s.subscribers }
]
