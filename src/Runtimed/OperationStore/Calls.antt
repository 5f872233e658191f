-- ===== src/Runtimed/OperationStore/Calls.antt =====
-- The calls on the store; here Begin. Without a client the journals
-- stand in memory; with one they stand in config maps, and `JournalWorld` holds the answers of the API.
-- A nil store, which every call refuses, is left out, and so is the name of the config map, a hash of
-- the key.
pub mod Append
pub mod Subscribe
pub mod Survival
pub mod Fence
pub mod Stored
use kruntimes.Base.{
  ℕ, String, string_eq, ◌==◌, Bool, true, false, ◌||◌, List, [], ◌∷◌, ◌++◌, Option, none, some,
  if◌then◌else◌, ltb, nat_eq,
}
use kruntimes.Base.Int.{ℤ, pos, ltb_ℤ, leb_ℤ}
use kruntimes.Base.Maps.{Map, lookup, insert, delete}
use kruntimes.Base.Text.{join}
use kruntimes.Base.Results.{Result, ok, err, ◌>>=◌}
use kruntimes.Api.Run.{Run}
use kruntimes.Scheduler.Environment.{
  Answer, found, not_found, unavailable, UpdateAnswer, updated, conflict, update_failed,
}
use kruntimes.Runtimed.OperationStore.{
  SessionEvent, StoredOperation, StoreError, invalid_argument, already_exists, unavailable_error,
  not_found_error, resource_exhausted, internal_error, Codec, append_stored_event, events_after,
  encode_journal, decode_journal, max_stored_bytes,
}
use kruntimes.Runtimed.OperationStore.Broadcast.{Channel, Sorted, broadcast}
use kruntimes.Runtimed.OperationStore.Journal.{new_operation}

pub data CreateAnswer : Type 0 where
  created already_there create_failed : CreateAnswer

-- The text of the journal that each read finds, and the answers to the writes.
pub record JournalWorld : Type 0 where
  pub journal : Answer String
  pub journal_again : Answer String
  pub create : CreateAnswer
  pub update : UpdateAnswer
  pub now : ℕ

pub record OperationStore : Type 0 where
  pub has_client : Bool
  pub memory : Map String StoredOperation
  pub active : Map String Bool
  pub subscribers : Map String (List Channel)

-- The record, and whether it is new.
abbrev pub Begun : Type 0
Begun = Result StoreError (StoredOperation × Bool)

memory_key_of : {Q : Type 0} → Option (Run Q) → String → String
memory_key_of none id = id
memory_key_of (some run) id = join run.uid (join "/" id)

-- sessionOperationMemoryKey
unfoldable pub memory_key : {Q : Type 0} → Option (Run Q) → String → String
unfolding memory_key_of
memory_key run id = memory_key_of run id

fenced : String → StoredOperation → Begun
fenced digest o = if o.digest == digest then ok (o, false) else err already_exists

fenced_text : String → Result StoreError StoredOperation → Begun
unfolding fenced
fenced_text digest (err e) = err e
fenced_text digest (ok o) = fenced digest o

module _ (c : Codec) (w : JournalWorld) where
  -- beginExistingLocked
  begin_existing : String → Answer String → Begun
  unfolding fenced_text
  begin_existing digest (found text) = fenced_text digest (decode_journal c text)
  begin_existing digest _ = err unavailable_error

  begin_created :
      String → String → StoredOperation → CreateAnswer → OperationStore → Begun × OperationStore
  unfolding begin_existing
  begin_created key digest o created s =
      (ok (o, true), record s { active = insert key true s.active })
  begin_created key digest o already_there s = (begin_existing digest w.journal_again, s)
  begin_created key digest o create_failed s = (err unavailable_error, s)

  begin_encoded :
      String
      → String
      → StoredOperation
      → Result StoreError String
      → OperationStore
      → Begun × OperationStore
  unfolding begin_created
  begin_encoded key digest o (err e) s = (err e, s)
  begin_encoded key digest o (ok text) s = begin_created key digest o w.create s

  begin_durable : String → String → String → Answer String → OperationStore → Begun × OperationStore
  unfolding begin_encoded fenced_text
  begin_durable key id digest (found text) s = (fenced_text digest (decode_journal c text), s)
  begin_durable key id digest unavailable s = (err unavailable_error, s)
  begin_durable key id digest not_found s =
      let o = new_operation id digest w.now in begin_encoded key digest o (encode_journal c o) s

  pub begin_in_memory :
      String → String → String → Option StoredOperation → OperationStore → Begun × OperationStore
  unfolding fenced
  begin_in_memory key id digest (some o) s = (fenced digest o, s)
  begin_in_memory key id digest none s =
      let o = new_operation id digest w.now in
      (ok (o, true), record s { memory = insert key o s.memory; active = insert key true s.active })

  pub begin_with_key : String → String → String → OperationStore → Begun × OperationStore
  unfolding begin_durable begin_in_memory
  begin_with_key key id digest s =
      if s.has_client
      then begin_durable key id digest w.journal s
      else begin_in_memory key id digest (lookup key s.memory) s

  -- Begin
  unfoldable pub begin_operation :
      {Q : Type 0} → Option (Run Q) → String → String → OperationStore → Begun × OperationStore
  unfolding begin_with_key
  begin_operation none id digest s = (err invalid_argument, s)
  begin_operation (some run) id digest s =
      let answer = begin_with_key (memory_key (some run) id) id digest s in
      if run.uid == "" || (run.namespace == "" || (id == "" || digest == ""))
      then (err invalid_argument, s)
      else answer
