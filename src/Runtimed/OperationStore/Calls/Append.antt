-- ===== src/Runtimed/OperationStore/Calls/Append.antt =====
-- Append: an event is stored, and then delivered to the subscribers.
use kruntimes.Base.{String, string_eq, Bool, List, [], Option, none, some, if◌then◌else◌, ltb}
use kruntimes.Base.Int.{pos, ltb_ℤ}
use kruntimes.Base.Maps.{lookup, insert, delete}
use kruntimes.Base.Results.{Result, ok, err, ◌>>=◌}
use kruntimes.Scheduler.Environment.{
  Answer, found, not_found, unavailable, UpdateAnswer, updated, conflict, update_failed,
}
use kruntimes.Runtimed.OperationStore.{
  SessionEvent, StoredOperation, StoreError, invalid_argument, unavailable_error, not_found_error,
  resource_exhausted, internal_error, Codec, append_stored_event, encode_journal, decode_journal,
  max_stored_bytes,
}
use kruntimes.Runtimed.OperationStore.Broadcast.{Channel, broadcast}
use kruntimes.Runtimed.OperationStore.Calls.{JournalWorld, OperationStore}

-- What an Append leaves: the answer with the channels that were closed, the store, and the journal
-- text that was sent with Update, if any was.
abbrev pub Appended : Type 0
Appended = Result StoreError (List Channel) × OperationStore × Option String

module _ (c : Codec) (w : JournalWorld) where
  -- An operation that ended is no longer active.
  unfoldable pub ended : String → Bool → OperationStore → OperationStore
  ended key terminal s = if terminal then record s { active = delete key s.active } else s

  unfoldable pub published_to :
      String
      → SessionEvent
      → StoredOperation
      → Option (List Channel)
      → OperationStore
      → OperationStore × List Channel
  unfolding ended
  published_to key event o none s = (ended key o.terminal s, [])
  published_to key event o (some channels) s =
      let sent = broadcast event o.terminal channels in
      (
        ended key o.terminal
            (record s { subscribers = insert key sent.open_channels s.subscribers }),
        sent.closed_channels,
      )

  -- The event was stored: the subscribers hear of it. The channels that were closed come with it.
  unfoldable pub published :
      String → SessionEvent → StoredOperation → OperationStore → OperationStore × List Channel
  unfolding published_to
  published key event o s = published_to key event o (lookup key s.subscribers) s

  unfoldable pub append_updated :
      String → SessionEvent → StoredOperation → String → UpdateAnswer → OperationStore → Appended
  unfolding published
  append_updated key event o sent updated s =
      let (new, closed) = published key event o s in (ok closed, new, some sent)
  append_updated key event o sent conflict s = (err unavailable_error, s, some sent)
  append_updated key event o sent update_failed s = (err unavailable_error, s, some sent)

  unfoldable pub append_encoded :
      String
      → SessionEvent
      → Result StoreError (StoredOperation × String)
      → OperationStore
      → Appended
  unfolding append_updated
  append_encoded key event (err e) s = (err e, s, none)
  append_encoded key event (ok (o, text)) s = append_updated key event o text w.update s

  unfoldable pub encode_with : StoredOperation → Result StoreError (StoredOperation × String)
  encode_with o = do text ← encode_journal c o; ok (o, text)

  unfoldable pub append_durable :
      String → SessionEvent → String → Answer String → OperationStore → Appended
  unfolding append_encoded encode_with
  append_durable key event encoded not_found s = (err not_found_error, s, none)
  append_durable key event encoded unavailable s = (err unavailable_error, s, none)
  append_durable key event encoded (found text) s =
      append_encoded key event
        (do
          o ← decode_journal c text
          new ← append_stored_event w.now o event encoded
          encode_with new)
        s

  unfoldable pub append_accepted :
      String → SessionEvent → Result StoreError StoredOperation → OperationStore → Appended
  unfolding published
  append_accepted key event (err e) s = (err e, s, none)
  append_accepted key event (ok o) s =
      let (new, closed) = published key event o (record s { memory = insert key o s.memory }) in
      (ok closed, new, none)

  unfoldable pub append_in_memory :
      String → SessionEvent → String → Option StoredOperation → OperationStore → Appended
  unfolding append_accepted
  append_in_memory key event encoded none s = (err not_found_error, s, none)
  append_in_memory key event encoded (some o) s =
      append_accepted key event (append_stored_event w.now o event encoded) s

  unfoldable pub append_marshalled :
      String → SessionEvent → Option String → OperationStore → Appended
  unfolding append_durable append_in_memory
  append_marshalled key event none s = (err internal_error, s, none)
  append_marshalled key event (some encoded) s =
      if ltb max_stored_bytes (c.byte_length encoded)
      then (err resource_exhausted, s, none)
      else if s.has_client
      then append_durable key event encoded w.journal s
      else append_in_memory key event encoded (lookup key s.memory) s

  -- Append, of an event that is there; it returns the channels that were closed.
  unfoldable pub append_event : String → SessionEvent → OperationStore → Appended
  unfolding append_marshalled
  append_event key event s =
      if ltb_ℤ (pos 0) event.sequence
      then append_marshalled key event (c.marshal event) s
      else (err invalid_argument, s, none)
