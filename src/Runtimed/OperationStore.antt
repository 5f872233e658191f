-- ===== src/Runtimed/OperationStore.antt =====
-- internal/runtimed/session_operation_store.go: the journal of the events of a session operation. The
-- codecs of protobuf and JSON are a parameter; a text stands for bytes.
pub mod Broadcast
pub mod Calls
pub mod Journal
pub mod Replay
use kruntimes.Base.{
  ℕ, suc, ◌≡◌, String, string_eq, ◌==◌, Bool, true, false, ◌||◌, not, List, [], ◌∷◌, ◌++◌, Option,
  none, some, if◌then◌else◌, length, ltb, leb,
}
use kruntimes.Base.Int.{ℤ, pos, leb_ℤ, ltb_ℤ}
use kruntimes.Base.Results.{Result, ok, err, ◌>>=◌}

abbrev pub max_stored_events : ℕ
max_stored_events = 128

abbrev pub max_stored_bytes : ℕ
max_stored_bytes = 8192

abbrev pub max_journal_bytes : ℕ
max_journal_bytes = 786432

-- The body of a SessionOperationEvent, of which the store tells the terminal kinds apart.
pub data EventKind : Type 0 where
  progress_event completed_event failed_event : EventKind

pub record SessionEvent : Type 0 where
  pub sequence : ℤ
  pub kind : EventKind
  pub payload : String

pub record StoredEvent : Type 0 where
  pub sequence : ℤ
  pub value : String

pub record StoredOperation : Type 0 where
  pub operation_id : String
  pub digest : String
  pub created_at : ℕ
  pub updated_at : ℕ
  pub terminal : Bool
  pub events : List StoredEvent

-- The gRPC codes of the errors.
pub data StoreError : Type 0 where
  invalid_argument already_exists unavailable_error not_found_error : StoreError
  failed_precondition resource_exhausted internal_error : StoreError

-- `none` is an error of the codec.
pub record Codec : Type 0 where
  pub marshal : SessionEvent → Option String
  pub unmarshal : String → Option SessionEvent
  pub byte_length : String → ℕ
  pub marshal_json : StoredOperation → Option String
  pub unmarshal_json : String → Option StoredOperation

-- An event that protobuf marshals can be read back.
pub record CodecLaws (c : Codec) : Type 0 where
  pub unmarshal-marshal :
      (e : SessionEvent) (text : String) → c.marshal e ≡ some text → c.unmarshal text ≡ some e

abbrev pub is_terminal_kind : EventKind → Bool
is_terminal_kind progress_event = false
is_terminal_kind completed_event = true
is_terminal_kind failed_event = true

abbrev eq_ℤ : ℤ → ℤ → Bool
eq_ℤ a b = if leb_ℤ a b then leb_ℤ b a else false

-- appendStoredSessionOperationEvent, of a record that is there
unfoldable pub append_stored_event :
    ℕ → StoredOperation → SessionEvent → String → Result StoreError StoredOperation
append_stored_event now o event encoded =
    if o.terminal
    then err failed_precondition
    else if leb max_stored_events (length o.events)
    then err resource_exhausted
    else if not (eq_ℤ event.sequence (pos (suc (length o.events))))
    then err internal_error
    else ok (record o {
      events = o.events ++ record { sequence = event.sequence; value = encoded } ∷ [];
      updated_at = now;
      terminal = is_terminal_kind event.kind;
    })

module _ (c : Codec) where
  cons_event :
      Option SessionEvent
      → Result StoreError (List SessionEvent)
      → Result StoreError (List SessionEvent)
  cons_event none rest = err internal_error
  cons_event (some e) (err x) = err x
  cons_event (some e) (ok es) = ok (e ∷ es)

  -- The loop of storedSessionOperationEventsAfter.
  unfoldable pub events_after : List StoredEvent → ℤ → Result StoreError (List SessionEvent)
  unfolding cons_event
  events_after [] after = ok []
  events_after (stored ∷ rest) after =
      let later = events_after rest after in
      if leb_ℤ stored.sequence after then later else cons_event (c.unmarshal stored.value) later

  within_limit : Option String → Result StoreError String
  within_limit none = err internal_error
  within_limit (some text) =
      if ltb max_journal_bytes (c.byte_length text) then err resource_exhausted else ok text

  unfoldable pub encode_journal : StoredOperation → Result StoreError String
  unfolding within_limit
  encode_journal o = within_limit (c.marshal_json o)

  valid_journal : Option StoredOperation → Result StoreError StoredOperation
  valid_journal none = err internal_error
  valid_journal (some o) =
      if (o.operation_id == "") || ((o.digest == "") || ltb max_stored_events (length o.events))
      then err internal_error
      else ok o

  -- decodeSessionOperationJournal, of the text of the config map; a missing one is empty.
  unfoldable pub decode_journal : String → Result StoreError StoredOperation
  unfolding valid_journal
  decode_journal text =
      let decoded = valid_journal (c.unmarshal_json text) in
      if text == "" then err internal_error else decoded
