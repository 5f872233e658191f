-- ===== src/Tests/Operations.antt =====
-- The theorems on the journal of a session operation, with a codec that counts in unary.
use kruntimes.Base.{
  ℕ, zero, suc, ◌≤◌, ◌≡◌, ◌≢◌, refl, ap, String, string_eq, ◌==◌, true, false, [], ◌∷◌, ◌++◌,
  Option, none, some, arith, eq_iff, Bool-cases, inl, inr, if◌then◌else◌,
}
use kruntimes.Base.Int.{ℤ, pos, negsuc}
use kruntimes.Base.Maps.{lookup, insert}
use kruntimes.Base.Text.{join}
use kruntimes.Base.Results.{ok, err}
use kruntimes.Scheduler.Environment.{found, not_found, updated}
use kruntimes.Runtimed.OperationStore.{
  SessionEvent, EventKind, progress_event, completed_event, failed_event, StoredOperation, Codec,
  CodecLaws, append_stored_event, events_after, already_exists,
}
use kruntimes.Runtimed.OperationStore.Broadcast.{offer, subscriber_size}
use kruntimes.Runtimed.OperationStore.Journal.{
  Journaled, begun, appended, new_operation, drop, IsJournal, events_after-eq,
}
use kruntimes.Runtimed.OperationStore.Replay.{
  Follows, subscribes, publishes, new_channel, events_after-Follows,
}
use kruntimes.Runtimed.OperationStore.Calls.{
  JournalWorld, OperationStore, created, begin_operation, memory_key,
}
use kruntimes.Runtimed.OperationStore.Calls.Append.{append_event}
use kruntimes.Runtimed.OperationStore.Calls.Survival.{appends, unchanged, begin_operation-again}
use kruntimes.Runtimed.OperationStore.Calls.Stored.{IsStoredFirst, append_event-IsStoredFirst}
use kruntimes.Tests.Samples.{waiting_run}

unfoldable unary : ℕ → String
unfolding join
unary zero = ""
unary (suc n) = join "x" (unary n)

unfoldable text_length : String → ℕ
text_length String.[] = 0
text_length (String.◌∷◌ c s) = suc (text_length s)

length-unary : (n : ℕ) → text_length (unary n) ≡ n
unfolding text_length unary
length-unary zero = refl
length-unary (suc n) = ap suc (length-unary n)

unfoldable marshal_parts : ℤ → EventKind → String → Option String
unfolding unary
marshal_parts (pos n) progress_event payload = if payload == "" then some (unary n) else none
marshal_parts _ _ payload = none

abbrev unary_codec : Codec
unary_codec = record {
  marshal = λ e. marshal_parts e.sequence e.kind e.payload;
  unmarshal = λ text.
      some (record { sequence = pos (text_length text); kind = progress_event; payload = "" });
  byte_length = text_length;
  marshal_json = λ o. none;
  unmarshal_json = λ text. none;
}

read_back :
    (sequence : ℤ) (kind : EventKind) (payload text : String)
    → marshal_parts sequence kind payload ≡ some text
    → unary_codec.unmarshal text
      ≡ some (record { sequence = sequence; kind = kind; payload = payload })
unfolding marshal_parts
read_back (pos n) progress_event payload text h = elim (Bool-cases (payload == "")) [
  | inl empty ↦
      let written : some (unary n) ≡ some text = rw empty at h in
      let is_text : unary n ≡ text = cc in
      rw (← is_text, length-unary n, (eq_iff payload "").0 empty) refl
  | inr other ↦ absurd (ground (arith, rw other at h))
]
read_back (pos n) completed_event payload text h = absurd (ground arith)
read_back (pos n) failed_event payload text h = absurd (ground arith)
read_back (negsuc n) kind payload text h = absurd (ground arith)

unary_laws : CodecLaws unary_codec
unary_laws = record { unmarshal-marshal = λ e text h. read_back e.sequence e.kind e.payload text h }

abbrev event_of : ℕ → SessionEvent
event_of n = record { sequence = pos n; kind = progress_event; payload = "" }

abbrev begun_operation : StoredOperation
begun_operation = new_operation "op" "digest" 0

abbrev first_stored : StoredOperation
first_stored = record begun_operation {
  events = record { sequence = pos 1; value = "x" } ∷ [];
  updated_at = 5;
}

abbrev both_stored : StoredOperation
both_stored = record begun_operation {
  events =
      record { sequence = pos 1; value = "x" } ∷ record { sequence = pos 2; value = "xx" } ∷ [];
  updated_at = 6;
}

first_marshalled : unary_codec.marshal (event_of 1) ≡ some "x"
unfolding marshal_parts unary join
first_marshalled = refl

second_marshalled : unary_codec.marshal (event_of 2) ≡ some "xx"
unfolding marshal_parts unary join
second_marshalled = refl

first_taken : append_stored_event 5 begun_operation (event_of 1) "x" ≡ ok first_stored
unfolding append_stored_event
first_taken = refl

second_taken : append_stored_event 6 first_stored (event_of 2) "xx" ≡ ok both_stored
unfolding append_stored_event
second_taken = refl

one_event : Journaled unary_codec ([] ++ event_of 1 ∷ []) first_stored
one_event =
    appended 5 (event_of 1) "x" first_stored (begun "op" "digest" 0) first_marshalled first_taken

events_after-eq_example :
    (events_after unary_codec first_stored.events (pos 0) ≡ ok (drop 0 (event_of 1 ∷ [])))
    × IsJournal unary_codec (event_of 1 ∷ []) first_stored
events_after-eq_example =
    events_after-eq unary_codec unary_laws (event_of 1 ∷ []) first_stored 0 one_event

nothing_after : events_after unary_codec first_stored.events (pos 1) ≡ ok []
unfolding events_after
nothing_after = refl

offered : offer (event_of 2) (new_channel 3) ≡ some (record { id = 3; buffer = event_of 2 ∷ [] })
unfolding offer
offered = refl

one_followed :
    Follows unary_codec first_stored
      ([] ++ event_of 2 ∷ [])
      both_stored
      (record { id = 3; buffer = event_of 2 ∷ [] })
      []
one_followed =
    publishes 6 (event_of 2) "xx" both_stored (record { id = 3; buffer = event_of 2 ∷ [] })
      (subscribes 3) second_marshalled second_taken offered

events_after-Follows_example :
    (events_after unary_codec both_stored.events (pos 1) ≡ ok ([] ++ ([] ++ event_of 2 ∷ [])))
    × (1 ≤ subscriber_size)
events_after-Follows_example =
    events_after-Follows unary_codec unary_laws (event_of 1 ∷ []) (event_of 2 ∷ []) [] []
      first_stored both_stored (record { id = 3; buffer = event_of 2 ∷ [] }) 1 one_event
      (omega arith) nothing_after one_followed

abbrev journal_world : JournalWorld
journal_world = record {
  journal = found "journal";
  journal_again = not_found;
  create = created;
  update = updated;
  now = 0;
}

abbrev empty_store : OperationStore
empty_store = record { has_client = false; memory = []; active = []; subscribers = [] }

begins :
    (begin_operation unary_codec journal_world (some waiting_run) "op" "digest" empty_store).0
    ≡ ok (begun_operation, true)
unfolding begin_operation memory_key lookup insert join
begins = refl

digests_differ : ◌≢◌ {A = String} "other" "digest"
digests_differ = ground (arith, eq_iff "other" "digest")

abbrev first_begun : OperationStore
first_begun =
    (begin_operation unary_codec journal_world (some waiting_run) "op" "digest" empty_store).1

abbrev then_appended : OperationStore
then_appended =
    (append_event unary_codec journal_world (memory_key (some waiting_run) "op") (event_of 1)
      first_begun).1

begin_operation-again_example :
    (kept : StoredOperation) × (lookup (memory_key (some waiting_run) "op") then_appended.memory
      ≡ some kept)
    × (kept.digest ≡ "digest")
    × (begin_operation unary_codec journal_world (some waiting_run) "op" "digest" then_appended
        ≡ (ok (kept, false), then_appended))
    × (begin_operation unary_codec journal_world (some waiting_run) "op" "other" then_appended
        ≡ (err already_exists, then_appended))
begin_operation-again_example =
    begin_operation-again unary_codec journal_world journal_world waiting_run "op" "digest" "other"
      empty_store then_appended begun_operation true refl refl refl digests_differ begins
      (appends journal_world (memory_key (some waiting_run) "op") (event_of 1) unchanged)

abbrev json_codec : Codec
json_codec = record {
  marshal = unary_codec.marshal;
  unmarshal = unary_codec.unmarshal;
  byte_length = text_length;
  marshal_json = λ o. some "journal";
  unmarshal_json = λ text. some begun_operation;
}

abbrev durable_store : OperationStore
durable_store = record empty_store { has_client = true }

append_event-IsStoredFirst_example :
    IsStoredFirst json_codec journal_world
      (event_of 1)
      durable_store
      (append_event json_codec journal_world "run-uid/op" (event_of 1) durable_store)
append_event-IsStoredFirst_example =
    append_event-IsStoredFirst json_codec journal_world "run-uid/op" (event_of 1) durable_store refl
