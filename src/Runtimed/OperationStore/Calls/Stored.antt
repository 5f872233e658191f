-- ===== src/Runtimed/OperationStore/Calls/Stored.antt =====
-- An event is stored before it is delivered.
use kruntimes.Base.{
  ◌≡◌, inl, inr, refl, sym, ap, String, string_eq, Bool, true, Option, none, some, Bool-cases,
  if◌then◌else◌, ltb,
}
use mathlib.Core.Path.{subst}
use kruntimes.Base.Int.{pos, ltb_ℤ}
use kruntimes.Base.Results.{Result, ok, err, >>=-eq-ok}
use kruntimes.Scheduler.Environment.{
  Answer, found, not_found, unavailable, UpdateAnswer, updated, conflict, update_failed,
}
use kruntimes.Runtimed.OperationStore.{
  SessionEvent, StoredOperation, StoreError, Codec, append_stored_event, decode_journal,
  encode_journal, max_stored_bytes,
}
use kruntimes.Runtimed.OperationStore.Calls.{JournalWorld, OperationStore}
use kruntimes.Runtimed.OperationStore.Calls.Append.{
  Appended, append_durable, append_encoded, encode_with, append_updated, append_marshalled,
  append_event,
}

module _ (c : Codec) where
  pick_true : {A : Type 0} (b : Bool) (x y : A) → b ≡ true → (if b then x else y) ≡ x
  pick_true b x y h = rw h refl

  -- The journal was read, took the event, and the API accepted the text of the new journal.
  pub record IsPersisted (w : JournalWorld) (event : SessionEvent) (sent : Option String)
      : Type 0 where
    pub text : String
    pub encoded : String
    pub old : StoredOperation
    pub new : StoredOperation
    pub was_read : w.journal ≡ found text
    pub decoded : decode_journal c text ≡ ok old
    pub marshalled : c.marshal event ≡ some encoded
    pub took : append_stored_event w.now old event encoded ≡ ok new
    pub written : String
    pub is_new : encode_journal c new ≡ ok written
    pub was_sent : sent ≡ some written
    pub accepted : w.update ≡ updated

  -- Nothing changed and an error was returned, or the event is in the journal.
  abbrev pub IsStoredFirst : JournalWorld → SessionEvent → OperationStore → Appended → Type 0
  IsStoredFirst w event s (err e, new, sent) = new ≡ s
  IsStoredFirst w event s (ok closed, new, sent) = IsPersisted w event sent

  append_updated-IsStoredFirst :
      (w : JournalWorld) (key : String) (event : SessionEvent) (new : StoredOperation)
      (sent : String) (answer : UpdateAnswer) (s : OperationStore)
      → (answer ≡ updated → IsPersisted w event (some sent))
      → IsStoredFirst w event s (append_updated c w key event new sent answer s)
  unfolding append_updated
  append_updated-IsStoredFirst w key event new sent updated s h = h refl
  append_updated-IsStoredFirst w key event new sent conflict s h = refl
  append_updated-IsStoredFirst w key event new sent update_failed s h = refl

  append_encoded-IsStoredFirst :
      (w : JournalWorld) (key : String) (event : SessionEvent)
      (r : Result StoreError (StoredOperation × String)) (s : OperationStore)
      → ((p : StoredOperation × String)
          → r ≡ ok p
          → w.update ≡ updated
          → IsPersisted w event (some p.1))
      → IsStoredFirst w event s (append_encoded c w key event r s)
  unfolding append_encoded
  append_encoded-IsStoredFirst w key event (err e) s h = refl
  append_encoded-IsStoredFirst w key event (ok (o, text)) s h =
      append_updated-IsStoredFirst w key event o text w.update s (h (o, text) refl)

  append_durable-IsStoredFirst :
      (w : JournalWorld) (key encoded : String) (event : SessionEvent) (answer : Answer String)
      (s : OperationStore)
      → w.journal ≡ answer
      → c.marshal event ≡ some encoded
      → IsStoredFirst w event s (append_durable c w key event encoded answer s)
  unfolding append_durable encode_with
  append_durable-IsStoredFirst w key encoded event not_found s read m = refl
  append_durable-IsStoredFirst w key encoded event unavailable s read m = refl
  append_durable-IsStoredFirst w key encoded event (found text) s read m =
      append_encoded-IsStoredFirst w key event _ s (λ p r accepted.
        let (old, decoded, rest) = >>=-eq-ok (decode_journal c text) _ r in
        let (new, took, rest₂) = >>=-eq-ok (append_stored_event w.now old event encoded) _ rest in
        let (written, is_new, pair) = >>=-eq-ok (encode_journal c new) _ rest₂ in
        let sent : written ≡ p.1 = cc in
        record {
          text = text;
          encoded = encoded;
          old = old;
          new = new;
          was_read = read;
          decoded = decoded;
          marshalled = m;
          took = took;
          written = written;
          is_new = is_new;
          was_sent = ap some (sym sent);
          accepted = accepted;
        })

  append_marshalled-IsStoredFirst :
      (w : JournalWorld) (key : String) (event : SessionEvent) (o : Option String)
      (s : OperationStore)
      → c.marshal event ≡ o
      → s.has_client ≡ true
      → IsStoredFirst w event s (append_marshalled c w key event o s)
  unfolding append_marshalled
  append_marshalled-IsStoredFirst w key event none s m durable = refl
  append_marshalled-IsStoredFirst w key event (some encoded) s m durable =
      elim (Bool-cases (ltb max_stored_bytes (c.byte_length encoded))) [
        | inl large ↦ rw large refl
        | inr small ↦ rw small (
            subst (IsStoredFirst w event s) (sym (pick_true s.has_client _ _ durable))
              (append_durable-IsStoredFirst w key encoded event w.journal s refl m))
      ]

  -- With a client, for any answers of the API: an Append that fails changes nothing, so no subscriber
  -- hears of its event; one that succeeds has read the journal, appended the event to it as its next
  -- one, sent the text of the journal with that event, and had the update accepted.
  pub append_event-IsStoredFirst :
      (w : JournalWorld) (key : String) (event : SessionEvent) (s : OperationStore)
      → s.has_client ≡ true
      → IsStoredFirst w event s (append_event c w key event s)
  unfolding append_event
  append_event-IsStoredFirst w key event s durable =
      elim (Bool-cases (ltb_ℤ (pos 0) event.sequence)) [
        | inl counted ↦
            rw counted
              (append_marshalled-IsStoredFirst w key event (c.marshal event) s refl durable)
        | inr uncounted ↦ rw uncounted refl
      ]
