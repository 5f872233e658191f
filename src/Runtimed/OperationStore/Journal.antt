-- ===== src/Runtimed/OperationStore/Journal.antt =====
-- The events that a journal accepts are the events that it replays.
use kruntimes.Base.{
  ℕ, zero, suc, ◌+◌, ◌≤◌, ◌<◌, ◌≡◌, refl, sym, ap, ◌∙◌, String, Bool, true, false, List, [], ◌∷◌,
  ◌++◌, some, arith, length, length-append,
}
use kruntimes.Base.Int.{pos, leb_ℤ}
use kruntimes.Base.Results.{ok}
use kruntimes.Runtimed.OperationStore.{
  SessionEvent, StoredEvent, StoredOperation, Codec, CodecLaws, append_stored_event, events_after,
  cons_event, max_stored_events, is_terminal_kind,
}

abbrev pub drop : {A : Type 0} → ℕ → List A → List A
drop zero xs = xs
drop (suc n) [] = []
drop (suc n) (x ∷ xs) = drop n xs

-- A record that Begin creates.
abbrev pub new_operation : String → String → ℕ → StoredOperation
new_operation operation_id digest now = record {
  operation_id = operation_id;
  digest = digest;
  created_at = now;
  updated_at = now;
  terminal = false;
  events = [];
}

module _ (c : Codec) where
  -- The histories of one journal, with the events that it accepted.
  pub data Journaled : List SessionEvent → StoredOperation → Type 0 where
    begun :
        (operation_id digest : String) (now : ℕ)
        → Journaled [] (new_operation operation_id digest now)
    appended :
        {es : List SessionEvent} {o : StoredOperation} (now : ℕ) (event : SessionEvent)
        (encoded : String) (new : StoredOperation)
        → Journaled es o
        → c.marshal event ≡ some encoded
        → append_stored_event now o event encoded ≡ ok new
        → Journaled (es ++ event ∷ []) new

  -- The sequences count up from a number.
  abbrev pub IsNumbered : ℕ → List SessionEvent → Type 0
  IsNumbered n [] = Unit
  IsNumbered n (e ∷ es) = (e.sequence ≡ pos n) × IsNumbered (suc n) es

  -- Each stored event decodes to the accepted one.
  abbrev pub IsStored : List StoredEvent → List SessionEvent → Type 0
  IsStored [] [] = Unit
  IsStored (s ∷ ss) (e ∷ es) =
      (s.sequence ≡ e.sequence) × (c.unmarshal s.value ≡ some e) × IsStored ss es
  IsStored _ _ = ⊥

  -- Only the last event can be terminal, and the record says whether it is.
  abbrev pub EndsWith : List SessionEvent → Bool → Type 0
  EndsWith [] terminal = terminal ≡ false
  EndsWith (e ∷ []) terminal = terminal ≡ is_terminal_kind e.kind
  EndsWith (e ∷ f ∷ es) terminal = (is_terminal_kind e.kind ≡ false) × EndsWith (f ∷ es) terminal

  pub record IsJournal (es : List SessionEvent) (o : StoredOperation) : Type 0 where
    pub same_length : length o.events ≡ length es
    pub bounded : length es ≤ max_stored_events
    pub numbered : IsNumbered 1 es
    pub stored : IsStored o.events es
    pub ends : EndsWith es o.terminal

  IsNumbered-snoc :
      (n m : ℕ) (es : List SessionEvent) (e : SessionEvent)
      → IsNumbered n es
      → n + length es ≡ m
      → e.sequence ≡ pos m
      → IsNumbered n (es ++ e ∷ [])
  IsNumbered-snoc n m [] e h at s = (s ∙ ap pos (sym (omega arith)), tt)
  IsNumbered-snoc n m (x ∷ es) e h at s = (h.0, IsNumbered-snoc (suc n) m es e h.1 (omega arith) s)

  IsStored-snoc :
      (ss : List StoredEvent) (es : List SessionEvent) (s : StoredEvent) (e : SessionEvent)
      → IsStored ss es
      → s.sequence ≡ e.sequence
      → c.unmarshal s.value ≡ some e
      → IsStored (ss ++ s ∷ []) (es ++ e ∷ [])
  IsStored-snoc [] [] s e h same value = (same, value, tt)
  IsStored-snoc [] (x ∷ es) s e h same value = elim h [ ]
  IsStored-snoc (t ∷ ss) [] s e h same value = elim h [ ]
  IsStored-snoc (t ∷ ss) (x ∷ es) s e h same value =
      let (sequence, decoded, rest) = h in
      (sequence, decoded, IsStored-snoc ss es s e rest same value)

  ends-snoc :
      (es : List SessionEvent) (e : SessionEvent) (before after : Bool)
      → EndsWith es before
      → before ≡ false
      → after ≡ is_terminal_kind e.kind
      → EndsWith (es ++ e ∷ []) after
  ends-snoc [] e before after h opened now = now
  ends-snoc (x ∷ []) e before after h opened now = (sym h ∙ opened, now)
  ends-snoc (x ∷ y ∷ es) e before after h opened now =
      (h.0, ends-snoc (y ∷ es) e before after h.1 opened now)

  -- What an accepted append does.
  pub record IsAppended (o : StoredOperation) (event : SessionEvent) (encoded : String)
      (new : StoredOperation) : Type 0 where
    pub was_open : o.terminal ≡ false
    pub had_room : length o.events < max_stored_events
    pub is_next : event.sequence ≡ pos (suc (length o.events))
    pub new_events :
        new.events ≡ o.events ++ record { sequence = event.sequence; value = encoded } ∷ []
    pub new_terminal : new.terminal ≡ is_terminal_kind event.kind

  pub append_stored_event-IsAppended :
      (now : ℕ) (o : StoredOperation) (event : SessionEvent) (encoded : String)
      (new : StoredOperation)
      → append_stored_event now o event encoded ≡ ok new
      → IsAppended o event encoded new
  unfolding append_stored_event
  append_stored_event-IsAppended now o event encoded new h = record {
    was_open = ground arith;
    had_room = ground arith;
    is_next = ground arith;
    new_events = ground arith;
    new_terminal = ground arith;
  }

  appended-IsJournal :
      (laws : CodecLaws c) (es : List SessionEvent) (o : StoredOperation) (event : SessionEvent)
      (encoded : String) (new : StoredOperation)
      → c.marshal event ≡ some encoded
      → IsAppended o event encoded new
      → IsJournal es o
      → IsJournal (es ++ event ∷ []) new
  appended-IsJournal laws es o event encoded new marshalled a h = record {
    same_length = rw a.new_events (
        omega (
          arith,
          length-append o.events (record { sequence = event.sequence; value = encoded } ∷ []),
          length-append es (event ∷ []),
          h.same_length,
        ));
    bounded = omega (arith, length-append es (event ∷ []), h.same_length, a.had_room);
    numbered =
        IsNumbered-snoc 1 (suc (length o.events)) es event h.numbered (omega (arith, h.same_length))
          a.is_next;
    stored = rw a.new_events (
        IsStored-snoc o.events es (record { sequence = event.sequence; value = encoded }) event
          h.stored refl (laws.unmarshal-marshal event encoded marshalled));
    ends = ends-snoc es event o.terminal new.terminal h.ends a.was_open a.new_terminal;
  }

  pub Journaled-IsJournal :
      (laws : CodecLaws c) {es : List SessionEvent} {o : StoredOperation}
      → Journaled es o
      → IsJournal es o
  Journaled-IsJournal laws (begun operation_id digest now) = record {
    same_length = refl;
    bounded = omega arith;
    numbered = tt;
    stored = tt;
    ends = refl;
  }
  Journaled-IsJournal laws (appended {es} {o} now event encoded new r marshalled accepted) =
      appended-IsJournal laws es o event encoded new marshalled
        (append_stored_event-IsAppended now o event encoded new accepted)
        (Journaled-IsJournal laws r)

  events_after-all :
      (k m : ℕ) (ss : List StoredEvent) (es : List SessionEvent)
      → k < m
      → IsNumbered m es
      → IsStored ss es
      → events_after c ss (pos k) ≡ ok es
  unfolding events_after cons_event
  events_after-all k m [] [] late n st = refl
  events_after-all k m [] (e ∷ es) late n st = elim st [ ]
  events_after-all k m (s ∷ ss) [] late n st = elim st [ ]
  events_after-all k m (s ∷ ss) (e ∷ es) late n st =
      let (same, decoded, rest) = st in
      let at : s.sequence ≡ pos m = same ∙ n.0 in
      let new : leb_ℤ s.sequence (pos k) ≡ false = ground arith in
      rw (new, decoded, events_after-all k (suc m) ss es (omega arith) n.1 rest) refl

  events_after-drop :
      (d k m : ℕ) (ss : List StoredEvent) (es : List SessionEvent)
      → k + 1 ≡ m + d
      → IsNumbered m es
      → IsStored ss es
      → events_after c ss (pos k) ≡ ok (drop d es)
  unfolding events_after
  events_after-drop zero k m ss es at n st = events_after-all k m ss es (omega arith) n st
  events_after-drop (suc d) k m [] [] at n st = refl
  events_after-drop (suc d) k m [] (e ∷ es) at n st = elim st [ ]
  events_after-drop (suc d) k m (s ∷ ss) [] at n st = elim st [ ]
  events_after-drop (suc d) k m (s ∷ ss) (e ∷ es) at n st =
      let (same, decoded, rest) = st in
      let here : s.sequence ≡ pos m = same ∙ n.0 in
      let old : leb_ℤ s.sequence (pos k) ≡ true = ground arith in
      rw old (events_after-drop d k (suc m) ss es (omega arith) n.1 rest)

  -- For any history of a journal, where what the codec writes can be read back: reading it after cursor
  -- `k` gives exactly the accepted events but the first `k`, in their order. The events are numbered
  -- from one without a gap, they are at most 128, and only the last can be terminal.
  pub events_after-eq :
      (laws : CodecLaws c) (es : List SessionEvent) (o : StoredOperation) (k : ℕ)
      → Journaled es o
      → (events_after c o.events (pos k) ≡ ok (drop k es)) × IsJournal es o
  events_after-eq laws es o k r =
      let h = Journaled-IsJournal laws r in
      (events_after-drop k k 1 o.events es (omega arith) h.numbered h.stored, h)
