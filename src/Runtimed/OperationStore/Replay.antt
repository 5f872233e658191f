-- ===== src/Runtimed/OperationStore/Replay.antt =====
-- A subscriber that keeps up misses nothing: what it replays, what it received and what waits in its
-- channel are the events after its cursor.
use kruntimes.Base.{
  ℕ, zero, suc, ◌≤◌, ◌≡◌, refl, sym, ap, ◌∙◌, String, List, [], ◌∷◌, ◌++◌, some, arith, length,
  length-append,
}
use kruntimes.Base.Int.{pos}
use kruntimes.Base.Results.{Result, ok}
use kruntimes.Runtimed.OperationStore.{
  SessionEvent, StoredOperation, Codec, CodecLaws, append_stored_event, events_after, StoreError,
}
use kruntimes.Runtimed.OperationStore.Broadcast.{Channel, offer, subscriber_size}
use kruntimes.Runtimed.OperationStore.Journal.{Journaled, appended, drop, events_after-eq}

abbrev pub new_channel : ℕ → Channel
new_channel id = record { id = id; buffer = [] }

append_assoc : (xs ys zs : List SessionEvent) → (xs ++ ys) ++ zs ≡ xs ++ (ys ++ zs)
append_assoc [] ys zs = refl
append_assoc (x ∷ xs) ys zs = ap (λ l. x ∷ l) (append_assoc xs ys zs)

append_nil : (xs : List SessionEvent) → xs ++ [] ≡ xs
append_nil [] = refl
append_nil (x ∷ xs) = ap (λ l. x ∷ l) (append_nil xs)

drop-append :
    (k : ℕ) (xs ys : List SessionEvent) → k ≤ length xs → drop k (xs ++ ys) ≡ drop k xs ++ ys
drop-append zero xs ys h = refl
drop-append (suc k) [] ys h = absurd (omega arith)
drop-append (suc k) (x ∷ xs) ys h = drop-append k xs ys (omega arith)

module _ (c : Codec) where
  -- A subscriber that is still attached: the events since it subscribed, the record, its channel, and
  -- what it has received from it.
  pub data Follows (start : StoredOperation)
      : List SessionEvent → StoredOperation → Channel → List SessionEvent → Type 0 where
    subscribes : (id : ℕ) → Follows start [] start (new_channel id) []
    publishes :
        {live received : List SessionEvent} {o : StoredOperation} {channel : Channel} (now : ℕ)
        (event : SessionEvent) (encoded : String) (new : StoredOperation) (later : Channel)
        → Follows start live o channel received
        → c.marshal event ≡ some encoded
        → append_stored_event now o event encoded ≡ ok new
        → offer event channel ≡ some later
        → Follows start (live ++ event ∷ []) new later received
    receives :
        {live received : List SessionEvent} {o : StoredOperation} {channel : Channel}
        (event : SessionEvent) (rest : List SessionEvent)
        → Follows start live o channel received
        → channel.buffer ≡ event ∷ rest
        → Follows start live o (record channel { buffer = rest }) (received ++ event ∷ [])

  record IsFollowed (es live : List SessionEvent) (o : StoredOperation) (channel : Channel)
      (received : List SessionEvent) : Type 0 where
    journaled : Journaled c (es ++ live) o
    all_sent : live ≡ received ++ channel.buffer
    within : length channel.buffer ≤ subscriber_size

  offer-buffer :
      (event : SessionEvent) (channel later : Channel)
      → offer event channel ≡ some later
      → (later.buffer ≡ channel.buffer ++ event ∷ []) × (length later.buffer ≤ subscriber_size)
  unfolding offer
  offer-buffer event channel later h =
      (ground arith, ground (arith, length-append channel.buffer (event ∷ [])))

  Follows-IsFollowed :
      (es : List SessionEvent) (start : StoredOperation) {live received : List SessionEvent}
      {o : StoredOperation} {channel : Channel}
      → Journaled c es start
      → Follows start live o channel received
      → IsFollowed es live o channel received
  Follows-IsFollowed es start j (subscribes id) = record {
    journaled = rw (append_nil es) j;
    all_sent = refl;
    within = omega arith;
  }
  Follows-IsFollowed es start j
        (publishes {live} {received} {o} {channel} now event encoded new later r m a offered) =
      let h = Follows-IsFollowed es start j r in
      let (buffer, within) = offer-buffer event channel later offered in
      record {
        journaled =
            rw (← append_assoc es live (event ∷ []))
              (appended now event encoded new h.journaled m a);
        all_sent =
            ap (λ l. l ++ event ∷ []) h.all_sent
            ∙ append_assoc received channel.buffer (event ∷ [])
            ∙ ap (λ l. received ++ l) (sym buffer);
        within = within;
      }
  Follows-IsFollowed es start j (receives {live} {received} {o} {channel} event rest r e) =
      let h = Follows-IsFollowed es start j r in
      record {
        journaled = h.journaled;
        all_sent =
            h.all_sent ∙ ap (λ l. received ++ l) e ∙ sym (append_assoc received (event ∷ []) rest);
        within = ground (arith, h.within);
      }

  -- For any journal, a cursor within it, and any interleaving of appends with what the subscriber
  -- receives, as long as it is not detached: the events of the journal after the cursor are exactly
  -- those that were replayed, then those received, then those that wait in the channel, which are at
  -- most sixteen.
  pub events_after-Follows :
      (laws : CodecLaws c) (es live received replayed : List SessionEvent)
      (start o : StoredOperation) (channel : Channel) (k : ℕ)
      → Journaled c es start
      → k ≤ length es
      → events_after c start.events (pos k) ≡ ok replayed
      → Follows start live o channel received
      → (events_after c o.events (pos k) ≡ ok (replayed ++ (received ++ channel.buffer)))
        × (length channel.buffer ≤ subscriber_size)
  events_after-Follows laws es live received replayed start o channel k j small replay f =
      let h = Follows-IsFollowed es start j f in
      let (now_after, _) = events_after-eq c laws (es ++ live) o k h.journaled in
      let (then_after, _) = events_after-eq c laws es start k j in
      let same : ok replayed ≡ ok (drop k es) = sym replay ∙ then_after in
      let kept : drop k es ≡ replayed = ok_injective (sym same) in
      (
        now_after
            ∙ ap ok (
                drop-append k es live small
                ∙ ap (λ l. l ++ live) kept
                ∙ ap (λ l. replayed ++ l) h.all_sent),
        h.within,
      )
    where
      ok_injective :
          {xs ys : List SessionEvent}
          → ◌≡◌ {A = Result StoreError (List SessionEvent)} (ok xs) (ok ys)
          → xs ≡ ys
      ok_injective e = cc
