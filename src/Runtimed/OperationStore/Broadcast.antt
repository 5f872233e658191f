-- ===== src/Runtimed/OperationStore/Broadcast.antt =====
-- The subscribers of an operation: bounded channels, of which a full one is detached.
use kruntimes.Base.{ℕ, Bool, List, [], ◌∷◌, ◌++◌, Option, none, some, if◌then◌else◌, length, ltb}
use kruntimes.Runtimed.OperationStore.{SessionEvent}

abbrev pub subscriber_size : ℕ
subscriber_size = 16

-- A channel and what is in it.
pub record Channel : Type 0 where
  pub id : ℕ
  pub buffer : List SessionEvent

-- The `select` of the loop: a send that would block detaches the subscriber.
unfoldable pub offer : SessionEvent → Channel → Option Channel
offer event channel =
    if ltb (length channel.buffer) subscriber_size
    then some (record channel { buffer = channel.buffer ++ event ∷ [] })
    else none

-- The channels that stay in the map, and those that are closed.
pub record Sorted : Type 0 where
  pub open_channels : List Channel
  pub closed_channels : List Channel

place : Channel → Option Channel → Sorted → Sorted
place old none s = record s { closed_channels = old ∷ s.closed_channels }
place old (some new) s = record s { open_channels = new ∷ s.open_channels }

offer_all : SessionEvent → List Channel → Sorted
unfolding place offer
offer_all event [] = record { open_channels = []; closed_channels = [] }
offer_all event (channel ∷ channels) =
    place channel (offer event channel) (offer_all event channels)

-- broadcastLocked; after a terminal event all are closed.
unfoldable pub broadcast : SessionEvent → Bool → List Channel → Sorted
unfolding offer_all
broadcast event terminal channels =
    let sent = offer_all event channels in
    if terminal
    then record { open_channels = []; closed_channels = sent.closed_channels ++ sent.open_channels }
    else sent
