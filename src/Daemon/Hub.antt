-- ===== src/Daemon/Hub.antt =====
-- internal/daemon/hub.go: a client's buffers. Events are numbered here; the mutex makes enqueue and
-- next atomic, so a run is a sequence of them. The payload of an event plays no part.

pub mod Lossy
mod Tests
use smart_buster.Prelude.{
  ℕ, ◌+◌, Bool, true, false, Option, none, some, List, [], ◌∷◌, ◌++◌, ltb, leb, if◌then◌else◌,
  length, drop,
}
use smart_buster.Engine.Events.{EventType, hit, stats, snapshot}

pub record Event : Type 0 where
  pub kind : EventType
  pub id : ℕ

-- What a client is sent: an event, or the count of the hits that it lost
pub data Message : Type 0 where
  single : Event → Message
  coalesced : ℕ → Message

pub data Lane : Type 0 where
  lane_important lane_latest lane_hit : Lane

abbrev pub classify_kind : EventType → Lane
classify_kind stats = lane_latest
classify_kind snapshot = lane_latest
classify_kind hit = lane_hit
classify_kind _ = lane_important

abbrev pub classify : Event → Lane
classify ev = classify_kind ev.kind

abbrev pub client_buf_cap : ℕ
client_buf_cap = 256

-- The map `latest` has the two event types of its lane for keys.
pub record Client : Type 0 where
  pub important : List Event
  pub latest_stats : Option Event
  pub latest_snapshot : Option Event
  pub hits : List Event
  pub hit_dropped : ℕ
  pub closed : Bool

abbrev pub new_client : Client
new_client = record {
  important = [];
  latest_stats = none;
  latest_snapshot = none;
  hits = [];
  hit_dropped = 0;
  closed = false;
}

abbrev pub is_stats : EventType → Bool
is_stats stats = true
is_stats _ = false

-- `latest[ev.Type] = ev`
unfoldable pub put_latest : Event → Client → Client
put_latest ev cl =
    if is_stats ev.kind
    then record cl { latest_stats = some ev }
    else record cl { latest_snapshot = some ev }

unfoldable pub put_hit : Event → Client → Client × Bool
put_hit ev cl =
    if leb client_buf_cap (length cl.hits)
    then (record cl { hits = drop 1 cl.hits ++ ev ∷ []; hit_dropped = cl.hit_dropped + 1 }, false)
    else (record cl { hits = cl.hits ++ ev ∷ [] }, true)

unfoldable pub put : Event → Lane → Client → Client × Bool
unfolding put_hit put_latest
put ev lane_latest cl = (put_latest ev cl, true)
put ev lane_hit cl = put_hit ev cl
put ev lane_important cl = (record cl { important = cl.important ++ ev ∷ [] }, true)

-- Client.enqueue: the client, and whether nothing was dropped
unfoldable pub enqueue : Event → Client → Client × Bool
unfolding put
enqueue ev cl = if cl.closed then (cl, false) else put ev (classify ev) cl

unfoldable pub next_hit : Client → List Event → Option Message × Client
next_hit cl [] = (none, cl)
next_hit cl (ev ∷ hits) = (some (single ev), record cl { hits = hits })

unfoldable pub next_lossy : Client → Option Message × Client
unfolding next_hit
next_lossy cl =
    if ltb 0 cl.hit_dropped
    then (some (coalesced cl.hit_dropped), record cl { hit_dropped = 0 })
    else next_hit cl cl.hits

-- Go's order over a map is open; `stats_first` is what it comes to this time.
unfoldable pub next_latest : Bool → Client → Option Event → Option Event → Option Message × Client
unfolding next_lossy
next_latest stats_first cl none none = next_lossy cl
next_latest stats_first cl (some a) none = (some (single a), record cl { latest_stats = none })
next_latest stats_first cl none (some b) = (some (single b), record cl { latest_snapshot = none })
next_latest stats_first cl (some a) (some b) =
    if stats_first
    then (some (single a), record cl { latest_stats = none })
    else (some (single b), record cl { latest_snapshot = none })

unfoldable pub next_important : Bool → Client → List Event → Option Message × Client
unfolding next_latest
next_important stats_first cl [] = next_latest stats_first cl cl.latest_stats cl.latest_snapshot
next_important stats_first cl (ev ∷ important) =
    (some (single ev), record cl { important = important })

-- Client.next, where every event can be marshalled
unfoldable pub next : Bool → Client → Option Message × Client
unfolding next_important
next stats_first cl = next_important stats_first cl cl.important
