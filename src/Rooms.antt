-- ===== src/Rooms.antt =====
-- crates/server/src/rooms.rs: the registry of rooms, each with its (at most two) peers.
pub mod Bounds
pub mod Members
pub mod Index
pub mod Exact
pub mod Pairs
pub mod Departure
pub mod Outcomes
pub mod Reach
pub mod Ghosts
mod Examples
use file_send.Prelude.{
  leb, if◌then◌else◌, ◌>>=◌, length, is_empty, first, retain, find, others, Text, nat_key, text_key,
  ℕ, Bool, Option, none, some, List, [], ◌∷◌, ◌++◌,
}
use file_send.HashMap.{HashMap, get, insert, remove, contains_key}

abbrev pub PeerId : Type 0
PeerId = ℕ

pub data JoinOutcome : Type 0 where
  created : Text → JoinOutcome
  joined : JoinOutcome
  full : JoinOutcome
  not_found : JoinOutcome

pub record Room : Type 0 where
  pub peers : List PeerId
  pub last_activity_ms : ℕ

pub record RoomRegistry : Type 0 where
  pub rooms : HashMap Text Room
  pub peer_room : HashMap PeerId Text

unfoldable pub new : RoomRegistry
new = record { rooms = []; peer_room = [] }

unfoldable pub create : RoomRegistry → PeerId → Text → ℕ → RoomRegistry × JoinOutcome
create r peer room_id now_ms = (
  record {
    rooms = insert r.rooms room_id (record { peers = peer ∷ []; last_activity_ms = now_ms });
    peer_room = insert r.peer_room peer room_id;
  },
  created room_id,
)

-- The last arm of `join`: the peer goes to the end of the room that was found.
unfoldable pub enter : RoomRegistry → PeerId → Text → ℕ → Room → RoomRegistry
enter r peer room_id now_ms room = record {
  rooms =
      insert r.rooms room_id
        (record { peers = room.peers ++ peer ∷ []; last_activity_ms = now_ms });
  peer_room = insert r.peer_room peer room_id;
}

unfoldable pub join : RoomRegistry → PeerId → Text → ℕ → RoomRegistry × JoinOutcome
join r peer room_id now_ms = elim (get r.rooms room_id) [
  | none ↦ (r, not_found)
  | some room ↦
      if leb 2 (length room.peers) then (r, full) else (enter r peer room_id now_ms room, joined)
]

abbrev pub contains_room : RoomRegistry → Text → Bool
contains_room r room_id = contains_key r.rooms room_id

unfoldable pub touch : RoomRegistry → Text → ℕ → RoomRegistry
touch r room_id now_ms = elim (get r.rooms room_id) [
  | none ↦ r
  | some room ↦ record r {
    rooms = insert r.rooms room_id (record room { last_activity_ms = now_ms });
  }
]

-- Not yet implemented in the source: it removes nothing.
unfoldable pub reap_idle : RoomRegistry → ℕ → ℕ → RoomRegistry × List Text
reap_idle r _now_ms _ttl_ms = (r, [])

unfoldable pub partner : RoomRegistry → PeerId → Option PeerId
partner r peer = do
  room_id ← get r.peer_room peer
  room ← get r.rooms room_id
  find (others peer) room.peers

-- `remove` once the peer's room is known to exist: what is left of the room, or no room.
unfoldable pub leave : HashMap Text Room → PeerId → Text → Room → HashMap Text Room
leave rooms peer room_id room =
    let rest = retain (others peer) room.peers in
    if is_empty rest
    then remove rooms room_id
    else insert rooms room_id (record room { peers = rest })

unfoldable pub remove_peer : RoomRegistry → PeerId → RoomRegistry × Option PeerId
remove_peer r peer = elim (get r.peer_room peer) [
  | none ↦ (r, none)
  | some room_id ↦
      let peer_room = remove r.peer_room peer in
      elim (get r.rooms room_id) [
        | none ↦ (record r { peer_room = peer_room }, none)
        | some room ↦ (
          record { rooms = leave r.rooms peer room_id room; peer_room = peer_room },
          first (retain (others peer) room.peers),
        )
      ]
]

unfoldable pub debug_room_of : RoomRegistry → PeerId → Option (Text × List PeerId)
debug_room_of r peer = do
  room_id ← get r.peer_room peer
  room ← get r.rooms room_id
  some (room_id, room.peers)
