-- ===== src/Server.antt =====
-- crates/server/src/ws.rs: the signaling server. A message queue that the source sends to by a
-- channel is the list of its messages that are not drained; the logging is left out.
pub mod Queues
pub mod Moves
pub mod Refusal
pub mod Codes
pub mod Eviction
pub mod Isolation
pub mod Budget
pub mod Senders
pub mod Departure
pub mod Handshake
pub mod Reach
pub mod Race
mod Examples
use file_send.Prelude.{
  if◌then◌else◌, Text, nat_key, text_key, ℕ, ◌+◌, ◌%◌, ◌^◌, Bool, true, false, Option, none, some,
  List, [], ◌∷◌, ◌++◌,
}
use file_send.HashMap.{HashMap, get, insert, remove}
use file_send.Rooms.{
  PeerId, JoinOutcome, joined, full, not_found, RoomRegistry, create, join, contains_room, partner,
  remove_peer,
}
use file_send.Rooms
use file_send.Limiter.{IpAddr, ip_key, JoinLimiter, allowed, record_failure}
use file_send.Limiter
use file_send.Wire.{SignalMsg, Json}

abbrev pub join_window_ms : ℕ
join_window_ms = 60_000

abbrev pub join_max_failures : ℕ
join_max_failures = 30

pub record AppState : Type 0 where
  pub registry : RoomRegistry
  pub senders : HashMap PeerId (List SignalMsg)
  pub next_id : ℕ
  pub join_limiter : JoinLimiter

unfoldable pub new : AppState
new = record {
  registry = Rooms.new;
  senders = [];
  next_id = 1;
  join_limiter = Limiter.new join_window_ms join_max_failures;
}

-- What the environment answers while a message is handled: the clock, and the code that nanoid
-- draws.
pub record Env : Type 0 where
  pub now_ms : ℕ
  pub gen_room_id : Text

unfoldable pub send_to : AppState → PeerId → SignalMsg → AppState
send_to s peer msg = elim (get s.senders peer) [
  | none ↦ s
  | some tx ↦ record s { senders = insert s.senders peer (tx ++ msg ∷ []) }
]

-- The start of `handle_socket`: `fetch_add` wraps.
unfoldable pub connect : AppState → AppState × PeerId
connect s = (
  record s { next_id = (s.next_id + 1) % 2 ^ 64; senders = insert s.senders s.next_id [] },
  s.next_id,
)

-- `if let JoinOutcome::Created(room) = outcome`.
unfoldable pub announce : AppState → PeerId → JoinOutcome → AppState
announce s peer (JoinOutcome.created room) = send_to s peer (SignalMsg.created room)
announce s peer _ = s

unfoldable pub create_room : AppState → PeerId → Text → ℕ → AppState
create_room s peer room now_ms =
    announce (record s { registry = (create s.registry peer room now_ms).0 }) peer
      (create s.registry peer room now_ms).1

-- `allowed` writes to the limiter too.
unfoldable pub check : AppState → IpAddr → ℕ → AppState × Bool
check s ip now_ms = (
  record s { join_limiter = (allowed s.join_limiter ip now_ms).0 },
  (allowed s.join_limiter ip now_ms).1,
)

unfoldable pub fail : AppState → IpAddr → ℕ → AppState
fail s ip now_ms = record s { join_limiter = record_failure s.join_limiter ip now_ms }

-- The tests of `Reclaim`, each under its own lock: may the room be created after them?
unfoldable pub reclaim_check : AppState → PeerId → IpAddr → Text → ℕ → AppState × Bool
unfolding check fail
reclaim_check s peer ip room now_ms =
    let (checked, may) = check s ip now_ms in
    if may
    then (if contains_room checked.registry room
        then (send_to (fail checked ip now_ms) peer SignalMsg.room_not_found, false)
        else (checked, true))
    else (send_to checked peer SignalMsg.room_not_found, false)

unfoldable pub on_reclaim : AppState → PeerId → IpAddr → Text → ℕ → AppState
on_reclaim s peer ip room now_ms =
    let (checked, may) = reclaim_check s peer ip room now_ms in
    if may then create_room checked peer room now_ms else checked

-- The `match outcome` of `Join`.
unfoldable pub settle : AppState → PeerId → IpAddr → ℕ → JoinOutcome → AppState
unfolding fail
settle s peer ip now_ms joined = elim (partner s.registry peer) [
  | none ↦ s
  | some q ↦ send_to s q SignalMsg.peer_joined
]
settle s peer ip now_ms full = send_to (fail s ip now_ms) peer SignalMsg.room_full
settle s peer ip now_ms not_found = send_to (fail s ip now_ms) peer SignalMsg.room_not_found
settle s peer ip now_ms (JoinOutcome.created _) = s

unfoldable pub on_join : AppState → PeerId → IpAddr → Text → ℕ → AppState
unfolding check
on_join s peer ip room now_ms =
    let (checked, may) = check s ip now_ms in
    if may
    then settle (record checked { registry = (join checked.registry peer room now_ms).0 }) peer ip
        now_ms (join checked.registry peer room now_ms).1
    else send_to checked peer SignalMsg.room_not_found

unfoldable pub relay : AppState → PeerId → SignalMsg → AppState
relay s peer msg = elim (partner s.registry peer) [ none ↦ s | some q ↦ send_to s q msg ]

unfoldable pub handle_message : Env → AppState → PeerId → IpAddr → SignalMsg → AppState
handle_message e s peer ip SignalMsg.create = create_room s peer e.gen_room_id e.now_ms
handle_message e s peer ip (SignalMsg.reclaim room) = on_reclaim s peer ip room e.now_ms
handle_message e s peer ip (SignalMsg.join room) = on_join s peer ip room e.now_ms
handle_message e s peer ip (SignalMsg.sdp description kind) =
    relay s peer (SignalMsg.sdp description kind)
handle_message e s peer ip (SignalMsg.ice candidate) = relay s peer (SignalMsg.ice candidate)
handle_message e s peer ip _ = s

-- The end of `handle_socket`.
unfoldable pub notify_left : AppState → Option PeerId → AppState
notify_left s none = s
notify_left s (some q) = send_to s q SignalMsg.peer_left

unfoldable pub disconnect : AppState → PeerId → AppState
unfolding notify_left
disconnect s peer =
    let told =
      notify_left (record s { registry = (remove_peer s.registry peer).0 })
        (remove_peer s.registry peer).1 in
    record told { senders = remove told.senders peer }

-- A frame of the socket, and whether the read loop goes on after it.
pub data Frame : Type 0 where
  text_frame : Text → Frame
  close_frame : Frame
  other_frame : Frame

unfoldable pub on_frame :
    Json SignalMsg → Env → AppState → PeerId → IpAddr → Frame → AppState × Bool
on_frame json e s peer ip (text_frame t) = elim (json.from_str t) [
  | none ↦ (s, true)
  | some msg ↦ (handle_message e s peer ip msg, true)
]
on_frame json e s peer ip close_frame = (s, false)
on_frame json e s peer ip other_frame = (s, true)

-- One turn of the task that drains a peer's queue to its socket.
unfoldable pub drain_entry : AppState → PeerId → List SignalMsg → AppState × Option SignalMsg
drain_entry s peer [] = (s, none)
drain_entry s peer (msg ∷ tx) = (record s { senders = insert s.senders peer tx }, some msg)

unfoldable pub drain : AppState → PeerId → AppState × Option SignalMsg
unfolding drain_entry
drain s peer = elim (get s.senders peer) [ none ↦ (s, none) | some tx ↦ drain_entry s peer tx ]
