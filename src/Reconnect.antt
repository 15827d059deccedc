-- ===== src/Reconnect.antt =====
-- crates/client/src/reconnect.rs, the reducer of the signaling handshake, with the status of ui.rs
-- that it sets and the parts of app.rs that feed it.
pub mod Reclaims
pub mod Guard
mod Examples
use file_send.Prelude.{
  if◌then◌else◌, ◌>>=◌, Text, text, nat_key, text_key, ite, Bool, true, false, not, ◌&&◌, Option,
  none, some, List, [], ◌∷◌, ◌++◌,
}
use file_send.Wire.{SignalMsg}

pub data Status : Type 0 where
  idle : Status
  waiting_for_peer : Status
  connecting : Status
  connected : Status
  reconnecting : Status
  peer_left : Status
  room_full : Status
  room_not_found : Status
  error : Text → Status

pub data Event : Type 0 where
  opened : Event
  created : Text → Event
  peer_joined : Event
  offer : Text → Event
  answer : Text → Event
  ice : Event
  peer_left : Event
  room_full : Event
  room_not_found : Event

pub record Session : Type 0 where
  pub room_in_hash : Option Text
  pub owns : Option Text
  pub reclaim_tried : Bool
  pub has_pc : Bool

pub data Action : Type 0 where
  send_create : Action
  send_join : Text → Action
  send_reclaim : Text → Action
  build_pc_and_offer : Action
  build_pc_and_answer : Text → Action
  set_remote_answer : Text → Action
  add_ice : Action
  teardown_pc : Action
  set_status : Status → Action
  persist_room : Text → Action

-- `matches!((&s.room_in_hash, &s.owns), (Some(h), Some(o)) if h == o)`.
unfoldable pub is_owner : Option Text → Option Text → Bool
is_owner (some h) (some o) = ite (text_key.same h o) true false
is_owner _ _ = false

-- The arm of `RoomNotFound`; `none` is the panic of `expect`.
unfoldable pub room_lost : Session → Option (Session × List Action)
unfolding is_owner
room_lost s =
    if is_owner s.room_in_hash s.owns && not s.reclaim_tried
    then (do
      room ← s.room_in_hash
      some (record s { reclaim_tried = true }, send_reclaim room ∷ []))
    else some (s, set_status Status.room_not_found ∷ [])

unfoldable pub step : Session → Event → Option (Session × List Action)
unfolding room_lost
step s opened = elim s.room_in_hash [
  | some room ↦ some (s, send_join room ∷ [])
  | none ↦ some (s, send_create ∷ [])
]
step s Event.peer_joined = some (record s { has_pc = true }, build_pc_and_offer ∷ [])
step s (offer description) = some (record s { has_pc = true }, build_pc_and_answer description ∷ [])
step s (answer description) = some (s, if s.has_pc then set_remote_answer description ∷ [] else [])
step s Event.ice = some (s, if s.has_pc then add_ice ∷ [] else [])
step s Event.peer_left =
    some (record s { has_pc = false }, teardown_pc ∷ set_status Status.peer_left ∷ [])
step s (Event.created room) = some (
  record s { owns = some room; room_in_hash = some room },
  persist_room room ∷ set_status Status.waiting_for_peer ∷ [],
)
step s Event.room_full = some (s, set_status Status.room_full ∷ [])
step s Event.room_not_found = room_lost s

-- app.rs, `on_disconnect`: what an unexpected drop of the socket resets.
unfoldable pub dropped_session : Session → Session
dropped_session s = record s { has_pc = false; reclaim_tried = false }

-- app.rs: the event that an inbound message is for the reducer.
unfoldable pub event_of : SignalMsg → Option Event
event_of (SignalMsg.created room) = some (Event.created room)
event_of SignalMsg.peer_joined = some Event.peer_joined
event_of (SignalMsg.sdp description kind) =
    ite (text_key.same kind (text "offer")) (some (offer description)) (some (answer description))
event_of (SignalMsg.ice candidate) = some Event.ice
event_of SignalMsg.peer_left = some Event.peer_left
event_of SignalMsg.room_full = some Event.room_full
event_of SignalMsg.room_not_found = some Event.room_not_found
event_of _ = none

-- What happens to a session: an event, or a drop of the socket.
pub data Input : Type 0 where
  event : Event → Input
  socket_drop : Input

unfoldable pub feed : Session → Input → Option (Session × List Action)
feed s (event ev) = step s ev
feed s socket_drop = some (dropped_session s, [])

-- The session and all actions after a list of inputs.
unfoldable pub run : Session → List Input → Option (Session × List Action)
run s [] = some (s, [])
run s (i ∷ is) = do (t, acts) ← feed s i; (u, more) ← run t is; some (u, acts ++ more)
