-- ===== src/Server/Moves.antt =====
-- How a message of ws.rs moves the registry.
use file_send.Prelude.{
  Bool-cases, Option-cases, Text, nat_key, text_key, ℕ, ◌≡◌, refl, sym, subst, inl, inr, false,
}
use file_send.Rooms.{
  PeerId, JoinOutcome, joined, full, not_found, RoomRegistry, create, join, contains_room, partner,
}
use file_send.Limiter.{IpAddr, ip_key, allowed}
use file_send.Server.{
  AppState, Env, send_to, announce, create_room, check, reclaim_check, on_reclaim, settle, on_join,
  relay, handle_message,
}
use file_send.Server.Queues.{send_to_frame}
use file_send.Wire.{SignalMsg}

pub data Move (r : RoomRegistry) (peer : PeerId) : RoomRegistry → Type 0 where
  keeps : Move r peer r
  creates :
      (id : Text) (now : ℕ) → contains_room r id ≡ false → Move r peer (create r peer id now).0
  joins : (id : Text) (now : ℕ) → Move r peer (join r peer id now).0

module _ (s : AppState) (peer : PeerId) where
  send_to-Move :
      (r : RoomRegistry) (q : PeerId) (msg : SignalMsg)
      → Move r peer s.registry
      → Move r peer (send_to s q msg).registry
  send_to-Move r q msg m = subst (Move r peer) (sym (send_to_frame s q msg).0) m

pub create_room-registry :
    (s : AppState) (peer : PeerId) (room : Text) (now : ℕ)
    → (create_room s peer room now).registry ≡ (create s.registry peer room now).0
unfolding create_room announce create
create_room-registry s peer room now = (send_to_frame _ peer (SignalMsg.created room)).0

pub settle-registry :
    (s : AppState) (peer : PeerId) (ip : IpAddr) (now : ℕ) (o : JoinOutcome)
    → (settle s peer ip now o).registry ≡ s.registry
unfolding settle
settle-registry s peer ip now joined = elim (Option-cases (partner s.registry peer)) [
  | inl e ↦ rw (e, settle) refl
  | inr (q, e) ↦ rw (e, settle) (send_to_frame s q SignalMsg.peer_joined).0
]
settle-registry s peer ip now full = (send_to_frame _ peer SignalMsg.room_full).0
settle-registry s peer ip now not_found = (send_to_frame _ peer SignalMsg.room_not_found).0
settle-registry s peer ip now (JoinOutcome.created _) = refl

pub relay-registry :
    (s : AppState) (peer : PeerId) (msg : SignalMsg) → (relay s peer msg).registry ≡ s.registry
unfolding relay
relay-registry s peer msg = elim (Option-cases (partner s.registry peer)) [
  | inl e ↦ rw (e, relay) refl
  | inr (q, e) ↦ rw (e, relay) (send_to_frame s q msg).0
]

on_join-Move :
    (s : AppState) (peer : PeerId) (ip : IpAddr) (room : Text) (now : ℕ)
    → Move s.registry peer (on_join s peer ip room now).registry
unfolding on_join check
on_join-Move s peer ip room now = elim (Bool-cases (allowed s.join_limiter ip now).1) [
  | inl may ↦
      rw (may, on_join)
        (subst (Move s.registry peer) (sym (settle-registry _ peer ip now _)) (joins room now))
  | inr over ↦
      rw (over, on_join) (send_to-Move _ peer s.registry peer SignalMsg.room_not_found keeps)
]

on_reclaim-Move :
    (s : AppState) (peer : PeerId) (ip : IpAddr) (room : Text) (now : ℕ)
    → Move s.registry peer (on_reclaim s peer ip room now).registry
unfolding on_reclaim reclaim_check check
on_reclaim-Move s peer ip room now = elim (Bool-cases (allowed s.join_limiter ip now).1) [
  | inl may ↦ elim (Bool-cases (contains_room s.registry room)) [
    | inl live ↦
        rw (may, on_reclaim, live)
          (send_to-Move _ peer s.registry peer SignalMsg.room_not_found keeps)
    | inr absent ↦
        rw (may, on_reclaim, absent)
          (subst (Move s.registry peer) (sym (create_room-registry _ peer room now))
            (creates room now absent))
  ]
  | inr over ↦
      rw (over, on_reclaim) (send_to-Move _ peer s.registry peer SignalMsg.room_not_found keeps)
]

-- A message keeps the registry, creates a room that was not there, or joins one, if the code that
-- nanoid draws is not in use.
pub handle_message-Move :
    (e : Env) (s : AppState) (peer : PeerId) (ip : IpAddr) (msg : SignalMsg)
    → contains_room s.registry e.gen_room_id ≡ false
    → Move s.registry peer (handle_message e s peer ip msg).registry
unfolding handle_message
handle_message-Move e s peer ip SignalMsg.create fresh =
    subst (Move s.registry peer) (sym (create_room-registry s peer e.gen_room_id e.now_ms))
      (creates e.gen_room_id e.now_ms fresh)
handle_message-Move e s peer ip (SignalMsg.reclaim room) fresh =
    on_reclaim-Move s peer ip room e.now_ms
handle_message-Move e s peer ip (SignalMsg.join room) fresh = on_join-Move s peer ip room e.now_ms
handle_message-Move e s peer ip (SignalMsg.sdp description kind) fresh =
    subst (Move s.registry peer) (sym (relay-registry s peer (SignalMsg.sdp description kind)))
      keeps
handle_message-Move e s peer ip (SignalMsg.ice candidate) fresh =
    subst (Move s.registry peer) (sym (relay-registry s peer (SignalMsg.ice candidate))) keeps
handle_message-Move e s peer ip _ fresh = keeps
