-- ===== src/Server/Senders.antt =====
-- A rule for what every message of ws.rs does to the queues: it only sends.
use file_send.Prelude.{
  Bool-cases, Option-cases, Text, nat_key, text_key, ℕ, ◌≡◌, refl, ◌∙◌, inl, inr, List,
}
use file_send.HashMap.{HashMap, contains_key}
use file_send.Rooms.{PeerId, JoinOutcome, joined, full, not_found, create, contains_room, partner}
use file_send.Limiter.{IpAddr, ip_key, allowed}
use file_send.Wire.{SignalMsg}
use file_send.Server.Queues.{send_to_frame, contains_key-send_to}
use file_send.Server.{
  AppState, Env, send_to, announce, create_room, check, fail, reclaim_check, on_reclaim, settle,
  on_join, relay, handle_message,
}

-- The part of the state that messages change by sending alone.
abbrev pub outer : AppState → HashMap PeerId (List SignalMsg) × ℕ
outer s = (s.senders, s.next_id)

-- A predicate on it that sending keeps is kept by every message.
module _ (P : HashMap PeerId (List SignalMsg) × ℕ → Type 0)
    (sent : (t : AppState) (q : PeerId) (m : SignalMsg)
      → P (outer t)
      → P (outer (send_to t q m))) where
  create_room-senders :
      (s : AppState) (peer : PeerId) (room : Text) (now : ℕ)
      → P (outer s)
      → P (outer (create_room s peer room now))
  unfolding create_room announce create
  create_room-senders s peer room now h = sent _ peer (SignalMsg.created room) h

  settle-senders :
      (s : AppState) (peer : PeerId) (ip : IpAddr) (now : ℕ) (o : JoinOutcome)
      → P (outer s)
      → P (outer (settle s peer ip now o))
  unfolding settle fail
  settle-senders s peer ip now joined h = elim (Option-cases (partner s.registry peer)) [
    | inl e ↦ rw (e, settle) h
    | inr (q, e) ↦ rw (e, settle) (sent s q SignalMsg.peer_joined h)
  ]
  settle-senders s peer ip now full h = sent (fail s ip now) peer SignalMsg.room_full h
  settle-senders s peer ip now not_found h = sent (fail s ip now) peer SignalMsg.room_not_found h
  settle-senders s peer ip now (JoinOutcome.created _) h = h

  on_join-senders :
      (s : AppState) (peer : PeerId) (ip : IpAddr) (room : Text) (now : ℕ)
      → P (outer s)
      → P (outer (on_join s peer ip room now))
  unfolding on_join check
  on_join-senders s peer ip room now h = elim (Bool-cases (allowed s.join_limiter ip now).1) [
    | inl may ↦ rw (may, on_join) (settle-senders _ peer ip now _ h)
    | inr over ↦ rw (over, on_join) (sent _ peer SignalMsg.room_not_found h)
  ]

  on_reclaim-senders :
      (s : AppState) (peer : PeerId) (ip : IpAddr) (room : Text) (now : ℕ)
      → P (outer s)
      → P (outer (on_reclaim s peer ip room now))
  unfolding on_reclaim reclaim_check check fail
  on_reclaim-senders s peer ip room now h = elim (Bool-cases (allowed s.join_limiter ip now).1) [
    | inl may ↦ elim (Bool-cases (contains_room s.registry room)) [
      | inl live ↦ rw (may, on_reclaim, live) (sent _ peer SignalMsg.room_not_found h)
      | inr absent ↦ rw (may, on_reclaim, absent) (create_room-senders _ peer room now h)
    ]
    | inr over ↦ rw (over, on_reclaim) (sent _ peer SignalMsg.room_not_found h)
  ]

  relay-senders :
      (s : AppState) (peer : PeerId) (msg : SignalMsg) → P (outer s) → P (outer (relay s peer msg))
  unfolding relay
  relay-senders s peer msg h = elim (Option-cases (partner s.registry peer)) [
    | inl e ↦ rw (e, relay) h
    | inr (q, e) ↦ rw (e, relay) (sent s q msg h)
  ]

  pub handle_message-senders :
      (e : Env) (s : AppState) (peer : PeerId) (ip : IpAddr) (msg : SignalMsg)
      → P (outer s)
      → P (outer (handle_message e s peer ip msg))
  unfolding handle_message
  handle_message-senders e s peer ip SignalMsg.create h =
      create_room-senders s peer e.gen_room_id e.now_ms h
  handle_message-senders e s peer ip (SignalMsg.reclaim room) h =
      on_reclaim-senders s peer ip room e.now_ms h
  handle_message-senders e s peer ip (SignalMsg.join room) h =
      on_join-senders s peer ip room e.now_ms h
  handle_message-senders e s peer ip (SignalMsg.sdp description kind) h =
      relay-senders s peer (SignalMsg.sdp description kind) h
  handle_message-senders e s peer ip (SignalMsg.ice candidate) h =
      relay-senders s peer (SignalMsg.ice candidate) h
  handle_message-senders e s peer ip _ h = h

-- So no message opens or closes a queue.
pub contains_key-handle_message :
    (e : Env) (s : AppState) (peer : PeerId) (ip : IpAddr) (msg : SignalMsg) (q : PeerId)
    → contains_key (handle_message e s peer ip msg).senders q ≡ contains_key s.senders q
contains_key-handle_message e s peer ip msg q =
    handle_message-senders (λ o. contains_key o.0 q ≡ contains_key s.senders q)
      (λ t p m h. contains_key-send_to t p m q ∙ h) e s peer ip msg refl

pub next_id-handle_message :
    (e : Env) (s : AppState) (peer : PeerId) (ip : IpAddr) (msg : SignalMsg)
    → (handle_message e s peer ip msg).next_id ≡ s.next_id
next_id-handle_message e s peer ip msg =
    handle_message-senders (λ o. o.1 ≡ s.next_id) (λ t p m h. (send_to_frame t p m).2 ∙ h) e s peer
      ip msg refl
