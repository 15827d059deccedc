-- ===== src/Server/Reach.antt =====
-- The states that the server of ws.rs reaches when its handlers run one at a time: sockets open
-- (ids stay below 2^64) and close, frames arrive on connected sockets, queues drain, in any order; a
-- code that nanoid draws is not in use. Handlers that interleave between two locks are not covered.
use file_send.Rooms.Departure.{peer_room-remove_peer}
use file_send.Server.Departure.{disconnect-registry, disconnect-rest, contains_key-disconnect}
use file_send.Prelude.{
  ◌==◌, if◌then◌else◌, Option-cases, contains, Text, nat_key, text_key, ◌+◌, ◌^◌, ◌<◌, ◌≡◌, refl,
  sym, ◌∙◌, subst, ◌⊎◌, inl, inr, true, false, some, List, [], ◌∷◌, arith,
}
use file_send.HashMap.{HashMap, get, insert, contains_key}
use file_send.HashMap.Laws.{get-insert}
use file_send.Rooms.{PeerId, RoomRegistry, create, enter, join, contains_room}
use file_send.Rooms.Members.{members}
use file_send.Rooms.Bounds.{IsBounded, create-IsBounded, join-IsBounded, remove_peer-IsBounded}
use file_send.Rooms.Index.{IsIndexed, create-IsIndexed, join-IsIndexed, remove_peer-IsIndexed}
use file_send.Limiter.{IpAddr, ip_key}
use file_send.Limiter.Recorded.{recorded}
use file_send.Wire.{SignalMsg, Json}
use file_send.Server.Moves.{Move, keeps, creates, joins, handle_message-Move}
use file_send.Server.Budget.{IsWithin, handle_message-IsWithin}
use file_send.Server.Senders.{contains_key-handle_message, next_id-handle_message}
use file_send.Rooms
use file_send.Limiter
use file_send.Server.{
  AppState, new, Env, connect, handle_message, disconnect, Frame, text_frame, close_frame,
  other_frame, on_frame, drain_entry, drain,
}

pub data Step (s : AppState) : AppState → Type 0 where
  connects : s.next_id + 1 < 2 ^ 64 → Step s (connect s).0
  frames :
      (json : Json SignalMsg) (e : Env) (p : PeerId) (ip : IpAddr) (f : Frame)
      → contains_key s.senders p ≡ true
      → contains_room s.registry e.gen_room_id ≡ false
      → Step s (on_frame json e s p ip f).0
  disconnects : (p : PeerId) → Step s (disconnect s p)
  drains : (p : PeerId) → Step s (drain s p).0

pub data Reach (s : AppState) : AppState → Type 0 where
  here : Reach s s
  next : {t u : AppState} → Reach s t → Step t u → Reach s u

-- The index names connected peers only, and the next id is above every connected peer's.
pub record Inv (s : AppState) : Type 0 where
  pub bounded : IsBounded s.registry
  pub indexed : IsIndexed s.registry
  pub within : IsWithin s.join_limiter
  pub connected :
      (p : PeerId) (id : Text)
      → get s.registry.peer_room p ≡ some id
      → contains_key s.senders p ≡ true
  pub unused : (p : PeerId) → contains_key s.senders p ≡ true → p < s.next_id

contains_key-insert :
    (m : HashMap PeerId (List SignalMsg)) (p q : PeerId) (tx : List SignalMsg)
    → contains_key (insert m p tx) q ≡ (if p == q then true else contains_key m q)
unfolding contains_key
contains_key-insert m p q tx = ground (arith, get-insert m p q tx)

contains_key-some :
    (m : HashMap PeerId (List SignalMsg)) (p : PeerId) {tx : List SignalMsg}
    → get m p ≡ some tx
    → contains_key m p ≡ true
unfolding contains_key
contains_key-some m p e = ground arith

new-Inv : Inv new
unfolding new Rooms.new Limiter.new get members contains contains_key recorded
new-Inv = record {
  bounded = λ id room e. ground arith;
  indexed = λ p id e. ground arith;
  within = record { window = refl; cap = refl; counted = λ j. omega arith };
  connected = λ p id e. ground arith;
  unused = λ p e. ground arith;
}

connect-Inv : (s : AppState) → s.next_id + 1 < 2 ^ 64 → Inv s → Inv (connect s).0
unfolding connect
connect-Inv s small h = record {
  bounded = h.bounded;
  indexed = h.indexed;
  within = h.within;
  connected =
      λ p id e. ground (arith, contains_key-insert s.senders s.next_id p [], h.connected p id e);
  unused = λ p e. ground (arith, contains_key-insert s.senders s.next_id p [], h.unused p);
}

-- Only the peer that moves gets a new entry in the index.
Move-peer_room :
    {r : RoomRegistry} {peer : PeerId} {t : RoomRegistry} (p : PeerId) (id : Text)
    → Move r peer t
    → get t.peer_room p ≡ some id
    → (p ≡ peer) ⊎ (get r.peer_room p ≡ some id)
Move-peer_room p id keeps e = inr e
Move-peer_room {r} {peer} p id (creates j now absent) e =
    unfold create in ground (arith, get-insert r.peer_room peer p j)
Move-peer_room {r} {peer} p id (joins j now) e =
    unfold join enter in ground (arith, get-insert r.peer_room peer p j)

Move-IsBounded :
    {r : RoomRegistry} {peer : PeerId} {t : RoomRegistry}
    → Move r peer t
    → IsBounded r
    → IsBounded t
Move-IsBounded keeps h = h
Move-IsBounded {r} {peer} (creates id now absent) h = create-IsBounded r peer id now h
Move-IsBounded {r} {peer} (joins id now) h = join-IsBounded r peer id now h

Move-IsIndexed :
    {r : RoomRegistry} {peer : PeerId} {t : RoomRegistry}
    → Move r peer t
    → IsIndexed r
    → IsIndexed t
Move-IsIndexed keeps h = h
Move-IsIndexed {r} {peer} (creates id now absent) h = create-IsIndexed r peer id now absent h
Move-IsIndexed {r} {peer} (joins id now) h = join-IsIndexed r peer id now h

handle_message-Inv :
    (e : Env) (s : AppState) (peer : PeerId) (ip : IpAddr) (msg : SignalMsg)
    → contains_key s.senders peer ≡ true
    → contains_room s.registry e.gen_room_id ≡ false
    → Inv s
    → Inv (handle_message e s peer ip msg)
handle_message-Inv e s peer ip msg online fresh h = record {
  bounded = Move-IsBounded move h.bounded;
  indexed = Move-IsIndexed move h.indexed;
  within = handle_message-IsWithin e s peer ip msg h.within;
  connected = λ p id at.
      contains_key-handle_message e s peer ip msg p
      ∙ ground (arith, Move-peer_room p id move at, h.connected p id);
  unused = λ p at. ground (
    arith,
    next_id-handle_message e s peer ip msg,
    contains_key-handle_message e s peer ip msg p,
    h.unused p,
  );
}
  where
    move : Move s.registry peer (handle_message e s peer ip msg).registry
    move = handle_message-Move e s peer ip msg fresh

on_frame-Inv :
    (json : Json SignalMsg) (e : Env) (s : AppState) (p : PeerId) (ip : IpAddr) (f : Frame)
    → contains_key s.senders p ≡ true
    → contains_room s.registry e.gen_room_id ≡ false
    → Inv s
    → Inv (on_frame json e s p ip f).0
unfolding on_frame
on_frame-Inv json e s p ip (text_frame t) online fresh h = elim (Option-cases (json.from_str t)) [
  | inl bad ↦ rw (bad, on_frame) h
  | inr (msg, ok) ↦ rw (ok, on_frame) (handle_message-Inv e s p ip msg online fresh h)
]
on_frame-Inv json e s p ip close_frame online fresh h = h
on_frame-Inv json e s p ip other_frame online fresh h = h

drain-Inv : (s : AppState) (p : PeerId) → Inv s → Inv (drain s p).0
unfolding drain
drain-Inv s p h = elim (Option-cases (get s.senders p)) [
  | inl e ↦ rw (e, drain) h
  | inr (tx, e) ↦ rw (e, drain) (entry tx e)
]
  where
    entry : (tx : List SignalMsg) → get s.senders p ≡ some tx → Inv (drain_entry s p tx).0
    entry [] e = h
    entry (msg ∷ tx) e = record {
      bounded = h.bounded;
      indexed = h.indexed;
      within = h.within;
      connected =
          λ q id at. ground (arith, contains_key-insert s.senders p q tx, h.connected q id at);
      unused = λ q at. ground (
        arith,
        contains_key-insert s.senders p q tx,
        h.unused q,
        contains_key-some s.senders p e,
      );
    }

disconnect-Inv : (s : AppState) (p : PeerId) → Inv s → Inv (disconnect s p)
disconnect-Inv s p h = record {
  bounded =
      subst IsBounded (sym (disconnect-registry s p))
        (remove_peer-IsBounded s.registry p h.bounded);
  indexed =
      subst IsIndexed (sym (disconnect-registry s p))
        (remove_peer-IsIndexed s.registry p h.indexed);
  within = subst IsWithin (sym (disconnect-rest s p).0) h.within;
  connected = λ q id at. ground (
    arith,
    contains_key-disconnect s p q,
    peer_room-remove_peer s.registry p q,
    disconnect-registry s p,
    h.connected q id,
  );
  unused =
      λ q at. ground (arith, contains_key-disconnect s p q, (disconnect-rest s p).1, h.unused q);
}

Step-Inv : {s t : AppState} → Step s t → Inv s → Inv t
Step-Inv {s} (connects small) h = connect-Inv s small h
Step-Inv {s} (frames json e p ip f online fresh) h = on_frame-Inv json e s p ip f online fresh h
Step-Inv {s} (disconnects p) h = disconnect-Inv s p h
Step-Inv {s} (drains p) h = drain-Inv s p h

pub Reach-Inv : {s : AppState} → Reach new s → Inv s
Reach-Inv here = new-Inv
Reach-Inv (next path st) = Step-Inv st (Reach-Inv path)
