-- ===== src/System/Dropped.antt =====
-- A page of app.rs loses its socket and comes back: the server of ws.rs, the page and its peer find
-- their way to a new connection.
use file_send.Prelude.{
  Option-cases, Text, nat_key, text_key, ℕ, ◌+◌, ◌≡◌, ◌≢◌, refl, sym, ◌∙◌, ap, inl, inr, true,
  false, none, some, List, [], ◌∷◌, arith,
}
use file_send.HashMap.{get, insert, contains_key}
use file_send.HashMap.Laws.{get-insert}
use file_send.Float.{F64}
use file_send.Wire.{SignalMsg, Json}
use file_send.Rooms.{PeerId, Room, remove_peer}
use file_send.Rooms.Pairs.{IsConsistent}
use file_send.Rooms.Departure.{peer_room-remove_peer, remove_peer-alone, remove_peer-IsConsistent}
use file_send.Limiter.{allowed}
use file_send.Reconnect.{dropped_session}
use file_send.Server.{AppState, Env, disconnect, connect, drain, drain_entry}
use file_send.Server.Departure.{disconnect_notifies, disconnect-registry, disconnect-rest}
use file_send.Server.Reach.{Inv}
use file_send.Webrtc.{ok, SdpType, new_peer_connection, create_offer, create_answer, set_remote}
use file_send.Client.{Client, applying_answer, on_disconnect, teardown}
use file_send.System.{End, reconnect_pages}
use file_send.System.Rounds.{AreIdle}
use file_send.System.Pages.{connected_to, offering_on, left_alone, hears-left, teardown-frame}
use file_send.System.Connect.{pages_connect}

-- The id that the next socket gets is no peer's.
next_id-out : (s : AppState) → Inv s → get s.registry.peer_room s.next_id ≡ none
next_id-out s h = elim (Option-cases (get s.registry.peer_room s.next_id)) [
  | inl out ↦ out
  | inr (id, at) ↦ absurd (omega (arith, h.unused s.next_id (h.connected s.next_id id at)))
]

next_id-ne :
    (s : AppState) (q : PeerId) (tx : List SignalMsg)
    → Inv s
    → get s.senders q ≡ some tx
    → q ≢ s.next_id
unfolding contains_key
next_id-ne s q tx h at e = absurd (ground (arith, h.unused q))

drain-single :
    (s : AppState) (q : PeerId) (msg : SignalMsg)
    → get s.senders q ≡ some (msg ∷ [])
    → drain s q ≡ (record s { senders = insert s.senders q [] }, some msg)
unfolding drain drain_entry
drain-single s q msg e = rw (e, drain) refl

-- What the server is when the peer of a dropped socket has been missed and the new socket is there.
module _ (s : AppState) (p q : PeerId) (id : Text) (h : Inv s) (k : IsConsistent s.registry)
    (idle : AreIdle s p q) (at : get s.registry.peer_room p ≡ some id) where
  abbrev missed : AppState
  missed = let gone = disconnect s p in record gone { senders = insert gone.senders q [] }

  abbrev back : AppState
  back = (connect missed).0

  drained-missed : drain (disconnect s p) q ≡ (missed, some SignalMsg.peer_left)
  drained-missed =
      drain-single (disconnect s p) q SignalMsg.peer_left
        (disconnect_notifies s p q [] k idle.mine idle.empty).0

  back-registry : back.registry ≡ (remove_peer s.registry p).0
  unfolding connect
  back-registry = disconnect-registry s p

  back-limiter : back.join_limiter ≡ s.join_limiter
  unfolding connect
  back-limiter = (disconnect-rest s p).0

  back-room : (room : Room) × (get back.registry.rooms id ≡ some room) × (room.peers ≡ q ∷ [])
  back-room = rw back-registry (remove_peer-alone s.registry p q id k at idle.mine)

  back-out : get back.registry.peer_room missed.next_id ≡ none
  back-out =
      rw (back-registry, (disconnect-rest s p).1)
        (ground (arith, peer_room-remove_peer s.registry p s.next_id, next_id-out s h))

  back-quiet : get back.senders missed.next_id ≡ some []
  unfolding connect
  back-quiet = ground (arith, get-insert missed.senders missed.next_id missed.next_id [])

  back-empty : get back.senders q ≡ some []
  unfolding connect
  back-empty = ground (
    arith,
    get-insert missed.senders missed.next_id q [],
    get-insert (disconnect s p).senders q q [],
    next_id-ne s q [] h idle.empty,
    (disconnect-rest s p).1,
  )

on_disconnect-frame :
    {F : Type 0} ⦃f64 : F64 F⦄ (c : Client F)
    → ((on_disconnect c).0.signaling ≡ c.signaling)
      × ((on_disconnect c).0.built ≡ c.built)
      × ((on_disconnect c).0.session ≡ dropped_session c.session)
unfolding on_disconnect teardown
on_disconnect-frame c = ground arith

-- Two pages are partners in a room, in a consistent server that it can reach, with nothing queued.
-- The socket of one of them drops; the server tells the other, and the page opens a new socket,
-- within the budget of its address and with the room in its hash, both with browsers that build a
-- connection and make the offer and the answer. Then no step panics or waits for a message: the
-- new socket is another peer, both pages end on connections that they built anew, the waiting page
-- applies the answer to its own one, and the server has paired the two again and keeps nothing
-- queued.
pub dropped_page_reconnects :
    {F J : Type 0} ⦃f64 : F64 F⦄ (json : Json SignalMsg) (e : Env) (s : AppState)
    (dropped waiting : End F J) (id : Text) (pj pw : ℕ) (offered answered : Text)
    → Inv s
    → IsConsistent s.registry
    → AreIdle s dropped.peer waiting.peer
    → get s.registry.peer_room dropped.peer ≡ some id
    → (allowed s.join_limiter dropped.ip e.now_ms).1 ≡ true
    → dropped.client.session.room_in_hash ≡ some id
    → dropped.client.signaling ≡ true
    → waiting.client.signaling ≡ true
    → new_peer_connection dropped.host.browser dropped.client.built ≡ ok pj
    → new_peer_connection waiting.host.browser waiting.client.built ≡ ok pw
    → create_offer waiting.host.browser pw ≡ ok offered
    → set_remote dropped.host.browser pj SdpType.offer offered ≡ ok tt
    → create_answer dropped.host.browser pj (some offered) ≡ ok answered
    → (t : AppState) × (peer : PeerId) × (c d : Client F) × (reconnect_pages json e s dropped
          waiting
        ≡ some (
          t,
          record dropped { peer = peer; client = c },
          record waiting { client = d },
          applying_answer pw answered ∷ [],
        ))
      × (peer ≢ dropped.peer)
      × AreIdle t peer waiting.peer
      × (c.pc ≡ some pj)
      × (d.pc ≡ some pw)
      × (c.built ≡ dropped.client.built + 1)
      × (d.built ≡ waiting.client.built + 1)
unfolding reconnect_pages dropped_session connect
dropped_page_reconnects {F} {J} json e s dropped waiting id pj pw offered answered h k idle at may
      room online online' built built' makes takes answers =
    let p = dropped.peer in
    let q = waiting.peer in
    let gone = (on_disconnect dropped.client).0 in
    let (same, tries, reset) = on_disconnect-frame dropped.client in
    let told : Client F = record waiting.client {
      session = record waiting.client.session { has_pc = false };
    } in
    let (same', tries', _, _) = teardown-frame told in
    let alone = left_alone waiting.host waiting.client in
    let n = (missed s p q id h k idle at).next_id in
    let joiner : End F J = record dropped { peer = n; client = gone } in
    let left : End F J = record waiting { client = alone } in
    let (found, there, single) = back-room s p q id h k idle at in
    let (t, met, idle') =
      pages_connect json e (back s p q id h k idle at) joiner left id found pj pw offered answered
        (rw (back-registry s p q id h k idle at) (remove_peer-IsConsistent s.registry p k))
        (rw (back-limiter s p q id h k idle at) may) there single (back-out s p q id h k idle at)
        (back-quiet s p q id h k idle at) (back-empty s p q id h k idle at) (rw reset room)
        (rw same online) (rw same' online') (rw tries built) (rw tries' built') makes takes
        answers in
    let drop =
      hears-left json e (disconnect s p) (missed s p q id h k idle at) waiting
        (drained-missed s p q id h k idle at) in
    (
      t,
      n,
      connected_to gone pj,
      offering_on alone pw,
      rw (drop) met,
      (λ eq. next_id-ne s p [] h idle.quiet (sym eq ∙ (disconnect-rest s p).1)),
      idle',
      refl,
      refl,
      ap (λ (b : ℕ). b + 1) tries,
      ap (λ (b : ℕ). b + 1) tries',
    )
