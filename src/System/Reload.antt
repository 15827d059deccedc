-- ===== src/System/Reload.antt =====
-- The owner of a room reloads its page after the server of ws.rs lost the room.
use file_send.Prelude.{
  Text, nat_key, text_key, ◌≡◌, ◌≢◌, refl, true, false, none, some, [], ◌∷◌, arith,
}
use file_send.HashMap.{get, contains_key}
use file_send.HashMap.Laws.{get-insert}
use file_send.Float.{F64}
use file_send.Wire.{SignalMsg, Json}
use file_send.Rooms.{PeerId, create, join}
use file_send.Limiter.{IpAddr, allowed, record_failure}
use file_send.Reconnect.{waiting_for_peer}
use file_send.Server.{
  AppState, Env, handle_message, send_to, check, fail, on_join, on_reclaim, reclaim_check,
  create_room, announce, settle, drain,
}
use file_send.Client.{Client, persist}
use file_send.System.{End, reload_owner}
use file_send.System.Rounds.{own_round}
use file_send.System.Pages.{settled_in, reclaiming, opens_and_joins, hears-not_found, hears-created}

-- A room that is not there: the join fails and says so.
join-absent :
    (e : Env) (s : AppState) (p : PeerId) (ip : IpAddr) (id : Text)
    → (allowed s.join_limiter ip e.now_ms).1 ≡ true
    → get s.registry.rooms id ≡ none
    → handle_message e s p ip (SignalMsg.join id)
      ≡ send_to (fail (check s ip e.now_ms).0 ip e.now_ms) p SignalMsg.room_not_found
unfolding handle_message on_join check fail settle join
join-absent e s p ip id may gone = ground arith

-- It can be made again.
reclaim-absent :
    (e : Env) (s : AppState) (p : PeerId) (ip : IpAddr) (id : Text)
    → (allowed s.join_limiter ip e.now_ms).1 ≡ true
    → get s.registry.rooms id ≡ none
    → handle_message e s p ip (SignalMsg.reclaim id)
      ≡ send_to
          (record s {
            join_limiter = (allowed s.join_limiter ip e.now_ms).0;
            registry = (create s.registry p id e.now_ms).0;
          })
          p
          (SignalMsg.created id)
unfolding handle_message on_reclaim reclaim_check check create_room announce create contains_key
reclaim-absent e s p ip id may gone = ground arith

-- The owner of a room reloads while the room is gone from the server, within the budget of its
-- address both before and after the join that fails, with an empty queue and a session that has not
-- reclaimed. Then no step panics or waits: the page ends in its own room again, under the same code
-- and waiting for a peer, with whatever connection it had; the server has the room with the page
-- alone in it, every other room as it was, and nothing queued for the page.
pub owner_reclaims :
    {F J : Type 0} ⦃f64 : F64 F⦄ (json : Json SignalMsg) (e : Env) (s : AppState) (owner : End F J)
    (id : Text)
    → (allowed s.join_limiter owner.ip e.now_ms).1 ≡ true
    → (allowed
        (record_failure (allowed s.join_limiter owner.ip e.now_ms).0 owner.ip e.now_ms)
        owner.ip
        e.now_ms).1
      ≡ true
    → get s.registry.rooms id ≡ none
    → get s.senders owner.peer ≡ some []
    → owner.client.session.room_in_hash ≡ some id
    → owner.client.session.owns ≡ some id
    → owner.client.session.reclaim_tried ≡ false
    → owner.client.signaling ≡ true
    → (t : AppState) × (c : Client F) × (reload_owner json e s owner
        ≡ some (t, record owner { client = c }))
      × (c.status ≡ waiting_for_peer)
      × (c.room_code ≡ id)
      × (c.session.room_in_hash ≡ some id)
      × (c.session.owns ≡ some id)
      × (c.pc ≡ owner.client.pc)
      × (get t.registry.rooms id
          ≡ some (record { peers = owner.peer ∷ []; last_activity_ms = e.now_ms }))
      × ((other : Text) → other ≢ id → get t.registry.rooms other ≡ get s.registry.rooms other)
      × (get t.senders owner.peer ≡ some [])
unfolding reload_owner check fail create persist
owner_reclaims json e s owner id may again gone quiet at owns first online =
    let p = owner.peer in
    let ip = owner.ip in
    let refused = fail (check s ip e.now_ms).0 ip e.now_ms in
    let (t₁, popped₁, same₁, limits₁, quiet₁) =
      own_round refused p SignalMsg.room_not_found quiet in
    let made : AppState = record t₁ {
      join_limiter = (allowed t₁.join_limiter ip e.now_ms).0;
      registry = (create t₁.registry p id e.now_ms).0;
    } in
    let (t₂, popped₂, same₂, _, quiet₂) = own_round made p (SignalMsg.created id) quiet₁ in
    let may₁ : (allowed t₁.join_limiter ip e.now_ms).1 ≡ true = rw limits₁ again in
    let gone₁ : get t₁.registry.rooms id ≡ none = rw same₁ gone in
    let s₁ = handle_message e s p ip (SignalMsg.join id) in
    let s₂ = handle_message e t₁ p ip (SignalMsg.reclaim id) in
    let asks : End _ _ = record owner { client = reclaiming owner.host owner.client } in
    let heard₁ : drain s₁ p ≡ (t₁, some SignalMsg.room_not_found) =
      rw (join-absent e s p ip id may gone) popped₁ in
    let heard₂ : drain s₂ p ≡ (t₂, some (SignalMsg.created id)) =
      rw (reclaim-absent e t₁ p ip id may₁ gone₁) popped₂ in
    (
      t₂,
      settled_in owner.host asks.client id,
      rw (opens_and_joins json e s s owner id at online, reload_owner)
          (rw (hears-not_found json e s₁ t₁ owner id heard₁ at owns first online)
            (rw (hears-created json e s₂ t₂ asks id heard₂) refl)),
      refl,
      refl,
      refl,
      refl,
      refl,
      rw same₂ (
          ground (
            arith,
            get-insert t₁.registry.rooms id id
                (record { peers = p ∷ []; last_activity_ms = e.now_ms }),
          )),
      (λ other far. rw same₂ (
          ground (
            arith,
            same₁,
            get-insert t₁.registry.rooms id other
                (record { peers = p ∷ []; last_activity_ms = e.now_ms }),
          ))),
      quiet₂,
    )
