-- ===== src/Server/Refusal.antt =====
-- What a refused `Join` or `Reclaim` of ws.rs tells its sender.
use file_send.Prelude.{Text, nat_key, text_key, ◌≡◌, true, false, arith}
use file_send.HashMap.{contains_key}
use file_send.Rooms.{PeerId, join, contains_room}
use file_send.Limiter.{IpAddr, ip_key, allowed, record_failure}
use file_send.Server.{
  AppState, Env, send_to, check, fail, reclaim_check, on_reclaim, settle, on_join, handle_message,
}
use file_send.Wire.{SignalMsg}

module _ (e : Env) (s : AppState) (peer : PeerId) (ip : IpAddr) (a b : Text) where
  -- Over its budget an address learns nothing about any room: `Join` of one room and `Reclaim` of
  -- another lead to the same state, whatever the two rooms are, and the registry is as before.
  pub throttled_alike :
      (allowed s.join_limiter ip e.now_ms).1 ≡ false
      → (handle_message e s peer ip (SignalMsg.join a)
          ≡ handle_message e s peer ip (SignalMsg.reclaim b))
        × ((handle_message e s peer ip (SignalMsg.join a)).registry ≡ s.registry)
  unfolding handle_message on_join on_reclaim reclaim_check check send_to
  throttled_alike over = ground arith

  -- Within the budget, `Reclaim` of a live room leads to the same state as `Join` of a room that
  -- does not exist: the refusal cannot be told from a wrong code. In both, the limiter has recorded
  -- one failure of the address at this time, the sender is told `RoomNotFound`, and nothing else of
  -- the state changes.
  pub refusal_alike :
      (allowed s.join_limiter ip e.now_ms).1 ≡ true
      → contains_room s.registry a ≡ true
      → contains_room s.registry b ≡ false
      → (handle_message e s peer ip (SignalMsg.reclaim a)
          ≡ handle_message e s peer ip (SignalMsg.join b))
        × (handle_message e s peer ip (SignalMsg.join b)
            ≡ send_to
                (record s {
                  join_limiter = record_failure (allowed s.join_limiter ip e.now_ms).0 ip e.now_ms;
                })
                peer
                SignalMsg.room_not_found)
  unfolding handle_message on_join on_reclaim reclaim_check check settle join contains_key fail
  refusal_alike within live absent = ground arith
