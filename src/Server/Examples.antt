-- ===== src/Server/Examples.antt =====
-- Runs of ws.rs from its own tests, and its theorems applied to states on the way.
use file_send.Rooms
use file_send.Limiter
use file_send.Rooms.Reach as RoomsReach
use file_send.Prelude.{
  retain, find, contains, Text, text, Text-discrete, nat_key, text_key, ◌≡◌, refl, ◌≢◌, true, false,
  none, some, [], ◌∷◌, ◌++◌, arith, ℕ_discrete,
}
use file_send.HashMap.{get, insert, remove, contains_key}
use file_send.Rooms.{PeerId, create, enter, join, partner, leave, remove_peer}
use file_send.Rooms.Members.{members}
use file_send.Rooms.Pairs.{IsConsistent}
use file_send.Limiter.{
  IpAddr, v4, IpAddr-discrete, ip_key, prune_entry, prune, allowed, record_failure,
}
use file_send.Limiter.Recorded.{recorded}
use file_send.Wire.{SignalMsg}
use file_send.Server.Refusal.{throttled_alike, refusal_alike}
use file_send.Server.Eviction.{handle_message_keeps_members}
use file_send.Server.Isolation.{OnlyTouches, handle_message-OnlyTouches}
use file_send.Server.Departure.{disconnect_notifies}
use file_send.Server.Handshake.{handshake, handshake_delivers}
use file_send.Server.Race.{racing_reclaims, reclaim_race_evicts}
use file_send.Server.{
  join_window_ms, join_max_failures, AppState, new, Env, send_to, connect, announce, create_room,
  check, fail, reclaim_check, on_reclaim, settle, on_join, relay, handle_message, notify_left,
  disconnect, on_frame, drain_entry, drain,
}

program : Unit {0}
unfolding new Rooms.new Limiter.new create enter join partner leave remove_peer prune prune_entry
    allowed record_failure recorded send_to connect announce create_room check fail reclaim_check
    on_reclaim settle on_join relay handle_message notify_left disconnect on_frame drain_entry drain
    get insert remove contains_key Text-discrete IpAddr-discrete ℕ_discrete retain find contains
    members
program = tt

abbrev env : Env
env = record { now_ms = 7; gen_room_id = text "k7m4qp" }

abbrev env' : Env
env' = record { now_ms = 9; gen_room_id = text "abc23x" }

abbrev ip1 : IpAddr
ip1 = v4 0x0a000001

abbrev ip2 : IpAddr
ip2 = v4 0x0a000002

abbrev code : Text
code = text "k7m4qp"

-- Peers 1 and 2 connect, and 1 creates a room.
abbrev waiting : AppState
waiting = record {
  registry = record {
    rooms = (code, record { peers = 1 ∷ []; last_activity_ms = 7 }) ∷ [];
    peer_room = (1, code) ∷ [];
  };
  senders = (1, SignalMsg.created code ∷ []) ∷ (2, []) ∷ [];
  next_id = 3;
  join_limiter = record {
    window_ms = join_window_ms;
    max_failures = join_max_failures;
    failures = [];
  };
}

abbrev paired : AppState
paired = record waiting {
  registry = record {
    rooms = (code, record { peers = 1 ∷ 2 ∷ []; last_activity_ms = 9 }) ∷ [];
    peer_room = (1, code) ∷ (2, code) ∷ [];
  };
  senders = (1, SignalMsg.created code ∷ SignalMsg.peer_joined ∷ []) ∷ (2, []) ∷ [];
}

create_emits_created_with_room_code :
    handle_message env (connect (connect new).0).0 1 ip1 SignalMsg.create ≡ waiting
unfolding program
create_emits_created_with_room_code = refl

join_notifies_initiator : handle_message env' waiting 2 ip2 (SignalMsg.join code) ≡ paired
unfolding program
join_notifies_initiator = refl

reclaim_cannot_displace_a_live_room :
    (handle_message env' waiting 2 ip2 (SignalMsg.reclaim code)).registry ≡ waiting.registry
unfolding program
reclaim_cannot_displace_a_live_room = refl

drained :
    drain waiting 1
    ≡ (record waiting { senders = (1, []) ∷ (2, []) ∷ [] }, some (SignalMsg.created code))
unfolding program
drained = refl

waiting-IsConsistent : IsConsistent waiting.registry
unfolding program
waiting-IsConsistent =
    RoomsReach.Reach-IsConsistent
      (RoomsReach.next RoomsReach.here (RoomsReach.creates 1 code 7 refl refl))

paired-IsConsistent : IsConsistent paired.registry
unfolding program
paired-IsConsistent = RoomsReach.Reach-IsConsistent (
    RoomsReach.next (RoomsReach.next RoomsReach.here (RoomsReach.creates 1 code 7 refl refl))
      (RoomsReach.joins 2 code 9 refl))

handshake_delivers_example :
    (get (handshake env' env env waiting 2 1 ip2 ip1 code (text "OFFER") (text "ANS")).senders 2
      ≡ some (SignalMsg.sdp (text "OFFER") (text "offer") ∷ []))
    × (get (handshake env' env env waiting 2 1 ip2 ip1 code (text "OFFER") (text "ANS")).senders 1
        ≡ some (
            ((SignalMsg.created code ∷ []) ++ SignalMsg.peer_joined ∷ [])
            ++ SignalMsg.sdp (text "ANS") (text "answer") ∷ []))
unfolding program
handshake_delivers_example =
    handshake_delivers env' env env waiting 2 1 ip2 ip1 code (text "OFFER") (text "ANS")
      (record { peers = 1 ∷ []; last_activity_ms = 7 }) [] (SignalMsg.created code ∷ [])
      waiting-IsConsistent refl refl refl refl refl refl

disconnect_notifies_example :
    (get (disconnect paired 1).senders 2 ≡ some ([] ++ SignalMsg.peer_left ∷ []))
    × ((x : PeerId) → x ≢ 1 → x ≢ 2 → get (disconnect paired 1).senders x ≡ get paired.senders x)
    × (get (disconnect paired 1).senders 1 ≡ none)
    × ((id : Text) → contains (members (disconnect paired 1).registry.rooms id) 1 ≡ false)
    × ((x : PeerId) → partner (disconnect paired 1).registry x ≢ some 1)
unfolding program
disconnect_notifies_example = disconnect_notifies paired 1 2 [] paired-IsConsistent refl refl

handle_message_keeps_members_example :
    contains
      (members (handle_message env' waiting 2 ip2 (SignalMsg.reclaim code)).registry.rooms code)
      1
    ≡ true
unfolding program
handle_message_keeps_members_example =
    handle_message_keeps_members env' waiting 2 ip2 (SignalMsg.reclaim code) 1 code refl refl

handle_message-OnlyTouches_example :
    OnlyTouches paired 2 (handle_message env paired 2 ip2 (SignalMsg.ice (text "c")))
handle_message-OnlyTouches_example =
    handle_message-OnlyTouches env paired 2 ip2 (SignalMsg.ice (text "c"))

-- An address with no budget left.
abbrev spent : AppState
spent = record waiting {
  join_limiter = record { window_ms = 1000; max_failures = 1; failures = (ip2, 5 ∷ []) ∷ [] };
}

throttled_alike_example :
    (handle_message env spent 2 ip2 (SignalMsg.join code)
      ≡ handle_message env spent 2 ip2 (SignalMsg.reclaim (text "x")))
    × ((handle_message env spent 2 ip2 (SignalMsg.join code)).registry ≡ spent.registry)
unfolding program
throttled_alike_example = throttled_alike env spent 2 ip2 code (text "x") refl

refusal_alike_example :
    (handle_message env waiting 2 ip2 (SignalMsg.reclaim code)
      ≡ handle_message env waiting 2 ip2 (SignalMsg.join (text "x")))
    × (handle_message env waiting 2 ip2 (SignalMsg.join (text "x"))
        ≡ send_to
            (record waiting {
              join_limiter = record_failure (allowed waiting.join_limiter ip2 7).0 ip2 7;
            })
            2
            SignalMsg.room_not_found)
unfolding program
refusal_alike_example = refusal_alike env waiting 2 ip2 code (text "x") refl refl refl

reclaim_race_evicts_example :
    (members (racing_reclaims waiting 1 2 ip1 ip2 (text "keepme") 9).registry.rooms (text "keepme")
      ≡ 2 ∷ [])
    × (get (racing_reclaims waiting 1 2 ip1 ip2 (text "keepme") 9).registry.peer_room 1
        ≡ some (text "keepme"))
    × (partner (racing_reclaims waiting 1 2 ip1 ip2 (text "keepme") 9).registry 1 ≡ some 2)
    × (partner (racing_reclaims waiting 1 2 ip1 ip2 (text "keepme") 9).registry 2 ≡ none)
unfolding program
reclaim_race_evicts_example =
    reclaim_race_evicts waiting 1 2 ip1 ip2 (text "keepme") 9 (omega arith) (λ e. ground arith) refl
      refl refl
