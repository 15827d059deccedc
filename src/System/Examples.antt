-- ===== src/System/Examples.antt =====
-- Two pages with a browser that answers every call, and the server between them.
use file_send.Rooms
use file_send.Limiter
use file_send.Rooms.Reach as RoomsReach
use file_send.Prelude.{
  contains, retain, find, Text, text, Text-discrete, nat_key, text_key, ℕ, ◌≡◌, ◌≢◌, refl, arith,
  true, none, some, [], ◌∷◌, ◌++◌, ℕ_discrete,
}
use file_send.HashMap.{get, insert, remove, contains_key}
use file_send.Rooms.{PeerId, Room, create, enter, join, partner, leave, remove_peer}
use file_send.Rooms.Pairs.{IsConsistent}
use file_send.Limiter.{
  IpAddr, v4, IpAddr-discrete, ip_key, prune_entry, prune, allowed, record_failure,
}
use file_send.Reconnect.{waiting_for_peer}
use file_send.Server.Reach as ServerReach
use file_send.Server.Reach.{here, next, connects, frames, drains, Reach-Inv}
use file_send.Wire.{SignalMsg}
use file_send.System.Candidates.{candidate_crosses}
use file_send.System.Dropped.{dropped_page_reconnects}
use file_send.Server.{
  text_frame, handle_message, on_frame, create_room, announce, check, fail, on_join, settle, relay,
  send_to, drain, drain_entry, notify_left, new, connect, disconnect, AppState, Env, join_window_ms,
  join_max_failures,
}
use file_send.Transfer.Codec.{whole}
use file_send.Webrtc.{
  on_ice_candidate, ok, new_peer_connection, stun_url, set_local, create_offer, create_answer,
  set_remote,
}
use file_send.Webrtc.Examples.{willing}
use file_send.Links.{room_from_hash, trim_start, strip_prefix, hash_of}
use file_send.Client.{
  Host, Client, seeded, mounted, applying_answer, adding_candidate, candidate_gathered,
}
use file_send.System.{speak, hears, End, connect_pages, reload_owner, reconnect_pages}
use file_send.System.Codec.{wire, print, parse}
use file_send.System.Rounds.{AreIdle}
use file_send.System.Pages.{connected_to, offering_on}
use file_send.System.Connect.{pages_connect}
use file_send.System.Reload.{owner_reclaims}

abbrev host : Host Text
host = record {
  browser = willing;
  origin = text "https://file-send.app";
  storage = true;
  set_hash = λ fragment. text "#" ++ fragment;
  qr_svg = λ link. link;
}

abbrev code : Text
code = text "k7m4qp"

abbrev env : Env
env = record { now_ms = 9; gen_room_id = text "abc23x" }

-- Peers 1 and 2 are connected and 1 waits in a room.
abbrev room : Room
room = record { peers = 1 ∷ []; last_activity_ms = 7 }

abbrev server : AppState
server = record {
  registry = record { rooms = (code, room) ∷ []; peer_room = (1, code) ∷ [] };
  senders = (1, []) ∷ (2, []) ∷ [];
  next_id = 3;
  join_limiter = record {
    window_ms = join_window_ms;
    max_failures = join_max_failures;
    failures = [];
  };
}

-- A page that was opened with the room's link, and its owner's.
abbrev guest : Client ℕ
guest = mounted (seeded (text "#/room/k7m4qp") none) (ok tt)

abbrev owner : Client ℕ
owner = mounted (seeded (text "#/room/k7m4qp") (some code)) (ok tt)

abbrev joiner : End ℕ Text
joiner = record { peer = 2; ip = v4 2; host = host; client = guest }

abbrev waiting : End ℕ Text
waiting = record { peer = 1; ip = v4 1; host = host; client = owner }

program : Unit {0}
unfolding Rooms.new Limiter.new create enter join partner leave remove_peer prune prune_entry
    allowed record_failure get insert remove contains_key Text-discrete IpAddr-discrete ℕ_discrete
    retain find contains new_peer_connection stun_url set_local create_offer create_answer
    set_remote room_from_hash trim_start strip_prefix hash_of seeded mounted
program = tt

server-IsConsistent : IsConsistent server.registry
unfolding program
server-IsConsistent =
    RoomsReach.Reach-IsConsistent
      (RoomsReach.next RoomsReach.here (RoomsReach.creates 1 code 7 refl refl))

pages_connect_example :
    (t : AppState) × (connect_pages wire env server joiner waiting
      ≡ some (
        t,
        record joiner { client = connected_to guest 0 },
        record waiting { client = offering_on owner 0 },
        applying_answer 0 (text "A") ∷ [],
      ))
    × AreIdle t 2 1
unfolding program
pages_connect_example =
    pages_connect wire env server joiner waiting code room 0 0 (text "O") (text "A")
      server-IsConsistent refl refl refl refl refl refl refl refl refl refl refl refl refl refl

-- The server lost the room.
abbrev lost : AppState
lost = record server { registry = Rooms.new }

owner_reclaims_example :
    (t : AppState) × (c : Client ℕ) × (reload_owner wire env lost waiting
      ≡ some (t, record waiting { client = c }))
    × (c.status ≡ waiting_for_peer)
    × (c.room_code ≡ code)
    × (c.session.room_in_hash ≡ some code)
    × (c.session.owns ≡ some code)
    × (c.pc ≡ none)
    × (get t.registry.rooms code ≡ some (record { peers = 1 ∷ []; last_activity_ms = 9 }))
    × ((other : Text) → other ≢ code → get t.registry.rooms other ≡ get lost.registry.rooms other)
    × (get t.senders 1 ≡ some [])
unfolding program
owner_reclaims_example =
    owner_reclaims wire env lost waiting code refl refl refl refl refl refl refl refl

-- The same two peers, paired in the room, with nothing queued.
abbrev paired : AppState
paired = record server {
  registry = record {
    rooms = (code, record { peers = 1 ∷ 2 ∷ []; last_activity_ms = 9 }) ∷ [];
    peer_room = (1, code) ∷ (2, code) ∷ [];
  };
}

abbrev drawing : Env
drawing = record { now_ms = 7; gen_room_id = code }

serving : Unit {0}
unfolding program new connect disconnect handle_message on_frame create_room announce check fail
    on_join settle relay send_to drain drain_entry notify_left parse print
serving = tt

paired-Reach : ServerReach.Reach new paired
unfolding serving
paired-Reach =
    next
      (next
        (next
          (next (next (next here (connects (omega arith))) (connects (omega arith)))
            (frames wire drawing 1 (v4 1) (text_frame (print SignalMsg.create)) refl refl))
          (frames wire env 2 (v4 2) (text_frame (print (SignalMsg.join code))) refl refl))
        (drains 1))
      (drains 1)

paired-IsConsistent : IsConsistent paired.registry
unfolding program
paired-IsConsistent = RoomsReach.Reach-IsConsistent (
    RoomsReach.next (RoomsReach.next RoomsReach.here (RoomsReach.creates 1 code 7 refl refl))
      (RoomsReach.joins 2 code 9 refl))

paired-AreIdle : AreIdle paired 2 1
unfolding program
paired-AreIdle = record { mine = refl; yours = refl; apart = refl; quiet = refl; empty = refl }

dropped_page_reconnects_example :
    (t : AppState) × (peer : PeerId) × (c d : Client ℕ) × (reconnect_pages wire env paired joiner
        waiting
      ≡ some (
        t,
        record joiner { peer = peer; client = c },
        record waiting { client = d },
        applying_answer 0 (text "A") ∷ [],
      ))
    × (peer ≢ 2)
    × AreIdle t peer 1
    × (c.pc ≡ some 0)
    × (d.pc ≡ some 0)
    × (c.built ≡ 1)
    × (d.built ≡ 1)
unfolding serving
dropped_page_reconnects_example =
    dropped_page_reconnects wire env paired joiner waiting code 0 0 (text "O") (text "A")
      (Reach-Inv paired-Reach) paired-IsConsistent paired-AreIdle refl refl refl refl refl refl refl
      refl refl refl

-- The waiting page with the connection of its offer.
abbrev offering_page : End ℕ Text
offering_page = record waiting { client = offering_on waiting.client 0 }

candidate_printed : on_ice_candidate joiner.host.browser (some (text "c")) ≡ some (text "c")
unfolding on_ice_candidate
candidate_printed = refl

candidate_crosses_example :
    (t : AppState) × (hears wire env
        (speak wire env paired joiner.peer joiner.ip
          (candidate_gathered joiner.host joiner.client (some (text "c"))))
        offering_page
      ≡ some (
        t,
        record offering_page { client = record offering_page.client { last_ice = none } },
        adding_candidate 0 (text "c") ∷ [],
      ))
    × AreIdle t joiner.peer offering_page.peer
unfolding mounted
candidate_crosses_example =
    candidate_crosses wire env paired joiner offering_page (text "c") (text "c") 0 paired-AreIdle
      refl candidate_printed refl refl
