-- ===== src/Client/Examples.antt =====
-- Lives of the page of app.rs, with a browser that answers every call.
use file_send.Prelude.{
  ◌++◌, All, contains, length, take, Text, text, nat_key, text_key, ℕ, ◌≡◌, ◌⊎◌, refl, true, false,
  none, some, List, [], ◌∷◌, retain,
}
use file_send.Wire.{SignalMsg}
use file_send.Reconnect.{Status, reconnecting}
use file_send.Rows.{active, is_state}
use file_send.App.{mount}
use file_send.Transfer.Codec.{whole}
use file_send.Webrtc.Examples.{willing}
use file_send.Client.{
  Host, Client, Out, seeded, on_message, on_disconnect, answering, run_task, send, close_pc,
}
use file_send.Client.Descriptions.{HasDescribed, run_task_describes}
use file_send.Server.Codes.{Draws, gen_room_id}
use file_send.Ui.Share.{share_block}
use file_send.Ui.Buttons.{clicks, labelled}
use file_send.Ui.Examples.{shown}
use file_send.Client.View.{view}
use file_send.Client.Offers.{
  exits, sharing, joining, offers_in, accepting, row_buttons, view_offers,
}
use file_send.Client.Sharing.{Leads, shared_room_joins}
use file_send.Client.Life.{Happening, receives, opens, drops}
use file_send.Client.Lost.{IsTornDown, peer_left_keeps_rows}

abbrev host : Host Text
host = record {
  browser = willing;
  origin = text "https://file-send.app";
  storage = true;
  set_hash = λ fragment. text "#" ++ fragment;
  qr_svg = λ link. link;
}

-- A page makes a room, a peer comes and leaves, and the socket drops.
abbrev story : List (Happening ℕ Text)
story =
    opens
    ∷ receives (SignalMsg.created (text "k7m4qp"))
    ∷ receives SignalMsg.peer_joined
    ∷ receives SignalMsg.peer_left
    ∷ drops
    ∷ []

-- A page with a file under way.
abbrev busy : Client ℕ
busy = record (seeded {F = ℕ} [] none) {
  pc = some 3;
  session = record { room_in_hash = none; owns = none; reclaim_tried = false; has_pc = true };
  page = record mount {
    items =
        record {
          id = 0;
          name = text "a.txt";
          size = 10;
          kind = text "TXT";
          incoming = true;
          fraction = 5;
          speed = 1;
          state = active;
        }
        ∷ [];
  };
}

peer_left_keeps_rows_example :
    (d : Client ℕ) × (outs : List Out) × (on_message host busy SignalMsg.peer_left ≡ some (d, outs))
    × IsTornDown d
    × (d.status ≡ Status.peer_left)
    × (d.page.items ≡ busy.page.items)
    × (outs ≡ close_pc 3 ∷ [])
    × ((on_disconnect busy).1 ≡ close_pc 3 ∷ [])
    × IsTornDown (on_disconnect busy).0
    × ((on_disconnect busy).0.status ≡ reconnecting)
    × (retain (λ r. is_state r.state active) (on_disconnect busy).0.page.items ≡ [])
peer_left_keeps_rows_example = peer_left_keeps_rows host busy

-- The answer to an offer, by a page with its signaling.
abbrev online : Client ℕ
online = record busy { signaling = true }

run_task_describes_example :
    (run_task host online (answering 0 (text "O")) ≡ [])
    ⊎ ((sdp : Text) × (kind : Text) × (run_task host online (answering 0 (text "O"))
          ≡ send (SignalMsg.sdp sdp kind) ∷ [])
        × (online.signaling ≡ true)
        × HasDescribed willing (answering 0 (text "O")) sdp kind)
run_task_describes_example = run_task_describes host online (answering 0 (text "O"))

-- A generator that draws the first symbols.
abbrev firsts : ℕ → List ℕ → Text
firsts n alphabet = take n alphabet

firsts-Draws : Draws firsts
unfolding contains
firsts-Draws = (refl, (refl, (refl, (refl, (refl, (refl, (refl, tt)))))))

shared_room_joins_example :
    (d : Client ℕ) × (on_message host busy (SignalMsg.created (gen_room_id firsts)) ≡ some (d, []))
    × (length (clicks (share_block d.room_code d.room_link d.qr)) ≡ 2)
    × All (Leads ℕ host (gen_room_id firsts)) (clicks (share_block d.room_code d.room_link d.qr))
shared_room_joins_example = shared_room_joins firsts host host busy firsts-Draws

view_offers_example :
    labelled (view busy (text "k7m4qp") 0)
    ≡ exits busy.status
      ++ (sharing busy.room_code busy.room_link
          ++ (joining busy.status (text "k7m4qp")
              ++ (accepting (offers_in busy.page.items) ++ row_buttons busy.page.items)))
view_offers_example = view_offers busy (text "k7m4qp") 0
