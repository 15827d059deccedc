-- ===== src/Wire.antt =====
-- crates/shared/src/lib.rs: the messages of the signaling WebSocket.
use file_send.Prelude.{Text, nat_key, text_key, ◌≡◌, Option, some}

pub data SignalMsg : Type 0 where
  create : SignalMsg
  reclaim : Text → SignalMsg
  created : Text → SignalMsg
  join : Text → SignalMsg
  peer_joined : SignalMsg
  peer_left : SignalMsg
  room_full : SignalMsg
  room_not_found : SignalMsg
  sdp : Text → Text → SignalMsg
  ice : Text → SignalMsg

-- serde_json is not under the source tree: it prints a message and reads one back.
pub record Json (M : Type 0) : Type 0 where
  pub to_string : M → Text
  pub from_str : Text → Option M
  pub reads_back : (m : M) → from_str (to_string m) ≡ some m
