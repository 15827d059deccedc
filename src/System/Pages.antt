-- ===== src/System/Pages.antt =====
-- The turns of the handshake at one end: what a page of app.rs answers to each message of it.
use file_send.Prelude.{
  Text, text, nat_key, text_key, ℕ, ◌+◌, ◌≡◌, refl, Text-discrete, ℕ_discrete, true, false, some,
  List, [], ◌∷◌, arith,
}
use file_send.Float.{F64}
use file_send.Wire.{SignalMsg, Json}
use file_send.Rooms.{PeerId}
use file_send.Limiter.{IpAddr}
use file_send.Reconnect.{step, event_of, room_lost, is_owner, waiting_for_peer, Status}
use file_send.App.{wire_ctrl}
use file_send.Server.{AppState, Env, text_frame, on_frame, handle_message, relay, drain}
use file_send.Webrtc.{ok, SdpType, new_peer_connection, create_offer, create_answer, set_remote}
use file_send.Client.{
  Host, Client, offering, answering, applying_answer, Out, send, spawn, create_channel, ctrl_label,
  on_text, on_message, on_open, run_task, react, execute_all, execute, build_pc, send_signal, stash,
  persist, teardown,
}
use file_send.System.{speak, spawned, End, run_tasks, acts, opens, hears}

-- A frame that a page printed is the message that it sent.
pub on_frame-to_string :
    (json : Json SignalMsg) (e : Env) (s : AppState) (p : PeerId) (ip : IpAddr) (msg : SignalMsg)
    → (on_frame json e s p ip (text_frame (json.to_string msg))).0 ≡ handle_message e s p ip msg
unfolding on_frame
on_frame-to_string json e s p ip msg = rw (json.reads_back msg, on_frame) refl

module _ {F : Type 0} ⦃f64 : F64 F⦄ (c : Client F) where
  -- The page with a new connection, before and after its control channel is wired.
  abbrev pub connected_to : ℕ → Client F
  connected_to pc = record c {
    session = record c.session { has_pc = true };
    pc = some pc;
    built = c.built + 1;
  }

  abbrev pub offering_on : ℕ → Client F
  offering_on pc = record (connected_to pc) { page = wire_ctrl c.page }

module _ {F J : Type 0} ⦃f64 : F64 F⦄ (host : Host J) (c : Client F) where
  on_message-joined :
      (pc : ℕ)
      → new_peer_connection host.browser c.built ≡ ok pc
      → on_message host c SignalMsg.peer_joined
        ≡ some (offering_on c pc, create_channel pc ctrl_label ∷ spawn (offering pc) ∷ [])
  unfolding on_message react step event_of execute_all execute build_pc stash
  on_message-joined pc made = ground arith

  on_message-offer :
      (pc : ℕ) (sdp : Text)
      → new_peer_connection host.browser c.built ≡ ok pc
      → on_message host c (SignalMsg.sdp sdp (text "offer"))
        ≡ some (connected_to c pc, spawn (answering pc sdp) ∷ [])
  unfolding on_message react step event_of execute_all execute build_pc stash Text-discrete
      ℕ_discrete
  on_message-offer pc sdp made = ground arith

  on_message-answer :
      (pc : ℕ) (sdp : Text)
      → c.pc ≡ some pc
      → c.session.has_pc ≡ true
      → on_message host c (SignalMsg.sdp sdp (text "answer"))
        ≡ some (c, spawn (applying_answer pc sdp) ∷ [])
  unfolding on_message react step event_of execute_all execute stash Text-discrete ℕ_discrete
  on_message-answer pc sdp there known = ground arith

  -- The page that asks for its room again, and the page that has one.
  abbrev pub reclaiming : Client F
  reclaiming = record c { session = record c.session { reclaim_tried = true } }

  abbrev pub settled_in : Text → Client F
  settled_in id = record (persist host c id) {
    session = record c.session { owns = some id; room_in_hash = some id };
    status = waiting_for_peer;
  }

  on_message-not_found :
      (id : Text)
      → c.session.room_in_hash ≡ some id
      → c.session.owns ≡ some id
      → c.session.reclaim_tried ≡ false
      → c.signaling ≡ true
      → on_message host c SignalMsg.room_not_found
        ≡ some (reclaiming, send (SignalMsg.reclaim id) ∷ [])
  unfolding on_message react step event_of execute_all execute stash room_lost is_owner
  on_message-not_found id at owns first online = ground arith

  on_message-created :
      (id : Text) → on_message host c (SignalMsg.created id) ≡ some (settled_in id, [])
  unfolding on_message react step event_of execute_all execute stash persist
  on_message-created id = refl

  -- The page whose peer has left.
  abbrev pub left_alone : Client F
  left_alone = record (teardown (record c { session = record c.session { has_pc = false } })).0 {
    status = Status.peer_left;
  }

  on_message-left :
      on_message host c SignalMsg.peer_left
      ≡ some (left_alone, (teardown (record c { session = record c.session { has_pc = false } })).1)
  unfolding on_message react step event_of execute_all execute stash
  on_message-left = ground arith

module _ {F : Type 0} ⦃f64 : F64 F⦄ (c : Client F) where
  -- A teardown closes at most a connection, and leaves the socket and the room alone.
  pub teardown-frame :
      ((teardown c).0.signaling ≡ c.signaling)
      × ((teardown c).0.built ≡ c.built)
      × ((teardown c).0.session ≡ c.session)
      × (spawned (teardown c).1 ≡ [])
  unfolding teardown spawned
  teardown-frame = ground arith

  speak-teardown :
      (json : Json SignalMsg) (e : Env) (s : AppState) (p : PeerId) (ip : IpAddr)
      → speak json e s p ip (teardown c).1 ≡ s
  unfolding teardown speak
  speak-teardown json e s p ip = ground arith

module _ {F J : Type 0} ⦃f64 : F64 F⦄ (json : Json SignalMsg) (e : Env) (s t : AppState)
    (x : End F J) where
  pub hears_lem :
      (msg : SignalMsg) (c : Client F) (outs : List Out)
      → drain s x.peer ≡ (t, some msg)
      → on_message x.host x.client msg ≡ some (c, outs)
      → hears json e s x ≡ some (acts json e t x (c, outs))
  unfolding hears on_text
  hears_lem msg c outs popped answered =
      rw (popped, hears) (rw (json.reads_back msg, on_text) (rw answered refl))

  run_tasks-applying :
      (pc : ℕ) (sdp : Text) → run_tasks x.host x.client (applying_answer pc sdp ∷ []) ≡ []
  unfolding run_tasks run_task
  run_tasks-applying pc sdp = ground arith

  pub opens_and_joins :
      (id : Text)
      → x.client.session.room_in_hash ≡ some id
      → x.client.signaling ≡ true
      → opens json e s x ≡ some (handle_message e s x.peer x.ip (SignalMsg.join id), x, [])
  unfolding opens on_open react step execute_all execute send_signal acts spawned speak run_tasks
  opens_and_joins id at online =
      rw (at, step)
        (rw (online) (rw (on_frame-to_string json e s x.peer x.ip (SignalMsg.join id)) refl))

  pub hears-joined :
      (pc : ℕ) (sdp : Text)
      → drain s x.peer ≡ (t, some SignalMsg.peer_joined)
      → x.client.signaling ≡ true
      → new_peer_connection x.host.browser x.client.built ≡ ok pc
      → create_offer x.host.browser pc ≡ ok sdp
      → hears json e s x
        ≡ some (
          relay t x.peer (SignalMsg.sdp sdp (text "offer")),
          record x { client = offering_on x.client pc },
          offering pc ∷ [],
        )
  unfolding acts spawned speak run_tasks run_task send_signal handle_message
  hears-joined pc sdp popped online made offered =
      rw
        (hears_lem SignalMsg.peer_joined (offering_on x.client pc)
          (create_channel pc ctrl_label ∷ spawn (offering pc) ∷ []) popped
          (on_message-joined x.host x.client pc made))
        (rw (offered, run_task)
          (rw online
            (rw (on_frame-to_string json e t x.peer x.ip (SignalMsg.sdp sdp (text "offer"))) refl)))

  pub hears-offer :
      (pc : ℕ) (sdp made : Text)
      → drain s x.peer ≡ (t, some (SignalMsg.sdp sdp (text "offer")))
      → x.client.signaling ≡ true
      → new_peer_connection x.host.browser x.client.built ≡ ok pc
      → set_remote x.host.browser pc SdpType.offer sdp ≡ ok tt
      → create_answer x.host.browser pc (some sdp) ≡ ok made
      → hears json e s x
        ≡ some (
          relay t x.peer (SignalMsg.sdp made (text "answer")),
          record x { client = connected_to x.client pc },
          answering pc sdp ∷ [],
        )
  unfolding acts spawned speak run_tasks run_task send_signal handle_message
  hears-offer pc sdp made popped online built remote answered =
      rw
        (hears_lem (SignalMsg.sdp sdp (text "offer")) (connected_to x.client pc)
          (spawn (answering pc sdp) ∷ []) popped (on_message-offer x.host x.client pc sdp built))
        (rw (remote, run_task)
          (rw remote (
            rw answered (
              rw online (
                rw (on_frame-to_string json e t x.peer x.ip (SignalMsg.sdp made (text "answer")))
                  refl)))))

  pub hears-answer :
      (pc : ℕ) (sdp : Text)
      → drain s x.peer ≡ (t, some (SignalMsg.sdp sdp (text "answer")))
      → x.client.pc ≡ some pc
      → x.client.session.has_pc ≡ true
      → hears json e s x ≡ some (t, x, applying_answer pc sdp ∷ [])
  unfolding acts spawned speak
  hears-answer pc sdp popped there known =
      rw
        (hears_lem (SignalMsg.sdp sdp (text "answer")) x.client
          (spawn (applying_answer pc sdp) ∷ []) popped
          (on_message-answer x.host x.client pc sdp there known))
        (rw (run_tasks-applying pc sdp) refl)

  pub hears-not_found :
      (id : Text)
      → drain s x.peer ≡ (t, some SignalMsg.room_not_found)
      → x.client.session.room_in_hash ≡ some id
      → x.client.session.owns ≡ some id
      → x.client.session.reclaim_tried ≡ false
      → x.client.signaling ≡ true
      → hears json e s x
        ≡ some (
          handle_message e t x.peer x.ip (SignalMsg.reclaim id),
          record x { client = reclaiming x.host x.client },
          [],
        )
  unfolding acts spawned speak run_tasks
  hears-not_found id popped at owns first online =
      rw
        (hears_lem SignalMsg.room_not_found (reclaiming x.host x.client)
          (send (SignalMsg.reclaim id) ∷ []) popped
          (on_message-not_found x.host x.client id at owns first online))
        (rw (on_frame-to_string json e t x.peer x.ip (SignalMsg.reclaim id)) refl)

  pub hears-created :
      (id : Text)
      → drain s x.peer ≡ (t, some (SignalMsg.created id))
      → hears json e s x ≡ some (t, record x { client = settled_in x.host x.client id }, [])
  unfolding acts spawned speak run_tasks
  hears-created id popped =
      rw
        (hears_lem (SignalMsg.created id) (settled_in x.host x.client id) [] popped
          (on_message-created x.host x.client id))
        refl

  pub hears-left :
      drain s x.peer ≡ (t, some SignalMsg.peer_left)
      → hears json e s x ≡ some (t, record x { client = left_alone x.host x.client }, [])
  unfolding acts speak run_tasks
  hears-left popped =
      let told : Client F = record x.client {
        session = record x.client.session { has_pc = false };
      } in
      rw
        (hears_lem SignalMsg.peer_left (left_alone x.host x.client) (teardown told).1 popped
          (on_message-left x.host x.client))
        (rw ((teardown-frame told).3, speak-teardown told json e t x.peer x.ip) refl)
