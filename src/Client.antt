-- ===== src/Client.antt =====
-- crates/client/src/app.rs: the effect that runs when the page mounts. It owns the signaling, the
-- peer connection and the session, and executes what the reducer decides.
pub mod Coherent
pub mod Life
pub mod Descriptions
pub mod Sharing
pub mod View
pub mod Offers
pub mod Lost
mod Examples
use file_send.Prelude.{
  if◌then◌else◌, is_empty, Text, text, nat_key, text_key, ite, ℕ, ◌+◌, Bool, true, false, Option,
  none, some, List, [], ◌∷◌, ◌++◌,
}
use file_send.Float.{F64}
use file_send.Wire.{SignalMsg, Json}
use file_send.Protocol.{Control}
use file_send.Reconnect.{
  Status, Event, Session, Action, send_create, send_join, send_reclaim, build_pc_and_offer,
  build_pc_and_answer, set_remote_answer, add_ice, set_status, persist_room, step, dropped_session,
  event_of,
}
use file_send.Transfer.{Effect}
use file_send.App.{Page, mount, wire_ctrl, channel_opens}
use file_send.App
use file_send.Links.{share_link, hash_of, room_from_hash, normalize_code}
use file_send.Webrtc.{
  Browser, Result, ok, err, SdpType, new_peer_connection, create_offer, create_answer, set_remote,
  remote_after, add_ice_candidate, on_ice_candidate,
}

-- `CTRL_LABEL` of transfer.rs.
abbrev pub ctrl_label : Text
ctrl_label = text "ctrl"

-- What the page takes from its surroundings: the browser, its origin, whether session storage can
-- be written, what the location's hash reads after it was set (the browser percent-encodes some
-- characters), and the drawing of a link.
pub record Host (J : Type 0) : Type 0 where
  pub browser : Browser J
  pub origin : Text
  pub storage : Bool
  pub set_hash : Text → Text
  pub qr_svg : Text → Text

-- The signals and cells of `App`. A peer connection is the number of its construction, of which
-- `built` counts the attempts; `hash` and `stored_owns` are the location's and the tab's.
pub record Client (F : Type 0) : Type 0 where
  pub status : Status
  pub room_link : Text
  pub room_code : Text
  pub qr : Text
  pub hash : Text
  pub stored_owns : Option Text
  pub session : Session
  pub pc : Option ℕ
  pub built : ℕ
  pub last_ice : Option Text
  pub signaling : Bool
  pub page : Page F

-- The futures that `spawn_local` is given.
pub data Task : Type 0 where
  offering : ℕ → Task
  answering : ℕ → Text → Task
  applying_answer : ℕ → Text → Task
  adding_candidate : ℕ → Text → Task

pub data Out : Type 0 where
  send : SignalMsg → Out
  spawn : Task → Out
  create_channel : ℕ → Text → Out
  close_pc : ℕ → Out

module _ {F : Type 0} ⦃f64 : F64 F⦄ where
  -- The cells at their creation: the session is seeded from the hash and from session storage.
  unfoldable pub seeded : Text → Option Text → Client F
  seeded hash owns = record {
    status = Status.idle;
    room_link = [];
    room_code = [];
    qr = [];
    hash = hash;
    stored_owns = owns;
    session = record {
      room_in_hash = room_from_hash hash;
      owns = owns;
      reclaim_tried = false;
      has_pc = false;
    };
    pc = none;
    built = 0;
    last_ice = none;
    signaling = false;
    page = mount;
  }

  -- The effect: `Signaling::connect` succeeds, or the page shows its error.
  unfoldable pub mounted : Client F → Result (Unit {0}) → Client F
  mounted c (ok _) = record c { status = Status.connecting; signaling = true }
  mounted c (err e) = record c { status = Status.error e }

  -- `if let Some(s) = sig.borrow().as_ref() { s.send(..) }`.
  unfoldable pub send_signal : Client F → SignalMsg → List Out
  send_signal c msg = if c.signaling then send msg ∷ [] else []

  unfoldable pub teardown : Client F → Client F × List Out
  teardown c =
      let gone = record c { pc = none; page = App.teardown_pc c.page } in
      elim c.pc [ none ↦ (gone, []) | some peer ↦ (gone, close_pc peer ∷ []) ]

  -- `*last_ice.borrow_mut() = Some(candidate)`, which only an ICE message does.
  unfoldable pub stash : Client F → SignalMsg → Client F
  stash c (SignalMsg.ice candidate) = record c { last_ice = some candidate }
  stash c _ = c

module _ {F J : Type 0} ⦃f64 : F64 F⦄ (host : Host J) where
  unfoldable pub build_pc : Client F → Client F × Option ℕ
  build_pc c =
      let tried = record c { built = c.built + 1 } in
      elim (new_peer_connection host.browser c.built) [
        | ok peer ↦ (record tried { pc = some peer }, some peer)
        | err e ↦ (record tried { status = Status.error e }, none)
      ]

  -- `PersistRoom`.
  unfoldable pub persist : Client F → Text → Client F
  persist c room =
      let link = share_link host.origin room in
      record c {
        qr = host.qr_svg link;
        room_link = link;
        hash = host.set_hash (hash_of room);
        stored_owns = if host.storage then some room else c.stored_owns;
        room_code = room;
      }

  unfoldable pub execute : Client F → Action → Client F × List Out
  unfolding send_signal build_pc teardown persist
  execute c send_create = (c, send_signal c SignalMsg.create)
  execute c (send_join room) = (c, send_signal c (SignalMsg.join room))
  execute c (send_reclaim room) = (c, send_signal c (SignalMsg.reclaim room))
  execute c build_pc_and_offer =
      let (tried, made) = build_pc c in
      elim made [
        | none ↦ (tried, [])
        | some peer ↦ (
          record tried { page = wire_ctrl tried.page },
          create_channel peer ctrl_label ∷ spawn (offering peer) ∷ [],
        )
      ]
  execute c (build_pc_and_answer description) =
      let (tried, made) = build_pc c in
      elim made [
        | none ↦ (tried, [])
        | some peer ↦ (tried, spawn (answering peer description) ∷ [])
      ]
  execute c (set_remote_answer description) = elim c.pc [
    | none ↦ (c, [])
    | some peer ↦ (c, spawn (applying_answer peer description) ∷ [])
  ]
  execute c add_ice = elim c.last_ice [
    | none ↦ (c, [])
    | some candidate ↦
        (let taken = record c { last_ice = none } in
          elim c.pc [
            | none ↦ (taken, [])
            | some peer ↦ (taken, spawn (adding_candidate peer candidate) ∷ [])
          ])
  ]
  execute c Action.teardown_pc = teardown c
  execute c (set_status s) = (record c { status = s }, [])
  execute c (persist_room room) = (persist c room, [])

  -- `for action in actions { execute(action) }`.
  unfoldable pub execute_all : Client F → List Action → Client F × List Out
  execute_all c [] = (c, [])
  execute_all c (action ∷ actions) =
      let (d, outs) = execute c action in let (e, more) = execute_all d actions in (e, outs ++ more)

  -- A step of the reducer and its actions; `none` is a panic of the reducer.
  unfoldable pub react : Client F → Event → Option (Client F × List Out)
  react c event = elim (step c.session event) [
    | none ↦ none
    | some (after, actions) ↦ some (execute_all (record c { session = after }) actions)
  ]

  unfoldable pub on_message : Client F → SignalMsg → Option (Client F × List Out)
  unfolding react
  on_message c msg = elim (event_of msg) [
    | none ↦ some (stash c msg, [])
    | some event ↦ react (stash c msg) event
  ]

  -- `onmessage` of the socket, which wire_socket of signaling.rs installs.
  unfoldable pub on_text : Json SignalMsg → Client F → Text → Option (Client F × List Out)
  on_text json c t = elim (json.from_str t) [ none ↦ some (c, []) | some msg ↦ on_message c msg ]

  unfoldable pub on_open : Client F → Option (Client F × List Out)
  on_open c = react c Event.opened

  -- The bodies of the spawned futures, run to their end. The connection of an answer is new
  -- and holds no remote description before `set_remote` has set one.
  unfoldable pub run_task : Client F → Task → List Out
  run_task c (offering peer) = elim (create_offer host.browser peer) [
    | err e ↦ []
    | ok description ↦ send_signal c (SignalMsg.sdp description (text "offer"))
  ]
  run_task c (answering peer description) =
      let taken = set_remote host.browser peer SdpType.offer description in
      let remote = remote_after none description taken in
      elim taken [
        | err e ↦ []
        | ok _ ↦ elim (create_answer host.browser peer remote) [
          | err e ↦ []
          | ok made ↦ send_signal c (SignalMsg.sdp made (text "answer"))
        ]
      ]
  run_task c (applying_answer peer description) =
      elim (set_remote host.browser peer SdpType.answer description) [ err e ↦ [] | ok _ ↦ [] ]
  run_task c (adding_candidate peer candidate) =
      elim (add_ice_candidate host.browser peer candidate) [ err e ↦ [] | ok _ ↦ [] ]

  -- The handlers that `build_pc` installs: a local candidate, and a channel of the remote side.
  unfoldable pub candidate_gathered : Client F → Option J → List Out
  candidate_gathered c found = elim (on_ice_candidate host.browser found) [
    | none ↦ []
    | some candidate ↦ send_signal c (SignalMsg.ice candidate)
  ]

module _ {F : Type 0} ⦃f64 : F64 F⦄ where
  unfoldable pub on_disconnect : Client F → Client F × List Out
  on_disconnect c =
      let shown = record c { status = Status.reconnecting; page = App.on_disconnect c.page } in
      let (gone, outs) = teardown shown in
      (record gone { session = dropped_session gone.session }, outs)

  -- A file's channel gets the router of Transfer.Receive, which keeps no state of the page.
  unfoldable pub on_data_channel : Client F → Text → Client F
  on_data_channel c label =
      ite (text_key.same label ctrl_label) (record c { page = wire_ctrl c.page }) c

  unfoldable pub ctrl_opens : Json (Control F) → Client F → Client F × List (Effect F)
  ctrl_opens json c =
      let (page, effects) = channel_opens json c.page in
      (record c { status = Status.connected; page = page }, effects)

-- `on_join`: what the hash is set to before the page reloads, if there is a code.
unfoldable pub join_by_code : Text → Option Text
join_by_code raw =
    let code = normalize_code raw in if is_empty code then none else some (text "#" ++ hash_of code)
