-- ===== src/Lib.antt =====
-- file-send: two browsers exchange files over WebRTC; a small server introduces them to each other
-- and never sees a byte of a file.
--
-- How the program fits together. The server (crates/server/src) keeps rooms of two peers
-- (rooms.rs), counts failed joins per address (limiter.rs), and answers and relays the messages of
-- a WebSocket (ws.rs; the message type is crates/shared/src/lib.rs). In the page
-- (crates/client/src), signaling.rs keeps that WebSocket alive, reconnect.rs decides what each
-- message means for the handshake, app.rs carries the decisions out, and once the peers are
-- connected transfer.rs moves files: the handshake of each file runs on a control channel, its
-- bytes on a channel of its own. The pure parts of that are protocol.rs (frames and ranges),
-- transfer_state.rs (the sender's queue, the receiver's account) and rows.rs (what the page shows),
-- with filetype.rs for the badges.
--
-- What models what. Every function keeps its name from the source; a function with a long body has
-- helpers named for its branches. State is passed explicitly, a reference cell or a mutex is a field
-- of a state record, and every handler is a function from a state to a state and its effects.
--   Rooms      crates/server/src/rooms.rs: the registry, all operations.
--   Limiter    crates/server/src/limiter.rs.
--   Wire       crates/shared/src/lib.rs, and serde_json as a record Json with its round trip.
--   Server     crates/server/src/ws.rs: AppState, the handlers of a socket's whole life; send_to
--              appends to the queue that the peer's own task drains. The room id, the time and
--              the decoded frame are arguments; Server.Codes draws the id with nanoid.
--   Reconnect  crates/client/src/reconnect.rs, with Status of ui.rs and the feeding code of app.rs.
--   Signaling  crates/client/src/signaling.rs: next_backoff and the reconnect state.
--   Filetype   crates/client/src/filetype.rs.
--   Protocol   crates/client/src/protocol.rs.
--   Rows       crates/client/src/rows.rs, with the types of ui.rs and the handlers of app.rs.
--   Streams    crates/client/src/transfer_state.rs.
--   Transfer   crates/client/src/transfer.rs: Transfer the control side, Transfer.Receive the
--              router of a file's channel, Transfer.Send the streaming loops,
--              Transfer.Channel the task of one file; then what they promise.
--   App        crates/client/src/app.rs: the files, ids and rows of the page and their handlers, and
--              the area that files are dropped on.
--   Links      crates/client/src/app.rs: room codes, share links and the hash of the location.
--   Webrtc     crates/client/src/webrtc.rs: the descriptions and candidates, over a browser.
--   Qr         crates/client/src/qr.rs: the drawing of a code, over the qrcode crate.
--   Client     crates/client/src/app.rs: the effect that runs on mount: the actions of the reducer,
--              what the handlers of the signaling do, the futures that they spawn, what a reload
--              finds in the hash and in session storage, and the markup of the page.
--   Ui         crates/client/src/ui.rs: labels, sizes, the rows with their markup and buttons, the
--              block that shares a room, the join box, and the clipboard.
--   Exchange   two pages and the control channel between them: the callbacks of app.rs, and one file
--              from the page that offers it to the page that saves it.
--   System     pages and server together: what a page sends is a frame for the server, and what the
--              server queues for a peer is a text for its page, both printed by serde_json.
-- Prelude holds the shared names and lemmas, HashMap the model of std's map (an association list,
-- of which only get, insert and remove are used), Float the interface of f64.
--
-- Choices. Numbers are naturals; a 32-bit or 64-bit operation that can leave its word has its
-- remainder written out (next_id, checked_shl, split_ranges, the offsets of send_file). f64 is a
-- type with the operations that the code uses and no laws; a theorem that needs the conversion of
-- a size says so. A chunk of a file is the list of its bytes. The loops of split_ranges and of
-- send_file's slabs run on fuel, the total and the slab's length: each turn moves by at least one
-- byte, and the theorems prove that the fuel is never short. What the browser answers while a file
-- is streaming (cancelled, slice, read, send, buffer full) is a function of time, over which the
-- theorems quantify; what reaches a receiver is any list of arrivals. A peer connection is the
-- number of its construction; a promise of the browser is what it resolves to, an error or a
-- value, and a spawned future runs from its first await to its end in one step, since between its
-- awaits it touches nothing but its own connection and the socket. What the location's hash reads
-- after `set_hash` is the host's, since a browser escapes some characters (none of a drawn code).
-- What a browser makes as an answer depends on the remote description that the connection holds. A
-- file's channel opens, or never does, and then its task stays where it is. The markup of a row is
-- a tree of tags and classes, of the row as its list has it now.
--
-- What is left out: sockets, tasks, timers, the console log, the registration of browser handlers
-- (webrtc.rs) and the state log, and the entry points, which are input and output.
pub mod Prelude
pub mod HashMap
pub mod Rooms
pub mod Limiter
pub mod Wire
pub mod Server
pub mod Reconnect
pub mod Signaling
pub mod Filetype
pub mod Float
pub mod Protocol
pub mod Rows
pub mod Streams
pub mod Transfer
pub mod App
pub mod Links
pub mod Webrtc
pub mod Qr
pub mod Client
pub mod System
pub mod Ui
pub mod Exchange
