-- ===== src/System.antt =====
-- The pages of app.rs with the server of ws.rs between them: what a page sends is a frame for the
-- server, and what the server queues for a peer is a text for its page.
pub mod Rounds
pub mod Pages
pub mod Connect
pub mod Reload
pub mod Dropped
pub mod Candidates
mod Codec
mod Examples
use file_send.Prelude.{
  ◌>>=◌, Text, text, nat_key, text_key, ℕ, Bool, true, Option, none, some, List, [], ◌∷◌, ◌++◌,
}
use file_send.Float.{F64}
use file_send.Wire.{SignalMsg, Json}
use file_send.Rooms.{PeerId}
use file_send.Limiter.{IpAddr}
use file_send.Server.{AppState, Env, text_frame, on_frame, drain, connect, disconnect}
use file_send.Client.{
  Host, Client, Task, Out, send, spawn, on_text, on_open, on_disconnect, run_task,
}

-- What a page's outputs are to the server.
unfoldable pub speak : Json SignalMsg → Env → AppState → PeerId → IpAddr → List Out → AppState
speak json e s peer ip [] = s
speak json e s peer ip ((send msg) ∷ outs) =
    speak json e (on_frame json e s peer ip (text_frame (json.to_string msg))).0 peer ip outs
speak json e s peer ip (out ∷ outs) = speak json e s peer ip outs

-- The futures that a page spawned.
unfoldable pub spawned : List Out → List Task
spawned [] = []
spawned ((spawn task) ∷ outs) = task ∷ spawned outs
spawned (out ∷ outs) = spawned outs

-- One end: the peer that the server knows, and the page.
pub record End (F J : Type 0) : Type 0 where
  pub peer : PeerId
  pub ip : IpAddr
  pub host : Host J
  pub client : Client F

module _ {F J : Type 0} ⦃f64 : F64 F⦄ where
  unfoldable pub run_tasks : Host J → Client F → List Task → List Out
  run_tasks host c [] = []
  run_tasks host c (task ∷ tasks) = run_task host c task ++ run_tasks host c tasks

  module _ (json : Json SignalMsg) (e : Env) where
    -- What an end does with what a handler of its page left: it sends, and then its futures run.
    unfoldable pub acts : AppState → End F J → Client F × List Out → AppState × End F J × List Task
    acts s x (c, outs) =
        let tasks = spawned outs in
        let sent = speak json e s x.peer x.ip outs in
        (speak json e sent x.peer x.ip (run_tasks x.host c tasks), record x { client = c }, tasks)

    unfoldable pub opens : AppState → End F J → Option (AppState × End F J × List Task)
    opens s x = do left ← on_open x.host x.client; some (acts s x left)

    -- An end hears the next message of its queue; `none` is a panic or an empty queue.
    unfoldable pub hears : AppState → End F J → Option (AppState × End F J × List Task)
    hears s x =
        let (drained, popped) = drain s x.peer in
        (do
          msg ← popped
          left ← on_text x.host json x.client (json.to_string msg)
          some (acts drained x left))

    -- A page opens its socket while another waits in its room: that one hears of it and offers, the
    -- first hears the offer and answers, and the answer is heard.
    unfoldable pub connect_pages :
        AppState → End F J → End F J → Option (AppState × End F J × End F J × List Task)
    connect_pages s joiner waiting = do
      (s₁, joiner₁, _) ← opens s joiner
      (s₂, waiting₁, _) ← hears s₁ waiting
      (s₃, joiner₂, _) ← hears s₂ joiner₁
      (s₄, waiting₂, last) ← hears s₃ waiting₁
      some (s₄, joiner₂, waiting₂, last)

    -- The owner of a room reloads: it joins the room of its hash, hears the answer, acts on it, and
    -- hears the next one.
    unfoldable pub reload_owner : AppState → End F J → Option (AppState × End F J)
    reload_owner s owner = do
      (s₁, owner₁, _) ← opens s owner
      (s₂, owner₂, _) ← hears s₁ owner₁
      (s₃, owner₃, _) ← hears s₂ owner₂
      some (s₃, owner₃)

    -- The socket of a page drops and opens again, and the other page hears first that its peer left.
    -- The server gives the new socket a new peer.
    unfoldable pub reconnect_pages :
        AppState → End F J → End F J → Option (AppState × End F J × End F J × List Task)
    reconnect_pages s dropped waiting = do
      (s₁, waiting₁, _) ← hears (disconnect s dropped.peer) waiting
      let (s₂, peer) = connect s₁
      connect_pages s₂ (record dropped { peer = peer; client = (on_disconnect dropped.client).0 })
          waiting₁
