-- ===== src/System/Candidates.antt =====
-- A candidate from the connection of one page to the connection of the other: webrtc.rs and app.rs,
-- through the server of ws.rs.
use file_send.Prelude.{Text, nat_key, text_key, ℕ, ◌≡◌, refl, true, none, some, [], ◌∷◌, ◌∙◌, arith}
use file_send.Float.{F64}
use file_send.Wire.{SignalMsg, Json}
use file_send.Reconnect.{step, event_of}
use file_send.Server.{AppState, Env, handle_message, relay}
use file_send.Webrtc.{on_ice_candidate}
use file_send.Client.{
  Host, Client, adding_candidate, spawn, on_message, react, execute_all, execute, send_signal,
  stash, candidate_gathered, run_task,
}
use file_send.System.{speak, spawned, End, run_tasks, acts, hears}
use file_send.System.Rounds.{AreIdle, relay_round}
use file_send.System.Pages.{on_frame-to_string, hears_lem}

module _ {F J : Type 0} ⦃f64 : F64 F⦄ where
  on_message-ice :
      (host : Host J) (c : Client F) (pc : ℕ) (candidate : Text)
      → c.pc ≡ some pc
      → c.session.has_pc ≡ true
      → on_message host c (SignalMsg.ice candidate)
        ≡ some (record c { last_ice = none }, spawn (adding_candidate pc candidate) ∷ [])
  unfolding on_message react step event_of execute_all execute stash
  on_message-ice host c pc candidate there known = ground arith

  run_tasks-adding :
      (host : Host J) (c : Client F) (pc : ℕ) (candidate : Text)
      → run_tasks host c (adding_candidate pc candidate ∷ []) ≡ []
  unfolding run_tasks run_task
  run_tasks-adding host c pc candidate = ground arith

  -- Two pages are partners in the server, with nothing queued. A connection finds a candidate that
  -- the browser can print, while its page has its signaling, and the other page has a connection
  -- that its session knows of. Then the server hands the other page exactly this text, the page
  -- spawns the future that adds it to its own connection and keeps no copy for a later one, nothing
  -- else of the page changes, and the queues are empty again.
  pub candidate_crosses :
      (json : Json SignalMsg) (e : Env) (s : AppState) (a b : End F J) (found : J)
      (candidate : Text) (pc : ℕ)
      → AreIdle s a.peer b.peer
      → a.client.signaling ≡ true
      → on_ice_candidate a.host.browser (some found) ≡ some candidate
      → b.client.pc ≡ some pc
      → b.client.session.has_pc ≡ true
      → (t : AppState) × (hears json e
            (speak json e s a.peer a.ip (candidate_gathered a.host a.client (some found)))
            b
          ≡ some (
            t,
            record b { client = record b.client { last_ice = none } },
            adding_candidate pc candidate ∷ [],
          ))
        × AreIdle t a.peer b.peer
  unfolding candidate_gathered send_signal speak acts spawned handle_message
  candidate_crosses json e s a b found candidate pc idle online printed there known =
      let msg = SignalMsg.ice candidate in
      let (t, relayed, idle') = relay_round s a.peer b.peer msg idle in
      (
        t,
        rw (printed, candidate_gathered)
            (rw online (
              rw (on_frame-to_string json e s a.peer a.ip msg) (
                hears_lem json e (relay s a.peer msg) t b msg (record b.client { last_ice = none })
                  (spawn (adding_candidate pc candidate) ∷ []) relayed
                  (on_message-ice b.host b.client pc candidate there known)
                ∙ rw (run_tasks-adding b.host (record b.client { last_ice = none }) pc candidate)
                    refl))),
        idle',
      )
