-- ===== src/Client/Lost.antt =====
-- The two ways in which the page of app.rs loses its connection, and the candidates it gets for one.
use file_send.Prelude.{
  retain, nat_key, text_key, ◌≡◌, refl, false, none, some, List, [], ◌∷◌, arith,
}
use file_send.Float.{F64}
use file_send.Wire.{SignalMsg}
use file_send.Rows.{active, is_state}
use file_send.Rows.Pending.{mark_all_active_cancelled-retain}
use file_send.Reconnect.{Status, reconnecting, step, event_of, dropped_session}
use file_send.App.{teardown_pc}
use file_send.App
use file_send.Client.{
  Host, Client, Out, on_message, on_disconnect, react, execute_all, execute, stash, teardown,
  close_pc,
}

module _ {F : Type 0} where
  -- A page with nothing left of a connection.
  pub record IsTornDown (c : Client F) : Type 0 where
    pub no_pc : c.pc ≡ none
    pub no_transfer : c.page.transfer ≡ none
    pub not_open : c.page.is_open ≡ false
    pub unknown : c.session.has_pc ≡ false

  -- The connection that a page has is closed, once.
  abbrev pub closed_of : Client F → List Out
  closed_of c = elim c.pc [ none ↦ [] | some pc ↦ close_pc pc ∷ [] ]

module _ {F J : Type 0} ⦃f64 : F64 F⦄ (host : Host J) (c : Client F) where
  -- When the peer leaves and when the socket drops, the page closes the connection that it has, if
  -- it has one, does nothing else outside, and keeps nothing of it. But only the drop cancels the rows: after it none is active, while the
  -- leaving of the peer leaves every row as it was, the active ones too.
  pub peer_left_keeps_rows :
      (d : Client F) × (outs : List Out) × (on_message host c SignalMsg.peer_left ≡ some (d, outs))
      × IsTornDown d
      × (d.status ≡ Status.peer_left)
      × (d.page.items ≡ c.page.items)
      × (outs ≡ closed_of c)
      × ((on_disconnect c).1 ≡ closed_of c)
      × IsTornDown (on_disconnect c).0
      × ((on_disconnect c).0.status ≡ reconnecting)
      × (retain (λ r. is_state r.state active) (on_disconnect c).0.page.items ≡ [])
  unfolding on_message react step event_of stash execute_all execute teardown teardown_pc
      on_disconnect App.on_disconnect dropped_session
  peer_left_keeps_rows =
      let told : Client F = record c { session = record c.session { has_pc = false } } in
      let d : Client F = record (teardown told).0 { status = Status.peer_left } in
      (
        d,
        (teardown told).1,
        ground arith,
        ground arith,
        refl,
        ground arith,
        ground arith,
        ground arith,
        ground arith,
        ground arith,
        ground (arith, mark_all_active_cancelled-retain c.page.items),
      )
