-- ===== src/App.antt =====
-- crates/client/src/app.rs: the page's files and rows, and the handlers that change them.
pub mod Numbered
pub mod Events
pub mod Opening
pub mod Zone
pub mod Pointer
pub mod Gathered
mod Examples
use file_send.Prelude.{
  if◌then◌else◌, is_empty, nat_key, text_key, ℕ, ◌+◌, ◌%◌, ◌^◌, Bool, true, false, Option, none,
  some, List, [], ◌∷◌, ◌++◌,
}
use file_send.Float.{F64}
use file_send.Wire.{Json}
use file_send.Protocol.{Control}
use file_send.Rows
use file_send.Rows.{
  Row, mark_offered, mark_cancelled_remote, mark_all_active_cancelled, decline,
  pending_incoming_ids, accept_all, push_outgoing_pending,
}
use file_send.Transfer
use file_send.Transfer.{File, Shared, Effect, offer_files, reject, abort}

-- The signals and cells of the page that its handlers change. `is_open` is the state of the control
-- channel of `transfer`.
pub record Page (F : Type 0) : Type 0 where
  pub next_id : ℕ
  pub pending : List (ℕ × File F)
  pub items : List (Row F)
  pub transfer : Option (Shared F)
  pub is_open : Bool

module _ {F : Type 0} ⦃f64 : F64 F⦄ where
  abbrev pub mount : Page F
  mount = record { next_id = 0; pending = []; items = []; transfer = none; is_open = false }

  -- `for id in ids { mark_offered(list, id) }`.
  unfoldable pub mark_all_offered : List (Row F) → List (ℕ × File F) → List (Row F)
  mark_all_offered items [] = items
  mark_all_offered items ((id, file) ∷ files) = mark_all_offered (mark_offered items id) files

  -- The loop of `on_files`: ids, rows and the batch.
  unfoldable pub add_files : ℕ → List (Row F) → List (File F) → ℕ × List (Row F) × List (ℕ × File F)
  add_files next items [] = (next, items, [])
  add_files next items (file ∷ files) =
      let (after, rows, batch) =
        add_files ((next + 1) % 2 ^ 64) (push_outgoing_pending items next file.name file.size)
          files in
      (after, rows, (next, file) ∷ batch)

  -- A method of the transfer, where there is one.
  unfoldable pub with_transfer :
      Page F → (Shared F → Shared F × List (Effect F)) → Page F × List (Effect F)
  with_transfer p method = elim p.transfer [
    | none ↦ (p, [])
    | some t ↦ (record p { transfer = some ((method t).0) }, (method t).1)
  ]

  -- `wire_ctrl`, and the teardown of the connection.
  unfoldable pub wire_ctrl : Page F → Page F
  wire_ctrl p = record p { transfer = some Transfer.new; is_open = false }

  unfoldable pub teardown_pc : Page F → Page F
  teardown_pc p = record p { transfer = none; is_open = false }

  -- The part of `on_disconnect` that is not the session's.
  unfoldable pub on_disconnect : Page F → Page F
  unfolding teardown_pc
  on_disconnect p = teardown_pc (record p { items = mark_all_active_cancelled p.items })

module _ {F : Type 0} ⦃f64 : F64 F⦄ (json : Json (Control F)) where
  unfoldable pub offer_now : Page F → List (ℕ × File F) → Page F × List (Effect F)
  unfolding with_transfer
  offer_now p files =
      let (after, effects) = with_transfer p (λ t. offer_files json t files) in
      (record after { items = mark_all_offered after.items files }, effects)

  -- `onopen` of the control channel.
  unfoldable pub channel_opens : Page F → Page F × List (Effect F)
  unfolding offer_now
  channel_opens p =
      let drained = record p { pending = []; is_open = true } in
      if is_empty p.pending then (drained, []) else offer_now drained p.pending

  unfoldable pub on_files : Page F → List (File F) → Page F × List (Effect F)
  unfolding offer_now
  on_files p [] = (p, [])
  on_files p (file ∷ files) =
      let (next, rows, batch) = add_files p.next_id p.items (file ∷ files) in
      let shown = record p { next_id = next; items = rows } in
      let open_now : Bool = elim p.transfer [ none ↦ false | some t ↦ p.is_open ] in
      if open_now
      then offer_now shown batch
      else (record shown { pending = p.pending ++ batch }, [])

  unfoldable pub on_accept : Page F → ℕ → Page F × List (Effect F)
  unfolding with_transfer
  on_accept p id =
      let (after, effects) = with_transfer p (λ t. Transfer.accept json t id) in
      (record after { items = Rows.accept after.items id }, effects)

  unfoldable pub on_decline : Page F → ℕ → Page F × List (Effect F)
  unfolding with_transfer
  on_decline p id =
      let (after, effects) = with_transfer p (λ t. reject json t id) in
      (record after { items = decline after.items id }, effects)

  unfoldable pub on_cancel : Page F → ℕ → Page F × List (Effect F)
  unfolding with_transfer
  on_cancel p id =
      let (after, effects) = with_transfer p (λ t. Transfer.cancel json t id) in
      (record after { items = Rows.cancel after.items id }, effects)

  unfoldable pub on_cancel_send : Page F → ℕ → Page F × List (Effect F)
  unfolding with_transfer
  on_cancel_send p id =
      let (after, effects) = with_transfer p (λ t. abort json t id) in
      (record after { items = mark_cancelled_remote after.items id }, effects)

  -- `for id in &ids { t.accept(*id) }`.
  unfoldable pub accept_each : Shared F → List ℕ → Shared F × List (Effect F)
  accept_each t [] = (t, [])
  accept_each t (id ∷ ids) =
      let (t', effects) = Transfer.accept json t id in
      let (after, more) = accept_each t' ids in (after, effects ++ more)

  unfoldable pub on_accept_all : Page F → Page F × List (Effect F)
  unfolding with_transfer
  on_accept_all p =
      let ids = pending_incoming_ids p.items in
      let (after, effects) = with_transfer p (λ t. accept_each t ids) in
      (record after { items = accept_all after.items ids }, effects)
