-- ===== src/Ui/Buttons.antt =====
-- The buttons of a row of ui.rs, and what they do to it.
use file_send.Rows
use file_send.Prelude.{
  Bool-cases, All, if◌then◌else◌, map, Text, text, nat_key, text_key, ℕ, ◌≡◌, refl, inl, inr, true,
  false, Bool, Option, none, some, List, [], ◌∷◌, ◌++◌, arith,
}
use file_send.Float.{F64}
use file_send.Wire.{Json}
use file_send.Protocol.{Control}
use file_send.Rows.{
  TransferState, pending, offered, active, done, declined, cancelled, is_state, Row, decline,
  mark_cancelled_remote, accept_all, pending_incoming_ids,
}
use file_send.Rows.Lookup.{state_of, same_key, state_of-decline}
use file_send.Rows.Changes.{next_state, accept_in, cancel_in, cancelled_out}
use file_send.Rows.Incoming.{accept_next, cancel_next}
use file_send.Rows.Outgoing.{cancelled_next}
use file_send.App.{Page, with_transfer}
use file_send.App
use file_send.Ui.{
  Display, Click, on_accept, on_decline, on_cancel, on_cancel_send, on_accept_all, copies, submit,
  new_room, inner_html, input, Html, words, element, bar, button, Htmls, end, cons, transfer_row,
  view_of, offer_row, closed_row, progress_row, heading, row,
}

-- The buttons that a markup shows, in order: what is written on each, and what a click on it does.
unfoldable mutual
  pub labelled : Html → List (Text × Click)
  labelled (words w) = []
  labelled (element tag class children) = all_labelled children
  labelled (bar style) = []
  labelled (inner_html class code) = []
  labelled (input class value) = []
  labelled (button class caption click) = (caption, click) ∷ []

  pub all_labelled : Htmls → List (Text × Click)
  all_labelled end = []
  all_labelled (cons h hs) = labelled h ++ all_labelled hs

-- The clicks alone.
unfoldable pub clicks : Html → List Click
unfolding labelled all_labelled
clicks h = map (λ b. b.1) (labelled h)

-- The buttons of a row by its state and its side.
abbrev pub buttons_of : TransferState → Bool → ℕ → List (Text × Click)
buttons_of offered true id = (text "Accept", on_accept id) ∷ (text "Decline", on_decline id) ∷ []
buttons_of active true id = (text "Cancel", on_cancel id) ∷ []
buttons_of active false id = (text "Cancel", on_cancel_send id) ∷ []
buttons_of _ _ id = []

module _ {F : Type 0} ⦃f64 : F64 F⦄ ⦃display : Display F⦄ where
  labelled-view_of :
      (s : TransferState) (items : List (Row F)) (t : Row F)
      → labelled (view_of s items t) ≡ buttons_of s t.incoming t.id
  unfolding labelled view_of offer_row closed_row progress_row heading row
  labelled-view_of pending items t = refl
  labelled-view_of offered items t = elim (Bool-cases t.incoming) [
    | inl e ↦ rw (e, view_of) refl
    | inr e ↦ rw (e, view_of) refl
  ]
  labelled-view_of declined items t = refl
  labelled-view_of cancelled items t = refl
  labelled-view_of active items t = ground arith
  labelled-view_of done items t = ground arith

module _ {F : Type 0} ⦃f64 : F64 F⦄ ⦃display : Display F⦄ where
  pub labelled-transfer_row :
      (r : Row F) (items : List (Row F))
      → labelled (transfer_row r items) ≡ buttons_of r.state r.incoming r.id
  unfolding transfer_row
  labelled-transfer_row r items = labelled-view_of r.state items r

same_key_self : (id : ℕ) (side : Bool) → same_key id side id side ≡ true
same_key_self id true = ground arith
same_key_self id false = ground arith

-- The state that a click gives the row it stands on.
abbrev pub moved : Click → Option TransferState
moved (on_accept id) = some active
moved (on_cancel id) = some cancelled
moved (on_cancel_send id) = some cancelled
moved _ = none

module _ {F : Type 0} ⦃f64 : F64 F⦄ (json : Json (Control F)) where
  -- The handlers that `App` passes to the list.
  pub press : Page F → Click → Page F
  press p (on_accept id) = (App.on_accept json p id).0
  press p (on_decline id) = (App.on_decline json p id).0
  press p (on_cancel id) = (App.on_cancel json p id).0
  press p (on_cancel_send id) = (App.on_cancel_send json p id).0
  press p on_accept_all = (App.on_accept_all json p).0
  press p _ = p

  -- What a click does to the rows: its own one moves, and every other stays.
  abbrev pub Acts : Page F → ℕ → Bool → Click → Type 0
  Acts p id side click =
      (state_of (press p click).items id side ≡ moved click)
      × ((j : ℕ) (c : Bool)
          → same_key id side j c ≡ false
          → state_of (press p click).items j c ≡ state_of p.items j c)

  press-items :
      (p : Page F) (click : Click)
      → (press p click).items ≡ elim click [
        | on_accept id ↦ Rows.accept p.items id
        | on_decline id ↦ decline p.items id
        | on_cancel id ↦ Rows.cancel p.items id
        | on_cancel_send id ↦ mark_cancelled_remote p.items id
        | on_accept_all ↦ accept_all p.items (pending_incoming_ids p.items)
        | _ ↦ p.items
      ]
  unfolding press App.on_accept_all App.on_accept App.on_decline App.on_cancel App.on_cancel_send
      with_transfer
  press-items p (on_accept id) = ground arith
  press-items p (on_decline id) = ground arith
  press-items p (on_cancel id) = ground arith
  press-items p (on_cancel_send id) = ground arith
  press-items p on_accept_all = ground arith
  press-items p (copies t) = refl
  press-items p (submit raw) = refl
  press-items p new_room = refl

  -- A change of the rows that moves one key.
  Acts-keyed :
      (p : Page F) (click : Click) (id : ℕ) (side : Bool) (s : TransferState)
      → (after : List (Row F)) (next : Option TransferState → Option TransferState)
      → (press p click).items ≡ after
      → ((j : ℕ) (c : Bool)
          → state_of after j c
            ≡ (if same_key id side j c then next (state_of p.items j c) else state_of p.items j c))
      → next (some s) ≡ moved click
      → state_of p.items id side ≡ some s
      → Acts p id side click
  Acts-keyed p click id side s after next became moves to at = (
    rw became (ground (arith, moves id side, at, to, same_key_self id side)),
    λ j c far. rw became (ground (arith, moves j c, far)),
  )

  buttons_of-Acts :
      (p : Page F) (s : TransferState) (side : Bool) (id : ℕ)
      → state_of p.items id side ≡ some s
      → All (λ b. Acts p id side b.1) (buttons_of s side id)
  unfolding next_state
  buttons_of-Acts p offered true id at = (
    Acts-keyed p (on_accept id) id true offered _ (next_state {F = F} (accept_in id))
        (press-items p (on_accept id)) (accept_next id p.items) refl at,
    (
      Acts-keyed p (on_decline id) id true offered _ (λ o. none) (press-items p (on_decline id))
          (state_of-decline p.items id) refl at,
      tt,
    ),
  )
  buttons_of-Acts p active true id at = (
    Acts-keyed p (on_cancel id) id true active _ (next_state {F = F} (cancel_in id))
        (press-items p (on_cancel id)) (cancel_next id p.items) refl at,
    tt,
  )
  buttons_of-Acts p active false id at = (
    Acts-keyed p (on_cancel_send id) id false active _ (next_state {F = F} (cancelled_out id))
        (press-items p (on_cancel_send id)) (cancelled_next id p.items) refl at,
    tt,
  )
  buttons_of-Acts p offered false id at = tt
  buttons_of-Acts p pending side id at = tt
  buttons_of-Acts p done side id at = tt
  buttons_of-Acts p declined side id at = tt
  buttons_of-Acts p cancelled side id at = tt

  -- A row, in the state that the list has under its key, shows a button with the caption "Accept"
  -- and one with "Decline" while it is an incoming offer, one with "Cancel" while it is active, and
  -- no button else. Pressing "Accept" makes that very row active, "Decline" takes it off the list,
  -- "Cancel" makes it cancelled, and each leaves every other row in its state.
  pub buttons_act :
      ⦃display : Display F⦄ (p : Page F) (r : Row F)
      → state_of p.items r.id r.incoming ≡ some r.state
      → (labelled (transfer_row r p.items) ≡ buttons_of r.state r.incoming r.id)
        × All (λ b. Acts p r.id r.incoming b.1) (labelled (transfer_row r p.items))
  buttons_act p r at =
      let shown = labelled-transfer_row r p.items in
      (shown, rw shown (buttons_of-Acts p r.state r.incoming r.id at))
