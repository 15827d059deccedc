-- ===== src/Client/Offers.antt =====
-- What the page of app.rs lets its user do.
use file_send.Prelude.{
  leb, if◌then◌else◌, length, retain, is_empty, not, Text, text, nat_key, text_key, ℕ, zero, suc,
  ◌+◌, ◌≡◌, refl, append-nil, ap, ◌∙◌, Bool, ◌&&◌, true, false, Bool-cases, ◌⊎◌, inl, inr, List, [],
  ◌∷◌, ◌++◌, arith,
}
use file_send.Float.{F64}
use file_send.Reconnect.{
  Status, idle, waiting_for_peer, connecting, connected, reconnecting, room_not_found, error,
}
use file_send.Rows.{
  Row, TransferState, pending, offered, active, done, declined, cancelled, is_state,
}
use file_send.Client.{Client}
use file_send.Ui.{
  Display, Html, Htmls, Click, copies, submit, new_room, on_accept_all, show_accept_all, rows_of,
  progress_list, ◌⊳◌,
}
use file_send.Ui.Share.{status_bar, share_block, join_box}
use file_send.Ui.Buttons.{labelled, all_labelled, buttons_of, labelled-transfer_row}
use file_send.Client.View.{show, view, title, drop_area, is_connected, is_room_not_found}

-- The way out of a room that was not found.
abbrev pub exits : Status → List (Text × Click)
exits room_not_found = (text "Start a new room", new_room) ∷ []
exits _ = []

-- The copies of the code and of the link, of a link that there is.
abbrev pub sharing : Text → Text → List (Text × Click)
sharing code [] = []
sharing code (x ∷ link) = (text "Copy code", copies code) ∷ (text "Copy", copies (x ∷ link)) ∷ []

-- The join of another room, without a connection.
abbrev pub joining : Status → Text → List (Text × Click)
joining connected value = []
joining _ value = (text "Join", submit value) ∷ []

-- How many files the peer offers, of the rows.
abbrev pub waits : TransferState → Bool → ℕ
waits offered true = 1
waits _ _ = 0

pub offers_in : {F : Type 0} → List (Row F) → ℕ
offers_in [] = 0
offers_in (r ∷ rs) = waits r.state r.incoming + offers_in rs

-- One button for two offers or more.
abbrev pub accepting : ℕ → List (Text × Click)
accepting zero = []
accepting (suc zero) = []
accepting (suc (suc n)) = (text "Accept all", on_accept_all) ∷ []

-- The buttons of the rows, from the top.
pub row_buttons : {F : Type 0} → List (Row F) → List (Text × Click)
row_buttons [] = []
row_buttons (r ∷ rs) = buttons_of r.state r.incoming r.id ++ row_buttons rs

exits_lem :
    (s : Status)
    → exits s ≡ (if is_room_not_found s then (text "Start a new room", new_room) ∷ [] else [])
exits_lem idle = refl
exits_lem waiting_for_peer = refl
exits_lem connecting = refl
exits_lem connected = refl
exits_lem reconnecting = refl
exits_lem Status.peer_left = refl
exits_lem Status.room_full = refl
exits_lem room_not_found = refl
exits_lem (error e) = refl

joining_lem :
    (s : Status) (value : Text)
    → joining s value ≡ (if not (is_connected s) then (text "Join", submit value) ∷ [] else [])
joining_lem idle value = refl
joining_lem waiting_for_peer value = refl
joining_lem connecting value = refl
joining_lem connected value = refl
joining_lem reconnecting value = refl
joining_lem Status.peer_left value = refl
joining_lem Status.room_full value = refl
joining_lem room_not_found value = refl
joining_lem (error e) value = refl

waits-cases :
    (s : TransferState) (b : Bool)
    → (((b && is_state s offered) ≡ true) × (waits s b ≡ 1))
      ⊎ (((b && is_state s offered) ≡ false) × (waits s b ≡ 0))
waits-cases offered true = inl (refl, refl)
waits-cases offered false = inr (refl, refl)
waits-cases pending b = inr (ground arith, refl)
waits-cases active b = inr (ground arith, refl)
waits-cases done b = inr (ground arith, refl)
waits-cases declined b = inr (ground arith, refl)
waits-cases cancelled b = inr (ground arith, refl)

offers_in_lem :
    {F : Type 0} (items : List (Row F))
    → length (retain (λ t. t.incoming && is_state t.state offered) items) ≡ offers_in items
unfolding offers_in retain
offers_in_lem [] = refl
offers_in_lem (r ∷ rs) = elim (waits-cases r.state r.incoming) [
  | inl (e, one) ↦ ground (arith, offers_in_lem rs, e, one)
  | inr (e, none_here) ↦ ground (arith, offers_in_lem rs, e, none_here)
]

accepting_lem :
    (n : ℕ) → accepting n ≡ (if leb 2 n then (text "Accept all", on_accept_all) ∷ [] else [])
accepting_lem zero = refl
accepting_lem (suc zero) = refl
accepting_lem (suc (suc n)) = ground arith

labelled-show :
    (test : Bool) (block : Html) (rest : Htmls)
    → all_labelled (show test block rest)
      ≡ (if test then labelled block else []) ++ all_labelled rest
unfolding labelled
labelled-show true block rest = refl
labelled-show false block rest = refl

-- The block of a link shows where the link is not empty.
labelled-share :
    (code link qr : Text) (rest : Htmls)
    → all_labelled (show (not (is_empty link)) (share_block code link qr) rest)
      ≡ sharing code link ++ all_labelled rest
unfolding labelled share_block
labelled-share code [] qr rest = refl
labelled-share code (x ∷ link) qr rest = refl

module _ {F : Type 0} ⦃f64 : F64 F⦄ ⦃display : Display F⦄ where
  labelled-rows_of :
      (rows items : List (Row F)) → all_labelled (rows_of rows items) ≡ row_buttons rows
  unfolding rows_of row_buttons labelled all_labelled
  labelled-rows_of [] items = refl
  labelled-rows_of (r ∷ rs) items =
      rw (labelled-transfer_row r items, labelled-rows_of rs items) refl

  labelled-progress_list :
      (items : List (Row F))
      → all_labelled (progress_list items) ≡ accepting (offers_in items) ++ row_buttons items
  unfolding progress_list labelled show_accept_all
  labelled-progress_list items =
      let rows = append-nil (all_labelled (rows_of items items)) ∙ labelled-rows_of items items in
      rw (accepting_lem (offers_in items), ← (offers_in_lem items))
        (elim (Bool-cases (show_accept_all items)) [
          | inl e ↦ rw (e) (ap ((text "Accept all", on_accept_all) ∷◌) rows)
          | inr e ↦ rw (e) rows
        ])

  -- The buttons of the page, from the top, each by its caption and what it does: "Start a new room"
  -- in a room that was not found; "Copy code" and "Copy" of the code and the link, once there is a
  -- link; "Join", until there is a connection; "Accept all" when two files or more are offered; and
  -- those of each row by its state and side. No other ones.
  pub view_offers :
      (c : Client F) (value : Text) (depth : ℕ)
      → labelled (view c value depth)
        ≡ exits c.status
          ++ (sharing c.room_code c.room_link
              ++ (joining c.status value
                  ++ (accepting (offers_in c.page.items) ++ row_buttons c.page.items)))
  unfolding view labelled all_labelled status_bar join_box title drop_area
  view_offers c value depth =
      let area = drop_area depth ⊳ progress_list c.page.items in
      let box = show (not (is_connected c.status)) (join_box value) area in
      let share =
        show (not (is_empty c.room_link)) (share_block c.room_code c.room_link c.qr) box in
      rw (exits_lem c.status, joining_lem c.status value)
        (labelled-show (is_room_not_found c.status) _ share
          ∙ ap
              ((if is_room_not_found c.status then (text "Start a new room", new_room) ∷ [] else [])
                ++◌)
              (labelled-share c.room_code c.room_link c.qr box
                ∙ ap (sharing c.room_code c.room_link ++◌) (
                    labelled-show (not (is_connected c.status)) _ area
                    ∙ ap
                        ((if not (is_connected c.status)
                            then (text "Join", submit value) ∷ []
                            else [])
                          ++◌)
                        (labelled-progress_list c.page.items))))
