-- ===== src/Ui.antt =====
-- crates/client/src/ui.rs: the texts and the rows that the page shows. The markup is kept as a tree.
pub mod Sizes
pub mod Share
pub mod Clipboard
pub mod Buttons
pub mod Examples
use file_send.Prelude.{
  ◌==◌, ltb, leb, if◌then◌else◌, retain, find, length, is_empty, Text, text, nat_key, text_key,
  decimal, ℕ, zero, suc, ◌+◌, Bool, true, false, not, ◌&&◌, Option, none, some, List, [], ◌∷◌, ◌++◌,
  map,
}
use file_send.Float.{F64}
use file_send.Reconnect.{
  Status, idle, waiting_for_peer, connecting, connected, reconnecting, peer_left, room_full,
  room_not_found, error,
}
use file_send.Rows.{
  TransferState, pending, offered, active, done, declined, cancelled, is_state, Row, matches,
}

unfoldable pub label : Status → Text
label idle = text "Idle"
label waiting_for_peer = text "Waiting for peer to join…"
label connecting = text "Connecting…"
label connected = text "Connected — ready to transfer"
label reconnecting = text "Reconnecting…"
label Status.peer_left = text "Peer disconnected"
label Status.room_full = text "Room is full"
label Status.room_not_found = text "Room not found or expired"
label (error e) = text "Couldn't establish direct connection: " ++ e

-- How std prints a float: with one digit after the point, and rounded to a percentage.
pub record Display (F : Type 0) : Type 0 where
  pub one_digit : F → Text
  pub percent : F → Text

-- `UNITS`.
unfoldable pub unit_name : ℕ → Text
unit_name zero = text "B"
unit_name (suc zero) = text "KB"
unit_name (suc (suc zero)) = text "MB"
unit_name (suc (suc (suc u))) = text "GB"

module _ {F : Type 0} ⦃f64 : F64 F⦄ where
  -- The loop of `fmt_size`; `left` is `UNITS.len() - 1 - u`.
  unfoldable pub scale : F → ℕ → ℕ → F × ℕ
  scale v u zero = (v, u)
  scale v u (suc left) = elim (f64.le (f64.of_nat 1024) v) [
    | true ↦ scale (f64.div v (f64.of_nat 1024)) (u + 1) left
    | false ↦ (v, u)
  ]

  module _ ⦃display : Display F⦄ where
    unfoldable pub fmt_size : F → Text
    unfolding unit_name
    fmt_size bytes =
        let (v, u) = scale bytes 0 3 in
        if u == 0
        then decimal (f64.to_nat v) ++ (text " " ++ unit_name u)
        else display.one_digit v ++ (text " " ++ unit_name u)

    unfoldable pub fmt_speed : F → Text
    fmt_speed bytes_per_sec = fmt_size bytes_per_sec ++ text "/s"

-- What the buttons of the page call, with what a closure has captured or reads when it is clicked.
pub data Click : Type 0 where
  on_accept : ℕ → Click
  on_decline : ℕ → Click
  on_cancel : ℕ → Click
  on_cancel_send : ℕ → Click
  on_accept_all : Click
  copies : Text → Click
  submit : Text → Click
  new_room : Click

-- The markup: an element by its tag and its class; the code of a picture that is set as
-- `inner_html`; and an input by its class and its value.
mutual
  pub data Html : Type 0 where
    words : Text → Html
    element : Text → Text → Htmls → Html
    bar : Text → Html
    inner_html : Text → Text → Html
    input : Text → Text → Html
    button : Text → Text → Click → Html

  pub data Htmls : Type 0 where
    end : Htmls
    cons : Html → Htmls → Htmls

infixr 60 ◌⊳◌
pattern abbrev pub ◌⊳◌ : Html → Htmls → Htmls
h ⊳ hs = cons h hs

abbrev pub span : Text → Htmls → Html
span class children = element (text "span") class children

unfoldable pub row : Text → Htmls → Htmls → Html
row class top below = element (text "li") class (element (text "div") (text "top") top ⊳ below)

module _ {F : Type 0} ⦃f64 : F64 F⦄ ⦃display : Display F⦄ where
  unfoldable pub arrow : Row F → Text
  arrow t = if t.incoming then text "↓" else text "↑"

  -- What every row starts with.
  unfoldable pub heading : Row F → Htmls → Html
  unfolding arrow
  heading t more = span [] (
      span (text "diricon") (words (arrow t) ⊳ end)
      ⊳ words (text " ")
      ⊳ span (text "name") (words t.name ⊳ end)
      ⊳ words (text " ")
      ⊳ span (text "tag") (words t.kind ⊳ end)
      ⊳ more)

  -- The row with its key in the list now, if it is there: `items.with(|l| l.iter().find(..))`.
  unfoldable pub live_fraction : List (Row F) → Row F → F
  live_fraction items t = elim (find (matches t.id t.incoming) items) [
    | some r ↦ r.fraction
    | none ↦ if is_state t.state done then f64.of_nat 1 else f64.of_nat 0
  ]

  unfoldable pub live_speed : List (Row F) → Row F → F
  live_speed items t = elim (find (matches t.id t.incoming) items) [
    | some r ↦ r.speed
    | none ↦ f64.of_nat 0
  ]

  -- The row under way or finished.
  unfoldable pub progress_row : List (Row F) → Row F → Bool → Html
  unfolding heading row live_fraction live_speed
  progress_row items t finished =
      let share = display.percent (live_fraction items t) in
      let speed = live_speed items t in
      let shown = t.incoming && (not finished && f64.lt (f64.of_nat 0) speed) in
      let cancel : Htmls =
        if finished
        then end
        else button (text "cancel") (text "Cancel")
            (if t.incoming then on_cancel t.id else on_cancel_send t.id)
          ⊳ end in
      let meta =
        span (text "pct") (words (if finished then text "✓ DONE" else share ++ text "%") ⊳ end)
        ⊳ cancel in
      row (if finished then text "row done" else text "row")
        (heading t end
          ⊳ span (text "meta")
              (if shown then span (text "speed") (words (fmt_speed speed) ⊳ end) ⊳ meta else meta)
          ⊳ end)
        (element (text "div") (text "bar") (bar (text "width:" ++ (share ++ text "%")) ⊳ end) ⊳ end)

  unfoldable pub closed_row : Row F → Text → Text → Html
  unfolding heading row
  closed_row t class shown =
      row class (heading t end ⊳ span (text "pct") (words shown ⊳ end) ⊳ end) end

  unfoldable pub offer_row : Row F → Html
  unfolding heading row
  offer_row t =
      row (text "row offer")
        (heading t (words (text " ") ⊳ span (text "size") (words (fmt_size t.size) ⊳ end) ⊳ end)
          ⊳ span (text "actions") (
              button (text "accept") (text "Accept") (on_accept t.id)
              ⊳ button (text "decline") (text "Decline") (on_decline t.id)
              ⊳ end)
          ⊳ end)
        end

  -- `match t.state`.
  unfoldable pub view_of : TransferState → List (Row F) → Row F → Html
  unfolding offer_row closed_row progress_row
  view_of pending items t = closed_row t (text "row waiting") (text "PENDING…")
  view_of offered items t =
      if t.incoming then offer_row t else closed_row t (text "row waiting") (text "WAITING…")
  view_of declined items t = closed_row t (text "row declined") (text "✗ DECLINED")
  view_of cancelled items t = closed_row t (text "row declined") (text "✗ CANCELLED")
  view_of active items t = progress_row items t false
  view_of done items t = progress_row items t true

  unfoldable pub transfer_row : Row F → List (Row F) → Html
  unfolding view_of
  transfer_row t items = view_of t.state items t

  -- Whether "Accept all" shows.
  unfoldable pub show_accept_all : List (Row F) → Bool
  show_accept_all items =
      leb 2 (length (retain (λ t. t.incoming && is_state t.state offered) items))

  unfoldable pub rows_of : List (Row F) → List (Row F) → Htmls
  rows_of [] items = end
  rows_of (t ∷ ts) items = transfer_row t items ⊳ rows_of ts items

  -- `ProgressList`.
  unfoldable pub progress_list : List (Row F) → Htmls
  progress_list items =
      let list = element (text "ul") (text "progress-list") (rows_of items items) in
      if show_accept_all items
      then button (text "acceptall") (text "Accept all") on_accept_all ⊳ list ⊳ end
      else list ⊳ end
