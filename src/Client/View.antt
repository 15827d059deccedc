-- ===== src/Client/View.antt =====
-- crates/client/src/app.rs: the markup of the whole page.
use file_send.Prelude.{
  if◌then◌else◌, is_empty, not, Text, text, nat_key, text_key, ℕ, Bool, true, false, [],
}
use file_send.Float.{F64}
use file_send.Reconnect.{Status, connected, room_not_found}
use file_send.Client.{Client}
use file_send.Ui.{
  Display, Html, words, element, button, input, Htmls, end, span, ◌⊳◌, new_room, progress_list,
}
use file_send.Ui.Share.{status_bar, share_block, join_box}
use file_send.App.Zone.{drop_class}

abbrev pub is_connected : Status → Bool
is_connected connected = true
is_connected _ = false

abbrev pub is_room_not_found : Status → Bool
is_room_not_found room_not_found = true
is_room_not_found _ = false

-- `Show`: the block, where the test holds, before what follows it.
abbrev pub show : Bool → Html → Htmls → Htmls
show test block rest = if test then block ⊳ rest else rest

unfoldable pub title : Html
title = element (text "h1") (text "wm") (
    words (text "File")
    ⊳ span [] (words (text "·") ⊳ end)
    ⊳ element (text "br") [] end
    ⊳ words (text "Send")
    ⊳ end)

unfoldable pub drop_area : ℕ → Html
drop_area depth = element (text "div") (drop_class depth) (
    element (text "b") [] (words (text "Drop files here") ⊳ end)
    ⊳ span (text "sub") (words (text "— or —") ⊳ end)
    ⊳ element (text "label") (text "filebtn") (words (text "Select files") ⊳ input [] [] ⊳ end)
    ⊳ end)

module _ {F : Type 0} ⦃f64 : F64 F⦄ ⦃display : Display F⦄ where
  -- The page, with what its join box holds and the depth of the drag.
  unfoldable pub view : Client F → Text → ℕ → Html
  unfolding title drop_area
  view c value depth = element (text "main") (text "container") (
      title
      ⊳ element (text "p") (text "tagline")
          (words (text "Peer-to-peer // bytes never touch a server") ⊳ end)
      ⊳ status_bar c.status
      ⊳ show (is_room_not_found c.status)
          (button (text "newroom") (text "Start a new room") new_room)
          (show (not (is_empty c.room_link)) (share_block c.room_code c.room_link c.qr) (
            show (not (is_connected c.status)) (join_box value)
              (drop_area depth ⊳ progress_list c.page.items))))
