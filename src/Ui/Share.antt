-- ===== src/Ui/Share.antt =====
-- crates/client/src/ui.rs: the status, the block that shares a room, and the box that joins one.
use file_send.Prelude.{Text, text, Text-discrete, nat_key, text_key, Option, none, some, []}
use file_send.Reconnect.{Status}
use file_send.Ui.{
  label, copies, submit, Html, words, element, button, inner_html, input, Htmls, end, span, ◌⊳◌,
}

abbrev div : Text → Htmls → Html
div class children = element (text "div") class children

abbrev para : Text → Text → Html
para class shown = element (text "p") class (words shown ⊳ end)

-- `StatusBar`.
unfoldable pub status_bar : Status → Html
unfolding label
status_bar status =
    div (text "statusrow")
      (span (text "dot") end ⊳ span (text "status") (words (label status) ⊳ end) ⊳ end)

-- `ShareLink`: its buttons copy the code and the link that the page has when they are clicked.
unfoldable pub share_block : Text → Text → Text → Html
share_block code link qr = div (text "block share") (
    div (text "left") (
      para (text "label") (text "Share to connect a peer")
      ⊳ para (text "codelabel") (text "Your room code")
      ⊳ div (text "coderow") (
          span (text "code") (words code ⊳ end)
          ⊳ button (text "copycode") (text "Copy code") (copies code)
          ⊳ end)
      ⊳ div (text "sharelink") (
          span (text "sharelink-cap") (words (text "or link:") ⊳ end)
          ⊳ input [] link
          ⊳ button (text "copybtn small") (text "Copy") (copies link)
          ⊳ end)
      ⊳ para (text "note") (text "Link expires when you close the tab.")
      ⊳ end)
    ⊳ div (text "qrwrap")
        (inner_html (text "qr") qr ⊳ para (text "qr-cap") (text "scan on phone") ⊳ end)
    ⊳ end)

-- `JoinBox`, with what its input holds.
unfoldable pub join_box : Text → Html
join_box value = div (text "block joinbox") (
    para (text "label") (text "Have a code? Join a room")
    ⊳ div (text "joinrow") (
        input (text "joininput") value ⊳ button (text "joinbtn") (text "Join") (submit value) ⊳ end)
    ⊳ end)

-- What happens to the box: a new value, a key, a click on its button.
pub data BoxEvent : Type 0 where
  types : Text → BoxEvent
  keydown : Text → BoxEvent
  joins : BoxEvent

-- The value after an event, and what `on_join` is run on.
unfoldable pub box_step : Text → BoxEvent → Text × Option Text
box_step value (types raw) = (raw, none)
box_step value (keydown key) = elim (Text-discrete key (text "Enter")) [
  | yes _ ↦ (value, some value)
  | no _ ↦ (value, none)
]
box_step value joins = (value, some value)
