-- ===== src/Ui/Examples.antt =====
-- The texts of ui.rs from its own tests, over whole numbers, and a row with its buttons.
use file_send.Prelude.{
  All, text, nat_key, text_key, decimal, ℕ, ◌*◌, ◌≡◌, refl, true, some, [], ◌∷◌, ◌++◌,
}
use file_send.Reconnect.{error}
use file_send.Rows.{Row, offered}
use file_send.Rows.Lookup.{state_of}
use file_send.App.{Page, mount}
use file_send.Transfer.Codec.{whole, codec}
use file_send.Ui.{Display, label, fmt_size, scale, unit_name, transfer_row}
use file_send.Ui.Buttons.{labelled, buttons_of, Acts, buttons_act}

-- A size as a whole number of units has a zero after the point.
instance abbrev pub shown : Display ℕ
shown = record { one_digit = λ v. decimal v ++ text ".0"; percent = λ v. decimal (v * 100) }

formats_human_sizes :
    (fmt_size {F = ℕ} 0 ≡ text "0 B")
    × (fmt_size {F = ℕ} 512 ≡ text "512 B")
    × (fmt_size {F = ℕ} 1024 ≡ text "1.0 KB")
    × (fmt_size {F = ℕ} 1_048_576 ≡ text "1.0 MB")
    × (fmt_size {F = ℕ} 1_073_741_824 ≡ text "1.0 GB")
unfolding fmt_size scale unit_name decimal
formats_human_sizes = (refl, refl, refl, refl, refl)

status_label_carries_its_error :
    label (error (text "boom")) ≡ text "Couldn't establish direct connection: boom"
unfolding label
status_label_carries_its_error = refl

abbrev offer : Row ℕ
offer = record {
  id = 7;
  name = text "a.pdf";
  size = 10;
  kind = text "PDF";
  incoming = true;
  fraction = 0;
  speed = 0;
  state = offered;
}

abbrev page : Page ℕ
page = record mount { items = offer ∷ [] }

offer_is_there : state_of page.items 7 true ≡ some offered
unfolding state_of
offer_is_there = refl

buttons_act_example :
    (labelled (transfer_row offer page.items) ≡ buttons_of offered true 7)
    × All (λ b. Acts codec page 7 true b.1) (labelled (transfer_row offer page.items))
buttons_act_example = buttons_act codec page offer offer_is_there
