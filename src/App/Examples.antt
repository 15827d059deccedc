-- ===== src/App/Examples.antt =====
-- The page of app.rs, over natural numbers in place of floats.
use file_send.Rows.Keyed.{IsKeyed}
use file_send.Transfer.Codec.{whole, codec}
use file_send.App.Numbered.{AreBelow, IsNumbered}
use file_send.App.Events.{adds_files, page_step, IsPossible, page_step-IsNumbered}
use file_send.App.Opening.{offer_frame}
use file_send.App.Zone.{FileList, on_drop, on_input_change}
use file_send.App.Gathered.{number, dropped_files_offered}
use file_send.Prelude.{
  get_elem?, List, ◌++◌, text, nat_key, text_key, ℕ, ◌≡◌, refl, false, some, [], ◌∷◌, map, arith,
}
use file_send.Transfer.{File}
use file_send.App.{Page, mount, add_files, wire_ctrl, channel_opens, on_files}

abbrev small : File ℕ
small = record { name = text "a.txt"; size = 3; mime = []; bytes = 1 ∷ 2 ∷ 3 ∷ [] }

two_waiting : map (λ e. e.0) ((on_files codec mount (small ∷ small ∷ [])).0.pending) ≡ 0 ∷ 1 ∷ []
unfolding on_files add_files
two_waiting = refl

mount-IsNumbered : IsNumbered {F = ℕ} 0 []
unfolding IsNumbered AreBelow IsKeyed
mount-IsNumbered = (tt, tt)

room_left : IsPossible mount (adds_files (small ∷ []))
unfolding IsPossible
room_left = omega arith

page_step-IsNumbered_example :
    let after = page_step codec mount (adds_files (small ∷ [])) in
    IsNumbered after.next_id after.items
page_step-IsNumbered_example =
    page_step-IsNumbered codec mount (adds_files (small ∷ [])) room_left mount-IsNumbered

-- One file waits, and two are dropped.
abbrev one_waits : Page ℕ
one_waits = (on_files codec mount (small ∷ [])).0

abbrev two_files : List (File ℕ)
two_files = small ∷ small ∷ []

abbrev two_listed : FileList ℕ
two_listed = record { length = 2; item = λ i. get_elem? two_files i }

one_waits-shut : one_waits.is_open ≡ false
unfolding on_files
one_waits-shut = refl

dropped_files_offered_example :
    let (depth', dropped, silent) = on_drop codec one_waits 3 (some (some two_listed)) in
    let (value, chosen, silent') = on_input_change codec one_waits (some two_listed) in
    let (after, offers) = channel_opens codec (wire_ctrl dropped) in
    (depth' ≡ 0)
    × (silent ≡ [])
    × (offers ≡ map (offer_frame codec) (one_waits.pending ++ number one_waits.next_id two_files))
    × (after.pending ≡ [])
    × (chosen ≡ dropped)
    × (silent' ≡ [])
dropped_files_offered_example =
    dropped_files_offered codec one_waits 3 two_listed two_files (refl, λ i. refl) one_waits-shut
