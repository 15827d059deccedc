-- ===== src/App/Gathered.antt =====
-- Files that are dropped on the page of app.rs are offered to the peer.
use file_send.Prelude.{
  length, get_elem?, nat_key, text_key, ℕ, suc, ◌+◌, ◌%◌, ◌^◌, ◌≡◌, refl, append-nil, Option-cases,
  inl, inr, ap, sym, ◌∙◌, false, some, List, [], ◌∷◌, ◌++◌, map, arith,
}
use file_send.Float.{F64}
use file_send.Wire.{Json}
use file_send.Protocol.{Control}
use file_send.Rows.{Row, push_outgoing_pending}
use file_send.Transfer
use file_send.Transfer.{File, Shared, Effect}
use file_send.App.{Page, add_files, on_files, channel_opens, wire_ctrl}
use file_send.App.Opening.{offer_frame, channel_opens_offers}
use file_send.App.Zone.{FileList, collect, files_of, drag_depth, on_drop, on_input_change}

-- Files with their ids, which count on from `next`.
pub number : {F : Type 0} → ℕ → List (File F) → List (ℕ × File F)
number next [] = []
number next (file ∷ files) = (next, file) ∷ number ((next + 1) % 2 ^ 64) files

add_files-number :
    {F : Type 0} ⦃f64 : F64 F⦄ (next : ℕ) (items : List (Row F)) (files : List (File F))
    → (add_files next items files).2 ≡ number next files
unfolding add_files number
add_files-number next items [] = refl
add_files-number next items (file ∷ files) = ap ((next, file) ∷◌) (
    add_files-number ((next + 1) % 2 ^ 64) (push_outgoing_pending items next file.name file.size)
      files)

-- The list has exactly these files.
abbrev pub Lists : {F : Type 0} → FileList F → List (File F) → Type 0
Lists list files = (list.length ≡ length files) × ((i : ℕ) → list.item i ≡ get_elem? files i)

collect-all :
    {F : Type 0} (list : FileList F) (i : ℕ) (files : List (File F))
    → ((k : ℕ) → list.item (i + k) ≡ get_elem? files k)
    → collect list i (length files) ≡ files
unfolding collect
collect-all list i [] items = refl
collect-all list i (file ∷ files) items =
    let here : list.item i ≡ some file = ap list.item (omega arith) ∙ items 0 in
    rw here (
      ap (file ∷◌)
        (collect-all list (i + 1) files (λ k. ap list.item (omega arith) ∙ items (suc k))))

files_of-all :
    {F : Type 0} (list : FileList F) (files : List (File F))
    → Lists list files
    → files_of (some list) ≡ files
unfolding files_of
files_of-all list files h =
    ap (λ n. collect list 0 n) h.0
    ∙ collect-all list 0 files (λ k. ap list.item (omega arith) ∙ h.1 k)

module _ {F : Type 0} ⦃f64 : F64 F⦄ (json : Json (Control F)) where
  on_files-waits :
      (p : Page F) (files : List (File F))
      → p.is_open ≡ false
      → ((on_files json p files).1 ≡ [])
        × ((on_files json p files).0.pending ≡ p.pending ++ number p.next_id files)
  unfolding on_files number
  on_files-waits p [] shut = (refl, sym (append-nil p.pending))
  on_files-waits p (file ∷ files) shut = elim (Option-cases p.transfer) [
    | inl bare ↦ (ground arith, ground (arith, add_files-number p.next_id p.items (file ∷ files)))
    | inr (t, there) ↦
        (ground arith, ground (arith, add_files-number p.next_id p.items (file ∷ files)))
  ]

  -- Files that are dropped on a page before its control channel is open wait without a message;
  -- when a connection comes and the channel opens, they are offered after those that waited
  -- already, each once, in the order of the drop and with the ids that count on, and none waits any more. The
  -- same holds for files that are chosen in the input.
  pub dropped_files_offered :
      (p : Page F) (depth : ℕ) (list : FileList F) (files : List (File F))
      → Lists list files
      → p.is_open ≡ false
      → let (depth', dropped, silent) = on_drop json p depth (some (some list)) in
        let (value, chosen, silent') = on_input_change json p (some list) in
        let (after, offers) = channel_opens json (wire_ctrl dropped) in
        (depth' ≡ 0)
        × (silent ≡ [])
        × (offers ≡ map (offer_frame json) (p.pending ++ number p.next_id files))
        × (after.pending ≡ [])
        × (chosen ≡ dropped)
        × (silent' ≡ [])
  unfolding on_drop on_input_change drag_depth wire_ctrl
  dropped_files_offered p depth list files all shut =
      let got = files_of-all list files all in
      let (silent, waits) = on_files-waits p files shut in
      let q = (on_files json p files).0 in
      let (empty, offers, rest) = channel_opens_offers json (wire_ctrl q) Transfer.new 0 refl in
      (
        refl,
        rw (got) silent,
        rw got (offers ∙ ap (map (offer_frame json)) waits),
        rw got empty,
        refl,
        rw got silent,
      )
