-- ===== src/App/Events.antt =====
-- The life of the page of app.rs: its rows keep different keys, and its files their numbers.
use file_send.Rows
use file_send.Transfer.Codec.{whole}
use file_send.Prelude.{
  if◌then◌else◌, Option-cases, length, is_empty, nat_key, text_key, ℕ, ◌+◌, ◌^◌, ◌<◌, refl, inl,
  inr, Bool, true, false, none, some, List, [], ◌∷◌, ◌++◌, arith,
}
use file_send.Float.{F64}
use file_send.Wire.{Json}
use file_send.Protocol.{Control}
use file_send.Rows.{
  pending, Row, mark_offered, mark_rejected, mark_cancelled_remote, cancel_active,
  mark_all_active_cancelled, decline, pending_incoming_ids, accept_one, accept_all, incoming_offer,
  recv_progress, recv_complete, send_progress,
}
use file_send.Rows.Changes.{
  Change, offer_in, progress_in, complete_in, progress_out, add_out, offer_out, rejected_out,
  cancelled_out, connection_lost, accept_in, decline_in, cancel_in, accept_all_in, apply,
}
use file_send.Rows.Keyed.{IsFresh, apply-IsKeyed}
use file_send.Transfer.{File, Shared, Effect}
use file_send.App.{
  Page, mark_all_offered, add_files, with_transfer, wire_ctrl, teardown_pc, on_disconnect,
  offer_now, channel_opens, on_files, on_accept, on_decline, on_cancel, on_cancel_send,
  on_accept_all,
}
use file_send.App.Numbered.{
  AreBelow, modify-AreBelow, upsert-AreBelow, map-AreBelow, retain-AreBelow, IsNumbered,
  add_files-IsNumbered,
}

-- What the user, the connection and the peer do to the page.
pub data PageEvent (F : Type 0) : Type 0 where
  adds_files : List (File F) → PageEvent F
  accepts : ℕ → PageEvent F
  declines : ℕ → PageEvent F
  cancels : ℕ → PageEvent F
  cancels_send : ℕ → PageEvent F
  accepts_all : PageEvent F
  wires : PageEvent F
  opens : PageEvent F
  tears_down : PageEvent F
  disconnects : PageEvent F
  handles : Change F → PageEvent F

module _ {F : Type 0} ⦃f64 : F64 F⦄ (json : Json (Control F)) where
  unfoldable pub page_step : Page F → PageEvent F → Page F
  page_step p (adds_files files) = (on_files json p files).0
  page_step p (accepts id) = (on_accept json p id).0
  page_step p (declines id) = (on_decline json p id).0
  page_step p (cancels id) = (on_cancel json p id).0
  page_step p (cancels_send id) = (on_cancel_send json p id).0
  page_step p accepts_all = (on_accept_all json p).0
  page_step p wires = wire_ctrl p
  page_step p opens = (channel_opens json p).0
  page_step p tears_down = teardown_pc p
  page_step p disconnects = on_disconnect p
  page_step p (handles change) = record p { items = apply change p.items }

module _ {F : Type 0} ⦃f64 : F64 F⦄ where
  -- A callback of the transfer is about a file that the page numbered, and adds none.
  unfoldable pub IsOurs : ℕ → Change F → Type 0
  IsOurs n (progress_out id name sent total) = id < n
  IsOurs n (add_out id name size) = ⊥
  IsOurs n _ = Unit

  -- What the page's number of files leaves room for in a 64-bit word.
  unfoldable pub IsPossible : Page F → PageEvent F → Type 0
  IsPossible p (adds_files files) = p.next_id + length files < 2 ^ 64
  IsPossible p (handles change) = IsOurs p.next_id change
  IsPossible p _ = Unit

  pub apply-AreBelow :
      (n : ℕ) (change : Change F) (list : List (Row F))
      → IsOurs n change
      → AreBelow n list
      → AreBelow n (apply change list)
  unfolding IsOurs apply incoming_offer recv_progress recv_complete send_progress mark_offered
      mark_rejected mark_cancelled_remote mark_all_active_cancelled cancel_active Rows.accept
      decline Rows.cancel accept_all accept_one
  apply-AreBelow n (offer_in meta) list ours h =
      upsert-AreBelow n list _ _ _ _ (λ r. (refl, refl)) (λ out. ground arith) h
  apply-AreBelow n (progress_in id name recv total speed) list ours h =
      upsert-AreBelow n list _ _ _ _ (λ r. (refl, refl)) (λ out. ground arith) h
  apply-AreBelow n (complete_in id name) list ours h =
      upsert-AreBelow n list _ _ _ _ (λ r. (refl, refl)) (λ out. ground arith) h
  apply-AreBelow n (progress_out id name sent total) list ours h =
      upsert-AreBelow n list _ _ _ _ (λ r. (refl, refl)) (λ out. ours) h
  apply-AreBelow n (add_out id name size) list ours h = absurd ours
  apply-AreBelow n (offer_out id) list ours h =
      modify-AreBelow n list _ _ _ (λ r. (ground arith, ground arith)) h
  apply-AreBelow n (rejected_out id) list ours h =
      modify-AreBelow n list _ _ _ (λ r. (refl, refl)) h
  apply-AreBelow n (cancelled_out id) list ours h =
      modify-AreBelow n list _ _ _ (λ r. (ground arith, ground arith)) h
  apply-AreBelow n connection_lost list ours h =
      map-AreBelow n list _ (λ r. (ground arith, ground arith)) h
  apply-AreBelow n (accept_in id) list ours h = modify-AreBelow n list _ _ _ (λ r. (refl, refl)) h
  apply-AreBelow n (decline_in id) list ours h = retain-AreBelow n _ list h
  apply-AreBelow n (cancel_in id) list ours h = modify-AreBelow n list _ _ _ (λ r. (refl, refl)) h
  apply-AreBelow n (accept_all_in ids) list ours h =
      map-AreBelow n list _ (λ r. (ground arith, ground arith)) h

  ours-IsFresh :
      (n : ℕ) (change : Change F) (list : List (Row F)) → IsOurs n change → IsFresh change list
  unfolding IsOurs IsFresh
  ours-IsFresh n (add_out id name size) list ours = absurd ours
  ours-IsFresh n (offer_in meta) list ours = tt
  ours-IsFresh n (progress_in id name recv total speed) list ours = tt
  ours-IsFresh n (complete_in id name) list ours = tt
  ours-IsFresh n (progress_out id name sent total) list ours = tt
  ours-IsFresh n (offer_out id) list ours = tt
  ours-IsFresh n (rejected_out id) list ours = tt
  ours-IsFresh n (cancelled_out id) list ours = tt
  ours-IsFresh n connection_lost list ours = tt
  ours-IsFresh n (accept_in id) list ours = tt
  ours-IsFresh n (decline_in id) list ours = tt
  ours-IsFresh n (cancel_in id) list ours = tt
  ours-IsFresh n (accept_all_in ids) list ours = tt

  pub apply-IsNumbered :
      (n : ℕ) (change : Change F) (list : List (Row F))
      → IsOurs n change
      → IsNumbered n list
      → IsNumbered n (apply change list)
  unfolding IsNumbered
  apply-IsNumbered n change list ours (below, keyed) = (
    apply-AreBelow n change list ours below,
    apply-IsKeyed change list (ours-IsFresh n change list ours) keyed,
  )

  method-IsNumbered :
      (p : Page F) (method : Shared F → Shared F × List (Effect F))
      (f : List (Row F) → List (Row F))
      → (IsNumbered p.next_id p.items → IsNumbered p.next_id (f p.items))
      → IsNumbered p.next_id p.items
      → let after = (with_transfer p method).0 in IsNumbered after.next_id (f after.items)
  unfolding with_transfer
  method-IsNumbered p method f step numbered = elim (Option-cases p.transfer) [
    | inl e ↦ rw (e, with_transfer) (step numbered)
    | inr (t, e) ↦ rw (e, with_transfer) (step numbered)
  ]

  mark_all_offered-IsNumbered :
      (n : ℕ) (files : List (ℕ × File F)) (list : List (Row F))
      → IsNumbered n list
      → IsNumbered n (mark_all_offered list files)
  unfolding mark_all_offered IsOurs apply
  mark_all_offered-IsNumbered n [] list numbered = numbered
  mark_all_offered-IsNumbered n ((id, file) ∷ files) list numbered =
      mark_all_offered-IsNumbered n files (mark_offered list id)
        (apply-IsNumbered n (offer_out id) list tt numbered)

  either_page :
      (b : Bool) (x y : Page F × List (Effect F))
      → IsNumbered x.0.next_id x.0.items
      → IsNumbered y.0.next_id y.0.items
      → let after = (if b then x else y).0 in IsNumbered after.next_id after.items
  either_page true x y hx hy = hx
  either_page false x y hx hy = hy

module _ {F : Type 0} ⦃f64 : F64 F⦄ (json : Json (Control F)) where
  offer_now-IsNumbered :
      (p : Page F) (files : List (ℕ × File F))
      → IsNumbered p.next_id p.items
      → let after = (offer_now json p files).0 in IsNumbered after.next_id after.items
  unfolding offer_now
  offer_now-IsNumbered p files numbered =
      method-IsNumbered p _ (λ list. mark_all_offered list files)
        (mark_all_offered-IsNumbered p.next_id files p.items) numbered

  on_files-IsNumbered :
      (p : Page F) (files : List (File F))
      → p.next_id + length files < 2 ^ 64
      → IsNumbered p.next_id p.items
      → let after = (on_files json p files).0 in IsNumbered after.next_id after.items
  unfolding on_files
  on_files-IsNumbered p [] word numbered = numbered
  on_files-IsNumbered p (file ∷ files) word numbered =
      let added = add_files p.next_id p.items (file ∷ files) in
      let shown : Page F = record p { next_id = added.0; items = added.1 } in
      let counted = (add_files-IsNumbered (file ∷ files) p.next_id p.items word numbered).0 in
      either_page (elim p.transfer [ none ↦ false | some t ↦ p.is_open ])
        (offer_now json shown added.2) (record shown { pending = p.pending ++ added.2 }, [])
        (offer_now-IsNumbered shown added.2 counted) counted

  -- Every event of the page keeps the keys of its rows apart and the ids of its outgoing rows below
  -- `next_id`, where there is room for the numbers of added files in a 64-bit word, and where send
  -- progress is reported of files that the page numbered.
  pub page_step-IsNumbered :
      (p : Page F) (e : PageEvent F)
      → IsPossible p e
      → IsNumbered p.next_id p.items
      → let after = page_step json p e in IsNumbered after.next_id after.items
  unfolding page_step IsPossible on_accept on_decline on_cancel on_cancel_send on_accept_all
      wire_ctrl channel_opens teardown_pc on_disconnect apply IsOurs
  page_step-IsNumbered p (adds_files files) room numbered =
      on_files-IsNumbered p files room numbered
  page_step-IsNumbered p (accepts id) room numbered =
      method-IsNumbered p _ (λ l. Rows.accept l id)
        (apply-IsNumbered p.next_id (accept_in id) p.items tt) numbered
  page_step-IsNumbered p (declines id) room numbered =
      method-IsNumbered p _ (λ l. decline l id)
        (apply-IsNumbered p.next_id (decline_in id) p.items tt) numbered
  page_step-IsNumbered p (cancels id) room numbered =
      method-IsNumbered p _ (λ l. Rows.cancel l id)
        (apply-IsNumbered p.next_id (cancel_in id) p.items tt) numbered
  page_step-IsNumbered p (cancels_send id) room numbered =
      method-IsNumbered p _ (λ l. mark_cancelled_remote l id)
        (apply-IsNumbered p.next_id (cancelled_out id) p.items tt) numbered
  page_step-IsNumbered p accepts_all room numbered =
      method-IsNumbered p _ (λ l. accept_all l (pending_incoming_ids p.items))
        (apply-IsNumbered p.next_id (accept_all_in (pending_incoming_ids p.items)) p.items tt)
        numbered
  page_step-IsNumbered p wires room numbered = numbered
  page_step-IsNumbered p opens room numbered =
      let drained : Page F = record p { pending = []; is_open = true } in
      either_page (is_empty p.pending) (drained, []) (offer_now json drained p.pending) numbered
        (offer_now-IsNumbered drained p.pending numbered)
  page_step-IsNumbered p tears_down room numbered = numbered
  page_step-IsNumbered p disconnects room numbered =
      apply-IsNumbered p.next_id connection_lost p.items tt numbered
  page_step-IsNumbered p (handles change) room numbered =
      apply-IsNumbered p.next_id change p.items room numbered
