-- ===== src/Exchange/Refused.antt =====
-- A file that is declined, cancelled or aborted: app.rs and transfer.rs on both pages.
use file_send.Transfer
use file_send.Prelude.{
  contains, Text, nat_key, text_key, ℕ, ◌≡◌, refl, subst, sym, ap, ◌∙◌, true, false, none, some,
  List, [], ◌∷◌, arith,
}
use file_send.HashMap.{get, remove}
use file_send.HashMap.Laws.{get-remove}
use file_send.Float.{F64}
use file_send.Wire.{Json}
use file_send.Protocol.{Control, encode_control, decode_control}
use file_send.Streams.{cancel_outgoing}
use file_send.Streams.Schedule.{contains-set_insert}
use file_send.Rows.{TransferState, pending, offered, active, is_state, declined, cancelled, done}
use file_send.Rows.Lookup.{state_of, state_of-decline}
use file_send.Rows.Changes.{rejected_out, cancelled_out, cancel_in, apply, concerns, next_state}
use file_send.Transfer.{Shared, Effect, send_control, reject, abort, on_control, ctrl_router}
use file_send.App.{Page, on_decline, on_cancel, on_cancel_send, with_transfer}
use file_send.Exchange.{handler, handle_all, hears, hears_all, controls}
use file_send.Exchange.Done.{own_change}

-- The page has no entry of the download, and shows it as cancelled.
abbrev pub IsStopped : {F : Type 0} → Page F → ℕ → Type 0
IsStopped {F} p id =
    (state_of p.items id true ≡ some cancelled)
    × ((t : Shared F) × (p.transfer ≡ some t) × (get t.incoming id ≡ none))

-- The page offers the file no more, its stream is to stop, and the row is cancelled.
abbrev pub IsRevoked : {F : Type 0} → Page F → ℕ → Type 0
IsRevoked {F} p id =
    (state_of p.items id false ≡ some cancelled)
    × ((t : Shared F) × (p.transfer ≡ some t)
        × (get t.outgoing.offered id ≡ none)
        × (contains t.outgoing.cancelled id ≡ true))

cancelled_next :
    (F : Type 0) ⦃f64 : F64 F⦄ (id : ℕ) (s : TransferState)
    → is_state s done ≡ false
    → next_state {F = F} (cancelled_out id) (some s) ≡ some cancelled
unfolding next_state
cancelled_next F id pending unfinished = refl
cancelled_next F id offered unfinished = refl
cancelled_next F id active unfinished = refl
cancelled_next F id done unfinished = ground arith
cancelled_next F id declined unfinished = refl
cancelled_next F id cancelled unfinished = refl

module _ {F : Type 0} ⦃f64 : F64 F⦄ (json : Json (Control F)) (p : Page F) (t : Shared F) (id : ℕ)
    (here : p.transfer ≡ some t) where
  -- What the handlers of the page send and leave.
  declines :
      ((on_decline json p id).1 ≡ send_control (encode_control json (Control.reject id)) ∷ [])
      × (state_of (on_decline json p id).0.items id true ≡ none)
  unfolding on_decline with_transfer reject
  declines = rw here (refl, state_of-decline p.items id id true ∙ ground arith)

  cancels :
      (s : TransferState)
      → state_of p.items id true ≡ some s
      → ((on_cancel json p id).1 ≡ send_control (encode_control json (Control.cancel id)) ∷ [])
        × IsStopped (on_cancel json p id).0 id
  unfolding on_cancel with_transfer Transfer.cancel apply concerns next_state
  cancels s at = rw here (
    refl,
    (
      own_change (cancel_in id) p.items id true (ground arith)
          ∙ ap (next_state {F = F} (cancel_in id)) at,
      (
        record t { incoming = remove t.incoming id },
        refl,
        get-remove t.incoming id id ∙ ground arith,
      ),
    ),
  )

  revoked : Shared F
  revoked = record t { outgoing = cancel_outgoing t.outgoing id }

  revoked_parts :
      (get revoked.outgoing.offered id ≡ none) × (contains revoked.outgoing.cancelled id ≡ true)
  unfolding cancel_outgoing revoked
  revoked_parts = (
    get-remove t.outgoing.offered id id ∙ ground arith,
    contains-set_insert t.outgoing.cancelled id id ∙ ground arith,
  )

  aborts :
      (s : TransferState)
      → state_of p.items id false ≡ some s
      → is_state s done ≡ false
      → ((on_cancel_send json p id).1 ≡ send_control (encode_control json (Control.abort id)) ∷ [])
        × IsRevoked (on_cancel_send json p id).0 id
  unfolding on_cancel_send with_transfer abort apply concerns next_state revoked
  aborts s at unfinished = rw here (
    refl,
    (
      own_change (cancelled_out id) p.items id false (ground arith)
          ∙ ap (next_state {F = F} (cancelled_out id)) at
          ∙ cancelled_next F id s unfinished,
      (revoked, refl, revoked_parts.0, revoked_parts.1),
    ),
  )

  -- What the page does when it hears of it.
  hears-reject :
      (s : TransferState)
      → state_of p.items id false ≡ some s
      → let after = (hears json p (encode_control json (Control.reject id))).0 in
        (state_of after.items id false ≡ some declined)
        × ((x : Shared F) × (after.transfer ≡ some x) × (get x.outgoing.offered id ≡ none))
  unfolding hears handle_all handler with_transfer ctrl_router on_control decode_control
      encode_control concerns next_state
  hears-reject s at =
      rw (here, json.reads_back (Control.reject id))
        (
          own_change (rejected_out id) p.items id false (ground arith)
              ∙ ap (next_state {F = F} (rejected_out id)) at,
          (
            record t { outgoing = record t.outgoing { offered = remove t.outgoing.offered id } },
            refl,
            get-remove t.outgoing.offered id id ∙ ground arith,
          ),
        )

  hears-cancel :
      (s : TransferState)
      → state_of p.items id false ≡ some s
      → is_state s done ≡ false
      → IsRevoked (hears json p (encode_control json (Control.cancel id))).0 id
  unfolding hears handle_all handler with_transfer ctrl_router on_control decode_control
      encode_control concerns next_state revoked
  hears-cancel s at unfinished =
      rw (here, json.reads_back (Control.cancel id))
        (
          own_change (cancelled_out id) p.items id false (ground arith)
              ∙ ap (next_state {F = F} (cancelled_out id)) at
              ∙ cancelled_next F id s unfinished,
          (revoked, refl, revoked_parts.0, revoked_parts.1),
        )

  hears-abort :
      (s : TransferState)
      → state_of p.items id true ≡ some s
      → IsStopped (hears json p (encode_control json (Control.abort id))).0 id
  unfolding hears handle_all handler with_transfer ctrl_router on_control decode_control
      encode_control concerns next_state
  hears-abort s at =
      rw (here, json.reads_back (Control.abort id))
        (
          own_change (cancel_in id) p.items id true (ground arith)
              ∙ ap (next_state {F = F} (cancel_in id)) at,
          (
            record t { incoming = remove t.incoming id },
            refl,
            get-remove t.incoming id id ∙ ground arith,
          ),
        )

module _ {F : Type 0} ⦃f64 : F64 F⦄ (json : Json (Control F)) where
  -- A page hears the one frame that effects send.
  heard :
      (p : Page F) (effects : List (Effect F)) (message : Text)
      → effects ≡ send_control message ∷ []
      → (hears_all json p (controls effects)).0 ≡ (hears json p message).0
  unfolding hears_all controls
  heard p effects message e = ap (λ es. (hears_all json p (controls es)).0) e

  -- A file that is under way between two pages, in whatever states its rows are as long as the
  -- sender's is not done. Where the receiver declines it, its row is gone, the sender's is
  -- declined, and the sender offers the file no more. Where the receiver cancels it, or the sender
  -- does, both rows are cancelled, the receiver has no entry that a late frame could reach, and the
  -- sender offers the file no more and its stream finds the flag that stops it.
  pub refusals_reach :
      (a b : Page F) (ta tb : Shared F) (id : ℕ) (s s' : TransferState)
      → a.transfer ≡ some ta
      → b.transfer ≡ some tb
      → state_of a.items id false ≡ some s
      → state_of b.items id true ≡ some s'
      → is_state s done ≡ false
      → let (refused, rejection) = on_decline json b id in
        let (stopped, cancelling) = on_cancel json b id in
        let (revoked, aborting) = on_cancel_send json a id in
        let declined_page = (hears_all json a (controls rejection)).0 in
        (state_of refused.items id true ≡ none)
        × (state_of declined_page.items id false ≡ some declined)
        × ((t : Shared F) × (declined_page.transfer ≡ some t) × (get t.outgoing.offered id ≡ none))
        × IsStopped stopped id
        × IsRevoked (hears_all json a (controls cancelling)).0 id
        × IsRevoked revoked id
        × IsStopped (hears_all json b (controls aborting)).0 id
  refusals_reach a b ta tb id s s' at bt sending receiving unfinished =
      let (rejection, gone) = declines json b tb id bt in
      let (cancelling, stopped) = cancels json b tb id bt s' receiving in
      let (aborting, over) = aborts json a ta id at s sending unfinished in
      let (row, rest) = hears-reject json a ta id at s sending in
      (
        gone,
        ap (λ p. state_of p.items id false) (heard a _ _ rejection) ∙ row,
        subst (λ p. (t : Shared F) × (p.transfer ≡ some t) × (get t.outgoing.offered id ≡ none))
            (sym (heard a _ _ rejection)) rest,
        stopped,
        subst (λ p. IsRevoked p id) (sym (heard a _ _ cancelling))
            (hears-cancel json a ta id at s sending unfinished),
        over,
        subst (λ p. IsStopped p id) (sym (heard b _ _ aborting))
            (hears-abort json b tb id bt s' receiving),
      )
