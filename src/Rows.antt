-- ===== src/Rows.antt =====
-- crates/client/src/rows.rs: the transfer rows of the page, with the row type of ui.rs.
pub mod Lookup
pub mod Changes
pub mod Outgoing
pub mod Incoming
pub mod Refines
pub mod Keyed
pub mod Pending
mod Examples
use file_send.Prelude.{
  ◌==◌, if◌then◌else◌, retain, contains, Text, nat_key, text_key, ℕ, Bool, true, false, not, ◌&&◌,
  List, [], ◌∷◌, ◌++◌, map,
}
use file_send.Float.{F64}
use file_send.Protocol.{FileStart}
use file_send.Filetype.{file_kind}

pub data TransferState : Type 0 where
  pending : TransferState
  offered : TransferState
  active : TransferState
  done : TransferState
  declined : TransferState
  cancelled : TransferState

abbrev pub discriminant : TransferState → ℕ
discriminant pending = 0
discriminant offered = 1
discriminant active = 2
discriminant done = 3
discriminant declined = 4
discriminant cancelled = 5

-- The derived `==`.
abbrev pub is_state : TransferState → TransferState → Bool
is_state s t = discriminant s == discriminant t

-- `Transfer` of ui.rs, which rows.rs calls `Row`.
pub record Row (F : Type 0) : Type 0 where
  pub id : ℕ
  pub name : Text
  pub size : F
  pub kind : Text
  pub incoming : Bool
  pub fraction : F
  pub speed : F
  pub state : TransferState

abbrev pub same_side : Bool → Bool → Bool
same_side true b = b
same_side false b = not b

module _ {F : Type 0} where
  abbrev pub matches : ℕ → Bool → Row F → Bool
  matches id incoming r = r.id == id && same_side r.incoming incoming

  -- `list.iter_mut().find(..)` and a change of the row that it finds.
  unfoldable pub modify : List (Row F) → ℕ → Bool → (Row F → Row F) → List (Row F)
  modify [] id incoming change = []
  modify (r ∷ rs) id incoming change =
      if matches id incoming r then change r ∷ rs else r ∷ modify rs id incoming change

  unfoldable pub upsert : List (Row F) → ℕ → Bool → Row F → (Row F → Row F) → List (Row F)
  upsert [] id incoming make change = change make ∷ []
  upsert (r ∷ rs) id incoming make change =
      if matches id incoming r then change r ∷ rs else r ∷ upsert rs id incoming make change

  unfoldable pub mark_offered : List (Row F) → ℕ → List (Row F)
  mark_offered list id =
      modify list id false
        (λ r. if is_state r.state pending then record r { state = offered } else r)

  unfoldable pub mark_rejected : List (Row F) → ℕ → List (Row F)
  mark_rejected list id = modify list id false (λ r. record r { state = declined })

  unfoldable pub mark_cancelled_remote : List (Row F) → ℕ → List (Row F)
  mark_cancelled_remote list id =
      modify list id false
        (λ r. if is_state r.state done then r else record r { state = cancelled })

  unfoldable pub cancel_active : Row F → Row F
  cancel_active r = if is_state r.state active then record r { state = cancelled } else r

  unfoldable pub mark_all_active_cancelled : List (Row F) → List (Row F)
  mark_all_active_cancelled list = map cancel_active list

  unfoldable pub accept : List (Row F) → ℕ → List (Row F)
  accept list id = modify list id true (λ r. record r { state = active })

  unfoldable pub decline : List (Row F) → ℕ → List (Row F)
  decline list id = retain (λ r. not (r.id == id && r.incoming)) list

  unfoldable pub cancel : List (Row F) → ℕ → List (Row F)
  cancel list id = modify list id true (λ r. record r { state = cancelled })

  -- What `pending_incoming_ids` filters by.
  abbrev pub is_pending : Row F → Bool
  is_pending r = r.incoming && is_state r.state offered

  unfoldable pub pending_incoming_ids : List (Row F) → List ℕ
  pending_incoming_ids list = map (λ r. r.id) (retain is_pending list)

  unfoldable pub accept_one : List ℕ → Row F → Row F
  accept_one ids r = if r.incoming && contains ids r.id then record r { state = active } else r

  unfoldable pub accept_all : List (Row F) → List ℕ → List (Row F)
  accept_all list ids = map (accept_one ids) list

module _ {F : Type 0} ⦃f64 : F64 F⦄ where
  unfoldable pub frac : F → F → F
  frac done_bytes total =
      if f64.lt (f64.of_nat 0) total then f64.div done_bytes total else f64.of_nat 1

  unfoldable pub incoming_offer : List (Row F) → FileStart F → List (Row F)
  incoming_offer list meta =
      upsert list meta.id true
        (record {
          id = meta.id;
          name = meta.name;
          size = meta.size;
          kind = file_kind meta.name meta.mime;
          incoming = true;
          fraction = f64.of_nat 0;
          speed = f64.of_nat 0;
          state = offered;
        })
        (λ r. r)

  unfoldable pub recv_progress : List (Row F) → ℕ → Text → F → F → F → List (Row F)
  recv_progress list id name recv total speed =
      let f = frac recv total in
      upsert list id true
        (record {
          id = id;
          name = name;
          size = total;
          kind = file_kind name [];
          incoming = true;
          fraction = f;
          speed = speed;
          state = active;
        })
        (λ r. record r { fraction = f; speed = speed; state = active })

  unfoldable pub recv_complete : List (Row F) → ℕ → Text → List (Row F)
  recv_complete list id name =
      upsert list id true
        (record {
          id = id;
          name = name;
          size = f64.of_nat 0;
          kind = file_kind name [];
          incoming = true;
          fraction = f64.of_nat 1;
          speed = f64.of_nat 0;
          state = done;
        })
        (λ r. record r { fraction = f64.of_nat 1; speed = f64.of_nat 0; state = done })

  unfoldable pub send_progress : List (Row F) → ℕ → Text → F → F → List (Row F)
  send_progress list id name sent total =
      let f = frac sent total in
      let state = if f64.le (f64.of_nat 1) f then done else active in
      upsert list id false
        (record {
          id = id;
          name = name;
          size = total;
          kind = file_kind name [];
          incoming = false;
          fraction = f;
          speed = f64.of_nat 0;
          state = state;
        })
        (λ r. record r { fraction = f; state = state })

  unfoldable pub push_outgoing_pending : List (Row F) → ℕ → Text → F → List (Row F)
  push_outgoing_pending list id name size =
      list
      ++ record {
        id = id;
        name = name;
        size = size;
        kind = file_kind name [];
        incoming = false;
        fraction = f64.of_nat 0;
        speed = f64.of_nat 0;
        state = pending;
      }
        ∷ []
