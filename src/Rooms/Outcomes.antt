-- ===== src/Rooms/Outcomes.antt =====
-- What `join` of rooms.rs answers, and what it changes.
use file_send.Prelude.{
  ◌==◌, if◌then◌else◌, Option-cases, length, Text, nat_key, text_key, ℕ, ◌≡◌, refl, ◌≢◌, inl, inr,
  arith,
}
use file_send.HashMap.{get}
use file_send.Rooms.{PeerId, JoinOutcome, joined, full, not_found, RoomRegistry, join}
use file_send.Rooms.Members.{members}
use file_send.Rooms.Bounds.{IsBounded}

-- The answer as the number of members decides it.
pub outcome_for : ℕ → JoinOutcome
outcome_for n = if n == 0 then not_found else if n == 1 then joined else full

-- In a registry whose rooms are bounded, `join` answers by the number of the room's members: none
-- is `not_found`, one is `joined` and two is `full`; and an answer other than `joined` leaves the
-- registry as it was.
pub join_decides :
    (r : RoomRegistry) (p : PeerId) (id : Text) (now : ℕ)
    → IsBounded r
    → ((join r p id now).1 ≡ outcome_for (length (members r.rooms id)))
      × ((join r p id now).1 ≢ joined → (join r p id now).0 ≡ r)
unfolding join members outcome_for
join_decides r p id now h = elim (Option-cases (get r.rooms id)) [
  | inl e ↦ rw (e, join, members) (refl, λ n. refl)
  | inr (room, e) ↦ rw (e, join, members) (ground (arith, h id room e), ground arith)
]
