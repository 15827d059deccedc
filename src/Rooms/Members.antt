-- ===== src/Rooms/Members.antt =====
-- The members of a room of rooms.rs, with no member where the room does not exist, after each
-- operation.
use file_send.Prelude.{
  Bool-cases, is_empty, retain, others, Text, nat_key, text_key, ℕ, ◌≡◌, inl, inr, ite, false, none,
  some, List, [], ◌∷◌, ◌++◌, arith,
}
use file_send.HashMap.{HashMap, get, insert, contains_key}
use file_send.HashMap.Laws.{get-insert, get-remove}
use file_send.Rooms.{PeerId, Room, RoomRegistry, create, enter, leave}

unfoldable pub members : HashMap Text Room → Text → List PeerId
members rooms id = elim (get rooms id) [ none ↦ [] | some room ↦ room.peers ]

pub members-insert :
    (rooms : HashMap Text Room) (id j : Text) (room : Room)
    → members (insert rooms id room) j ≡ ite (text_key.same id j) room.peers (members rooms j)
unfolding members
members-insert rooms id j room = ground (arith, get-insert rooms id j room)

pub members-create :
    (r : RoomRegistry) (peer : PeerId) (id j : Text) (now : ℕ)
    → members (create r peer id now).0.rooms j
      ≡ ite (text_key.same id j) (peer ∷ []) (members r.rooms j)
unfolding create
members-create r peer id j now = members-insert r.rooms id j _

pub members-enter :
    (r : RoomRegistry) (peer : PeerId) (id j : Text) (now : ℕ) (room : Room)
    → members (enter r peer id now room).rooms j
      ≡ ite (text_key.same id j) (room.peers ++ peer ∷ []) (members r.rooms j)
unfolding enter
members-enter r peer id j now room = members-insert r.rooms id j _

-- Whether the room is dropped or kept, its members are those that are left.
pub members-leave :
    (rooms : HashMap Text Room) (peer : PeerId) (id j : Text) (room : Room)
    → members (leave rooms peer id room) j
      ≡ ite (text_key.same id j) (retain (others peer) room.peers) (members rooms j)
unfolding leave members
members-leave rooms peer id j room =
    elim (Bool-cases (is_empty (retain (others peer) room.peers))) [
      | inl bare ↦ rw (leave, bare) (ground (arith, get-remove rooms id j))
      | inr left ↦ rw (leave, left) (members-insert rooms id j _)
    ]

pub members-eq_of_get :
    (rooms : HashMap Text Room) (id : Text) (room : Room)
    → get rooms id ≡ some room
    → members rooms id ≡ room.peers
unfolding members
members-eq_of_get rooms id room e = rw (e, members)

pub members-eq_of_absent :
    (rooms : HashMap Text Room) (id : Text) → contains_key rooms id ≡ false → members rooms id ≡ []
unfolding members contains_key
members-eq_of_absent rooms id h = ground arith
