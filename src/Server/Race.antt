-- ===== src/Server/Race.antt =====
-- ws.rs takes the registry's lock once to test that a reclaimed room is not live and once more to
-- create it. Another thread's handler can run in between.
use file_send.HashMap.Laws.{get-insert}
use file_send.Rooms.Pairs.{partner-members}
use file_send.Limiter.Recorded.{recorded-prune, window-prune, verdict-recorded}
use file_send.Server.Moves.{create_room-registry}
use file_send.Prelude.{
  if◌then◌else◌, find, Text, nat_key, text_key, ℕ, ◌≡◌, refl, sym, ◌∙◌, ◌≢◌, true, false, none,
  some, [], ◌∷◌, arith,
}
use file_send.HashMap.{get}
use file_send.Rooms.{PeerId, RoomRegistry, create, contains_room, partner}
use file_send.Rooms.Members.{members, members-create}
use file_send.Limiter.{IpAddr, ip_key, JoinLimiter, allowed}
use file_send.Server.{AppState, create_room, check, reclaim_check}

reclaim_check-passes :
    (s : AppState) (peer : PeerId) (ip : IpAddr) (room : Text) (now : ℕ)
    → (allowed s.join_limiter ip now).1 ≡ true
    → contains_room s.registry room ≡ false
    → reclaim_check s peer ip room now ≡ ((check s ip now).0, true)
unfolding reclaim_check check
reclaim_check-passes s peer ip room now may absent = rw (may, absent) refl

allowed-allowed_ne :
    (l : JoinLimiter) (i j : IpAddr) (now : ℕ)
    → i ≢ j
    → (allowed (allowed l i now).0 j now).1 ≡ (allowed l j now).1
allowed-allowed_ne l i j now far =
    verdict-recorded (allowed l i now).0 j now
    ∙ unfold allowed in
      ground (arith, recorded-prune l i j now, window-prune l i j now)
      ∙ sym (verdict-recorded l j now)

create-create :
    (r : RoomRegistry) (p q : PeerId) (room : Text) (now : ℕ)
    → p ≢ q
    → let t = (create (create r p room now).0 q room now).0 in
      (members t.rooms room ≡ q ∷ [])
      × (get t.peer_room p ≡ some room)
      × (partner t p ≡ some q)
      × (partner t q ≡ none)
unfolding find
create-create r p q room now ne =
    let t = (create (create r p room now).0 q room now).0 in
    let alone : members t.rooms room ≡ q ∷ [] =
      ground (arith, members-create (create r p room now).0 q room room now) in
    let here : get t.peer_room p ≡ some room =
      unfold create in
      ground (
        arith,
        get-insert (create r p room now).0.peer_room q p room,
        get-insert r.peer_room p p room,
      ) in
    let there : get t.peer_room q ≡ some room =
      unfold create in ground (arith, get-insert (create r p room now).0.peer_room q q room) in
    (
      alone,
      here,
      rw (partner-members t p room here, alone) (ground arith),
      rw (partner-members t q room there, alone) (ground arith),
    )

-- Two peers reclaim one room, and both test before either creates.
abbrev pub racing_reclaims : AppState → PeerId → PeerId → IpAddr → IpAddr → Text → ℕ → AppState
racing_reclaims s p q ip ip' room now =
    let (s₁, may_p) = reclaim_check s p ip room now in
    let (s₂, may_q) = reclaim_check s₁ q ip' room now in
    let s₃ = if may_p then create_room s₂ p room now else s₂ in
    if may_q then create_room s₃ q room now else s₃

-- If two different peers from different addresses, each within its budget, reclaim one room that is
-- not live, and both test before either creates, then the second evicts the first: the room has
-- `q` alone, while the index still sends `p` there, so the index is broken and `p` has no partner
-- to relay to but `q`, which does not answer back.
pub reclaim_race_evicts :
    (s : AppState) (p q : PeerId) (ip ip' : IpAddr) (room : Text) (now : ℕ)
    → p ≢ q
    → ip ≢ ip'
    → contains_room s.registry room ≡ false
    → (allowed s.join_limiter ip now).1 ≡ true
    → (allowed s.join_limiter ip' now).1 ≡ true
    → (members (racing_reclaims s p q ip ip' room now).registry.rooms room ≡ q ∷ [])
      × (get (racing_reclaims s p q ip ip' room now).registry.peer_room p ≡ some room)
      × (partner (racing_reclaims s p q ip ip' room now).registry p ≡ some q)
      × (partner (racing_reclaims s p q ip ip' room now).registry q ≡ none)
unfolding check
reclaim_race_evicts s p q ip ip' room now ne far absent may may' =
    rw
      (
        reclaim_check-passes s p ip room now may absent,
        reclaim_check-passes (check s ip now).0 q ip' room now
            (allowed-allowed_ne s.join_limiter ip ip' now far ∙ may') absent,
        create_room-registry _ q room now,
        create_room-registry _ p room now,
      )
      (create-create s.registry p q room now ne)
