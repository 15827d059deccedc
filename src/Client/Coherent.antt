-- ===== src/Client/Coherent.antt =====
-- What the page of app.rs keeps between its handlers: the reducer knows of a connection that there
-- is, and a reload finds the session again.
use file_send.Prelude.{
  Text, text, nat_key, text_key, ◌≡◌, refl, ◌⊎◌, ◌≢◌, inl, inr, true, Option, none, some, List, [],
  ◌∷◌, ◌++◌, arith,
}
use file_send.Float.{F64}
use file_send.Wire.{SignalMsg}
use file_send.Reconnect.{Event, step, opened, offer, answer}
use file_send.Client.{Host, Client, Out, seeded, build_pc, execute, execute_all, react, stash}
use file_send.Webrtc.{Result-cases, new_peer_connection}
use file_send.Links.{room_from_hash, hash_of}
use file_send.Links.Codes.{room_from_hash-hash_of}

-- The rooms that a server announces have a name, and the location reads it back as it was set.
abbrev pub IsNamed : {J : Type 0} → Host J → Event → Type 0
IsNamed host (Event.created room) =
    (room ≢ []) × (host.set_hash (hash_of room) ≡ text "#" ++ hash_of room)
IsNamed _ _ = Unit

module _ {F : Type 0} ⦃f64 : F64 F⦄ where
  -- The connection that there is, is known to the session; and the hash and session storage hold
  -- what the session knows of its room.
  pub record IsCoherent (c : Client F) : Type 0 where
    pub known : (c.pc ≡ none) ⊎ (c.session.has_pc ≡ true)
    pub in_hash : room_from_hash c.hash ≡ c.session.room_in_hash
    pub owned : c.stored_owns ≡ c.session.owns

  pub seeded-IsCoherent : (hash : Text) (owns : Option Text) → IsCoherent (seeded hash owns)
  unfolding seeded
  seeded-IsCoherent hash owns = record { known = inl refl; in_hash = refl; owned = refl }

  pub stash-IsCoherent : (c : Client F) (msg : SignalMsg) → IsCoherent c → IsCoherent (stash c msg)
  unfolding stash
  stash-IsCoherent c (SignalMsg.ice candidate) h = record {
    known = h.known;
    in_hash = h.in_hash;
    owned = h.owned;
  }
  stash-IsCoherent c _ h = h

  -- No panic, and a coherent page.
  abbrev pub AllCoherent : Option (Client F × List Out) → Type 0
  AllCoherent none = ⊥
  AllCoherent (some (c, outs)) = IsCoherent c

  pub AllCoherent-some :
      (r : Option (Client F × List Out))
      → AllCoherent r
      → (c : Client F) × (outs : List Out) × (r ≡ some (c, outs)) × IsCoherent c
  AllCoherent-some none h = absurd h
  AllCoherent-some (some (c, outs)) h = (c, outs, refl, h)

module _ {F J : Type 0} ⦃f64 : F64 F⦄ (host : Host J) where
  build_pc-fields :
      (c : Client F)
      → ((build_pc host c).0.session ≡ c.session)
        × ((build_pc host c).0.hash ≡ c.hash)
        × ((build_pc host c).0.stored_owns ≡ c.stored_owns)
  unfolding build_pc
  build_pc-fields c = elim (Result-cases (new_peer_connection host.browser c.built)) [
    | inl (peer, e) ↦ rw (e, build_pc) (refl, refl, refl)
    | inr (why, e) ↦ rw (e, build_pc) (refl, refl, refl)
  ]

  pub react-IsCoherent :
      (c : Client F) (event : Event)
      → host.storage ≡ true
      → IsNamed host event
      → IsCoherent c
      → AllCoherent (react host c event)
  unfolding react execute_all execute step
  react-IsCoherent c opened stored named h = ground arith
  react-IsCoherent c Event.peer_joined stored named h = ground arith
  react-IsCoherent c (offer d) stored named h = ground arith
  react-IsCoherent c (answer d) stored named h = ground arith
  react-IsCoherent c Event.ice stored named h = ground arith
  react-IsCoherent c Event.peer_left stored named h = ground arith
  react-IsCoherent c (Event.created []) stored named h = absurd (named.0 refl)
  react-IsCoherent c (Event.created (x ∷ room)) stored named h = record {
    known = h.known;
    in_hash = rw named.1 (room_from_hash-hash_of x room);
    owned = rw stored refl;
  }
  react-IsCoherent c Event.room_full stored named h = ground arith
  react-IsCoherent c Event.room_not_found stored named h = ground arith
