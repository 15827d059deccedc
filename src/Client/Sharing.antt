-- ===== src/Client/Sharing.antt =====
-- From the block that shares a room to the box that joins it: app.rs and ui.rs, with the codes of
-- ws.rs.
use file_send.Prelude.{
  length, Text-discrete, All, Text, text, nat_key, text_key, ℕ, ◌≡◌, refl, true, Option, some, List,
  [], ◌∷◌,
}
use file_send.Float.{F64}
use file_send.Wire.{SignalMsg}
use file_send.Reconnect.{persist_room, set_status, waiting_for_peer, event_of, step}
use file_send.Server.Codes.{gen_room_id, Draws, gen_room_id-IsPlain}
use file_send.Webrtc.{ok}
use file_send.Ui.{Click, copies}
use file_send.Ui.Share.{keydown, joins, box_step, share_block}
use file_send.Ui.Buttons.{clicks}
use file_send.Links.{hash_sign, hash_of, share_link, normalize_code}
use file_send.Links.Codes.{room_from_hash-hash_of}
use file_send.Links.Codes.{normalize_code-share_link}
use file_send.Client.{
  Host, Client, send, seeded, mounted, persist, execute, execute_all, react, stash, on_message,
  on_open, join_by_code, send_signal,
}

module _ (F : Type 0) {J : Type 0} ⦃f64 : F64 F⦄ (host : Host J) where
  -- A text joins a room: set in the box, it is submitted by Enter and by the button; `on_join` sets
  -- the room's hash; and the page that loads again asks for that room, and for nothing else, when
  -- its socket opens, whatever room its tab owned.
  abbrev pub Joins : Text → Text → Type 0
  Joins room raw =
      (box_step raw (keydown (text "Enter")) ≡ (raw, some raw))
      × (box_step raw joins ≡ (raw, some raw))
      × (join_by_code raw ≡ some (hash_sign ∷ hash_of room))
      × ((owns : Option Text)
          → (c : Client F) × (on_open host
                (mounted (seeded (hash_sign ∷ hash_of room) owns) (ok tt))
              ≡ some (c, send (SignalMsg.join room) ∷ [])))

  abbrev pub Leads : Text → Click → Type 0
  Leads room (copies t) = Joins room t
  Leads room _ = ⊥

  loaded_joins :
      (x : ℕ) (xs : Text) (owns : Option Text)
      → (c : Client F) × (on_open host
            (mounted (seeded (hash_sign ∷ hash_of (x ∷ xs)) owns) (ok tt))
          ≡ some (c, send (SignalMsg.join (x ∷ xs)) ∷ []))
  unfolding on_open react step execute_all execute send_signal mounted seeded
  loaded_joins x xs owns = (
    record (mounted {F = F} (seeded (hash_sign ∷ hash_of (x ∷ xs)) owns) (ok tt)) {
      signaling = true;
    },
    rw (room_from_hash-hash_of x xs) refl,
  )

  normalized_leads : (x : ℕ) (xs raw : Text) → normalize_code raw ≡ x ∷ xs → Joins (x ∷ xs) raw
  unfolding box_step Text-discrete join_by_code
  normalized_leads x xs raw e = (refl, refl, rw e refl, loaded_joins x xs)

-- For every code that the server can draw: when the owner of the room hears that it is created, its
-- page shares it, and whichever button of the block is pressed copies a text that joins the room
-- on another page.
pub shared_room_joins :
    {F J : Type 0} ⦃f64 : F64 F⦄ (nanoid : ℕ → List ℕ → Text) (owner joiner : Host J) (c : Client F)
    → Draws nanoid
    → (d : Client F) × (on_message owner c (SignalMsg.created (gen_room_id nanoid)) ≡ some (d, []))
      × (length (clicks (share_block d.room_code d.room_link d.qr)) ≡ 2)
      × All
          (Leads F joiner (gen_room_id nanoid))
          (clicks (share_block d.room_code d.room_link d.qr))
unfolding on_message react step event_of stash execute_all execute persist share_block clicks
shared_room_joins {F} {J} nanoid owner joiner c draws =
    let (x, xs, e, plain) = gen_room_id-IsPlain nanoid draws in
    let (pasted, typed, hash) = normalize_code-share_link owner.origin x xs plain in
    rw e (
      (execute_all owner
          (record c {
            session = record c.session { owns = some (x ∷ xs); room_in_hash = some (x ∷ xs) };
          })
          (persist_room (x ∷ xs) ∷ set_status waiting_for_peer ∷ [])).0,
      refl,
      refl,
      (
        normalized_leads F joiner x xs (x ∷ xs) typed,
        (normalized_leads F joiner x xs (share_link owner.origin (x ∷ xs)) pasted, tt),
      ),
    )
