-- ===== src/Client/Life.antt =====
-- The life of a page of app.rs from its mount: messages, drops, channels and what its user does.
use file_send.Prelude.{Text, nat_key, text_key, Option, none, some, List, [], ◌∷◌, ◌++◌}
use file_send.Float.{F64}
use file_send.Wire.{SignalMsg, Json}
use file_send.Protocol.{Control}
use file_send.Reconnect.{Event, event_of}
use file_send.App.Events.{PageEvent, page_step}
use file_send.Client.{
  Host, Client, Out, on_message, on_open, on_disconnect, on_data_channel, ctrl_opens,
  candidate_gathered,
}
use file_send.Client.Coherent.{IsNamed}

pub data Happening (F J : Type 0) : Type 0 where
  receives : SignalMsg → Happening F J
  opens : Happening F J
  drops : Happening F J
  remote_channel : Text → Happening F J
  channel_opens : Happening F J
  gathers : Option J → Happening F J
  page_event : PageEvent F → Happening F J

module _ {F J : Type 0} ⦃f64 : F64 F⦄ (host : Host J) (json : Json (Control F)) where
  unfoldable pub happens : Client F → Happening F J → Option (Client F × List Out)
  happens c (receives msg) = on_message host c msg
  happens c opens = on_open host c
  happens c drops = some (on_disconnect c)
  happens c (remote_channel label) = some (on_data_channel c label, [])
  happens c channel_opens = some ((ctrl_opens json c).0, [])
  happens c (gathers candidate) = some (c, candidate_gathered host c candidate)
  happens c (page_event e) = some (record c { page = page_step json c.page e }, [])

  unfoldable pub live : Client F → List (Happening F J) → Option (Client F × List Out)
  live c [] = some (c, [])
  live c (h ∷ hs) = elim (happens c h) [
    | none ↦ none
    | some (d, outs) ↦ elim (live d hs) [ none ↦ none | some (e, more) ↦ some (e, outs ++ more) ]
  ]

  abbrev Named : Option Event → Type 0
  Named none = Unit
  Named (some event) = IsNamed host event

  -- The rooms that are announced have a name, and the location reads it back as it was set.
  abbrev pub Announces : Happening F J → Type 0
  Announces (receives msg) = Named (event_of msg)
  Announces _ = Unit
