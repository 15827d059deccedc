-- ===== src/Ui/Clipboard.antt =====
-- crates/client/src/ui.rs: the copy of a text, with the answers of the browser as a parameter.
use file_send.Prelude.{
  if◌then◌else◌, Text, text, nat_key, text_key, ◌≡◌, Bool, false, ◌&&◌, ◌||◌, not, Option, some,
  List, [], ◌∷◌, ◌++◌, arith,
}

-- What the page has, and which of the calls succeed.
pub record Dom : Type 0 where
  pub window : Bool
  pub clipboard : Bool
  pub document : Bool
  pub body : Bool
  pub creates : Bool
  pub appends : Bool
  pub is_html : Bool

-- The calls that change something.
pub data Call : Type 0 where
  write_text : Text → Call
  set_value : Text → Call
  set_attribute : Text → Text → Call
  append_child : Call
  select : Call
  exec_command : Text → Call
  remove_child : Call

unfoldable pub legacy_copy : Dom → Text → List Call
legacy_copy dom copied =
    if not dom.document || (not dom.body || not dom.creates)
    then []
    else (let filled =
          set_value copied
          ∷ set_attribute (text "style")
              (text "position:fixed;top:0;left:0;width:1px;height:1px;opacity:0;")
          ∷ set_attribute (text "readonly") []
          ∷ append_child
          ∷ [] in
        if not dom.appends
        then filled
        else filled
          ++ select
            ∷ (if dom.is_html
                then exec_command (text "copy") ∷ remove_child ∷ []
                else remove_child ∷ []))

unfoldable pub copy_to_clipboard : Dom → Text → List Call
unfolding legacy_copy
copy_to_clipboard dom copied =
    if not dom.window
    then []
    else if dom.clipboard
    then write_text copied ∷ []
    else legacy_copy dom copied

-- What the calls do: the text area's value, whether it stands in the page, and whether its text is
-- selected; and the text that the clipboard has.
pub record Desk : Type 0 where
  pub value : Text
  pub in_page : Bool
  pub selected : Bool
  pub held : Option Text

abbrev after_call : Dom → Desk → Call → Desk
after_call dom d (write_text t) = record d { held = some t }
after_call dom d (set_value t) = record d { value = t }
after_call dom d (set_attribute k v) = d
after_call dom d append_child = record d { in_page = dom.appends }
after_call dom d select = record d { selected = d.in_page }
after_call dom d (exec_command c) = if d.selected then record d { held = some d.value } else d
after_call dom d remove_child = record d { in_page = false; selected = false }

pub after_calls : Dom → Desk → List Call → Desk
after_calls dom d [] = d
after_calls dom d (call ∷ calls) = after_calls dom (after_call dom d call) calls

-- Which answers lead to a copy.
abbrev pub can_copy : Dom → Bool
can_copy dom =
    dom.window
    && (dom.clipboard
        || (dom.document && (dom.body && (dom.creates && (dom.appends && dom.is_html)))))

-- Whatever the browser answers, no text area stands in the page after a copy, and the clipboard
-- has the text where there is an asynchronous clipboard or each step of the fallback succeeds, and
-- else what it had.
pub copy_to_clipboard-clean :
    (dom : Dom) (d : Desk) (copied : Text)
    → d.in_page ≡ false
    → d.selected ≡ false
    → let after = after_calls dom d (copy_to_clipboard dom copied) in
      (after.in_page ≡ false) × (after.held ≡ (if can_copy dom then some copied else d.held))
unfolding copy_to_clipboard legacy_copy after_calls
copy_to_clipboard-clean dom d copied out unmarked = ground arith
