-- ===== src/Protocol.antt =====
-- crates/client/src/protocol.rs: the frames of the file protocol, and the ranges of a file.
pub mod Ranges
mod Examples
use file_send.Prelude.{
  ltb, ◌==◌, if◌then◌else◌, ◌>>=◌, Text, nat_key, text_key, ℕ, zero, suc, ◌+◌, ◌*◌, ◌%◌, ◌^◌, min,
  true, false, Option, none, some, List, [], ◌∷◌,
}
use file_send.Wire.{Json}

abbrev pub chunk_size : ℕ
chunk_size = 256 * 1024

abbrev pub slab_size : ℕ
slab_size = 8 * 1024 * 1024

-- `size` is an `f64`, whose type is a parameter.
pub record FileStart (F : Type 0) : Type 0 where
  pub id : ℕ
  pub name : Text
  pub size : F
  pub mime : Text

pub record FileEnd : Type 0 where
  pub id : ℕ

pub data Control (F : Type 0) : Type 0 where
  offer : FileStart F → Control F
  accept : ℕ → Control F
  reject : ℕ → Control F
  start : FileStart F → Control F
  end_frame : FileEnd → Control F
  cancel : ℕ → Control F
  abort : ℕ → Control F

module _ {F : Type 0} (json : Json (Control F)) where
  unfoldable pub encode_control : Control F → Text
  encode_control c = json.to_string c

  unfoldable pub decode_control : Text → Option (Control F)
  decode_control s = json.from_str s

-- The loop of `split_ranges`, on fuel; `none` is when the fuel ends first.
unfoldable pub range_loop : ℕ → ℕ → ℕ → ℕ → Option (List (ℕ × ℕ))
range_loop zero total step from = if ltb from total then none else some []
range_loop (suc fuel) total step from = elim (ltb from total) [
  | true ↦ (do
    let to = min ((from + step) % 2 ^ 64) total
    rest ← range_loop fuel total step to
    some ((from, to) ∷ rest))
  | false ↦ some []
]

unfoldable pub split_ranges : ℕ → ℕ → Option (List (ℕ × ℕ))
split_ranges total step = if step == 0 then some [] else range_loop total total step 0
