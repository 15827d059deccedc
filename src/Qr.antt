-- ===== src/Qr.antt =====
-- crates/client/src/qr.rs: the drawing of a QR code. The qrcode crate is a parameter: it answers
-- with a width and the colors of its modules, row by row.
pub mod Modules
mod Examples
use file_send.Prelude.{
  get_elem?, if◌then◌else◌, Text, text, nat_key, text_key, decimal, ℕ, zero, suc, ◌+◌, ◌*◌, Bool,
  Option, none, some, List, [], ◌∷◌, ◌++◌,
}

-- `true` is `Color::Dark`.
pub record QrCode : Type 0 where
  pub width : ℕ
  pub colors : List Bool

abbrev pub quiet : ℕ
quiet = 4

unfoldable pub rect : ℕ → ℕ → Text
unfolding decimal
rect x y =
    text "<rect x=\""
    ++ (decimal (x + quiet)
        ++ (text "\" y=\"" ++ (decimal (y + quiet) ++ text "\" width=\"1\" height=\"1\"/>")))

-- The loops, over the modules left of a row and the rows left; `none` is the panic of an index out
-- of range.
unfoldable pub draw_row : QrCode → ℕ → ℕ → ℕ → Text → Option Text
draw_row code y x zero rects = some rects
draw_row code y x (suc left) rects = elim (get_elem? code.colors (y * code.width + x)) [
  | none ↦ none
  | some dark ↦ draw_row code y (x + 1) left (if dark then rects ++ rect x y else rects)
]

unfoldable pub draw_rows : QrCode → ℕ → ℕ → Text → Option Text
draw_rows code y zero rects = some rects
draw_rows code y (suc left) rects = elim (draw_row code y 0 code.width rects) [
  | none ↦ none
  | some more ↦ draw_rows code (y + 1) left more
]

-- The document around the modules.
unfoldable pub svg : ℕ → Text → Text
unfolding decimal
svg dim rects =
    text "<svg xmlns=\"http://www.w3.org/2000/svg\" viewBox=\"0 0 "
    ++ (decimal dim
        ++ (text " "
            ++ (decimal dim
                ++ (text "\" shape-rendering=\"crispEdges\"><rect width=\""
                    ++ (decimal dim
                        ++ (text "\" height=\""
                            ++ (decimal dim
                                ++ (text "\" fill=\"#ffffff\"/><g fill=\"#0a0a0a\">"
                                    ++ (rects ++ text "</g></svg>")))))))))

unfoldable pub qr_svg : (Text → Option QrCode) → Text → Option Text
qr_svg encode link = elim (encode link) [
  | none ↦ some []
  | some code ↦ elim (draw_rows code 0 code.width []) [
    | none ↦ none
    | some rects ↦ some (svg (code.width + quiet * 2) rects)
  ]
]
