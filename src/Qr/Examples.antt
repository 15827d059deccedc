-- ===== src/Qr/Examples.antt =====
-- A picture of qr.rs, of a code with two modules a side.
use file_send.Prelude.{
  Text, text, nat_key, text_key, decimal, ◌+◌, ◌≡◌, refl, true, false, Option, none, some, [], ◌∷◌,
  ◌++◌, arith,
}
use file_send.Qr.{QrCode, qr_svg}
use file_send.Qr.Modules.{square_at, picture, squares, qr_svg_draws}

abbrev diagonal : QrCode
diagonal = record { width = 2; colors = true ∷ false ∷ false ∷ true ∷ [] }

abbrev encode : Text → Option QrCode
encode link = some diagonal

two_squares :
    squares 2 0 0 diagonal.colors
    ≡ text "<rect x=\"4\" y=\"4\" width=\"1\" height=\"1\"/>"
      ++ text "<rect x=\"5\" y=\"5\" width=\"1\" height=\"1\"/>"
unfolding squares square_at decimal
two_squares = refl

empty_string_on_unencodable_input : qr_svg (λ link. none) (text "x") ≡ some []
unfolding qr_svg
empty_string_on_unencodable_input = refl

qr_svg_draws_example :
    qr_svg encode (text "x")
    ≡ some (picture (diagonal.width + 8) (squares diagonal.width 0 0 diagonal.colors))
qr_svg_draws_example = qr_svg_draws encode (text "x") diagonal refl (omega arith) refl
