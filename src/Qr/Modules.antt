-- ===== src/Qr/Modules.antt =====
-- What the picture of qr.rs shows: each dark module once, where it stands.
use file_send.Prelude.{
  length, get_elem?, get_elem?-middle, split_at, length-append, ◌==◌, if◌then◌else◌, Text, text,
  decimal, nat_key, text_key, ℕ, zero, suc, ◌+◌, ◌*◌, ◌<◌, ◌≡◌, refl, sym, ap, ◌∙◌, Bool, true,
  false, Option, some, List, [], ◌∷◌, ◌++◌, append_assoc, append-nil, arith,
}
use file_send.Qr.{QrCode, rect, draw_row, draw_rows, svg, qr_svg}

-- A square of one unit in a document: its column and its row, beyond the quiet border of 4.
unfoldable pub square_at : ℕ → ℕ → Text
unfolding decimal
square_at column line =
    text "<rect x=\""
    ++ (decimal (column + 4)
        ++ (text "\" y=\"" ++ (decimal (line + 4) ++ text "\" width=\"1\" height=\"1\"/>")))

-- A document of `dim` units a side: a white ground, and the squares on it in near black.
unfoldable pub picture : ℕ → Text → Text
unfolding decimal
picture dim shapes =
    let side = decimal dim in
    text "<svg xmlns=\"http://www.w3.org/2000/svg\" viewBox=\"0 0 "
    ++ (side
        ++ (text " "
            ++ (side
                ++ (text "\" shape-rendering=\"crispEdges\"><rect width=\""
                    ++ (side
                        ++ (text "\" height=\""
                            ++ (side
                                ++ (text "\" fill=\"#ffffff\"/><g fill=\"#0a0a0a\">"
                                    ++ (shapes ++ text "</g></svg>")))))))))

-- One pass over the modules, with the place that moves to the next row at the end of one.
unfoldable pub squares : ℕ → ℕ → ℕ → List Bool → Text
squares width x y [] = []
squares width x y (dark ∷ colors) =
    let rest =
      if x + 1 == width then squares width 0 (y + 1) colors else squares width (x + 1) y colors in
    if dark then square_at x y ++ rest else rest

-- The modules of one row.
squares_in : ℕ → ℕ → List Bool → Text
squares_in x y [] = []
squares_in x y (dark ∷ row) =
    let rest = squares_in (x + 1) y row in if dark then square_at x y ++ rest else rest

draw_row_lem :
    (code : QrCode) (y x left : ℕ) (before row after : List Bool) (rects : Text)
    → code.colors ≡ before ++ (row ++ after)
    → length before ≡ y * code.width + x
    → length row ≡ left
    → draw_row code y x left rects ≡ some (rects ++ squares_in x y row)
unfolding draw_row squares_in rect square_at
draw_row_lem code y x zero before [] after rects split at long = rw append-nil refl
draw_row_lem code y x zero before (dark ∷ row) after rects split at long = absurd (omega arith)
draw_row_lem code y x (suc left) before [] after rects split at long = absurd (omega arith)
draw_row_lem code y x (suc left) before (dark ∷ row) after rects split at long =
    let hit : get_elem? code.colors (y * code.width + x) ≡ some dark =
      rw (split, ← at) (get_elem?-middle before dark (row ++ after)) in
    let moved : code.colors ≡ (before ++ dark ∷ []) ++ (row ++ after) =
      split ∙ sym (append_assoc before (dark ∷ []) (row ++ after)) in
    let step =
      draw_row_lem code y (x + 1) left (before ++ dark ∷ []) row after
        (if dark then rects ++ square_at x y else rects) moved
        (omega (arith, length-append {0} before (dark ∷ []))) (omega arith) in
    rw (hit, draw_row) (step ∙ drawn dark)
  where
    drawn :
        (d : Bool)
        → ◌≡◌ {A = Option Text}
            (some ((if d then rects ++ square_at x y else rects) ++ squares_in (x + 1) y row))
            (some (
              rects
              ++ (if d
                  then square_at x y ++ squares_in (x + 1) y row
                  else squares_in (x + 1) y row)))
    drawn true = ap some (append_assoc rects (square_at x y) _)
    drawn false = refl

-- The pass over a whole row goes on with the next one.
squares-row :
    (width x y : ℕ) (row after : List Bool)
    → x + length row ≡ width
    → 0 < length row
    → squares width x y (row ++ after) ≡ squares_in x y row ++ squares width 0 (y + 1) after
unfolding squares squares_in
squares-row width x y [] after ends some_left = absurd (omega arith)
squares-row width x y (dark ∷ []) after ends some_left =
    ground (arith, append_assoc (square_at x y) [] (squares width 0 (y + 1) after))
squares-row width x y (dark ∷ next ∷ row) after ends some_left = ground (
  arith,
  squares-row width (x + 1) y (next ∷ row) after,
  append_assoc (square_at x y) (squares_in (x + 1) y (next ∷ row)) (squares width 0 (y + 1) after),
)

draw_rows_lem :
    (code : QrCode) (y left : ℕ) (before rest : List Bool) (rects : Text)
    → 0 < code.width
    → code.colors ≡ before ++ rest
    → length before ≡ y * code.width
    → length rest ≡ left * code.width
    → draw_rows code y left rects ≡ some (rects ++ squares code.width 0 y rest)
unfolding draw_rows squares
draw_rows_lem code y zero before [] rects wide split at long = rw append-nil refl
draw_rows_lem code y zero before (d ∷ rest) rects wide split at long = absurd (omega arith)
draw_rows_lem code y (suc left) before rest rects wide split at long =
    let w = code.width in
    let grow : suc left * w ≡ left * w + w = grind arith in
    let next : (y + 1) * w ≡ y * w + w = grind arith in
    let (row, after, e, one) = split_at w rest (omega (arith, grow)) in
    let parts : code.colors ≡ before ++ (row ++ after) = rw (← e) split in
    let count = length-append {0} row after in
    let all : length rest ≡ length (row ++ after) = ap length e in
    let drawn = draw_row_lem code y 0 w before row after rects parts (omega arith) one in
    let more =
      draw_rows_lem code (y + 1) left (before ++ row) after (rects ++ squares_in 0 y row) wide
        (parts ∙ sym (append_assoc before row after))
        (omega (arith, length-append {0} before row, next)) (omega (arith, count, all, grow)) in
    let here = squares-row w 0 y row after (omega arith) (omega arith) in
    rw (drawn, draw_rows)
      (more
        ∙ ap some (
            append_assoc rects (squares_in 0 y row) (squares w 0 (y + 1) after)
            ∙ ap (rects ++◌) (sym here ∙ ap (squares w 0 y) (sym e))))

-- A code with at least one module a side and a color for each of them is drawn without an index out
-- of range: the picture is a white document of the code's width and a quiet border of 4 on each
-- side, on which one pass over the colors puts a square for each dark module, and for no other, in
-- order, at the column and the row where it stands.
pub qr_svg_draws :
    (encode : Text → Option QrCode) (link : Text) (code : QrCode)
    → encode link ≡ some code
    → 0 < code.width
    → length code.colors ≡ code.width * code.width
    → qr_svg encode link ≡ some (picture (code.width + 8) (squares code.width 0 0 code.colors))
unfolding qr_svg svg picture
qr_svg_draws encode link code made wide square =
    rw (made, qr_svg)
      (rw (draw_rows_lem code 0 code.width [] code.colors [] wide refl (omega arith) square, qr_svg)
        refl)
