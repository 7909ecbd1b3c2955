-- ===== src/Drawing.antt =====
-- yolov8n_cap_multithread/src/rga_func.cc: which pixels `draw_box_sw` writes, in order, and the letterbox. A clipped corner is
-- a number, as it is not negative where it is used; `int` does not overflow on image coordinates.
pub mod Inside
use khadas_yolov8n_multithre.Prelude.{
  ℕ, zero, suc, ◌+◌, ◌-◌, ◌*◌, Bool, true, false, List, [], ◌∷◌, ◌++◌, map, ltb, leb, ◌&&◌, ◌||◌,
  if◌then◌else◌,
}
use khadas_yolov8n_multithre.Prelude.Float.{Float32}
use khadas_yolov8n_multithre.Prelude.Int.{ℤ, pos, pos_part, ◌+ℤ◌, ltb_ℤ, leb_ℤ}

-- The numbers from `lo` on, `n` of them.
pub span : ℕ → ℕ → List ℕ
span lo zero = []
span lo (suc n) = lo ∷ span (lo + 1) n

-- A pixel that is written, as row and column.
abbrev pub Pixel : Type 0
Pixel = ℕ × ℕ

-- `for (col = x0; col < x1; col++)` on one row, and `for (row2 = y0; row2 < y1; row2++)` on a column
pub row_pixels : ℕ → ℕ → ℕ → List Pixel
unfolding span
row_pixels row x0 x1 = map (λ col. (row, col)) (span x0 (x1 - x0))

pub column_pixels : ℕ → ℕ → ℕ → List Pixel
unfolding span
column_pixels col y0 y1 = map (λ row. (row, col)) (span y0 (y1 - y0))

-- One round of the thickness loop: the top, bottom, left and right edge. `y1 - 1 - t >= 0` is
-- `t < y1`.
pub edges : ℕ → ℕ → ℕ → ℕ → ℕ → ℕ → ℕ → List Pixel
unfolding row_pixels column_pixels
edges img_w img_h x0 y0 x1 y1 t =
    (if ltb (y0 + t) img_h then row_pixels (y0 + t) x0 x1 else [])
    ++ ((if ltb t y1 && ltb (y1 - 1 - t) img_h then row_pixels (y1 - 1 - t) x0 x1 else [])
        ++ ((if ltb (x0 + t) img_w then column_pixels (x0 + t) y0 y1 else [])
            ++ (if ltb t x1 && ltb (x1 - 1 - t) img_w
                then column_pixels (x1 - 1 - t) y0 y1
                else [])))

-- The thickness loop, with `n` rounds to go from round `t` on.
pub all_edges : ℕ → ℕ → ℕ → ℕ → ℕ → ℕ → ℕ → ℕ → List Pixel
unfolding edges
all_edges img_w img_h x0 y0 x1 y1 zero t = []
all_edges img_w img_h x0 y0 x1 y1 (suc n) t =
    edges img_w img_h x0 y0 x1 y1 t ++ all_edges img_w img_h x0 y0 x1 y1 n (t + 1)

-- The clipping.
pub clip_low : ℤ → ℤ
clip_low x = if ltb_ℤ x (pos 0) then pos 0 else x

pub clip_high : ℤ → ℕ → ℤ
clip_high x bound = if ltb_ℤ (pos bound) x then pos bound else x

pub draw_box_sw : ℕ → ℕ → ℤ → ℤ → ℤ → ℤ → ℕ → List Pixel
unfolding all_edges clip_low clip_high
draw_box_sw img_w img_h x y w h thickness =
    let x0 = clip_low x in
    let y0 = clip_low y in
    let x1 = clip_high (x +ℤ w) img_w in
    let y1 = clip_high (y +ℤ h) img_h in
    if leb_ℤ x1 x0 || leb_ℤ y1 y0
    then []
    else all_edges img_w img_h (pos_part x0) (pos_part y0) (pos_part x1) (pos_part y1) thickness 0

-- The first of the three bytes of a pixel.
pub offset : ℕ → Pixel → ℕ
offset img_w p = (p.0 * img_w + p.1) * 3

-- The scale and the size of the resized image of `rga_letterbox_rgb`, for a source and a model of the
-- given widths and heights.
unfoldable letterbox : (fl : Float32) → ℤ → ℤ → ℤ → ℤ → fl.F × ℤ × ℤ
letterbox fl src_w src_h model_w model_h =
    let across = fl.div (fl.of_int model_w) (fl.of_int src_w) in
    let down = fl.div (fl.of_int model_h) (fl.of_int src_h) in
    if ltb_ℤ src_h src_w
    then (across, model_w, fl.to_int (fl.mul across (fl.of_int src_h)))
    else (down, fl.to_int (fl.mul down (fl.of_int src_w)), model_h)
