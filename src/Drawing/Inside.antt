-- ===== src/Drawing/Inside.antt =====
-- The writes of `draw_box_sw` stay in the image.
use native.Mathlib.Nat.{mul-le-mul_right}
use khadas_yolov8n_multithre.Prelude.{
  ℕ, zero, suc, ◌+◌, ◌-◌, ◌*◌, ◌≤◌, ◌<◌, ◌≡◌, refl, Bool, true, false, List, [], ◌∷◌, ◌++◌, map,
  arith, if-cases, ltb, ltb→lt, ◌&&◌, ◌||◌, if◌then◌else◌,
}
use khadas_yolov8n_multithre.Prelude.Int.{ℤ, pos_part, ◌+ℤ◌, leb_ℤ}
use khadas_yolov8n_multithre.Drawing.{
  Pixel, span, row_pixels, column_pixels, edges, all_edges, clip_low, clip_high, draw_box_sw,
  offset,
}

-- All three bytes of each pixel lie in an image of `h` rows of `w` pixels.
abbrev pub AllInside : ℕ → ℕ → List Pixel → Type 0
AllInside w h [] = Unit {0}
AllInside w h (p ∷ ps) = (offset w p + 3 ≤ h * w * 3) × AllInside w h ps

pub AllInside-append :
    (w h : ℕ) (ps qs : List Pixel) → AllInside w h ps → AllInside w h qs → AllInside w h (ps ++ qs)
AllInside-append w h [] qs a b = b
AllInside-append w h (p ∷ ps) qs a b = (a.0, AllInside-append w h ps qs a.1 b)

offset-inside : (w h row col : ℕ) → row < h → col < w → offset w (row, col) + 3 ≤ h * w * 3
unfolding offset
offset-inside w h row col r c =
    let rows : (row + 1) * w ≤ h * w = mul-le-mul_right w (omega arith) in omega (arith, rows)

span-inside :
    (P : ℕ → Pixel) (w h lo n : ℕ)
    → ((i : ℕ) → lo ≤ i → i < lo + n → offset w (P i) + 3 ≤ h * w * 3)
    → AllInside w h (map P (span lo n))
unfolding span
span-inside P w h lo zero each = tt
span-inside P w h lo (suc n) each = (
  each lo (omega arith) (omega arith),
  span-inside P w h (lo + 1) n (λ i l u. each i (omega arith) (omega arith)),
)

row-inside : (w h row x0 x1 : ℕ) → row < h → x1 ≤ w → AllInside w h (row_pixels row x0 x1)
unfolding row_pixels
row-inside w h row x0 x1 r c =
    span-inside (λ col. (row, col)) w h x0 (x1 - x0)
      (λ i l u. offset-inside w h row i r (omega arith))

column-inside : (w h col y0 y1 : ℕ) → col < w → y1 ≤ h → AllInside w h (column_pixels col y0 y1)
unfolding column_pixels
column-inside w h col y0 y1 c r =
    span-inside (λ row. (row, col)) w h y0 (y1 - y0)
      (λ i l u. offset-inside w h i col (omega arith) c)

both_true : (a b : Bool) → (a && b) ≡ true → (a ≡ true) × (b ≡ true)
both_true true b h = (refl, h)
both_true false b h = absurd (cc h)

-- A piece that is written under a test.
when-inside :
    (w h : ℕ) (b : Bool) (ps : List Pixel)
    → (b ≡ true → AllInside w h ps)
    → AllInside w h (if b then ps else [])
when-inside w h true ps each = each refl
when-inside w h false ps each = tt

edges-inside : (w h x0 y0 x1 y1 t : ℕ) → x1 ≤ w → y1 ≤ h → AllInside w h (edges w h x0 y0 x1 y1 t)
unfolding edges
edges-inside w h x0 y0 x1 y1 t c r =
    let low : ℕ = y1 - 1 - t in
    let far : ℕ = x1 - 1 - t in
    let b1 : Bool = ltb (y0 + t) h in
    let b2 : Bool = ltb t y1 && ltb low h in
    let b3 : Bool = ltb (x0 + t) w in
    let b4 : Bool = ltb t x1 && ltb far w in
    let p1 = row_pixels (y0 + t) x0 x1 in
    let p2 = row_pixels low x0 x1 in
    let p3 = column_pixels (x0 + t) y0 y1 in
    let p4 = column_pixels far y0 y1 in
    let i1 = when-inside w h b1 p1 (λ e. row-inside w h (y0 + t) x0 x1 (ltb→lt (y0 + t) h e) c) in
    let i2 =
      when-inside w h b2 p2
        (λ e. row-inside w h low x0 x1 (ltb→lt low h (both_true (ltb t y1) (ltb low h) e).1) c) in
    let i3 =
      when-inside w h b3 p3 (λ e. column-inside w h (x0 + t) y0 y1 (ltb→lt (x0 + t) w e) r) in
    let i4 =
      when-inside w h b4 p4 (λ e.
        column-inside w h far y0 y1 (ltb→lt far w (both_true (ltb t x1) (ltb far w) e).1) r) in
    let o1 : List Pixel = if b1 then p1 else [] in
    let o2 : List Pixel = if b2 then p2 else [] in
    let o3 : List Pixel = if b3 then p3 else [] in
    let o4 : List Pixel = if b4 then p4 else [] in
    AllInside-append w h o1 (o2 ++ (o3 ++ o4)) i1
      (AllInside-append w h o2 (o3 ++ o4) i2 (AllInside-append w h o3 o4 i3 i4))

all_edges-inside :
    (w h x0 y0 x1 y1 n t : ℕ) → x1 ≤ w → y1 ≤ h → AllInside w h (all_edges w h x0 y0 x1 y1 n t)
unfolding all_edges
all_edges-inside w h x0 y0 x1 y1 zero t c r = tt
all_edges-inside w h x0 y0 x1 y1 (suc n) t c r =
    AllInside-append w h (edges w h x0 y0 x1 y1 t) (all_edges w h x0 y0 x1 y1 n (t + 1))
      (edges-inside w h x0 y0 x1 y1 t c r) (all_edges-inside w h x0 y0 x1 y1 n (t + 1) c r)

clip_high-le : (x : ℤ) (bound : ℕ) → pos_part (clip_high x bound) ≤ bound
unfolding clip_high
clip_high-le x bound = ground arith

-- Whatever box and thickness it is given, `draw_box_sw` writes only bytes of the image: each pixel
-- that it writes starts at an offset at which three bytes fit.
pub draw_box_sw-AllInside :
    (img_w img_h : ℕ) (x y w h : ℤ) (thickness : ℕ)
    → AllInside img_w img_h (draw_box_sw img_w img_h x y w h thickness)
unfolding draw_box_sw
draw_box_sw-AllInside img_w img_h x y w h thickness =
    let x0 = clip_low x in
    let y0 = clip_low y in
    let x1 = clip_high (x +ℤ w) img_w in
    let y1 = clip_high (y +ℤ h) img_h in
    if-cases (AllInside img_w img_h) (leb_ℤ x1 x0 || leb_ℤ y1 y0) []
      (all_edges img_w img_h (pos_part x0) (pos_part y0) (pos_part x1) (pos_part y1) thickness 0)
      (λ _. tt)
      (λ _.
        all_edges-inside img_w img_h (pos_part x0) (pos_part y0) (pos_part x1) (pos_part y1)
          thickness 0 (clip_high-le (x +ℤ w) img_w) (clip_high-le (y +ℤ h) img_h))
