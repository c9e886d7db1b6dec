-- ===== src/Terminal/Draw.antt =====
-- `terminal_render` of kernel/drivers/terminal.c.
use mirus.Base.{
  ℕ, zero, suc, ◌+◌, ◌-◌, ◌*◌, ◌/◌, ◌≤◌, ◌<◌, ◌≡◌, ◌≢◌, refl, ◌∙◌, arith, Bool, true, ltb, leb,
  ◌==◌, ◌&&◌, if◌then◌else◌, Bool-cases, inl, inr, update,
}
use mirus.Terminal.{
  Terminal, Screen, with_pen, black_line, black_lines, black_screen, draw_row, draw_rows,
  terminal_render,
}

-- What the driver relies on: drawing a character that the font has takes the pen right by the 8
-- pixels of a glyph, and leaves its height.
pub record DrawsGlyph (in_font : ℕ → Bool) (ssfn_putc : ℕ → Screen → Screen) : Type 0 where
  pub moves : (c : ℕ) (s : Screen) → in_font c ≡ true → (ssfn_putc c s).x ≡ s.x + 8
  pub keeps : (c : ℕ) (s : Screen) → in_font c ≡ true → (ssfn_putc c s).y ≡ s.y

in_line :
    (start a w v : ℕ)
    → a < w
    → (if leb (start + 0) (start + a) && ltb (start + a) (start + 0 + w) then 0 else v) ≡ 0
in_line start a w v lt = ground (arith, lt)

off_line :
    (start w i v : ℕ)
    → ((a : ℕ) → a < w → i ≢ start + a)
    → (if leb (start + 0) i && ltb i (start + 0 + w) then 0 else v) ≡ v
off_line start w i v miss = elim (Bool-cases (leb (start + 0) i && ltb i (start + 0 + w))) [
  | inl inside ↦
      let from : start ≤ i = ground (arith, inside) in
      let to : i < start + w = ground (arith, inside) in
      absurd (miss (i - start) (omega (arith, from, to)) (omega (arith, from)))
  | inr outside ↦ rw outside refl
]

-- the pixels of a line
black_line_lem :
    (rounds x y stride : ℕ) (px : ℕ → ℕ) (i : ℕ)
    → black_line rounds x y stride px i
      ≡ (if leb (y * stride + x) i && ltb i (y * stride + x + rounds) then 0 else px i)
unfolding black_line
black_line_lem zero x y stride px i = ground arith
black_line_lem (suc rounds) x y stride px i =
    let rest = black_line_lem rounds (x + 1) y stride (update px (y * stride + x) 0) i in
    rest ∙ ground arith

black_lines-stay :
    (rounds y w stride : ℕ) (px : ℕ → ℕ) (i : ℕ) → px i ≡ 0 → black_lines rounds y w stride px i ≡ 0
unfolding black_lines
black_lines-stay zero y w stride px i black = black
black_lines-stay (suc rounds) y w stride px i black =
    black_lines-stay rounds (y + 1) w stride (black_line w 0 y stride px) i
      (black_line_lem w 0 y stride px i ∙ ground (arith, black))

black_lines-hit :
    (rounds y w stride a b : ℕ) (px : ℕ → ℕ)
    → y ≤ b
    → b < y + rounds
    → a < w
    → black_lines rounds y w stride px (b * stride + a) ≡ 0
unfolding black_lines
black_lines-hit zero y w stride a b px from to lt = absurd (omega (arith, from, to))
black_lines-hit (suc rounds) y w stride a b px from to lt = elim (Bool-cases (y == b)) [
  | inl here ↦
      let e : y ≡ b = ground (arith, here) in
      let line = black_line_lem w 0 y stride px (b * stride + a) in
      black_lines-stay rounds (y + 1) w stride (black_line w 0 y stride px) (b * stride + a)
        (line ∙ rw e (in_line (b * stride) a w _ lt))
  | inr later ↦
      black_lines-hit rounds (y + 1) w stride a b (black_line w 0 y stride px)
        (ground (arith, later, from)) (omega (arith, to)) lt
]

black_lines-miss :
    (rounds y w stride : ℕ) (px : ℕ → ℕ) (i : ℕ)
    → ((a b : ℕ) → a < w → y ≤ b → b < y + rounds → i ≢ b * stride + a)
    → black_lines rounds y w stride px i ≡ px i
unfolding black_lines
black_lines-miss zero y w stride px i miss = refl
black_lines-miss (suc rounds) y w stride px i miss =
    black_lines-miss rounds (y + 1) w stride (black_line w 0 y stride px) i
      (λ a b lt from to. miss a b lt (omega (arith, from)) (omega (arith, to)))
    ∙ black_line_lem w 0 y stride px i
    ∙ off_line (y * stride) w i (px i) (λ a lt. miss a y lt (omega arith) (omega arith))

module _ (ssfn_putc : ℕ → Screen → Screen) where
  -- The cells of a row, each drawn at its own place.
  abbrev pub grid_row : (rounds x y : ℕ) → Terminal → Screen → Screen
  grid_row zero x y t s = s
  grid_row (suc rounds) x y t s =
      let cell = t.buffer (y * t.width + x) in
      grid_row rounds (x + 1) y t
        (ssfn_putc cell.character (with_pen (8 * x) (16 * y) cell.fg_color s))

  -- The rows, each with the pen taken to its start.
  abbrev pub grid_rows : (rounds y : ℕ) → Terminal → Screen → Screen
  grid_rows zero y t s = s
  grid_rows (suc rounds) y t s =
      let s' = grid_row t.width 0 y t s in
      grid_rows rounds (y + 1) t (with_pen 0 (16 * (y + 1)) s'.fg s')

  module _ (in_font : ℕ → Bool) (glyph : DrawsGlyph in_font ssfn_putc) where
    -- The font has the characters of these cells of a row.
    abbrev RowInFont : (rounds x y : ℕ) → Terminal → Type 0
    RowInFont rounds x y t =
        (k : ℕ) → x ≤ k → k < x + rounds → in_font (t.buffer (y * t.width + k)).character ≡ true

    draw_row_lem :
        (rounds x y : ℕ) (t : Terminal) (s : Screen)
        → RowInFont rounds x y t
        → s.x ≡ 8 * x
        → s.y ≡ 16 * y
        → (draw_row ssfn_putc rounds x y t s ≡ grid_row rounds x y t s)
          × ((draw_row ssfn_putc rounds x y t s).y ≡ 16 * y)
    unfolding draw_row
    draw_row_lem zero x y t s known ex ey = (refl, ey)
    draw_row_lem (suc rounds) x y t s known ex ey =
        let cell = t.buffer (y * t.width + x) in
        let at_place = with_pen (8 * x) (16 * y) cell.fg_color s in
        let here = known x (omega arith) (omega arith) in
        let s' = ssfn_putc cell.character at_place in
        let px : s'.x ≡ 8 * (x + 1) = omega (arith, glyph.moves cell.character at_place here) in
        let py : s'.y ≡ 16 * y = omega (arith, glyph.keeps cell.character at_place here) in
        rw (ex, ey)
          (draw_row_lem rounds (x + 1) y t s'
            (λ k le lt. known k (omega (arith, le)) (omega (arith, lt))) px py)

    draw_rows_lem :
        (rounds y : ℕ) (t : Terminal) (s : Screen)
        → ((r : ℕ) → y ≤ r → r < y + rounds → RowInFont t.width 0 r t)
        → s.x ≡ 0
        → s.y ≡ 16 * y
        → draw_rows ssfn_putc rounds y t s ≡ grid_rows rounds y t s
    unfolding draw_rows
    draw_rows_lem zero y t s known ex ey = refl
    draw_rows_lem (suc rounds) y t s known ex ey =
        let row =
          draw_row_lem t.width 0 y t s (known y (omega arith) (omega arith)) (omega (arith, ex))
            ey in
        let s' = grid_row t.width 0 y t s in
        let down : 16 * y + 16 ≡ 16 * (y + 1) = omega arith in
        rw (row.1, row.0, down)
          (draw_rows_lem rounds (y + 1) t (with_pen 0 (16 * (y + 1)) s'.fg s')
            (λ r le lt. known r (omega (arith, le)) (omega (arith, lt))) refl refl)

    -- If the font has the character of each cell on the screen, and drawing one takes the pen right
    -- by 8 pixels and keeps its height, then `terminal_render` first makes each of the `w` times `h`
    -- pixels black and no other, and then draws exactly the cells of the terminal row by row, the
    -- one in column x and row y at the pixel (8 * x, 16 * y) in its own colour.
    pub terminal_render_lem :
        (t : Terminal) (s : Screen)
        → ((x y : ℕ)
            → x < t.width
            → y < t.height
            → in_font (t.buffer (y * t.width + x)).character ≡ true)
        → (black : Screen) × (terminal_render ssfn_putc t s ≡ grid_rows t.height 0 t black)
          × ((x y : ℕ) → x < s.w → y < s.h → black.pixels (y * (s.p / 4) + x) ≡ 0)
          × ((i : ℕ)
              → ((x y : ℕ) → x < s.w → y < s.h → i ≢ y * (s.p / 4) + x)
              → black.pixels i ≡ s.pixels i)
    unfolding terminal_render black_screen
    terminal_render_lem t s known = (
      black_screen s,
      draw_rows_lem t.height 0 t (black_screen s)
          (λ r le lt k from to. known k r (omega (arith, to)) (omega (arith, lt))) refl refl,
      λ x y lt below.
          black_lines-hit s.h 0 s.w (s.p / 4) x y s.pixels (omega arith) (omega (arith, below)) lt,
      λ i miss.
          black_lines-miss s.h 0 s.w (s.p / 4) s.pixels i
            (λ a b lt from to. miss a b lt (omega (arith, to))),
    )
