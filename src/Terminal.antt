-- ===== src/Terminal.antt =====
-- kernel/drivers/terminal.c and kernel/include/drivers/terminal.h: the text buffer, its cursor and
-- its drawing. The font library draws one character: `ssfn_putc` is an argument. The text
-- buffer and its cursor are in Terminal/Cells.antt.
pub mod Cells
pub mod Scroll
pub mod Write
pub mod Print
pub mod Text
pub mod Draw
pub mod Demo
mod Tests
use mirus.Base.{
  ℕ, zero, suc, ◌+◌, ◌-◌, ◌*◌, ◌/◌, ◌^◌, Option, none, some, ltb, leb, ◌==◌, if◌then◌else◌, update,
}
use mirus.Libk.{Memory, strlen}
pub use mirus.Terminal.Cells.{
  max_term_size, CharacterCell, Terminal, Framebuffer, terminal_color_white, terminal_color_black,
  blank, zero_cell, with_cursor, with_cell,
}
unfoldable pub use mirus.Terminal.Cells.{
  clear_cells, terminal_clear, terminal_setcolor, terminal_initialize, copy_row, copy_rows,
  terminal_scroll, next_line, backspace, put_char, write_cells,
}

-- `ssfn_dst`, with the pixels behind its pointer by their index
pub record Screen : Type 0 where
  pub ptr : ℕ
  pub w : ℕ
  pub h : ℕ
  pub p : ℕ
  pub x : ℕ
  pub y : ℕ
  pub fg : ℕ
  pub pixels : ℕ → ℕ

-- `ssfn_dst` after `terminal_initialize`
pub screen_initialize : Framebuffer → (ℕ → ℕ) → Screen
screen_initialize framebuffer pixels = record {
  ptr = framebuffer.address;
  w = framebuffer.width;
  h = framebuffer.height;
  p = framebuffer.pitch;
  x = 0;
  y = 0;
  fg = terminal_color_white;
  pixels = pixels;
}

-- the pen of `ssfn_dst` elsewhere, with the colour it draws in
abbrev pub with_pen : (x y fg : ℕ) → Screen → Screen
with_pen x y fg s = record {
  ptr = s.ptr;
  w = s.w;
  h = s.h;
  p = s.p;
  x = x;
  y = y;
  fg = fg;
  pixels = s.pixels;
}

-- one line of pixels made black, from column `x` on
pub black_line : (rounds x y stride : ℕ) → (ℕ → ℕ) → ℕ → ℕ
black_line zero x y stride px = px
black_line (suc rounds) x y stride px =
    black_line rounds (x + 1) y stride (update px (y * stride + x) 0)

pub black_lines : (rounds y w stride : ℕ) → (ℕ → ℕ) → ℕ → ℕ
unfolding black_line
black_lines zero y w stride px = px
black_lines (suc rounds) y w stride px =
    black_lines rounds (y + 1) w stride (black_line w 0 y stride px)

-- The first loops of `terminal_render`, and the pen at the origin.
pub black_screen : Screen → Screen
unfolding black_lines
black_screen s = record {
  ptr = s.ptr;
  w = s.w;
  h = s.h;
  p = s.p;
  x = 0;
  y = 0;
  fg = s.fg;
  pixels = black_lines s.h 0 s.w (s.p / 4) s.pixels;
}

module _ (ssfn_putc : ℕ → Screen → Screen) where
  -- one row of characters, from column `x` on
  pub draw_row : (rounds x y : ℕ) → Terminal → Screen → Screen
  draw_row zero x y t s = s
  draw_row (suc rounds) x y t s =
      let cell = t.buffer (y * t.width + x) in
      draw_row rounds (x + 1) y t (ssfn_putc cell.character (with_pen s.x s.y cell.fg_color s))

  pub draw_rows : (rounds y : ℕ) → Terminal → Screen → Screen
  unfolding draw_row
  draw_rows zero y t s = s
  draw_rows (suc rounds) y t s =
      let s' = draw_row t.width 0 y t s in
      draw_rows rounds (y + 1) t (with_pen 0 (s'.y + 16) s'.fg s')

  pub terminal_render : Terminal → Screen → Screen
  unfolding draw_rows black_screen
  terminal_render t s = draw_rows t.height 0 t (black_screen s)

  -- A newline draws the terminal as well.
  pub terminal_write_char : ℕ → Terminal × Screen → Terminal × Screen
  unfolding write_cells terminal_render
  terminal_write_char c (t, s) =
      let t' = write_cells c t in (t', if c == 10 then terminal_render t' s else s)

  -- `char` is signed: the conversion to `uint32_t` extends its sign.
  abbrev pub char_to_uint32 : ℕ → ℕ
  char_to_uint32 c = if ltb c 128 then c else c + 2 ^ 32 - 256

  -- the loop of `terminal_write_string`, which asks for the length in each round, with `limit` for
  -- fuel
  pub write_from : (fuel limit i str : ℕ) → Memory → Terminal × Screen → Option (Terminal × Screen)
  unfolding terminal_write_char
  write_from zero limit i str m state = none
  write_from (suc fuel) limit i str m state =
      let rest =
        write_from fuel limit (i + 1) str m
          (terminal_write_char (char_to_uint32 (m (str + i))) state) in
      elim (strlen limit str m) [ none ↦ none | some n ↦ if ltb i n then rest else some state ]

  pub terminal_write_string :
      (fuel str : ℕ) → Memory → Terminal × Screen → Option (Terminal × Screen)
  unfolding write_from
  terminal_write_string fuel str m state = write_from fuel fuel 0 str m state
