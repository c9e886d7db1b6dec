-- ===== src/Terminal/Cells.antt =====
-- The text buffer of kernel/drivers/terminal.c and its cursor. The buffer gives the cell at each
-- index of the static array and behind it, so that a write out of range shows. `int` coordinates are
-- natural numbers: no coordinate is negative while the cursor is in range.
use mirus.Base.{ℕ, zero, suc, ◌+◌, ◌-◌, ◌*◌, ◌/◌, ◌%◌, ◌^◌, ltb, leb, ◌==◌, if◌then◌else◌, update}

pub record CharacterCell : Type 0 where
  pub character : ℕ
  pub fg_color : ℕ
  pub bg_color : ℕ

pub record Terminal : Type 0 where
  pub buffer : ℕ → CharacterCell
  pub buffer_size : ℕ
  pub height : ℕ
  pub width : ℕ
  pub cursor_x : ℕ
  pub cursor_y : ℕ
  pub current_fg_color : ℕ

abbrev pub terminal_color_white : ℕ
terminal_color_white = 0xFFFFFF

abbrev pub terminal_color_black : ℕ
terminal_color_black = 0

-- The fields of `limine_framebuffer` that the driver reads.
pub record Framebuffer : Type 0 where
  pub address : ℕ
  pub width : ℕ
  pub height : ℕ
  pub pitch : ℕ

abbrev pub blank : CharacterCell
blank = record { character = 32; fg_color = terminal_color_white; bg_color = terminal_color_black }

-- `rounds` cells from `i` on are made blank.
unfoldable pub clear_cells : (rounds i : ℕ) → (ℕ → CharacterCell) → ℕ → CharacterCell
clear_cells zero i b = b
clear_cells (suc rounds) i b = clear_cells rounds (i + 1) (update b i blank)

unfoldable pub terminal_clear : Terminal → Terminal
unfolding clear_cells
terminal_clear t = record {
  buffer = clear_cells t.buffer_size 0 t.buffer;
  buffer_size = t.buffer_size;
  height = t.height;
  width = t.width;
  cursor_x = 0;
  cursor_y = 0;
  current_fg_color = t.current_fg_color;
}

unfoldable pub terminal_setcolor : ℕ → Terminal → Terminal
terminal_setcolor fg t = record {
  buffer = t.buffer;
  buffer_size = t.buffer_size;
  height = t.height;
  width = t.width;
  cursor_x = t.cursor_x;
  cursor_y = t.cursor_y;
  current_fg_color = fg;
}

-- `MAX_TERM_SIZE`, the number of cells of `static_buffer`
abbrev pub max_term_size : ℕ
max_term_size = 28800

-- The 64-bit sizes of the framebuffer are cut to `int` when they are stored; a value of 2^31 or
-- more is a negative number in C, which no theorem covers. `static_buffer` holds zero cells before
-- the first use.
abbrev pub zero_cell : CharacterCell
zero_cell = record { character = 0; fg_color = 0; bg_color = 0 }

unfoldable pub terminal_initialize : Framebuffer → Terminal
unfolding terminal_clear terminal_setcolor
terminal_initialize framebuffer =
    let width = framebuffer.width / 8 % 2 ^ 32 in
    let height = framebuffer.height / 16 % 2 ^ 32 in
    terminal_setcolor terminal_color_white (
      terminal_clear (record {
        buffer = λ i. zero_cell;
        buffer_size = width * height % 2 ^ 32;
        height = height;
        width = width;
        cursor_x = 0;
        cursor_y = 0;
        current_fg_color = 0;
      }))

-- one row of `terminal_scroll`, from column `x` on
unfoldable pub copy_row : (rounds x y width : ℕ) → (ℕ → CharacterCell) → ℕ → CharacterCell
copy_row zero x y width b = b
copy_row (suc rounds) x y width b =
    copy_row rounds (x + 1) y width (update b (y * width + x) (b ((y + 1) * width + x)))

-- the rows from `y` on
unfoldable pub copy_rows : (rounds y width : ℕ) → (ℕ → CharacterCell) → ℕ → CharacterCell
unfolding copy_row
copy_rows zero y width b = b
copy_rows (suc rounds) y width b = copy_rows rounds (y + 1) width (copy_row width 0 y width b)

-- The cursor stands below the first row whenever the driver scrolls.
unfoldable pub terminal_scroll : Terminal → Terminal
unfolding copy_rows clear_cells
terminal_scroll t = record {
  buffer =
      clear_cells t.width ((t.height - 1) * t.width) (copy_rows (t.height - 1) 0 t.width t.buffer);
  buffer_size = t.buffer_size;
  height = t.height;
  width = t.width;
  cursor_x = t.cursor_x;
  cursor_y = t.cursor_y - 1;
  current_fg_color = t.current_fg_color;
}

-- the terminal with its cursor elsewhere
abbrev pub with_cursor : (x y : ℕ) → Terminal → Terminal
with_cursor x y t = record {
  buffer = t.buffer;
  buffer_size = t.buffer_size;
  height = t.height;
  width = t.width;
  cursor_x = x;
  cursor_y = y;
  current_fg_color = t.current_fg_color;
}

-- the terminal with another cell at an index
abbrev pub with_cell : (index : ℕ) → CharacterCell → Terminal → Terminal
with_cell index cell t = record {
  buffer = update t.buffer index cell;
  buffer_size = t.buffer_size;
  height = t.height;
  width = t.width;
  cursor_x = t.cursor_x;
  cursor_y = t.cursor_y;
  current_fg_color = t.current_fg_color;
}

-- `cursor_x = 0; cursor_y++; if (cursor_y >= height) terminal_scroll();`
unfoldable pub next_line : Terminal → Terminal
unfolding terminal_scroll
next_line t =
    let t' = with_cursor 0 (t.cursor_y + 1) t in
    if leb t.height (t.cursor_y + 1) then terminal_scroll t' else t'

-- the branch of a backspace
unfoldable pub backspace : Terminal → Terminal
backspace t =
    let t' =
      if ltb 0 t.cursor_x
      then with_cursor (t.cursor_x - 1) t.cursor_y t
      else if ltb 0 t.cursor_y
      then with_cursor (t.width - 1) (t.cursor_y - 1) t
      else t in
    let index = t'.cursor_y * t'.width + t'.cursor_x in
    with_cell index
      (record {
        character = 32;
        fg_color = (t'.buffer index).fg_color;
        bg_color = (t'.buffer index).bg_color;
      })
      t'

-- the branch of any other character
unfoldable pub put_char : ℕ → Terminal → Terminal
unfolding next_line
put_char c t =
    let index = t.cursor_y * t.width + t.cursor_x in
    let written =
      with_cell index
        (record {
          character = c;
          fg_color = t.current_fg_color;
          bg_color = (t.buffer index).bg_color;
        })
        t in
    let moved = with_cursor (t.cursor_x + 1) t.cursor_y written in
    if leb t.width (t.cursor_x + 1) then next_line moved else moved

-- What `terminal_write_char` does to the terminal.
unfoldable pub write_cells : ℕ → Terminal → Terminal
unfolding next_line backspace put_char
write_cells c t = if c == 10 then next_line t else if c == 8 then backspace t else put_char c t
