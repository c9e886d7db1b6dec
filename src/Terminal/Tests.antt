-- ===== src/Terminal/Tests.antt =====
-- The terminal on a small screen: three columns and two rows.
use mirus.Base.{
  ℕ, ◌+◌, ◌-◌, ◌*◌, ◌/◌, ◌<◌, ◌≡◌, ◌≢◌, Bool, ◌&&◌, refl, arith, ltb, if◌then◌else◌, ◌==◌, true,
  some, inr, update,
}
use mirus.Libk.{Memory}
use mirus.Libk.Strings.{IsString}
use mirus.Terminal.{
  Terminal, Framebuffer, Screen, blank, zero_cell, with_pen, terminal_scroll, terminal_initialize,
  screen_initialize, write_cells, terminal_render, terminal_write_string,
}
use mirus.Terminal.Demo.{Texts, test_terminal}
use mirus.Terminal.Demo.Shown.{TextApart, Placed, test_terminal-Shows}
use mirus.Terminal.Scroll.{terminal_scroll_lem}
use mirus.Terminal.Write.{InRange, position, cells, scrolled, inked}
use mirus.Terminal.Print.{write_cells_print, write_cells_newline, write_cells_backspace}
use mirus.Terminal.Text.{
  terminal_initialize_lem, Continues, write_cells-Continues, write_chars, terminal_write_string_lem,
}
use mirus.Terminal.Draw.{DrawsGlyph, grid_rows, terminal_render_lem}

abbrev framebuffer : Framebuffer
framebuffer = record { address = 0x1000; width = 24; height = 32; pitch = 96 }

-- a screen of letters with the cursor in its last cell
abbrev letters : Terminal
letters = record {
  buffer = λ i. record { character = 65 + i; fg_color = 1; bg_color = 2 };
  buffer_size = 6;
  height = 2;
  width = 3;
  cursor_x = 2;
  cursor_y = 1;
  current_fg_color = 7;
}

letters-InRange : InRange letters
letters-InRange = record { column = omega arith; row = omega arith }

-- the font library, as far as the pen goes
abbrev putc : ℕ → Screen → Screen
putc c s = with_pen (s.x + 8) s.y s.fg s

abbrev capital : ℕ → Bool
capital c = ltb 64 c && ltb c 91

putc-DrawsGlyph : DrawsGlyph capital putc
putc-DrawsGlyph = record { moves = λ c s known. refl; keeps = λ c s known. refl }

abbrev screen : Screen
screen = screen_initialize framebuffer (λ i. 5)

-- "hi" at 0
abbrev hi : Memory
hi a = if a == 0 then 104 else if a == 1 then 105 else 0

hi-IsString : IsString hi 0 2
hi-IsString = record { body = λ i h. ground arith; ends = refl }

last_letter_scrolls : ((write_cells 90 letters).buffer 2).character ≡ 90
unfolding write_cells
last_letter_scrolls = refl

terminal_scroll_lem_example : (terminal_scroll letters).buffer 1 ≡ letters.buffer 4
terminal_scroll_lem_example = terminal_scroll_lem letters 1 (omega arith)

write_cells_print_example :
    ((x : ℕ)
      → (write_cells 90 letters).buffer x
        ≡ scrolled true letters (update letters.buffer 5 (inked 90 letters)) x)
    × (position (write_cells 90 letters) ≡ 3)
write_cells_print_example = write_cells_print 90 letters (omega arith) (omega arith) letters-InRange

newline_cell :
    ((x : ℕ) → (write_cells 10 letters).buffer x ≡ scrolled true letters letters.buffer x)
    × ((write_cells 10 letters).cursor_x ≡ 0)
    × ((write_cells 10 letters).cursor_y ≡ 1)
newline_cell = write_cells_newline letters letters-InRange

write_cells_backspace_example :
    (position (write_cells 8 letters) ≡ position letters - 1)
    × ((x : ℕ)
        → (write_cells 8 letters).buffer x
          ≡ update letters.buffer 4 (record { character = 32; fg_color = 1; bg_color = 2 }) x)
write_cells_backspace_example = write_cells_backspace letters letters-InRange

letter-Continues : Continues letters (write_cells 90 letters)
letter-Continues = write_cells-Continues 90 letters letters-InRange

initialized_framebuffer :
    InRange (terminal_initialize framebuffer)
    × (position (terminal_initialize framebuffer) ≡ 0)
    × (cells (terminal_initialize framebuffer) ≡ framebuffer.height / 16 * (framebuffer.width / 8))
    × ((x : ℕ)
        → (terminal_initialize framebuffer).buffer x
          ≡ (if ltb x (cells (terminal_initialize framebuffer)) then blank else zero_cell))
initialized_framebuffer =
    terminal_initialize_lem framebuffer (omega arith) (omega arith) (omega arith)

terminal_write_string_lem_example :
    (terminal_write_string putc 3 0 hi (letters, screen)
      ≡ some (write_chars putc 0 hi 0 2 (letters, screen)))
    × Continues letters ((write_chars putc 0 hi 0 2 (letters, screen)).0)
terminal_write_string_lem_example =
    terminal_write_string_lem putc 0 hi 3 2 (letters, screen) hi-IsString (omega arith)
      letters-InRange

terminal_render_lem_example :
    (black : Screen) × (terminal_render putc letters screen ≡ grid_rows putc 2 0 letters black)
    × ((x y : ℕ) → x < 24 → y < 32 → black.pixels (y * 24 + x) ≡ 0)
    × ((i : ℕ) → ((x y : ℕ) → x < 24 → y < 32 → i ≢ y * 24 + x) → black.pixels i ≡ 5)
unfolding screen_initialize
terminal_render_lem_example =
    terminal_render_lem putc capital putc-DrawsGlyph letters screen (λ x y lt below. ground arith)

abbrev tall : Terminal
tall = record letters { height = 9; buffer_size = 27 }

-- Two characters and a zero, far above the buffer for the numbers.
abbrev far_text : Memory
far_text a = if a == 4002 then 0 else 104

far_text-IsString : IsString far_text 4000 2
far_text-IsString = record { body = λ i h. ground arith; ends = refl }

abbrev greetings : Texts
greetings = record {
  title = 4000;
  red = 4000;
  green = 4000;
  blue = 4000;
  line_break = 4000;
  scrolling = 4000;
  line = 4000;
}

greetings-Placed : Placed 20 10 12 far_text greetings
greetings-Placed =
    let apart : TextApart 20 10 12 far_text 4000 =
      (2, far_text-IsString, omega arith, inr (omega arith)) in
    record {
      title = apart;
      red = apart;
      green = apart;
      blue = apart;
      line_break = apart;
      scrolling = apart;
      line = apart;
    }

test_terminal-Shows_example :
    (m' : Memory) × (state : Terminal × Screen) × (test_terminal putc 20 greetings 10 far_text
        (tall, screen)
      ≡ some (m', state))
    × Continues tall state.0
test_terminal-Shows_example =
    test_terminal-Shows putc 20 10 greetings far_text tall screen greetings-Placed (omega arith)
      (record { column = omega arith; row = omega arith })
