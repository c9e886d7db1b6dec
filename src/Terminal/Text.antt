-- ===== src/Terminal/Text.antt =====
-- The start of the terminal of kernel/drivers/terminal.c, writes in its buffer, and strings.
use mirus.Base.{
  ℕ, zero, suc, ◌+◌, ◌-◌, ◌*◌, ◌/◌, ◌%◌, ◌^◌, ◌≤◌, ◌<◌, ◌≡◌, refl, ◌∙◌, arith, ltb, if◌then◌else◌,
  ◌==◌, Bool, true, false, Bool-cases, inl, inr, some, update,
}
use mirus.Libk.{Memory}
use mirus.Libk.Strings.{IsString, strlen_lem}
use mirus.Terminal.{
  max_term_size, CharacterCell, Terminal, Framebuffer, Screen, blank, zero_cell,
  terminal_initialize, write_cells, terminal_write_char, terminal_render, terminal_clear,
  char_to_uint32, write_from, terminal_write_string,
}
use mirus.Terminal.Scroll.{terminal_clear_lem}
use mirus.Terminal.Write.{InRange, position, cells, scrolled, position_bound, inked}
use mirus.Terminal.Print.{
  write_cells-InRange, write_cells_print, write_cells_newline, write_cells_backspace,
}

mul_comm : (a b : ℕ) → a * b ≡ b * a
mul_comm a b = grind arith

-- A factor of a small product is small.
fits_word : (a b : ℕ) → 1 ≤ b → a * b ≤ max_term_size → a % 2 ^ 32 ≡ a
fits_word a zero positive small = absurd (omega (arith, positive))
fits_word a (suc b) positive small =
    let e : a * suc b ≡ a + a * b = grind arith in omega (arith, e, small)

-- For a framebuffer that holds at least one character and no more cells than the static buffer,
-- the terminal starts with its cursor on the screen, in the first cell, with the cells that the
-- framebuffer holds, which lie in the static buffer, and exactly these blank.
pub terminal_initialize_lem :
    (fb : Framebuffer)
    → 8 ≤ fb.width
    → 16 ≤ fb.height
    → fb.width / 8 * (fb.height / 16) ≤ max_term_size
    → InRange (terminal_initialize fb)
      × (position (terminal_initialize fb) ≡ 0)
      × (cells (terminal_initialize fb) ≡ fb.height / 16 * (fb.width / 8))
      × ((x : ℕ)
          → (terminal_initialize fb).buffer x
            ≡ (if ltb x (cells (terminal_initialize fb)) then blank else zero_cell))
unfolding terminal_initialize
terminal_initialize_lem fb wide high small =
    let w = fb.width / 8 in
    let h = fb.height / 16 in
    let some_width : 1 ≤ w = omega (arith, wide) in
    let some_height : 1 ≤ h = omega (arith, high) in
    let width_kept : w % 2 ^ 32 ≡ w = fits_word w h some_height small in
    let height_kept : h % 2 ^ 32 ≡ h = fits_word h w some_width (rw (mul_comm h w) small) in
    let size_kept : w * h % 2 ^ 32 ≡ w * h = omega (arith, small) in
    rw (width_kept, height_kept, size_kept)
      (
        record { column = some_width; row = some_height },
        omega arith,
        refl,
        λ x. rw (mul_comm h w) (
            terminal_clear_lem
              (record {
                buffer = λ i. zero_cell;
                buffer_size = w * h;
                height = h;
                width = w;
                cursor_x = 0;
                cursor_y = 0;
                current_fg_color = 0;
              })
              x),
      )

less_row : (h w : ℕ) → (h - 1) * w ≤ h * w
less_row zero w = omega arith
less_row (suc h) w =
    let e : suc h * w ≡ w + h * w = grind arith in
    let f : suc h - 1 ≡ h = omega arith in rw f (omega (arith, e))

scrolled_outside :
    (full : Bool) (t : Terminal) (b : ℕ → CharacterCell) (x : ℕ)
    → cells t ≤ x
    → scrolled full t b x ≡ b x
scrolled_outside false t b x h = refl
scrolled_outside true t b x h = ground (arith, less_row t.height t.width)

-- Writing a character never changes a cell behind the last one of the screen.
pub write_cells_outside :
    (c : ℕ) (t : Terminal) (x : ℕ)
    → InRange t
    → cells t ≤ x
    → (write_cells c t).buffer x ≡ t.buffer x
write_cells_outside c t x r h = elim (Bool-cases (c == 10)) [
  | inl newline ↦
      let e : c ≡ 10 = ground arith in
      rw e (
        (write_cells_newline t r).0 x
        ∙ scrolled_outside (t.cursor_y + 1 == t.height) t t.buffer x h)
  | inr other ↦ elim (Bool-cases (c == 8)) [
    | inl back ↦
        let e : c ≡ 8 = ground arith in
        let miss : (x == position t - 1) ≡ false = ground (arith, position_bound t r) in
        rw e ((write_cells_backspace t r).1 x ∙ rw miss refl)
    | inr print ↦
        let miss : (x == position t) ≡ false = ground (arith, position_bound t r) in
        (write_cells_print c t (ground arith) (ground arith) r).0 x
        ∙ scrolled_outside (position t + 1 == cells t) t (update t.buffer (position t) (inked c t))
            x h
        ∙ rw miss refl
  ]
]

-- Two terminals of which the second may follow from the first by writing characters: the cursor
-- is on the screen, the size is the same, and so is each cell behind the screen.
pub record Continues (t u : Terminal) : Type 0 where
  pub in_range : InRange u
  pub same_cells : cells u ≡ cells t
  pub outside : (x : ℕ) → cells t ≤ x → u.buffer x ≡ t.buffer x

-- A terminal whose cursor is on the screen still has it there after any character, with the same
-- number of cells, and no cell behind the screen is changed.
pub write_cells-Continues : (c : ℕ) (t : Terminal) → InRange t → Continues t (write_cells c t)
write_cells-Continues c t r =
    let kept = write_cells-InRange c t r in
    record {
      in_range = kept.0;
      same_cells = rw (kept.1.height, kept.1.width) refl;
      outside = λ x. write_cells_outside c t x r;
    }

-- Clearing brings the cursor to the first cell.
pub terminal_clear-InRange : (t : Terminal) → InRange t → InRange (terminal_clear t)
unfolding terminal_clear
terminal_clear-InRange t r = record { column = omega (arith, r.column); row = omega (arith, r.row) }

-- A character goes to the buffer, and a newline draws the whole buffer.
pub terminal_write_char_lem :
    (ssfn_putc : ℕ → Screen → Screen) (c : ℕ) (t : Terminal) (s : Screen)
    → terminal_write_char ssfn_putc c (t, s)
      ≡ (write_cells c t, if c == 10 then terminal_render ssfn_putc (write_cells c t) s else s)
unfolding terminal_write_char
terminal_write_char_lem ssfn_putc c t s = refl

module _ (ssfn_putc : ℕ → Screen → Screen) (str : ℕ) (m : Memory) where
  -- The first `n` bytes at `str` written one after another.
  abbrev pub write_chars : (i n : ℕ) → Terminal × Screen → Terminal × Screen
  write_chars i zero state = state
  write_chars i (suc n) state =
      write_chars (i + 1) n
        (terminal_write_char ssfn_putc (char_to_uint32 ssfn_putc (m (str + i))) state)

  write_chars-Continues :
      (i n : ℕ) (state : Terminal × Screen)
      → InRange (state.0)
      → Continues (state.0) ((write_chars i n state).0)
  unfolding terminal_write_char
  write_chars-Continues i zero (t, s) r = record {
    in_range = r;
    same_cells = refl;
    outside = λ x h. refl;
  }
  write_chars-Continues i (suc n) (t, s) r =
      let c = char_to_uint32 ssfn_putc (m (str + i)) in
      let first = write_cells-Continues c t r in
      let rest =
        write_chars-Continues (i + 1) n (terminal_write_char ssfn_putc c (t, s)) first.in_range in
      record {
        in_range = rest.in_range;
        same_cells = rest.same_cells ∙ first.same_cells;
        outside = λ x h. rest.outside x (omega (arith, h, first.same_cells)) ∙ first.outside x h;
      }

  write_from_lem :
      (fuel limit i n k : ℕ) (state : Terminal × Screen)
      → IsString m str n
      → n < limit
      → i + k ≡ n
      → k < fuel
      → write_from ssfn_putc fuel limit i str m state ≡ some (write_chars i k state)
  unfolding write_from
  write_from_lem zero limit i n k state t l e f = absurd (omega (arith, f))
  write_from_lem (suc fuel) limit i n zero state t l e f =
      let done : ltb i n ≡ false = ground arith in
      rw (write_from, strlen_lem limit n str m t l, done) refl
  write_from_lem (suc fuel) limit i n (suc k) state t l e f =
      let more : ltb i n ≡ true = ground arith in
      rw (write_from, strlen_lem limit n str m t l, more)
        (write_from_lem fuel limit (i + 1) n k
          (terminal_write_char ssfn_putc (char_to_uint32 ssfn_putc (m (str + i))) state) t l
          (omega (arith, e)) (omega (arith, f)))

  -- With fuel beyond the length of the string, `terminal_write_string` returns: the characters are
  -- written one after another, and if the cursor was on the screen then it is there afterwards, on
  -- a screen of the same number of cells, and no cell behind the screen is changed.
  pub terminal_write_string_lem :
      (fuel n : ℕ) (state : Terminal × Screen)
      → IsString m str n
      → n < fuel
      → InRange (state.0)
      → (terminal_write_string ssfn_putc fuel str m state ≡ some (write_chars 0 n state))
        × Continues (state.0) ((write_chars 0 n state).0)
  unfolding terminal_write_string
  terminal_write_string_lem fuel n state t f r =
      (write_from_lem fuel fuel 0 n n state t f (omega arith) f, write_chars-Continues 0 n state r)
