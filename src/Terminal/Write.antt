-- ===== src/Terminal/Write.antt =====
-- `terminal_write_char` of kernel/drivers/terminal.c: where it leaves the cursor and each cell.
use mirus.Base.{
  ℕ, zero, suc, ◌+◌, ◌-◌, ◌*◌, ◌≤◌, ◌<◌, ◌≡◌, refl, sym, ◌&&◌, arith, ltb, leb, if◌then◌else◌, ◌==◌,
  Bool, true, false, Bool-cases, inl, inr,
}
use mirus.Terminal.{CharacterCell, Terminal, blank, with_cursor, terminal_scroll, next_line}
use mirus.Terminal.Scroll.{terminal_scroll_lem}

-- The cursor is on a cell of the screen.
pub record InRange (t : Terminal) : Type 0 where
  pub column : t.cursor_x < t.width
  pub row : t.cursor_y < t.height

-- the index of the cursor's cell, and the number of cells
abbrev pub position : Terminal → ℕ
position t = t.cursor_y * t.width + t.cursor_x

abbrev pub cells : Terminal → ℕ
cells t = t.height * t.width

-- Two terminals of one size.
pub record SameSize (t u : Terminal) : Type 0 where
  pub width : t.width ≡ u.width
  pub height : t.height ≡ u.height
  pub buffer_size : t.buffer_size ≡ u.buffer_size
  pub colour : t.current_fg_color ≡ u.current_fg_color

pub next_line-InRange : (t : Terminal) → t.cursor_y < t.height → 0 < t.width → InRange (next_line t)
unfolding next_line terminal_scroll
next_line-InRange t row wide = elim (Bool-cases (leb t.height (t.cursor_y + 1))) [
  | inl full ↦ rw full (record { column = wide; row = ground arith })
  | inr room ↦ rw room (record { column = wide; row = ground arith })
]

pub next_line-SameSize : (t : Terminal) → SameSize (next_line t) t
unfolding next_line terminal_scroll
next_line-SameSize t = elim (Bool-cases (leb t.height (t.cursor_y + 1))) [
  | inl full ↦ rw full (record { width = refl; height = refl; buffer_size = refl; colour = refl })
  | inr room ↦ rw room (record { width = refl; height = refl; buffer_size = refl; colour = refl })
]

-- The rows of a screen that has scrolled if the cursor was in the last row.
abbrev pub scrolled : Bool → Terminal → (ℕ → CharacterCell) → ℕ → CharacterCell
scrolled full t b x =
    if full
    then if ltb x ((t.height - 1) * t.width)
      then b (x + t.width)
      else if ltb x (t.height * t.width)
      then blank
      else b x
    else b x

pub next_line_lem :
    (t : Terminal) (x : ℕ)
    → t.cursor_y < t.height
    → (next_line t).buffer x ≡ scrolled (t.cursor_y + 1 == t.height) t t.buffer x
unfolding next_line
next_line_lem t x row = elim (Bool-cases (leb t.height (t.cursor_y + 1))) [
  | inl full ↦
      let last : (t.cursor_y + 1 == t.height) ≡ true = ground arith in
      rw (full, last) (terminal_scroll_lem (with_cursor 0 (t.cursor_y + 1) t) x (ground arith))
  | inr room ↦
      let last : (t.cursor_y + 1 == t.height) ≡ false = ground arith in rw (room, last) refl
]

-- Row `y` of a screen with `h` rows ends behind cell `y * w + w`.
row_end : (y h w : ℕ) → y < h → y * w + w ≤ h * w
row_end zero (suc h) w r = grind arith
row_end (suc y) (suc h) w r =
    let a : suc y * w ≡ y * w + w = grind arith in
    let b : suc h * w ≡ h * w + w = grind arith in
    omega (arith, a, b, row_end y h w (omega (arith, r)))
row_end y zero w r = absurd (omega (arith, r))

last_row : (y h w : ℕ) → y + 1 ≡ h → h * w ≡ y * w + w
last_row y h w e = rw (sym e) (grind arith)

-- The cursor's cell is on the screen.
pub position_bound : (t : Terminal) → InRange t → position t < cells t
position_bound t r = omega (arith, row_end t.cursor_y t.height t.width r.row, r.column)

-- The cursor is on the last cell exactly at the end of the last row.
pub last_cell :
    (t : Terminal)
    → InRange t
    → (position t + 1 == cells t) ≡ (leb t.width (t.cursor_x + 1) && (t.cursor_y + 1 == t.height))
last_cell t r = elim (Bool-cases (t.cursor_y + 1 == t.height)) [
  | inl bottom ↦
      let e : t.height * t.width ≡ t.cursor_y * t.width + t.width =
        last_row t.cursor_y t.height t.width (ground arith) in
      ground (arith, e, r.column, bottom)
  | inr higher ↦
      let below : t.cursor_y + 1 < t.height = ground (arith, r.row) in
      let e = row_end (t.cursor_y + 1) t.height t.width below in
      let n : (t.cursor_y + 1) * t.width ≡ t.cursor_y * t.width + t.width = grind arith in
      ground (arith, e, n, r.column, higher)
]

-- the cell that a character is written as
abbrev pub inked : ℕ → Terminal → CharacterCell
inked c t = record {
  character = c;
  fg_color = t.current_fg_color;
  bg_color = (t.buffer (position t)).bg_color;
}
