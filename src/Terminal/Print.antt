-- ===== src/Terminal/Print.antt =====
-- `terminal_write_char` of kernel/drivers/terminal.c for each kind of character.
use mirus.Base.{
  ℕ, ◌+◌, ◌-◌, ◌*◌, ◌≡◌, ◌≢◌, refl, arith, ltb, leb, if◌then◌else◌, ◌==◌, true, false, Bool-cases,
  inl, inr, update,
}
use mirus.Terminal.{
  CharacterCell, Terminal, with_cursor, with_cell, terminal_scroll, next_line, backspace, put_char,
  write_cells,
}
use mirus.Terminal.Write.{
  InRange, position, cells, SameSize, next_line-InRange, next_line-SameSize, scrolled,
  next_line_lem, last_cell, inked,
}

put_char-InRange : (c : ℕ) (t : Terminal) → InRange t → InRange (put_char c t)
unfolding put_char
put_char-InRange c t r = elim (Bool-cases (leb t.width (t.cursor_x + 1))) [
  | inl wrap ↦ rw wrap (
      next_line-InRange
        (with_cursor (t.cursor_x + 1) t.cursor_y (with_cell (position t) (inked c t) t)) r.row
        (omega (arith, r.column)))
  | inr stay ↦ rw stay (record { column = ground arith; row = r.row })
]

put_char-SameSize : (c : ℕ) (t : Terminal) → SameSize (put_char c t) t
unfolding put_char
put_char-SameSize c t = elim (Bool-cases (leb t.width (t.cursor_x + 1))) [
  | inl wrap ↦
      let s =
        next_line-SameSize
          (with_cursor (t.cursor_x + 1) t.cursor_y (with_cell (position t) (inked c t) t)) in
      rw wrap (record {
        width = s.width;
        height = s.height;
        buffer_size = s.buffer_size;
        colour = s.colour;
      })
  | inr stay ↦ rw stay (record { width = refl; height = refl; buffer_size = refl; colour = refl })
]

backspace-InRange : (t : Terminal) → InRange t → InRange (backspace t)
unfolding backspace
backspace-InRange t r = elim (Bool-cases (ltb 0 t.cursor_x)) [
  | inl inner ↦ rw inner (record { column = omega (arith, r.column); row = r.row })
  | inr edge ↦ rw edge (elim (Bool-cases (ltb 0 t.cursor_y)) [
    | inl lower ↦ rw lower (record { column = omega (arith, r.column); row = omega (arith, r.row) })
    | inr top ↦ rw top (record { column = r.column; row = r.row })
  ])
]

backspace-SameSize : (t : Terminal) → SameSize (backspace t) t
unfolding backspace
backspace-SameSize t = elim (Bool-cases (ltb 0 t.cursor_x)) [
  | inl inner ↦ rw inner (record { width = refl; height = refl; buffer_size = refl; colour = refl })
  | inr edge ↦ rw edge (elim (Bool-cases (ltb 0 t.cursor_y)) [
    | inl lower ↦
        rw lower (record { width = refl; height = refl; buffer_size = refl; colour = refl })
    | inr top ↦ rw top (record { width = refl; height = refl; buffer_size = refl; colour = refl })
  ])
]

-- Writing any character keeps the cursor on the screen, and the size and the colour.
pub write_cells-InRange :
    (c : ℕ) (t : Terminal) → InRange t → InRange (write_cells c t) × SameSize (write_cells c t) t
unfolding write_cells
write_cells-InRange c t r = elim (Bool-cases (c == 10)) [
  | inl newline ↦
      rw newline (next_line-InRange t r.row (omega (arith, r.column)), next_line-SameSize t)
  | inr other ↦ rw other (elim (Bool-cases (c == 8)) [
    | inl back ↦ rw back (backspace-InRange t r, backspace-SameSize t)
    | inr print ↦ rw print (put_char-InRange c t r, put_char-SameSize c t)
  ])
]

-- A character that is printed goes to the cursor's cell in the current colour and no other cell
-- changes, but that the screen scrolls if that was the last cell.
print_cells :
    (c : ℕ) (t : Terminal) (x : ℕ)
    → InRange t
    → (put_char c t).buffer x
      ≡ scrolled (position t + 1 == cells t) t (update t.buffer (position t) (inked c t)) x
unfolding put_char
print_cells c t x r = rw (last_cell t r) (elim (Bool-cases (leb t.width (t.cursor_x + 1))) [
  | inl wrap ↦ rw wrap (
      next_line_lem (with_cursor (t.cursor_x + 1) t.cursor_y (with_cell (position t) (inked c t) t))
        x r.row)
  | inr stay ↦ rw stay refl
])

-- The cursor goes on by one cell, or to the start of the last row.
print_position :
    (c : ℕ) (t : Terminal)
    → InRange t
    → position (put_char c t)
      ≡ (if position t + 1 == cells t then (t.height - 1) * t.width else position t + 1)
unfolding put_char next_line terminal_scroll
print_position c t r = rw (last_cell t r) (elim (Bool-cases (leb t.width (t.cursor_x + 1))) [
  | inl wrap ↦ rw wrap (elim (Bool-cases (leb t.height (t.cursor_y + 1))) [
    | inl full ↦
        let bottom : (t.cursor_y + 1 == t.height) ≡ true = ground (arith, r.row) in
        let same : t.cursor_y + 1 - 1 ≡ t.height - 1 = ground arith in
        rw (full, bottom, same) (omega arith)
    | inr room ↦
        let bottom : (t.cursor_y + 1 == t.height) ≡ false = ground arith in
        let next : (t.cursor_y + 1) * t.width ≡ t.cursor_y * t.width + t.width = grind arith in
        rw (room, bottom) (ground (arith, next, r.column))
  ])
  | inr stay ↦ rw stay (omega arith)
])

-- A printed character goes to the cursor's cell in the current colour, and the cursor to the next
-- cell; after the last cell of the screen everything scrolls up by a row, and the cursor goes to
-- the start of the last row. The newline and the backspace are not printed.
pub write_cells_print :
    (c : ℕ) (t : Terminal)
    → c ≢ 10
    → c ≢ 8
    → InRange t
    → ((x : ℕ)
        → (write_cells c t).buffer x
          ≡ scrolled (position t + 1 == cells t) t (update t.buffer (position t) (inked c t)) x)
      × (position (write_cells c t)
          ≡ (if position t + 1 == cells t then (t.height - 1) * t.width else position t + 1))
unfolding write_cells
write_cells_print c t newline back r =
    let a : (c == 10) ≡ false = ground arith in
    let b : (c == 8) ≡ false = ground arith in
    rw (a, b) (λ x. print_cells c t x r, print_position c t r)

-- A newline changes no cell, unless the cursor is in the last row: then everything scrolls up by a
-- row. The cursor goes to the start of the next row, or of the last one.
pub write_cells_newline :
    (t : Terminal)
    → InRange t
    → ((x : ℕ) → (write_cells 10 t).buffer x ≡ scrolled (t.cursor_y + 1 == t.height) t t.buffer x)
      × ((write_cells 10 t).cursor_x ≡ 0)
      × ((write_cells 10 t).cursor_y
          ≡ (if t.cursor_y + 1 == t.height then t.cursor_y else t.cursor_y + 1))
unfolding write_cells next_line terminal_scroll
write_cells_newline t r = (λ x. next_line_lem t x r.row, cursor.0, cursor.1)
  where
    cursor :
        ((next_line t).cursor_x ≡ 0)
        × ((next_line t).cursor_y
            ≡ (if t.cursor_y + 1 == t.height then t.cursor_y else t.cursor_y + 1))
    cursor = elim (Bool-cases (leb t.height (t.cursor_y + 1))) [
      | inl full ↦
          let bottom : (t.cursor_y + 1 == t.height) ≡ true = ground (arith, r.row) in
          rw (full, bottom) (refl, omega arith)
      | inr room ↦
          let bottom : (t.cursor_y + 1 == t.height) ≡ false = ground arith in
          rw (room, bottom) (refl, refl)
    ]

-- the cell without its character
abbrev pub erased : CharacterCell → CharacterCell
erased cell = record { character = 32; fg_color = cell.fg_color; bg_color = cell.bg_color }

-- A backspace takes the cursor back by one cell, over the end of a row too, and erases the
-- character there and nothing else; at the first cell it stays and erases that one.
pub write_cells_backspace :
    (t : Terminal)
    → InRange t
    → (position (write_cells 8 t) ≡ position t - 1)
      × ((x : ℕ)
          → (write_cells 8 t).buffer x
            ≡ update t.buffer (position t - 1) (erased (t.buffer (position t - 1))) x)
unfolding write_cells backspace
write_cells_backspace t r = elim (Bool-cases (ltb 0 t.cursor_x)) [
  | inl inner ↦
      let e : t.cursor_y * t.width + (t.cursor_x - 1) ≡ position t - 1 = ground arith in
      rw (inner, e) (refl, λ x. refl)
  | inr edge ↦ rw edge (elim (Bool-cases (ltb 0 t.cursor_y)) [
    | inl lower ↦
        let n : (t.cursor_y - 1 + 1) * t.width ≡ (t.cursor_y - 1) * t.width + t.width =
          grind arith in
        let s : t.cursor_y - 1 + 1 ≡ t.cursor_y = ground arith in
        let n' : t.cursor_y * t.width ≡ (t.cursor_y - 1) * t.width + t.width = rw s at n in
        let e : (t.cursor_y - 1) * t.width + (t.width - 1) ≡ position t - 1 =
          ground (arith, n', r.column) in
        rw (lower, e) (refl, λ x. refl)
    | inr top ↦
        let y : t.cursor_y ≡ 0 = ground arith in
        let z : t.cursor_y * t.width ≡ 0 = rw y (omega arith) in
        let e : t.cursor_y * t.width + t.cursor_x ≡ 0 = ground (arith, z) in
        rw (top, e) (refl, λ x. refl)
  ])
]
