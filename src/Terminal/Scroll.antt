-- ===== src/Terminal/Scroll.antt =====
-- Clearing and scrolling of kernel/drivers/terminal.c, cell by cell.
use mirus.Base.{
  ℕ, zero, suc, ◌+◌, ◌-◌, ◌*◌, ◌≤◌, ◌<◌, ◌≡◌, ◌&&◌, arith, ltb, leb, if◌then◌else◌, update,
}
use mirus.Terminal.{
  CharacterCell, Terminal, blank, clear_cells, copy_row, copy_rows, terminal_scroll, terminal_clear,
}

pub clear_cells_lem :
    (rounds i : ℕ) (b : ℕ → CharacterCell) (x : ℕ)
    → clear_cells rounds i b x ≡ (if leb i x && ltb x (i + rounds) then blank else b x)
unfolding clear_cells
clear_cells_lem zero i b x = ground arith
clear_cells_lem (suc rounds) i b x =
    ground (arith, clear_cells_lem rounds (i + 1) (update b i blank) x)

next_row : (y width : ℕ) → (y + 1) * width ≡ y * width + width
next_row y width = grind arith

copy_row_lem :
    (rounds x y width : ℕ) (b : ℕ → CharacterCell) (j : ℕ)
    → x + rounds ≤ width
    → copy_row rounds x y width b j
      ≡ (if leb (y * width + x) j && ltb j (y * width + x + rounds) then b (j + width) else b j)
unfolding copy_row
copy_row_lem zero x y width b j h = ground arith
copy_row_lem (suc rounds) x y width b j h =
    let b' = update b (y * width + x) (b ((y + 1) * width + x)) in
    ground (arith, next_row y width, copy_row_lem rounds (x + 1) y width b' j)

copy_rows_lem :
    (rounds y width : ℕ) (b : ℕ → CharacterCell) (j : ℕ)
    → copy_rows rounds y width b j
      ≡ (if leb (y * width) j && ltb j ((y + rounds) * width) then b (j + width) else b j)
unfolding copy_rows
copy_rows_lem zero y width b j = ground arith
copy_rows_lem (suc rounds) y width b j =
    let b' = copy_row width 0 y width b in
    let below : (y + 1 + rounds) * width ≡ y * width + width + rounds * width = grind arith in
    let all : (y + suc rounds) * width ≡ y * width + width + rounds * width = grind arith in
    ground (
      arith,
      next_row y width,
      below,
      all,
      copy_rows_lem rounds (y + 1) width b' j,
      copy_row_lem width 0 y width b j,
      copy_row_lem width 0 y width b (j + width),
    )

-- Clearing makes exactly the cells of the buffer blank.
pub terminal_clear_lem :
    (t : Terminal) (x : ℕ)
    → (terminal_clear t).buffer x ≡ (if ltb x t.buffer_size then blank else t.buffer x)
unfolding terminal_clear
terminal_clear_lem t x = ground (arith, clear_cells_lem t.buffer_size 0 t.buffer x)

-- Scrolling moves every row up by one, makes the last row blank and writes nowhere else, for any
-- terminal with a row.
pub terminal_scroll_lem :
    (t : Terminal) (x : ℕ)
    → 0 < t.height
    → (terminal_scroll t).buffer x ≡ (
        if ltb x ((t.height - 1) * t.width)
        then t.buffer (x + t.width)
        else if ltb x (t.height * t.width)
        then blank
        else t.buffer x)
unfolding terminal_scroll
terminal_scroll_lem t x h =
    let last : (t.height - 1 + 1) * t.width ≡ (t.height - 1) * t.width + t.width =
      next_row (t.height - 1) t.width in
    let same : t.height - 1 + 1 ≡ t.height = omega arith in
    let rows : t.height * t.width ≡ (t.height - 1) * t.width + t.width = rw same at last in
    let b' = copy_rows (t.height - 1) 0 t.width t.buffer in
    ground (
      arith,
      rows,
      clear_cells_lem t.width ((t.height - 1) * t.width) b' x,
      copy_rows_lem (t.height - 1) 0 t.width t.buffer x,
    )
