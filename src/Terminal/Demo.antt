-- ===== src/Terminal/Demo.antt =====
-- `test_terminal` of kernel/drivers/terminal.c. The texts that it writes and the buffer for the
-- numbers stand at addresses that are arguments.
pub mod Shown
use mirus.Base.{ℕ, zero, suc, ◌+◌, ◌-◌, Option, none, some}
use mirus.Base.Int.{pos}
use mirus.Libk.{Memory}
use mirus.Libk.Itoa.{itoa}
use mirus.Terminal.{
  Terminal, Screen, terminal_setcolor, terminal_color_white, terminal_write_string,
}

-- the addresses of the texts, in the order of their first use
pub record Texts : Type 0 where
  pub title : ℕ
  pub red : ℕ
  pub green : ℕ
  pub blue : ℕ
  pub line_break : ℕ
  pub scrolling : ℕ
  pub line : ℕ

abbrev terminal_color_red : ℕ
terminal_color_red = 0xFF0000

abbrev terminal_color_green : ℕ
terminal_color_green = 0x00FF00

abbrev terminal_color_blue : ℕ
terminal_color_blue = 0x0000FF

abbrev pub colored : (fg : ℕ) → Option (Terminal × Screen) → Option (Terminal × Screen)
colored fg none = none
colored fg (some (t, s)) = some (terminal_setcolor fg t, s)

module _ (ssfn_putc : ℕ → Screen → Screen) (fuel : ℕ) where
  -- a text after what was done before, unless that did not return
  pub write : (str : ℕ) → Memory → Option (Terminal × Screen) → Option (Terminal × Screen)
  write str m none = none
  write str m (some state) = terminal_write_string ssfn_putc fuel str m state

  module _ (texts : Texts) (num_str : ℕ) where
    -- The numbered lines, with `rounds` of them left; the memory changes at `num_str`.
    pub number_lines :
        (rounds i : ℕ) → Memory → Option (Terminal × Screen) → Option (Memory × (Terminal × Screen))
    unfolding write
    number_lines zero i m none = none
    number_lines zero i m (some state) = some (m, state)
    number_lines (suc rounds) i m state =
        let written = write texts.line m state in
        elim (itoa fuel (pos (i + 1)) num_str 10 m) [
          | none ↦ none
          | some m' ↦
              number_lines rounds (i + 1) m' (write texts.line_break m' (write num_str m' written))
        ]

    -- the texts in three colours
    pub color_lines : Memory → Terminal × Screen → Option (Terminal × Screen)
    unfolding write
    color_lines m state =
        let titled = write texts.title m (some state) in
        let red = write texts.red m (colored terminal_color_red titled) in
        let green = write texts.green m (colored terminal_color_green red) in
        let blue = write texts.blue m (colored terminal_color_blue green) in
        write texts.line_break m (colored terminal_color_white blue)

    -- The number of lines is one for each row of the terminal but seven.
    pub test_terminal : Memory → Terminal × Screen → Option (Memory × (Terminal × Screen))
    unfolding color_lines number_lines write
    test_terminal m (t, s) =
        let shown = write texts.scrolling m (color_lines m (t, s)) in
        elim (number_lines (t.height - 7) 0 m shown) [
          | none ↦ none
          | some (m', state) ↦ elim (write texts.line_break m' (some state)) [
            | none ↦ none
            | some state' ↦ some (m', state')
          ]
        ]
