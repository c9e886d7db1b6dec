-- ===== src/Terminal/Demo/Shown.antt =====
-- `test_terminal` of kernel/drivers/terminal.c returns, and where it leaves the cursor.
use mirus.Base.{
  ℕ, zero, suc, ◌+◌, ◌-◌, ◌≤◌, ◌<◌, ◌⊎◌, ◌≡◌, refl, sym, ap, ◌∙◌, arith, Option, some, inl, inr,
}
use mirus.Base.Int.{pos}
use mirus.Libk.{Memory}
use mirus.Libk.Strings.{IsString}
use mirus.Libk.Itoa.Reading.{parse-itoa}
use mirus.Terminal.{Terminal, Screen, terminal_setcolor}
use mirus.Terminal.Write.{InRange}
use mirus.Terminal.Text.{Continues, terminal_write_string_lem}
use mirus.Terminal.Demo.{Texts, colored, write, number_lines, color_lines, test_terminal}

-- A text stands on either side of `reach` bytes, and is shorter than the fuel.
abbrev pub TextApart : (fuel buffer reach : ℕ) → Memory → ℕ → Type 0
TextApart fuel buffer reach m str =
    (n : ℕ) × IsString m str n × (n < fuel) × ((str + n < buffer) ⊎ (buffer + reach ≤ str))

-- So do all texts.
pub record Placed (fuel top reach : ℕ) (m : Memory) (texts : Texts) : Type 0 where
  pub title : TextApart fuel top reach m texts.title
  pub red : TextApart fuel top reach m texts.red
  pub green : TextApart fuel top reach m texts.green
  pub blue : TextApart fuel top reach m texts.blue
  pub line_break : TextApart fuel top reach m texts.line_break
  pub scrolling : TextApart fuel top reach m texts.scrolling
  pub line : TextApart fuel top reach m texts.line

TextApart-frame :
    (fuel top reach : ℕ) (m m' : Memory) (str : ℕ)
    → ((x : ℕ) → (x < top) ⊎ (top + reach ≤ x) → m' x ≡ m x)
    → TextApart fuel top reach m str
    → TextApart fuel top reach m' str
TextApart-frame fuel top reach m m' str same (n, is_string, short, apart) = (
  n,
  record {
    body = λ j h e. is_string.body j h (sym (same (str + j) (inside j (omega (arith, h)))) ∙ e);
    ends = same (str + n) (inside n (omega arith)) ∙ is_string.ends;
  },
  short,
  apart,
)
  where
    inside : (j : ℕ) → j ≤ n → (str + j < top) ⊎ (top + reach ≤ str + j)
    inside j le = elim apart [
      | inl before ↦ inl (omega (arith, before, le))
      | inr behind ↦ inr (omega (arith, behind))
    ]

Continues-trans : {t u v : Terminal} → Continues t u → Continues u v → Continues t v
Continues-trans first rest = record {
  in_range = rest.in_range;
  same_cells = rest.same_cells ∙ first.same_cells;
  outside = λ x h. rest.outside x (omega (arith, h, first.same_cells)) ∙ first.outside x h;
}

-- It returns a terminal that continues another.
abbrev pub Shows : Terminal → Option (Terminal × Screen) → Type 0
Shows t r = (state : Terminal × Screen) × (r ≡ some state) × Continues t state.0

colored-Shows :
    (t : Terminal) (fg : ℕ) (r : Option (Terminal × Screen)) → Shows t r → Shows t (colored fg r)
unfolding terminal_setcolor
colored-Shows t fg r ((u, s), e, kept) = (
  (terminal_setcolor fg u, s),
  ap (colored fg) e,
  record {
    in_range = record { column = kept.in_range.column; row = kept.in_range.row };
    same_cells = kept.same_cells;
    outside = kept.outside;
  },
)

module _ (ssfn_putc : ℕ → Screen → Screen) (fuel : ℕ) where
  write-Shows :
      (t : Terminal) (str n : ℕ) (m : Memory) (r : Option (Terminal × Screen))
      → IsString m str n
      → n < fuel
      → Shows t r
      → Shows t (write ssfn_putc fuel str m r)
  unfolding write
  write-Shows t str n m r is_string short (state, e, kept) =
      let (returns, more) =
        terminal_write_string_lem ssfn_putc str m fuel n state is_string short kept.in_range in
      (_, ap (write ssfn_putc fuel str m) e ∙ returns, Continues-trans kept more)

  write-TextApart :
      (t : Terminal) (str top reach : ℕ) (m : Memory) (r : Option (Terminal × Screen))
      → TextApart fuel top reach m str
      → Shows t r
      → Shows t (write ssfn_putc fuel str m r)
  write-TextApart t str top reach m r (n, is_string, short, apart) =
      write-Shows t str n m r is_string short

  module _ (texts : Texts) (num_str reach : ℕ) where
    color_lines-Shows :
        (t : Terminal) (s : Screen) (m : Memory)
        → Placed fuel num_str reach m texts
        → InRange t
        → Shows t (color_lines ssfn_putc fuel texts num_str m (t, s))
    unfolding color_lines
    color_lines-Shows t s m p r =
        let first : Shows t (some (t, s)) =
          ((t, s), refl, record { in_range = r; same_cells = refl; outside = λ x h. refl }) in
        let titled = write-TextApart t texts.title num_str reach m _ p.title first in
        let red =
          write-TextApart t texts.red num_str reach m _ p.red (colored-Shows t _ _ titled) in
        let green =
          write-TextApart t texts.green num_str reach m _ p.green (colored-Shows t _ _ red) in
        let blue =
          write-TextApart t texts.blue num_str reach m _ p.blue (colored-Shows t _ _ green) in
        write-TextApart t texts.line_break num_str reach m _ p.line_break (colored-Shows t _ _ blue)

    Placed-frame :
        (m m' : Memory)
        → ((x : ℕ) → (x < num_str) ⊎ (num_str + reach ≤ x) → m' x ≡ m x)
        → Placed fuel num_str reach m texts
        → Placed fuel num_str reach m' texts
    Placed-frame m m' same p = record {
      title = TextApart-frame fuel num_str reach m m' _ same p.title;
      red = TextApart-frame fuel num_str reach m m' _ same p.red;
      green = TextApart-frame fuel num_str reach m m' _ same p.green;
      blue = TextApart-frame fuel num_str reach m m' _ same p.blue;
      line_break = TextApart-frame fuel num_str reach m m' _ same p.line_break;
      scrolling = TextApart-frame fuel num_str reach m m' _ same p.scrolling;
      line = TextApart-frame fuel num_str reach m m' _ same p.line;
    }

    -- what is apart from the buffer is apart from a number's digits
    outside_digits :
        (x k i : ℕ)
        → (x < num_str) ⊎ (num_str + reach ≤ x)
        → k ≤ i + 2
        → i + 2 < reach
        → (x < num_str) ⊎ (num_str + k < x)
    outside_digits x k i (inl before) le far = inl before
    outside_digits x k i (inr behind) le far = inr (omega (arith, behind, le, far))

    number_lines-Shows :
        (t : Terminal) (rounds i : ℕ) (m : Memory) (r : Option (Terminal × Screen))
        → Placed fuel num_str reach m texts
        → i + rounds + 1 < fuel
        → i + rounds + 2 < reach
        → Shows t r
        → (m' : Memory) × (state : Terminal × Screen) × (number_lines ssfn_putc fuel texts num_str
              rounds i m r
            ≡ some (m', state))
          × Placed fuel num_str reach m' texts
          × Continues t state.0
    unfolding number_lines
    number_lines-Shows t zero i m r p enough far (state, e, kept) =
        (m, state, ap (number_lines ssfn_putc fuel texts num_str zero i m) e, p, kept)
    number_lines-Shows t (suc rounds) i m r p enough far shown =
        let (k, m', le, returned, is_string, reads, frame) =
          parse-itoa fuel (pos (i + 1)) num_str 10 m (omega arith, omega arith) (omega arith) in
        let p' =
          Placed-frame m m'
            (λ x out. frame x (outside_digits x k i out (omega (arith, le)) (omega (arith, far))))
            p in
        let line = write-TextApart t texts.line num_str reach m r p.line shown in
        let number = write-Shows t num_str k m' _ is_string (omega arith) line in
        let broken = write-TextApart t texts.line_break num_str reach m' _ p'.line_break number in
        rw (number_lines, returned)
          (number_lines-Shows t rounds (i + 1) m' _ p' (omega arith) (omega arith) broken)

-- On a terminal with its cursor on the screen, with the texts apart from the bytes that the
-- numbers can take, as many as the rows and three more from the buffer on, and fuel beyond each
-- text and beyond the rows plus two, `test_terminal` returns: the cursor is on the screen, which
-- has as many cells as before, and no cell behind it is changed.
pub test_terminal-Shows :
    (ssfn_putc : ℕ → Screen → Screen) (fuel num_str : ℕ) (texts : Texts) (m : Memory) (t : Terminal)
    (s : Screen)
    → Placed fuel num_str (t.height + 3) m texts
    → t.height + 1 < fuel
    → InRange t
    → (m' : Memory) × (state : Terminal × Screen) × (test_terminal ssfn_putc fuel texts num_str m
          (t, s)
        ≡ some (m', state))
      × Continues t state.0
unfolding test_terminal
test_terminal-Shows ssfn_putc fuel num_str texts m t s p enough r =
    let colors = color_lines-Shows ssfn_putc fuel texts num_str (t.height + 3) t s m p r in
    let shown =
      write-TextApart ssfn_putc fuel t texts.scrolling num_str (t.height + 3) m _ p.scrolling
        colors in
    let (m', state, e, p', kept) =
      number_lines-Shows ssfn_putc fuel texts num_str (t.height + 3) t (t.height - 7) 0 m _ p
        (omega arith) (omega arith) shown in
    let (state', e', kept') =
      write-TextApart ssfn_putc fuel t texts.line_break num_str (t.height + 3) m' (some state)
        p'.line_break (state, refl, kept) in
    (m', state', rw (test_terminal, e, e') refl, kept')
