-- ===== src/Panic/Shown.antt =====
-- What is left on the screen by kernel/debug/panic.c.
use mirus.Base.{
  ℕ, ◌≡◌, refl, sym, ap, ◌∙◌, arith, false, Option, none, some, List, [], ◌∷◌, ◌++◌, ◌==◌,
  if◌then◌else◌, has,
}
use mirus.Terminal.{Terminal, Screen, terminal_clear, write_cells, terminal_render, char_to_uint32}
use mirus.Terminal.Write.{InRange}
use mirus.Terminal.Text.{Continues, write_cells-Continues, terminal_write_char_lem}
use mirus.Interrupts.{FaultDetail, Panic}
use mirus.Base.Format.{codes, Arg, number, text}
use mirus.Panic.{
  InterruptFrame, frame_lines, fault_format, fault_arguments, putchar_, put_all, print, print_lines,
  print_interrupt_frame, panic_head,
}
use Prim.Native.String.{String}

-- A format without `%` is printed as it is.
abbrev pub Verbatim : (String → List Arg → List ℕ) → Type 0
Verbatim printf_ = (f : String) → has b'%' (codes f) ≡ false → printf_ f [] ≡ codes f

module _ (ssfn_putc : ℕ → Screen → Screen) where
  -- a terminal after these characters
  abbrev pub written : List ℕ → Terminal → Terminal
  written [] t = t
  written (c ∷ cs) t = written cs (write_cells (char_to_uint32 ssfn_putc c) t)

  pub written-Continues : (cs : List ℕ) (t : Terminal) → InRange t → Continues t (written cs t)
  written-Continues [] t r = record { in_range = r; same_cells = refl; outside = λ x h. refl }
  written-Continues (c ∷ cs) t r =
      let first = write_cells-Continues (char_to_uint32 ssfn_putc c) t r in
      let rest = written-Continues cs (write_cells (char_to_uint32 ssfn_putc c) t) first.in_range in
      record {
        in_range = rest.in_range;
        same_cells = rest.same_cells ∙ first.same_cells;
        outside = λ x h. rest.outside x (omega (arith, h, first.same_cells)) ∙ first.outside x h;
      }

  -- the screen after a character
  after_character : ℕ → Terminal → Screen → Screen
  after_character c t s =
      let u = write_cells (char_to_uint32 ssfn_putc c) t in
      if char_to_uint32 ssfn_putc c == 10 then terminal_render ssfn_putc u s else s

  put_all_step :
      (c : ℕ) (cs : List ℕ) (t : Terminal) (s : Screen)
      → put_all ssfn_putc (c ∷ cs) (t, s)
        ≡ put_all ssfn_putc cs (write_cells (char_to_uint32 ssfn_putc c) t, after_character c t s)
  unfolding put_all putchar_ after_character
  put_all_step c cs t s =
      ap (put_all ssfn_putc cs) (terminal_write_char_lem ssfn_putc (char_to_uint32 ssfn_putc c) t s)

  pub put_all-append :
      (cs ds : List ℕ) (state : Terminal × Screen)
      → put_all ssfn_putc (cs ++ ds) state ≡ put_all ssfn_putc ds (put_all ssfn_putc cs state)
  unfolding put_all
  put_all-append [] ds state = refl
  put_all-append (c ∷ cs) ds state = put_all-append cs ds (putchar_ ssfn_putc c state)

  -- After a line break the screen shows the terminal.
  pub put_all_line :
      (cs : List ℕ) (t : Terminal) (s : Screen)
      → (before : Screen) × (put_all ssfn_putc (cs ++ b'\n' ∷ []) (t, s) ≡ (
        written (cs ++ b'\n' ∷ []) t,
        terminal_render ssfn_putc (written (cs ++ b'\n' ∷ []) t) before,
      ))
  unfolding put_all putchar_
  put_all_line [] t s = (s, terminal_write_char_lem ssfn_putc b'\n' t s)
  put_all_line (c ∷ cs) t s =
      let u = write_cells (char_to_uint32 ssfn_putc c) t in
      let (before, e) = put_all_line cs u (after_character c t s) in
      (before, put_all_step c (cs ++ b'\n' ∷ []) t s ∙ e)

  module _ (printf_ : String → List Arg → List ℕ) where
    abbrev pub lines_text : List (String × ℕ) → List ℕ
    lines_text [] = []
    lines_text ((format, value) ∷ rest) = printf_ format (number value ∷ []) ++ lines_text rest

    print_lines-put_all :
        (ls : List (String × ℕ)) (state : Terminal × Screen)
        → print_lines ssfn_putc printf_ ls state ≡ put_all ssfn_putc (lines_text ls) state
    unfolding print_lines print put_all
    print_lines-put_all [] state = refl
    print_lines-put_all ((format, value) ∷ rest) state =
        let first = printf_ format (number value ∷ []) in
        print_lines-put_all rest (put_all ssfn_putc first state)
        ∙ sym (put_all-append first (lines_text rest) state)

    -- what a panic prints before its last line
    abbrev pub detail_text : Option FaultDetail → List ℕ
    detail_text none = []
    detail_text (some d) =
        printf_ "\nAdditional Details:\n" [] ++ printf_ fault_format (fault_arguments d)

    abbrev pub head_text : String → InterruptFrame → List ℕ
    head_text message frame =
        printf_ "Kernel panic!\n" []
        ++ (printf_ "%s\n\n" (text message ∷ []) ++ lines_text (frame_lines frame))

    abbrev pub panic_text : Panic → InterruptFrame → List ℕ
    panic_text p frame =
        (head_text p.message frame ++ detail_text p.detail) ++ codes "\nHalting and catching fire\n"

    pub head-put_all :
        (message : String) (frame : InterruptFrame) (t : Terminal) (s : Screen)
        → panic_head ssfn_putc printf_ message frame (t, s)
          ≡ put_all ssfn_putc (head_text message frame) (terminal_clear t, s)
    unfolding panic_head print print_interrupt_frame
    head-put_all message frame t s =
        let first = printf_ "Kernel panic!\n" [] in
        let second = printf_ "%s\n\n" (text message ∷ []) in
        let lines = lines_text (frame_lines frame) in
        let s1 = put_all ssfn_putc first (terminal_clear t, s) in
        print_lines-put_all (frame_lines frame) (put_all ssfn_putc second s1)
        ∙ sym (put_all-append second lines s1)
        ∙ sym (put_all-append first (second ++ lines) (terminal_clear t, s))
