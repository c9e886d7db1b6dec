-- ===== src/Panic/Plain.antt =====
-- A terminal of two cells, a frame and a printf that prints each format as it is, for the tests of
-- what panics.
use mirus.Base.{ℕ, List}
use mirus.Base.Format.{codes, Arg}
use mirus.Terminal.{Terminal, Screen, blank}
use mirus.Panic.{InterruptFrame}
use Prim.Native.String.{String}

abbrev pub print_format : String → List Arg → List ℕ
print_format format args = codes format

abbrev pub keep_format : String → List Arg → ℕ → List ℕ
keep_format format args size = codes format

abbrev pub no_pen : ℕ → Screen → Screen
no_pen c s = s

abbrev pub small_terminal : Terminal
small_terminal = record {
  buffer = λ i. blank;
  buffer_size = 2;
  height = 1;
  width = 2;
  cursor_x = 1;
  cursor_y = 0;
  current_fg_color = 0xFFFFFF;
}

abbrev pub small_screen : Screen
small_screen = record { ptr = 0; w = 16; h = 16; p = 64; x = 0; y = 0; fg = 0; pixels = λ i. 0 }

abbrev pub zero_frame : InterruptFrame
zero_frame = record {
  r15 = 0;
  r14 = 0;
  r13 = 0;
  r12 = 0;
  r11 = 0;
  r10 = 0;
  r9 = 0;
  r8 = 0;
  rbp = 0;
  rdi = 0;
  rsi = 0;
  rdx = 0;
  rcx = 0;
  rbx = 0;
  rax = 0;
  interrupt_number = 0;
  error_code = 0;
  rip = 0x8000;
  cs = 8;
  rflags = 2;
  rsp = 0x9000;
  ss = 16;
}
