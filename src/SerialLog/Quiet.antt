-- ===== src/SerialLog/Quiet.antt =====
-- The log calls of the kernel return, and what they send.
use mirus.Base.{
  ℕ, ◌<◌, ◌≤◌, ◌≡◌, refl, sym, ap, ◌∙◌, arith, Bool, true, Option, some, List, [], ◌∷◌, ◌++◌, leb,
  ◌&&◌, ◌==◌, ◌+◌, ltb, length, if◌then◌else◌, Bool-cases, inl, inr,
}
use mathlib.Core.List.{append-nil, append_assoc}
use mirus.Base.Format.{codes, Arg, number, integer, text, chars}
use mirus.Serial.{Serial}
use mirus.Serial.Wait.{Drains}
use mirus.Logger.{max_log_message_size, log_debug, remove_newline, log_message}
use mirus.Logger.Text.{NoNul, bytes, bytes-append, remove_newline_self}
use mirus.Logger.Message.{PrintsText, message_line, start_text, end_text}
use mirus.DebugLogger.{debug_logger_initialize, hal_logger_initialize}
use mirus.DebugLogger.Lines.{log_message-debug_logger_initialize}
use mirus.Pmm.MemoryMap.Clean.{PrintsArrays}
use mirus.SerialLog.{Output, Line, Boot, pure, ◌>>=◌, ◌>>◌, returning, log, log_all}
use Prim.Native.String.{String}

-- the text of one line on the serial port
abbrev pub line_text : Output → Line → List ℕ
line_text o l =
    message_line o.jems l.level (codes l.component)
      (remove_newline (o.vsnprintf_ l.format l.args max_log_message_size))

abbrev no_nul : List ℕ → Bool
no_nul [] = true
no_nul (c ∷ cs) = ltb 0 c && no_nul cs

no_nul-NoNul : (cs : List ℕ) → no_nul cs ≡ true → NoNul cs
no_nul-NoNul [] h = tt
no_nul-NoNul (c ∷ cs) h = (ground (arith, h), no_nul-NoNul cs (ground (arith, h)))

-- the longest text of an argument
abbrev arg_size : Arg → ℕ
arg_size (number n) = 20
arg_size (integer i) = 20
arg_size (text s) = length (codes s)
arg_size (chars cs) = length cs

abbrev pub args_size : List Arg → ℕ
args_size [] = 0
args_size (a ∷ rest) = arg_size a + args_size rest

-- No number in a format has more than two digits, zeros before it not counted; `run` digits of one
-- have come.
abbrev narrow : (run : ℕ) → List ℕ → Bool
narrow run [] = true
narrow run (c ∷ cs) =
    let next = if ltb (if run == 0 then 48 else 47) c && ltb c 58 then run + 1 else 0 in
    ltb next 3 && narrow next cs

-- a line as the kernel has them: a short name of the component, a short format without wide fields,
-- and short arguments
abbrev pub named : Line → Bool
named l =
    leb (length (codes l.component)) 16
    && (no_nul (codes l.component)
        && (leb (length (codes l.format)) 100
            && (narrow 0 (codes l.format) && leb (args_size l.args) 300)))

abbrev pub all_named : List Line → Bool
all_named [] = true
all_named (l ∷ ls) = named l && all_named ls

-- The transmitter drains within `bound` reads, the emitter and the printf library print no `\0`,
-- and the fuel is beyond every line that is as the kernel has them. Each such line, and the start
-- and the end of the memory map's object, fits into the buffer for JSON texts, and a text in a
-- buffer of 64 is shorter than that.
pub record Works (o : Output) : Type 0 where
  pub bound : ℕ
  pub drains : Drains bound o.device
  pub ready : bound ≤ o.fuel
  pub two : 1 < o.fuel
  pub prints : PrintsText o.jems
  pub prints_arrays : PrintsArrays o.jems o.arrays
  pub snprintf_clean : (f : String) (args : List Arg) (size : ℕ) → NoNul (o.snprintf_ f args size)
  pub vsnprintf_clean : (f : String) (args : List Arg) (size : ℕ) → NoNul (o.vsnprintf_ f args size)
  pub short : (l : Line) → named l ≡ true → length (line_text o l) < o.fuel
  pub map_short :
      length (start_text o.jems log_debug (codes "memory_manager") (codes "Memory Map")) < o.fuel
  pub end_short : length (end_text o.jems) < o.fuel
  pub snprintf_short : (f : String) (args : List Arg) → length (o.snprintf_ f args 64) < 64
  pub fits : (l : Line) → named l ≡ true → length (line_text o l) < max_log_message_size
  pub map_fits :
      length (start_text o.jems log_debug (codes "memory_manager") (codes "Memory Map"))
      < max_log_message_size
  pub end_fits : length (end_text o.jems) < max_log_message_size

-- It returns, and sends some text.
abbrev pub Quiet : Boot (Unit {0}) → Type 0
Quiet m =
    (s : Serial)
    → (s' : Serial) × (text : List ℕ) × (m s ≡ some (tt, s')) × (s'.output ≡ s.output ++ bytes text)

-- It returns this value, and what it sends ends with this text.
abbrev pub Ends : {A : Type 0} → List ℕ → Boot A → A → Type 0
Ends last m a =
    (s : Serial)
    → (s' : Serial) × (before : List ℕ) × (m s ≡ some (a, s'))
      × (s'.output ≡ s.output ++ bytes (before ++ last))

joined : (w : List (ℕ × ℕ)) (p q : List ℕ) → (w ++ bytes p) ++ bytes q ≡ w ++ bytes (p ++ q)
joined w p q = append_assoc w (bytes p) (bytes q) ∙ ap (λ o. w ++ o) (sym (bytes-append p q))

pub Ends-after :
    {A : Type 0} (last : List ℕ) (m : Boot (Unit {0})) (k : Boot A) (a : A)
    → Quiet m
    → Ends last k a
    → Ends last (m >> k) a
Ends-after last m k a quiet ends s =
    let (s1, p, e1, out1) = quiet s in
    let (s2, q, e2, out2) = ends s1 in
    (
      s2,
      p ++ q,
      rw (◌>>◌, ◌>>=◌, e1) e2,
      out2
          ∙ ap (λ o. o ++ bytes (q ++ last)) out1
          ∙ joined s.output p (q ++ last)
          ∙ ap (λ l. s.output ++ bytes l) (sym (append_assoc p q last)),
    )

pub Ends-pure : {A : Type 0} (a : A) → Ends [] (pure a) a
Ends-pure a s = (s, [], refl, sym (append-nil s.output))

pub Quiet-after : (m k : Boot (Unit {0})) → Quiet m → Quiet k → Quiet (m >> k)
Quiet-after m k quiet then_quiet s =
    let (s1, p, e1, out1) = quiet s in
    let (s2, q, e2, out2) = then_quiet s1 in
    (s2, p ++ q, rw (◌>>◌, ◌>>=◌, e1) e2, out2 ∙ ap (λ o. o ++ bytes q) out1 ∙ joined s.output p q)

module _ (o : Output) (works : Works o) where
  -- One log call returns, and sends its line.
  pub log_lem :
      (l : Line) (s : Serial)
      → named l ≡ true
      → (s' : Serial) × (log o l s ≡ some (tt, s'))
        × (s'.output ≡ s.output ++ bytes (line_text o l))
  unfolding log
  log_lem l s short =
      let formatted = o.vsnprintf_ l.format l.args in
      let text = formatted max_log_message_size in
      let (s', kernel, hal, out) =
        log_message-debug_logger_initialize o.device works.bound works.drains o.fuel works.ready
          o.jems works.prints l.level (codes l.component) (remove_newline text) formatted o.out
          o.memory s (no_nul-NoNul (codes l.component) (ground (arith, short)))
          (works.vsnprintf_clean l.format l.args max_log_message_size) (remove_newline_self text)
          (works.short l short) (works.fits l short) in
      let by : Bool → Option Serial = λ b.
        log_message o.jems
          (if b
            then hal_logger_initialize o.device o.fuel
            else debug_logger_initialize o.device o.fuel)
          l.level (codes l.component) formatted o.out o.memory s in
      elim (Bool-cases l.hal) [
        | inl on_hal ↦ (s', ap (λ b. returning (by b)) on_hal ∙ ap returning hal, out)
        | inr on_kernel ↦ (s', ap (λ b. returning (by b)) on_kernel ∙ ap returning kernel, out)
      ]

  pub log-Quiet : (l : Line) → named l ≡ true → Quiet (log o l)
  log-Quiet l short s = let (s', e, out) = log_lem l s short in (s', line_text o l, e, out)

  pub log_all-Quiet : (ls : List Line) → all_named ls ≡ true → Quiet (log_all o ls)
  unfolding log_all
  log_all-Quiet [] short s = (s, [], refl, sym (append-nil s.output))
  log_all-Quiet (l ∷ ls) short s =
      Quiet-after (log o l) (log_all o ls) (log-Quiet l (ground (arith, short)))
        (log_all-Quiet ls (ground (arith, short))) s

  -- A last line, and a value.
  pub log-Ends :
      {A : Type 0} (l : Line) (a : A) → named l ≡ true → Ends (line_text o l) (log o l >> pure a) a
  log-Ends l a short s =
      let (s', e, out) = log_lem l s short in (s', [], rw (◌>>◌, ◌>>=◌, e) refl, out)
