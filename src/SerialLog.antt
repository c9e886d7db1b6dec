-- ===== src/SerialLog.antt =====
-- Calls of `log_message` on the loggers of kernel/debug/debug_logger.c and hal/hal_logger.c, as
-- the other parts make them. The printf library and the JSON emitter are in `Output`, with the
-- serial port and the addresses of the local buffers.
pub mod Quiet
pub mod Sends
pub mod Ready
use mirus.Base.{ℕ, Bool, true, false, Option, none, some, List, [], ◌∷◌, if◌then◌else◌}
use mirus.Base.Format.{codes, Arg}
use mirus.Libk.{Memory}
use mirus.Serial.{Device, Serial}
use mirus.Logger.{LogLevel, log_info, Jems, log_message}
use mirus.DebugLogger.{debug_logger_initialize, hal_logger_initialize}
use mirus.Pmm.MemoryMap.{Arrays}
use Prim.Native.String.{String}

pub record Output : Type 1 where
  pub jems : Jems
  pub arrays : Arrays jems
  pub snprintf_ : String → List Arg → ℕ → List ℕ
  pub vsnprintf_ : String → List Arg → ℕ → List ℕ
  pub device : Device
  pub fuel : ℕ
  pub out : ℕ
  pub buf : ℕ
  pub memory : Memory

-- The arguments of one `log_message`; `hal` is the choice of the logger.
pub record Line : Type 0 where
  pub hal : Bool
  pub level : LogLevel
  pub component : String
  pub format : String
  pub args : List Arg

-- A part of the start that uses the serial port; `none` is a wait that does not end.
abbrev pub Boot : Type 0 → Type 0
Boot A = Serial → Option (A × Serial)

module _ {A : Type 0} where
  abbrev pub pure : A → Boot A
  pure a s = some (a, s)

infixl 5 ◌>>=◌ ◌>>◌
abbrev pub ◌>>=◌ : {A B : Type 0} → Boot A → (A → Boot B) → Boot B
◌>>=◌ m f s = elim (m s) [ none ↦ none | some (a, s') ↦ f a s' ]

abbrev pub ◌>>◌ : {A B : Type 0} → Boot A → Boot B → Boot B
m >> k = m >>= λ _. k

abbrev pub returning : Option Serial → Option (Unit {0} × Serial)
returning none = none
returning (some s) = some (tt, s)

-- one `log_message`
unfoldable pub log : Output → Line → Boot (Unit {0})
log o l s =
    let logger =
      if l.hal
      then hal_logger_initialize o.device o.fuel
      else debug_logger_initialize o.device o.fuel in
    returning (
      log_message o.jems logger l.level (codes l.component) (o.vsnprintf_ l.format l.args) o.out
        o.memory s)

pub log_all : Output → List Line → Boot (Unit {0})
log_all o [] = pure tt
log_all o (l ∷ ls) = do log o l; log_all o ls

abbrev pub info : (component format : String) → List Arg → Line
info component format args = record {
  hal = false;
  level = log_info;
  component = component;
  format = format;
  args = args;
}

abbrev pub hal_info : (component format : String) → List Arg → Line
hal_info component format args = record (info component format args) { hal = true }
