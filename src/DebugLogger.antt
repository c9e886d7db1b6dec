-- ===== src/DebugLogger.antt =====
-- kernel/debug/debug_logger.c and hal/hal_logger.c: the two loggers, each with the serial port as
-- its one writer.
pub mod Lines
pub mod Stream
mod Tests
use mirus.Base.{ℕ}
use mirus.Serial.{Device, Serial, serial_write_string}
use mirus.Logger.{Writer, Logger, log_init}

module _ (device : Device) (fuel : ℕ) where
  abbrev pub kernel_writers : (i : ℕ) → Writer Serial
  kernel_writers i = serial_write_string device fuel

  abbrev pub hal_writers : (i : ℕ) → Writer Serial
  hal_writers i = serial_write_string device fuel

  -- `kernel_debug_logger` after the call
  unfoldable pub debug_logger_initialize : Logger Serial
  debug_logger_initialize = log_init kernel_writers 1

  -- `hal_logger` after the call
  pub hal_logger_initialize : Logger Serial
  hal_logger_initialize = log_init hal_writers 1
