-- ===== src/Serial.antt =====
-- hal/arch-x86_64/io/serial.c and hal/include/hal/serial.h: the serial port. The device is an
-- argument: the byte that a read of a port gives, by the number of reads before it. The state
-- keeps that number and the writes so far, the oldest first. The loops that wait for the device
-- take fuel, and `none` is its end.
pub mod Wait
pub mod Ready
mod Tests
use mirus.Base.{
  ℕ, zero, suc, ◌+◌, ◌%◌, ◌^◌, Option, none, some, List, [], ◌∷◌, ◌++◌, ltb, ◌==◌, if◌then◌else◌,
}
use mirus.Base.Int.{ℤ}
use mirus.Libk.{Memory, strlen}
use mirus.Libk.Itoa.{itoa}
use Prim.Native.Nat.{bit_and}

abbrev pub com1 : ℕ
com1 = 0x3F8

-- `device clock port` is the byte that the read number `clock` gives if it is of this port.
abbrev pub Device : Type 0
Device = ℕ → ℕ → ℕ

pub record Serial : Type 0 where
  pub clock : ℕ
  pub output : List (ℕ × ℕ)

module _ (device : Device) where
  pub read_byte : (port : ℕ) → Serial → ℕ × Serial
  read_byte port s = (device s.clock port % 256, record s { clock = s.clock + 1 })

  pub serial_received : Serial → ℕ × Serial
  unfolding read_byte
  serial_received s = let r = read_byte (com1 + 5) s in (bit_and (r.0) 1, r.1)

  pub serial_is_transmit_empty : Serial → ℕ × Serial
  unfolding read_byte
  serial_is_transmit_empty s = let r = read_byte (com1 + 5) s in (bit_and (r.0) 0x20, r.1)

  -- `while (test() == 0);`
  pub wait : ℕ → (Serial → ℕ × Serial) → Serial → Option Serial
  wait zero test s = none
  wait (suc fuel) test s =
      let rest = wait fuel test (test s).1 in if (test s).0 == 0 then rest else some (test s).1

abbrev pub write_byte : (port value : ℕ) → Serial → Serial
write_byte port value s = record s { output = s.output ++ (port, value % 256) ∷ [] }

pub serial_initialize : Serial → Serial
serial_initialize s =
    let s1 = write_byte (com1 + 1) 0x00 s in
    let s2 = write_byte (com1 + 3) 0x80 s1 in
    let s3 = write_byte (com1 + 0) 0x03 s2 in
    let s4 = write_byte (com1 + 1) 0x00 s3 in
    let s5 = write_byte (com1 + 3) 0x03 s4 in
    let s6 = write_byte (com1 + 2) 0xC7 s5 in write_byte (com1 + 4) 0x0B s6

module _ (device : Device) where
  pub serial_read : (fuel : ℕ) → Serial → Option (ℕ × Serial)
  unfolding wait serial_received read_byte
  serial_read fuel s = elim (wait device fuel (serial_received device) s) [
    | none ↦ none
    | some s' ↦ some (read_byte device com1 s')
  ]

  pub serial_write_char : (fuel c : ℕ) → Serial → Option Serial
  unfolding wait serial_is_transmit_empty
  serial_write_char fuel c s = elim (wait device fuel (serial_is_transmit_empty device) s) [
    | none ↦ none
    | some s' ↦ some (write_byte com1 c s')
  ]

  -- The loop of `serial_write_string`, which asks for the length in each round; `fuel` bounds each
  -- wait and each search of the end. The counter is an `unsigned int`, which wraps.
  pub write_from : (rounds fuel i str : ℕ) → Memory → Serial → Option Serial
  unfolding serial_write_char
  write_from zero fuel i str m s = none
  write_from (suc rounds) fuel i str m s =
      let rest : Option Serial = elim (serial_write_char fuel (m (str + i)) s) [
        | none ↦ none
        | some s' ↦ write_from rounds fuel ((i + 1) % 2 ^ 32) str m s'
      ] in
      elim (strlen fuel str m) [ none ↦ none | some n ↦ if ltb i n then rest else some s ]

  pub serial_write_string : (fuel str : ℕ) → Memory → Serial → Option Serial
  unfolding write_from
  serial_write_string fuel str m s = write_from fuel fuel 0 str m s

  -- `str` is the address of the local array of 32 characters.
  pub serial_write_int : (fuel : ℕ) (i : ℤ) (str : ℕ) → Memory → Serial → Option Serial
  unfolding serial_write_string
  serial_write_int fuel i str m s = elim (itoa fuel i str 10 m) [
    | none ↦ none
    | some m' ↦ serial_write_string fuel str m' s
  ]
