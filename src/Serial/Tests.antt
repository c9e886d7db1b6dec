-- ===== src/Serial/Tests.antt =====
-- The serial port with a transmitter that is empty at every other read.
use mirus.Base.{
  ℕ, ◌+◌, ◌%◌, ◌≡◌, refl, arith, true, some, [], ◌∷◌, ◌==◌, if◌then◌else◌, length, Bool-cases, inl,
  inr,
}
use mirus.Base.Int.{negsuc}
use mirus.Libk.{Memory}
use mirus.Libk.Strings.{IsString}
use mirus.Libk.Itoa.Reading.{parse}
use mirus.Serial.{
  com1, Device, Serial, serial_initialize, serial_read, serial_write_string, serial_write_int,
}
use mirus.Serial.Ready.{idle}
use mirus.Serial.Wait.{Drains, sent, serial_write_string_lem, serial_write_int_lem}

-- an odd read of the line status gives 0x21, and everything else 0
abbrev uart : Device
uart clock port = if port == com1 + 5 then if clock % 2 == 1 then 0x21 else 0 else 0x41

uart-Drains : Drains 2 uart
uart-Drains t = elim (Bool-cases (t % 2 == 1)) [
  | inl odd ↦
      let now : ((t + 0) % 2 == 1) ≡ true = ground arith in (0, omega arith, rw now (λ e. cc e))
  | inr even ↦
      let next : ((t + 1) % 2 == 1) ≡ true = ground arith in (1, omega arith, rw next (λ e. cc e))
]

-- "ok" at 64
abbrev ok_text : Memory
ok_text a = if a == 64 then 111 else if a == 65 then 107 else 0

ok_text-IsString : IsString ok_text 64 2
ok_text-IsString = record { body = λ i h. ground arith; ends = refl }

received : serial_read uart 3 idle ≡ some (0x41, record { clock = 3; output = [] })
unfolding serial_read
received = refl

seven_writes : length (serial_initialize idle).output ≡ 7
unfolding serial_initialize
seven_writes = refl

serial_write_string_lem_example :
    (s' : Serial) × (serial_write_string uart 5 64 ok_text idle ≡ some s')
    × (s'.output ≡ (com1, 111) ∷ (com1, 107) ∷ [])
serial_write_string_lem_example =
    serial_write_string_lem uart 2 uart-Drains 5 2 64 ok_text idle ok_text-IsString (omega arith)
      (omega arith) (omega arith)

negative_int_written :
    (s' : Serial) × (k : ℕ) × (text : Memory) × (serial_write_int uart 50
        (negsuc 41)
        128
        ok_text
        idle
      ≡ some s')
    × (s'.output ≡ sent k 128 text)
    × (parse 10 k 128 text ≡ negsuc 41)
negative_int_written =
    serial_write_int_lem uart 2 uart-Drains 50 (negsuc 41) 128 ok_text idle (refl, omega arith)
      (omega arith) (omega arith) (omega arith)
