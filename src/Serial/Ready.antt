-- ===== src/Serial/Ready.antt =====
-- A serial port that is always ready to send, for the tests of what writes to it.
use mirus.Base.{arith, []}
use mirus.Serial.{Device, Serial}
use mirus.Serial.Wait.{Drains}

abbrev pub ready_port : Device
ready_port clock port = 0x20

pub ready_port-Drains : Drains 1 ready_port
ready_port-Drains t = (0, omega arith, λ e. cc e)

abbrev pub idle : Serial
idle = record { clock = 0; output = [] }
