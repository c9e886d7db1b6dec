-- ===== src/Boot/Logged/Tests.antt =====
-- A start that misses the kernel file, on a port that is always ready.
use mirus.Base.{none, some}
use mirus.Serial.{Serial}
use mirus.Boot.{Requests}
use mirus.Boot.Tests.{answers}

abbrev no_file : Requests
no_file = record answers { kernel_file = some none }
