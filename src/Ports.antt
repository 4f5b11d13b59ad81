-- ===== src/Ports.antt =====
-- Port input and output, src/kernel/include/io.h: what the program has done at the ports, the latest
-- first. What a device answers is a parameter, which may depend on all of that.
use alma_os.Base.{ℕ, List, [], ◌∷◌, ◌+◌, ◌==◌, if◌then◌else◌, u8}

pub data Event : Type 0 where
  wrote : ℕ → ℕ → Event
  asked : ℕ → Event

abbrev pub Device : Type 0
Device = List Event → ℕ → ℕ

abbrev pub inb : Device → List Event → ℕ → ℕ
inb device h port = u8 (device h port)

-- The bytes written to a port, the latest first.
unfoldable pub written : ℕ → List Event → List ℕ
written port [] = []
written port (asked p ∷ h) = written port h
written port (wrote p v ∷ h) = if p == port then v ∷ written port h else written port h

-- The number of reads.
unfoldable pub reads : List Event → ℕ
reads [] = 0
reads (asked p ∷ h) = reads h + 1
reads (wrote p v ∷ h) = reads h
