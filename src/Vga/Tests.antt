-- ===== src/Vga/Tests.antt =====
-- Tests of the text console, and its theorems at concrete inputs.
use alma_os.Base.{[], ◌++◌, ◌+◌, ◌*◌, ◌/◌, ◌%◌, ◌≡◌, refl, arith}
use alma_os.Base.Text.{codes}
use alma_os.Vga.{Screen, entry, puts}
use alma_os.Vga.Terminal.{Terminal, type_text}
use alma_os.Vga.Entries.{entry-ascii}
use alma_os.Vga.Grid.{Shows, SameBeyond}
use alma_os.Vga.Typing.{puts-type_text}

-- Every cell is a digit, the position the last one but one.
abbrev corner : Screen
corner = record {
  cells = λ j. 0x0730 + j % 10;
  col = 78;
  row = 24;
  attr = 0x07;
  cursor = 1998;
  mirrored = [];
}

abbrev corner_seen : Terminal
corner_seen = record { grid = λ r c. 0x0730 + (r * 80 + c) % 10; col = 78; row = 24; attr = 0x07 }

corner-Shows : Shows corner corner_seen
corner-Shows = record {
  same_col = refl;
  same_row = refl;
  same_attr = refl;
  col_in = omega arith;
  row_in = omega arith;
  same_cells = λ r c h k. refl;
}

puts-type_text_example :
    Shows (puts corner (codes "ab\r\nc\td")) (type_text (codes "ab\r\nc\td") corner_seen)
    × SameBeyond corner (puts corner (codes "ab\r\nc\td"))
    × (puts corner (codes "ab\r\nc\td")).mirrored ≡ corner.mirrored ++ codes "ab\r\nc\td"
puts-type_text_example = puts-type_text (codes "ab\r\nc\td") corner-Shows

entry-ascii_example : (entry b'A' 0x1F % 256 ≡ b'A') × (entry b'A' 0x1F / 256 ≡ 0x1F)
entry-ascii_example = entry-ascii b'A' 0x1F (omega arith) (omega arith)
