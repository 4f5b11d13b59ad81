-- ===== src/ModeSpec/Tests.antt =====
-- Tests of the mode specifications, and their theorem at a concrete input.
use alma_os.Base.{none, ◌≡◌, refl}
use alma_os.Base.Text.{codes}
use alma_os.CString.Texts.{differ}
use alma_os.ModeSpec.{
  parse_uint_from, parse_uint, parse_bpp, parse_height, parse_width, parse_mode_spec,
}

trailing_text : parse_mode_spec (codes "640x480x32b") ≡ none
unfolding parse_mode_spec parse_width parse_height parse_bpp parse_uint parse_uint_from differ
trailing_text = refl
