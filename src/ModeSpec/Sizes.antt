-- ===== src/ModeSpec/Sizes.antt =====
-- The sizes that `parse_mode_spec` of src/kernel/cmd_video.c reads.
use alma_os.Base.{
  ℕ, List, [], ◌∷◌, ◌++◌, Bool, true, false, some, ◌+◌, ◌-◌, ◌*◌, ◌<◌, ◌==◌, get_or, All, u32,
  length, ◌≡◌, refl, sym, ap, ◌∙◌, arith,
}
use mathlib.Core.List.{append-nil}
use alma_os.Base.Int.{sub_ℕ}
use alma_os.Base.Text.{codes}
use alma_os.CString.Texts.{differ}
use alma_os.Getopt.{is_zero}
use alma_os.ModeSpec.{
  is_digit, parse_uint_from, parse_uint, parse_bpp, parse_height, parse_width, parse_mode_spec,
}

-- A number in decimal digits.
abbrev pub IsNumber : List ℕ → Type 0
IsNumber ds = All (λ d. is_digit d ≡ true) ds × (0 < length ds)

unfoldable pub decimal_from : ℕ → List ℕ → ℕ
decimal_from n [] = n
decimal_from n (d ∷ ds) = decimal_from (n * 10 + (d - b'0')) ds

-- The 32-bit number that digits spell.
abbrev pub decimal : List ℕ → ℕ
decimal ds = u32 (decimal_from 0 ds)

-- What no number goes on with.
abbrev Stops : List ℕ → Type 0
Stops rest = is_digit (get_or rest 0 0) ≡ false

parse_uint_from-stop :
    (value : ℕ) (any : Bool) (rest : List ℕ)
    → Stops rest
    → parse_uint_from value any rest ≡ (any, value, rest)
unfolding parse_uint_from
parse_uint_from-stop value any [] h = refl
parse_uint_from-stop value any (c ∷ rest) h = rw h refl

parse_uint_from-digits :
    (ds : List ℕ) (n : ℕ) (any : Bool) (rest : List ℕ)
    → All (λ d. is_digit d ≡ true) ds
    → 0 < length ds
    → Stops rest
    → parse_uint_from (u32 n) any (ds ++ rest) ≡ (true, u32 (decimal_from n ds), rest)
unfolding parse_uint_from decimal_from
parse_uint_from-digits [] n any rest a pos h = absurd (omega (arith, pos))
parse_uint_from-digits (d ∷ []) n any rest a pos h =
    rw (a.0, parse_uint_from-stop (u32 (u32 (u32 n * 10) + (d - b'0'))) true rest h)
      (ap (λ v. (true, v, rest)) (omega arith))
parse_uint_from-digits (d ∷ e ∷ ds) n any rest a pos h =
    let wraps : u32 (u32 (u32 n * 10) + (d - b'0')) ≡ u32 (n * 10 + (d - b'0')) = omega arith in
    rw (a.0, wraps)
      (parse_uint_from-digits (e ∷ ds) (n * 10 + (d - b'0')) true rest a.1 (omega arith) h)

parse_uint-digits :
    (ds rest : List ℕ)
    → IsNumber ds
    → Stops rest
    → parse_uint (ds ++ rest) ≡ (true, decimal ds, rest)
unfolding parse_uint
parse_uint-digits ds rest n h = parse_uint_from-digits ds 0 false rest n.0 n.1 h

differ-vga13 :
    (ds rest : List ℕ) → IsNumber ds → is_zero (differ (ds ++ rest) (codes "vga13")) ≡ false
unfolding differ
differ-vga13 [] rest n = absurd (omega (arith, n.1))
differ-vga13 (d ∷ ds) rest n =
    rw (before_v d (digit_below d n.0.0)) (not_zero d (digit_below d n.0.0))
  where
    digit_below : (d : ℕ) → is_digit d ≡ true → d < 58
    digit_below d h = ground arith

    before_v : (d : ℕ) → d < 58 → (d == b'v') ≡ false
    before_v d h = ground arith

    not_zero : (d : ℕ) → d < 58 → is_zero (sub_ℕ d b'v') ≡ false
    not_zero d h = ground arith

parse_uint-all : (ds : List ℕ) → IsNumber ds → parse_uint ds ≡ (true, decimal ds, [])
parse_uint-all ds n = ap parse_uint (sym (append-nil ds)) ∙ parse_uint-digits ds [] n refl

spec-width :
    (ws rest : List ℕ)
    → IsNumber ws
    → parse_mode_spec (ws ++ (b'x' ∷ rest)) ≡ parse_height (decimal ws) rest
unfolding parse_mode_spec parse_width
spec-width ws rest n =
    rw (differ-vga13 ws (b'x' ∷ rest) n, parse_uint-digits ws (b'x' ∷ rest) n refl) refl

height-end :
    (width : ℕ) (hs : List ℕ)
    → IsNumber hs
    → parse_height width hs ≡ some (record { width = width; height = decimal hs; bpp = 32 })
unfolding parse_height
height-end width hs n = rw (parse_uint-all hs n) refl

height-bpp :
    (width : ℕ) (hs bs : List ℕ)
    → IsNumber hs
    → IsNumber bs
    → parse_height width (hs ++ (b'x' ∷ bs))
      ≡ some (record { width = width; height = decimal hs; bpp = decimal bs })
unfolding parse_height parse_bpp
height-bpp width hs bs n m = rw (parse_uint-digits hs (b'x' ∷ bs) n refl, parse_uint-all bs m) refl

-- A width and a height with `x` between are read as they are spelled, modulo 2^32, with 32 bits per
-- pixel; a third number behind another `x` replaces those 32.
pub parse_mode_spec-sizes :
    (ws hs bs : List ℕ)
    → IsNumber ws
    → IsNumber hs
    → IsNumber bs
    → (parse_mode_spec (ws ++ (b'x' ∷ hs))
        ≡ some (record { width = decimal ws; height = decimal hs; bpp = 32 }))
      × (parse_mode_spec (ws ++ (b'x' ∷ (hs ++ (b'x' ∷ bs))))
          ≡ some (record { width = decimal ws; height = decimal hs; bpp = decimal bs }))
parse_mode_spec-sizes ws hs bs w h b = (
  spec-width ws hs w ∙ height-end (decimal ws) hs h,
  spec-width ws (hs ++ (b'x' ∷ bs)) w ∙ height-bpp (decimal ws) hs bs h b,
)
