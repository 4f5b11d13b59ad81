-- ===== src/Keyboard/Layouts.antt =====
-- Layouts and modifier keys of src/kernel/keyboard.c: which character a letter key gives, and the
-- flags after any sequence of scancodes.
use alma_os.Base.{
  ℕ, List, [], ◌∷◌, Bool, true, false, ◌&&◌, ◌-◌, ◌<◌, ◌==◌, leb, if◌then◌else◌, get_or, ◌≡◌, refl,
  sym, arith, checked_below, checked_below-at, ==_iff,
}
use mathlib.Core.Bool.{xor}
use alma_os.Keyboard.{
  Keyboard, Layout, layout_us, layout_abnt2, contents, translate, handler, push, push_nonzero,
  press, release, set_layout, get_layout,
}
use alma_os.Keyboard.Spec.{layers, Layers, Modifiers, character, swap_case}
use alma_os.Keyboard.Decode.{modifiers, layers_of, translate-character}

-- `keyboard_get_layout` gives back what `keyboard_set_layout` was told.
pub get_layout-set_layout : (s : Keyboard) (l : Layout) → get_layout (set_layout s l) ≡ l
unfolding get_layout set_layout
get_layout-set_layout s layout_us = refl
get_layout-set_layout s layout_abnt2 = refl

abbrev pub plain_cell : Layout → ℕ → ℕ
plain_cell l key = get_or (contents (layers l).plain) key 0

abbrev is_lower : ℕ → Bool
is_lower c = leb b'a' c && leb c b'z'

-- What a letter key gives, in terms of Shift and Caps Lock.
abbrev pub letter : Bool → Bool → ℕ → ℕ
letter shift caps c = if xor shift caps then c - 32 else c

abbrev keys_held : Bool → Bool → Modifiers
keys_held shift caps = record { shift = shift; altgr = false; caps = caps; extended = false }

check_letter : Layout → Bool → Bool → ℕ → Bool
check_letter l shift caps key =
    if is_lower (plain_cell l key)
    then character (layers l) (keys_held shift caps) key == letter shift caps (plain_cell l key)
    else true

letters-checked :
    (l : Layout) (shift caps : Bool) → checked_below 128 (check_letter l shift caps) ≡ true
unfolding checked_below check_letter character layers contents swap_case xor
letters-checked layout_us true true = refl
letters-checked layout_us true false = refl
letters-checked layout_us false true = refl
letters-checked layout_us false false = refl
letters-checked layout_abnt2 true true = refl
letters-checked layout_abnt2 true false = refl
letters-checked layout_abnt2 false true = refl
letters-checked layout_abnt2 false false = refl

checked-letter :
    (l : Layout) (shift caps : Bool) (key : ℕ)
    → check_letter l shift caps key ≡ true
    → is_lower (plain_cell l key) ≡ true
    → character (layers l) (keys_held shift caps) key ≡ letter shift caps (plain_cell l key)
unfolding check_letter
checked-letter l shift caps key h lower = (==_iff _ _).0 (rw lower at h)

character-keys_held :
    (l : Layers) (m : Modifiers) (key : ℕ)
    → m.altgr ≡ false
    → character l m key ≡ character l (keys_held m.shift m.caps) key
unfolding character
character-keys_held l m key h = rw h refl

layers_of-set_layout : (s : Keyboard) (l : Layout) → layers_of (set_layout s l) ≡ layers l
unfolding set_layout layers
layers_of-set_layout s layout_us = refl
layers_of-set_layout s layout_abnt2 = refl

modifiers-set_layout : (s : Keyboard) (l : Layout) → modifiers (set_layout s l) ≡ modifiers s
unfolding set_layout
modifiers-set_layout s layout_us = refl
modifiers-set_layout s layout_abnt2 = refl

-- On both layouts, with AltGr up, a key whose plain character is a lower case letter of ASCII gives
-- that letter in upper case when exactly one of Shift and Caps Lock is on, and in lower case
-- otherwise.
pub translate-letter :
    (s : Keyboard) (l : Layout) (key : ℕ)
    → key < 128
    → s.altgr ≡ false
    → is_lower (plain_cell l key) ≡ true
    → translate (set_layout s l) key ≡ letter s.shift s.caps (plain_cell l key)
translate-letter s l key h up lower =
    rw
      (
        translate-character (set_layout s l) key,
        layers_of-set_layout s l,
        modifiers-set_layout s l,
        character-keys_held (layers l) (modifiers s) key up,
      )
      (checked-letter l s.shift s.caps key
        (checked_below-at 128 _ key (letters-checked l s.shift s.caps) h) lower)

-- The driver after a sequence of scancodes.
abbrev pub after_codes : Keyboard → List ℕ → Keyboard
after_codes s [] = s
after_codes s (code ∷ codes) = after_codes (handler s code) codes

-- Whether a list holds an odd number of presses of Caps Lock.
abbrev pub odd_presses : List ℕ → Bool
odd_presses [] = false
odd_presses (code ∷ codes) = xor (code == 0x3A) (odd_presses codes)

caps-push_nonzero : (s : Keyboard) (c : ℕ) → (push_nonzero s c).caps ≡ s.caps
unfolding push_nonzero push
caps-push_nonzero s c = ground arith

caps-press : (s : Keyboard) (key : ℕ) → (press s key).caps ≡ xor s.caps (key == 0x3A)
unfolding press xor
caps-press s key =
    ground (
      arith,
      caps-push_nonzero (record s { ext = false }) (translate (record s { ext = false }) key),
    )

caps-handler : (s : Keyboard) (code : ℕ) → (handler s code).caps ≡ xor s.caps (code == 0x3A)
unfolding handler release xor
caps-handler s code = ground (arith, caps-press s code)

xor_assoc : (a b c : Bool) → xor (xor a b) c ≡ xor a (xor b c)
unfolding xor
xor_assoc true true true = refl
xor_assoc true true false = refl
xor_assoc true false true = refl
xor_assoc true false false = refl
xor_assoc false true true = refl
xor_assoc false true false = refl
xor_assoc false false true = refl
xor_assoc false false false = refl

xor-false : (a : Bool) → xor a false ≡ a
unfolding xor
xor-false true = refl
xor-false false = refl

-- After any sequence of scancodes Caps Lock is as before if the Caps Lock key was pressed an even
-- number of times, and the other way round if an odd number.
pub caps-after_codes :
    (codes : List ℕ) (s : Keyboard) → (after_codes s codes).caps ≡ xor s.caps (odd_presses codes)
caps-after_codes [] s = sym (xor-false s.caps)
caps-after_codes (code ∷ codes) s =
    rw (caps-after_codes codes (handler s code), caps-handler s code)
      (xor_assoc s.caps (code == 0x3A) (odd_presses codes))
