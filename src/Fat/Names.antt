-- ===== src/Fat/Names.antt =====
-- The 8.3 names of `FAT_FindFile` in src/bootloader/stage2/fat.c.
use alma_os.Base.{
  ℕ, zero, suc, List, [], ◌∷◌, ◌++◌, Option, some, none, ◌-◌, ◌≤◌, ==_ne, length, take, drop, map,
  replicate, All, ◌≡◌, ◌≢◌, refl, ap, ◌∙◌, arith,
}
use alma_os.Base.Segments.{take-append, take_whole}
use alma_os.BootUtil.{toupper, strchr}
use alma_os.Fat.{byte_at}
use alma_os.Fat.Finding.{upper_chars, extension_at, fat_name}

-- The characters of a part of a name.
abbrev pub IsPart : ℕ → Type 0
IsPart c = (c ≢ 0) × (c ≢ b'.')

-- A part in upper case, filled up with spaces.
abbrev pub field : ℕ → List ℕ → List ℕ
field width part = map toupper part ++ replicate (width - length part) b' '

field-nothing : (n : ℕ) → replicate n b' ' ≡ field n []
field-nothing n = ap (λ (k : ℕ). replicate k b' ') {x = n} {y = n - 0} (omega arith)

field-more : (n c : ℕ) (part : List ℕ) → toupper c ∷ field n part ≡ field (suc n) (c ∷ part)
field-more n c part =
    ap (λ (k : ℕ). toupper c ∷ (map toupper part ++ replicate k b' ')) {x = n - length part}
      {y = suc n - suc (length part)} (omega arith)

upper_chars-field :
    (n : ℕ) (part more : List ℕ)
    → All IsPart part
    → length part ≤ n
    → upper_chars n (part ++ (0 ∷ more)) ≡ field n part
unfolding upper_chars
upper_chars-field zero [] more ok room = field-nothing 0
upper_chars-field zero (c ∷ part) more ok room = absurd (omega (arith, room))
upper_chars-field (suc n) [] more ok room = field-nothing (suc n)
upper_chars-field (suc n) (c ∷ part) more ok room = rw (==_ne c 0 ok.0.0) (
    ap (λ l. toupper c ∷ l) (upper_chars-field n part more ok.1 (omega (arith, room)))
    ∙ field-more n c part)

upper_chars-whole :
    (n : ℕ) (part : List ℕ) → All IsPart part → length part ≤ n → upper_chars n part ≡ field n part
unfolding upper_chars
upper_chars-whole zero [] ok room = field-nothing 0
upper_chars-whole zero (c ∷ part) ok room = absurd (omega (arith, room))
upper_chars-whole (suc n) [] ok room = field-nothing (suc n)
upper_chars-whole (suc n) (c ∷ part) ok room = rw (==_ne c 0 ok.0.0) (
    ap (λ l. toupper c ∷ l) (upper_chars-whole n part ok.1 (omega (arith, room)))
    ∙ field-more n c part)

strchr-part :
    (part more : List ℕ)
    → All IsPart part
    → strchr (part ++ (b'.' ∷ more)) b'.' ≡ some (length part)
unfolding strchr
strchr-part [] more ok = refl
strchr-part (c ∷ part) more ok =
    rw (==_ne c 0 ok.0.0, ==_ne c b'.' ok.0.1, strchr-part part more ok.1) refl

strchr-none : (part more : List ℕ) → All IsPart part → strchr (part ++ (0 ∷ more)) b'.' ≡ none
unfolding strchr
strchr-none [] more ok = refl
strchr-none (c ∷ part) more ok =
    rw (==_ne c 0 ok.0.0, ==_ne c b'.' ok.0.1, strchr-none part more ok.1) refl

byte_at-append : (a b : List ℕ) → byte_at (a ++ b) (length a) ≡ byte_at b 0
byte_at-append [] b = refl
byte_at-append (x ∷ a) b = byte_at-append a b

pub take_base : (base more : List ℕ) → take (length base) (base ++ more) ≡ base
take_base base more =
    take-append (length base) base more (omega arith) ∙ take_whole (length base) base (omega arith)

drop_base : (base more : List ℕ) (c : ℕ) → drop (suc (length base)) (base ++ (c ∷ more)) ≡ more
drop_base [] more c = refl
drop_base (b ∷ base) more c = drop_base base more c

extension_at-part :
    (part more : List ℕ) → All IsPart part → extension_at (part ++ (b'.' ∷ more)) ≡ length part
unfolding extension_at
extension_at-part part more ok =
    ap (λ (o : Option ℕ). elim o as (λ x. ℕ) [ none ↦ 11 | some k ↦ k ]) (strchr-part part more ok)

extension_at-none : (part more : List ℕ) → All IsPart part → extension_at (part ++ (0 ∷ more)) ≡ 11
unfolding extension_at
extension_at-none part more ok =
    ap (λ (o : Option ℕ). elim o as (λ x. ℕ) [ none ↦ 11 | some k ↦ k ]) (strchr-none part more ok)

-- A name of up to eight characters, a dot and an extension of up to three become the eleven bytes of
-- a directory entry, in upper case and each part filled up with spaces, whatever lies behind the
-- terminator of the string.
pub fat_name-parts :
    (base ext stale : List ℕ)
    → All IsPart base
    → All IsPart ext
    → length base ≤ 8
    → length ext ≤ 3
    → fat_name (base ++ (b'.' ∷ (ext ++ (0 ∷ stale)))) ≡ field 8 base ++ field 3 ext
unfolding fat_name
fat_name-parts base ext stale base_ok ext_ok base_fits ext_fits =
    let rest = ext ++ (0 ∷ stale) in
    rw
      (
        extension_at-part base rest base_ok,
        take_base base (b'.' ∷ rest),
        byte_at-append base (b'.' ∷ rest),
        drop_base base rest b'.',
        upper_chars-whole 8 base base_ok base_fits,
        upper_chars-field 3 ext stale ext_ok ext_fits,
      )
      refl
