-- ===== src/Stdio.antt =====
-- Console output and printf of stage 2, src/bootloader/stage2/stdio.c. `int` has 16 bits, `long` 32
-- and `long long` 64. The BIOS call that writes a character only appends to what has been shown.
pub mod Decoding
pub mod Utf8
pub mod Directives
pub mod Numbers
mod Tests
use alma_os.Base.{
  ℕ, zero, suc, List, [], ◌∷◌, ◌++◌, Bool, true, false, not, ◌&&◌, Option, none, some, ◌+◌, ◌-◌,
  ◌*◌, ◌/◌, ◌%◌, ◌^◌, ◌==◌, ltb, leb, if◌then◌else◌, ◌>>=◌, length, get_or, take, drop, u8, u16,
  u32, bit_or,
}
use alma_os.Base.Text.{codes}

-- `g_Utf32State`, `g_Utf32Char`, and the codes that the BIOS was given.
pub record Console : Type 0 where
  pub pending : ℕ
  pub partial : ℕ
  pub shown : List ℕ

unfoldable pub putc : ℕ → Console → Console
putc c con = record con { shown = con.shown ++ (u8 c ∷ []) }

-- The `switch`: the character of code page 437, `?` where there is none.
abbrev pub cp437_table : List (ℕ × ℕ)
cp437_table =
    (0xC4, 0x8E)
    ∷ (0xC5, 0x8F)
    ∷ (0xC7, 0x80)
    ∷ (0xC9, 0x90)
    ∷ (0xD1, 0xA5)
    ∷ (0xD6, 0x99)
    ∷ (0xDC, 0x9A)
    ∷ (0xE1, 0xA0)
    ∷ (0xE0, 0x85)
    ∷ (0xE2, 0x83)
    ∷ (0xE4, 0x84)
    ∷ (0xE3, 0x84)
    ∷ (0xE5, 0x86)
    ∷ (0xE7, 0x87)
    ∷ (0xE9, 0x82)
    ∷ (0xE8, 0x8A)
    ∷ (0xEA, 0x88)
    ∷ (0xEB, 0x89)
    ∷ (0xED, 0xA1)
    ∷ (0xEC, 0x8D)
    ∷ (0xEE, 0x8C)
    ∷ (0xEF, 0x8B)
    ∷ (0xF1, 0xA4)
    ∷ (0xF3, 0xA2)
    ∷ (0xF2, 0x95)
    ∷ (0xF4, 0x93)
    ∷ (0xF6, 0x94)
    ∷ (0xFA, 0xA3)
    ∷ (0xF9, 0x97)
    ∷ (0xFB, 0x96)
    ∷ (0xFC, 0x81)
    ∷ (0xF5, 0x94)
    ∷ (0xC3, 0x8E)
    ∷ (0xD5, 0x99)
    ∷ []

unfoldable pub cp437 : List (ℕ × ℕ) → ℕ → ℕ
cp437 [] c = b'?'
cp437 (row ∷ table) c = if c == row.0 then row.1 else cp437 table c

-- `c` is a `uint16_t`.
unfoldable pub putwc : ℕ → Console → Console
putwc c con = if ltb c 0x80 then putc c con else putc (cp437 cp437_table c) con

-- A lead byte, when none is pending.
unfoldable pub lead : ℕ → Console → Console
lead b con =
    if b / 2 ^ 5 * 2 ^ 5 == 0xC0
    then record con { partial = b % 2 ^ 5; pending = 1 }
    else if b / 2 ^ 4 * 2 ^ 4 == 0xE0
    then record con { partial = b % 2 ^ 4; pending = 2 }
    else if b / 2 ^ 3 * 2 ^ 3 == 0xF0
    then record con { partial = b % 2 ^ 3; pending = 3 }
    else con

-- A byte when others are pending.
unfoldable pub continuation : ℕ → Console → Console
continuation b con =
    let char = bit_or (u32 (con.partial * 2 ^ 6)) (b % 2 ^ 6) in
    let con' = record con { partial = char; pending = con.pending - 1 } in
    if con'.pending == 0 then putwc (u16 char) con' else con'

-- `c` is the byte.
unfoldable pub putc_utf8 : ℕ → Console → Console
putc_utf8 b con =
    if ltb b 0x80
    then putc b (record con { pending = 0 })
    else if con.pending == 0
    then lead b con
    else continuation b con

-- `puts` and `puts_f`, up to the terminator or the end of the list.
unfoldable pub puts : List ℕ → Console → Console
puts [] con = con
puts (c ∷ str) con = if c == 0 then con else puts str (putc_utf8 c con)

unfoldable pub putws : List ℕ → Console → Console
putws [] con = con
putws (c ∷ str) con = if c == 0 then con else putws str (putwc c con)

-- `PRINTF_LENGTH_*`
pub data Length : Type 0 where
  default : Length
  short_short : Length
  short : Length
  long : Length
  long_long : Length

-- The words of an argument.
unfoldable pub words_of : Length → ℕ
words_of default = 1
words_of short_short = 1
words_of short = 1
words_of long = 2
words_of long_long = 4

-- The number in `n` words, the lowest first; `none` where an argument is missing.
unfoldable pub fetch : ℕ → List ℕ → Option (ℕ × List ℕ)
fetch zero args = some (0, args)
fetch (suc n) [] = none
fetch (suc n) (a ∷ args) = fetch n args >>= λ r. some (a + r.0 * 2 ^ 16, r.1)

-- `n = -n` where it is negative, as an `unsigned long long`, and whether it was. The most negative
-- number stays negative.
unfoldable pub magnitude : ℕ → ℕ → Bool × ℕ
magnitude bits n =
    let half = 2 ^ (bits - 1) in
    if ltb n half then (false, n) else (true, if n == half then 2 ^ 64 - half else 2 ^ bits - n)

-- `g_HexChars[rem]`
unfoldable pub hex_char : ℕ → ℕ
hex_char rem = get_or (codes "0123456789abcdef") rem 0

-- `buffer[pos++] = c` in 32 bytes, the last byte written first.
unfoldable pub push : ℕ → List ℕ → Option (List ℕ)
push c buffer = if ltb (length buffer) 32 then some (c ∷ buffer) else none

-- The `do` loop, where x86_div64_32 of x86.asm, which divides a 64-bit number by a 32-bit one and gives
-- the remainder, is taken for the division; a round writes a byte, so that it ends, or runs out of the buffer, within 33.
unfoldable pub push_digits : ℕ → ℕ → ℕ → List ℕ → Option (List ℕ)
push_digits zero radix number buffer = none
push_digits (suc fuel) radix number buffer = push (hex_char (number % radix)) buffer >>= λ buffer'.
    let more = push_digits fuel radix (number / radix) buffer' in
    if ltb 0 (number / radix) then more else some buffer'

-- What `printf_number` prints for a number and its sign.
unfoldable pub number_text : ℕ → Bool × ℕ → Option (List ℕ)
number_text radix n =
    push_digits 33 radix n.1 [] >>= λ buffer. if n.0 then push b'-' buffer else some buffer

-- `buffer[pos]` from the last byte on.
unfoldable pub put_all : List ℕ → Console → Console
put_all [] con = con
put_all (c ∷ cs) con = put_all cs (putc_utf8 c con)

-- `printf_number`: the console, and the arguments left.
unfoldable pub printf_number : List ℕ → Length → Bool → ℕ → Console → Option (Console × List ℕ)
printf_number args size sign radix con =
    let words = words_of size in
    fetch words args >>= λ r.
    number_text radix (if sign then magnitude (16 * words) r.0 else (false, r.0)) >>= λ text.
    some (put_all text con, r.1)

-- The strings that pointers point at: near, far, and of 16-bit characters.
pub record Strings : Type 0 where
  pub near : ℕ → List ℕ
  pub far : ℕ → List ℕ
  pub wide : ℕ → List ℕ

abbrev is_long : Length → Bool
is_long default = false
is_long short_short = false
is_long short = false
is_long long = true
is_long long_long = true

-- One argument of `n` words, handed to a routine.
unfoldable pub with_argument :
    ℕ → List ℕ → (ℕ → Console → Console) → Console → Option (Console × List ℕ)
with_argument n args show con = fetch n args >>= λ r. some (show r.0 con, r.1)

-- The `switch` of `PRINTF_STATE_SPEC_`.
unfoldable pub convert : Strings → Length → ℕ → List ℕ → Console → Option (Console × List ℕ)
convert m size c args con =
    if c == b'c'
    then with_argument 1 args (λ a. putc_utf8 (u8 a)) con
    else if c == b'C'
    then with_argument 1 args putwc con
    else if c == b's'
    then (if is_long size
        then with_argument 2 args (λ a. puts (m.far a)) con
        else with_argument 1 args (λ a. puts (m.near a)) con)
    else if c == b'S'
    then with_argument 1 args (λ a. putws (m.wide a)) con
    else if c == b'%'
    then some (putc_utf8 b'%' con, args)
    else if c == b'd'
    then printf_number args size true 10 con
    else if c == b'i'
    then printf_number args size true 10 con
    else if c == b'u'
    then printf_number args size false 10 con
    else if c == b'X'
    then printf_number args size false 16 con
    else if c == b'x'
    then printf_number args size false 16 con
    else if c == b'p'
    then printf_number args size false 16 con
    else if c == b'o'
    then printf_number args size false 8 con
    else some (con, args)

-- `PRINTF_STATE_*`
pub data Phase : Type 0 where
  normal : Phase
  after_percent : Phase
  after_h : Phase
  after_l : Phase
  spec : Phase

-- The local variables of `printf` that outlive a character; `radix` and `sign` are set where they are
-- used.
pub record Printer : Type 0 where
  pub phase : Phase
  pub size : Length
  pub args : List ℕ
  pub console : Console

-- `PRINTF_STATE_SPEC_` and the reset that follows.
unfoldable pub specify : Strings → ℕ → Printer → Option Printer
specify m c p = convert m p.size c p.args p.console >>= λ r.
    some (record { phase = normal; size = default; args = r.1; console = r.0 })

-- One character of the format.
unfoldable pub step : Strings → ℕ → Phase → Printer → Option Printer
step m c normal p =
    if c == b'%'
    then some (record p { phase = after_percent })
    else some (record p { console = putc_utf8 c p.console })
step m c after_percent p =
    if c == b'h'
    then some (record p { size = short; phase = after_h })
    else if c == b'l'
    then some (record p { size = long; phase = after_l })
    else specify m c p
step m c after_h p =
    if c == b'h' then some (record p { size = short_short; phase = spec }) else specify m c p
step m c after_l p =
    if c == b'l' then some (record p { size = long_long; phase = spec }) else specify m c p
step m c spec p = specify m c p

unfoldable pub run : Strings → List ℕ → Printer → Option Printer
run m [] p = some p
run m (c ∷ fmt) p =
    let rest = step m c p.phase p >>= λ p'. run m fmt p' in if c == 0 then some p else rest

-- `printf`: `none` is a missing argument.
unfoldable pub printf : Strings → List ℕ → List ℕ → Console → Option Console
printf m fmt args con =
    run m fmt (record { phase = normal; size = default; args = args; console = con }) >>= λ p.
    some p.console
