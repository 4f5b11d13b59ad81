-- ===== src/Printf.antt =====
-- The kernel's printf, src/kernel/vga.c from `print_uint` on: what it hands to `vga_putchar`, in
-- order. `none` is undefined behaviour: a write past `print_uint`'s buffer, a format string read
-- past its end, an argument that is missing or not what its conversion takes.
pub mod Numerals
pub mod Numbers
pub mod Spec
pub mod Conversions
pub mod Formats
mod Tests
use alma_os.Base.{
  ℕ, zero, suc, List, [], ◌∷◌, ◌++◌, Bool, true, false, Option, none, some, ◌+◌, ◌-◌, ◌*◌, ◌/◌, ◌%◌,
  ◌^◌, ◌==◌, ltb, leb, ◌&&◌, if◌then◌else◌, ◌>>=◌, length, sub32,
}
use alma_os.Base.Text.{codes}
use alma_os.Vga.{Screen, puts}

-- `char buf[12]`
abbrev pub buffer_size : ℕ
buffer_size = 12

-- `buf[i++] = c`, the last byte written first.
pub push : ℕ → List ℕ → Option (List ℕ)
push c buf = if ltb (length buf) buffer_size then some (c ∷ buf) else none

pub digit_code : ℕ → ℕ
digit_code digit = if ltb digit 10 then b'0' + digit else b'a' + digit - 10

-- `while (val)`
pub push_digits : ℕ → ℕ → ℕ → List ℕ → Option (List ℕ)
push_digits zero base val buf = none
push_digits (suc fuel) base val buf =
    if val == 0
    then some buf
    else (push (digit_code (val % base)) buf >>= λ buf'. push_digits fuel base (val / base) buf')

-- `while (i < width) buf[i++] = pad`, with `n` rounds left.
pub push_pad : ℕ → ℕ → List ℕ → Option (List ℕ)
push_pad zero pad buf = some buf
push_pad (suc n) pad buf = push pad buf >>= λ buf'. push_pad n pad buf'

-- A `uint32_t` has 32 digits at most, so 33 rounds of the first loop end it.
pub print_uint : ℕ → ℕ → ℕ → ℕ → Option (List ℕ)
print_uint val base width pad =
    (if val == 0 then push b'0' [] else push_digits 33 base val []) >>= λ buf.
    push_pad (width - length buf) pad buf

-- `val` is the 32-bit pattern. The most negative number has no negation, and `-val` is undefined
-- behaviour.
pub print_int : ℕ → ℕ → ℕ → Option (List ℕ)
print_int val width pad =
    if val == 2 ^ 31
    then none
    else if leb (2 ^ 31) val
    then (print_uint (sub32 0 val) 10 (if width == 0 then 0 else width - 1) pad >>= λ out.
        some (b'-' ∷ out))
    else print_uint val 10 width pad

-- What `va_arg` can fetch: an integer, a character or an address as its 32 bits, and a string, which
-- may be NULL.
pub data Arg : Type 0 where
  word : ℕ → Arg
  string : Option (List ℕ) → Arg

pub word_of : Arg → Option ℕ
word_of (word n) = some n
word_of (string s) = none

pub text_of : Arg → Option (List ℕ)
text_of (word n) = none
text_of (string none) = some (codes "(null)")
text_of (string (some s)) = some s

pub next_arg : List Arg → Option (Arg × List Arg)
next_arg [] = none
next_arg (a ∷ args) = some (a, args)

abbrev pub is_digit : ℕ → Bool
is_digit c = leb b'0' c && leb c b'9'

-- `if (*fmt == '0') { pad = '0'; fmt++; }`: the padding, and the rest.
pub read_flag : List ℕ → ℕ × List ℕ
read_flag [] = (b' ', [])
read_flag (c ∷ fmt) = if c == b'0' then (b'0', fmt) else (b' ', c ∷ fmt)

pub read_width : ℕ → List ℕ → ℕ × List ℕ
read_width width [] = (width, [])
read_width width (c ∷ fmt) =
    if is_digit c then read_width (width * 10 + (c - b'0')) fmt else (width, c ∷ fmt)

-- `long` has 32 bits on this target, so the modifier changes nothing.
pub skip_long : List ℕ → List ℕ
skip_long [] = []
skip_long (c ∷ fmt) = if c == b'l' then fmt else c ∷ fmt

pub take_word : List Arg → (ℕ → Option (List ℕ)) → Option (List ℕ × List Arg)
take_word args print =
    next_arg args >>= λ a. word_of a.0 >>= λ n. print n >>= λ out. some (out, a.1)

-- The `switch`: the output, and the arguments left.
pub convert : ℕ → ℕ → ℕ → List Arg → Option (List ℕ × List Arg)
convert c width pad args =
    if c == b'c'
    then take_word args (λ n. some (n % 2 ^ 8 ∷ []))
    else if c == b's'
    then (next_arg args >>= λ a. text_of a.0 >>= λ s. some (s, a.1))
    else if c == b'd'
    then take_word args (λ n. print_int n width pad)
    else if c == b'i'
    then take_word args (λ n. print_int n width pad)
    else if c == b'u'
    then take_word args (λ n. print_uint n 10 width pad)
    else if c == b'x'
    then take_word args (λ n. print_uint n 16 width pad)
    else if c == b'p'
    then take_word args (λ n. print_uint n 16 8 b'0' >>= λ out. some (codes "0x" ++ out))
    else if c == b'%'
    then some (b'%' ∷ [], args)
    else some (b'%' ∷ c ∷ [], args)

-- What follows a `%`: the conversion, its output, and the format and the arguments left. At the end
-- of the string the code would go on past its terminator.
pub directive : ℕ → ℕ → List ℕ → List Arg → Option (List ℕ × List ℕ × List Arg)
directive width pad [] args = none
directive width pad (c ∷ fmt) args = convert c width pad args >>= λ r. some (r.0, fmt, r.1)

-- One round of the loop at a `%`.
pub percent : List ℕ → List Arg → Option (List ℕ × List ℕ × List Arg)
percent fmt args =
    let flag = read_flag fmt in
    let sized = read_width 0 flag.1 in directive sized.0 flag.0 (skip_long sized.1) args

pub vprintf_from : ℕ → List ℕ → List Arg → Option (List ℕ)
vprintf_from zero fmt args = none
vprintf_from (suc fuel) [] args = some []
vprintf_from (suc fuel) (c ∷ fmt) args =
    if c == b'%'
    then (percent fmt args >>= λ r. vprintf_from fuel r.1 r.2 >>= λ out. some (r.0 ++ out))
    else (vprintf_from fuel fmt args >>= λ out. some (c ∷ out))

-- Every round reads a character.
pub vprintf : List ℕ → List Arg → Option (List ℕ)
vprintf fmt args = vprintf_from (length fmt + 1) fmt args

-- `vga_printf`: the output goes through `vga_putchar`.
pub printf : Screen → List ℕ → List Arg → Option Screen
printf s fmt args = vprintf fmt args >>= λ out. some (puts s out)
