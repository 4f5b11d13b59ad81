-- ===== src/Idt/Messages.antt =====
-- The message of src/kernel/idt.c about an exception, as text.
use alma_os.Base.{
  ℕ, List, [], ◌∷◌, ◌++◌, Bool, true, false, not, ◌&&◌, some, ◌<◌, ◌^◌, ◌==◌, get_or, All, ◌≡◌,
  refl, arith,
}
use alma_os.Base.Text.{codes}
use alma_os.Printf.{word, string, printf}
use alma_os.Printf.Numerals.{number}
use alma_os.Printf.Spec.{
  Conversion, Directive, Piece, plain, converted, unsigned, hex, text, IsPiece, format_of,
  arguments_of, written, width_from, shown, shown_text,
}
use alma_os.Printf.Formats.{printf-written}
use alma_os.Vga.{Screen, set_color, puts}
use alma_os.Idt.{Frame, exception_names, report}

-- The registers have 32 bits.
pub record Is32 (f : Frame) : Type 0 where
  pub edi : f.edi < 2 ^ 32
  pub esi : f.esi < 2 ^ 32
  pub ebp : f.ebp < 2 ^ 32
  pub ebx : f.ebx < 2 ^ 32
  pub edx : f.edx < 2 ^ 32
  pub ecx : f.ecx < 2 ^ 32
  pub eax : f.eax < 2 ^ 32
  pub isr_num : f.isr_num < 2 ^ 32
  pub error_code : f.error_code < 2 ^ 32
  pub eip : f.eip < 2 ^ 32
  pub cs : f.cs < 2 ^ 32
  pub eflags : f.eflags < 2 ^ 32

-- A number in 8 hexadecimal digits.
abbrev hex_8 : ℕ → List ℕ
hex_8 n = number n 16 8 b'0'

unfoldable pub title_line : Frame → List ℕ
title_line f =
    codes "\n*** EXCEPTION: "
    ++ (get_or exception_names f.isr_num []
        ++ (codes " (#" ++ (number f.isr_num 10 0 b' ' ++ codes ") ***\n")))

unfoldable pub error_line : Frame → List ℕ
error_line f = codes "Error code: 0x" ++ (hex_8 f.error_code ++ codes "\n")

unfoldable pub place_line : Frame → List ℕ
place_line f =
    codes "EIP: 0x"
    ++ (hex_8 f.eip
        ++ (codes "  CS: 0x"
            ++ (number f.cs 16 4 b'0' ++ (codes "  EFLAGS: 0x" ++ (hex_8 f.eflags ++ codes "\n")))))

unfoldable pub data_line : Frame → List ℕ
data_line f =
    codes "EAX: 0x"
    ++ (hex_8 f.eax
        ++ (codes "  EBX: 0x"
            ++ (hex_8 f.ebx
                ++ (codes "  ECX: 0x"
                    ++ (hex_8 f.ecx ++ (codes "  EDX: 0x" ++ (hex_8 f.edx ++ codes "\n")))))))

unfoldable pub index_line : Frame → List ℕ
index_line f =
    codes "ESI: 0x"
    ++ (hex_8 f.esi
        ++ (codes "  EDI: 0x"
            ++ (hex_8 f.edi ++ (codes "  EBP: 0x" ++ (hex_8 f.ebp ++ codes "\n")))))

-- The screen with the lines of the message, white on red.
unfoldable pub with_message : Frame → Screen → Screen
with_message f s =
    puts
      (puts (puts (puts (puts (set_color s 15 4) (title_line f)) (error_line f)) (place_line f))
        (data_line f))
      (index_line f)

-- The pieces of a format that `printf-written` takes.
abbrev Pieces : Type 0
Pieces = (ps : List Piece) × All IsPiece ps

abbrev no_more : Pieces
no_more = ([], record {})

abbrev directive : Bool → List ℕ → Conversion → Directive
directive zeros cells what = record { zeros = zeros; cells = cells; long = false; what = what }

-- A text without `%`.
abbrev is_plain : List ℕ → Bool
is_plain [] = true
is_plain (c ∷ cs) = not (c == b'%') && is_plain cs

and_text : (cs : List ℕ) → is_plain cs ≡ true → Pieces → Pieces
and_text [] h ps = ps
and_text (c ∷ cs) h ps =
    let rest = and_text cs (ground arith) ps in (plain c ∷ rest.0, (ground arith, rest.1))

and_decimal : (n : ℕ) → n < 2 ^ 32 → Pieces → Pieces
unfolding width_from
and_decimal n h ps = (
  converted (directive false [] (unsigned n)) ∷ ps.0,
  (record { digits = record {}; no_flag = λ e. record {}; fits = omega arith; is_32 = h }, ps.1),
)

and_hex_8 : (n : ℕ) → n < 2 ^ 32 → Pieces → Pieces
unfolding width_from
and_hex_8 n h ps = (
  converted (directive true (b'8' ∷ []) (hex n)) ∷ ps.0,
  (
    record {
      digits = (refl, record {});
      no_flag = λ e. absurd (ground arith);
      fits = omega arith;
      is_32 = h;
    },
    ps.1,
  ),
)

and_hex_4 : (n : ℕ) → n < 2 ^ 32 → Pieces → Pieces
unfolding width_from
and_hex_4 n h ps = (
  converted (directive true (b'4' ∷ []) (hex n)) ∷ ps.0,
  (
    record {
      digits = (refl, record {});
      no_flag = λ e. absurd (ground arith);
      fits = omega arith;
      is_32 = h;
    },
    ps.1,
  ),
)

and_string : List ℕ → Pieces → Pieces
unfolding width_from
and_string s ps = (
  converted (directive false [] (text (some s))) ∷ ps.0,
  (
    record { digits = record {}; no_flag = λ e. record {}; fits = omega arith; is_32 = record {} },
    ps.1,
  ),
)

title_pieces : (f : Frame) → Is32 f → Pieces
title_pieces f h = and_text (codes "\n*** EXCEPTION: ") refl (
    and_string (get_or exception_names f.isr_num []) (
      and_text (codes " (#") refl
        (and_decimal f.isr_num h.isr_num (and_text (codes ") ***\n") refl no_more))))

error_pieces : (f : Frame) → Is32 f → Pieces
error_pieces f h =
    and_text (codes "Error code: 0x") refl
      (and_hex_8 f.error_code h.error_code (and_text (codes "\n") refl no_more))

place_pieces : (f : Frame) → Is32 f → Pieces
place_pieces f h = and_text (codes "EIP: 0x") refl (
    and_hex_8 f.eip h.eip (
      and_text (codes "  CS: 0x") refl (
        and_hex_4 f.cs h.cs (
          and_text (codes "  EFLAGS: 0x") refl
            (and_hex_8 f.eflags h.eflags (and_text (codes "\n") refl no_more))))))

data_pieces : (f : Frame) → Is32 f → Pieces
data_pieces f h = and_text (codes "EAX: 0x") refl (
    and_hex_8 f.eax h.eax (
      and_text (codes "  EBX: 0x") refl (
        and_hex_8 f.ebx h.ebx (
          and_text (codes "  ECX: 0x") refl (
            and_hex_8 f.ecx h.ecx (
              and_text (codes "  EDX: 0x") refl
                (and_hex_8 f.edx h.edx (and_text (codes "\n") refl no_more))))))))

index_pieces : (f : Frame) → Is32 f → Pieces
index_pieces f h = and_text (codes "ESI: 0x") refl (
    and_hex_8 f.esi h.esi (
      and_text (codes "  EDI: 0x") refl (
        and_hex_8 f.edi h.edi (
          and_text (codes "  EBP: 0x") refl
            (and_hex_8 f.ebp h.ebp (and_text (codes "\n") refl no_more))))))

printf-pieces_of :
    (ps : Pieces) (s : Screen)
    → printf s (format_of ps.0) (arguments_of ps.0) ≡ some (puts s (written ps.0))
printf-pieces_of ps s = printf-written ps.0 s ps.1

pub report-with_message : (f : Frame) (s : Screen) → Is32 f → report f s ≡ some (with_message f s)
unfolding report with_message title_line error_line place_line data_line index_line title_pieces
    error_pieces place_pieces data_pieces index_pieces and_text and_decimal and_hex_8 and_hex_4
    and_string format_of arguments_of written width_from shown shown_text
report-with_message f s h =
    let s0 = set_color s 15 4 in
    let s1 = puts s0 (title_line f) in
    let s2 = puts s1 (error_line f) in
    let s3 = puts s2 (place_line f) in
    let s4 = puts s3 (data_line f) in
    let e1 : printf s0 (codes "\n*** EXCEPTION: %s (#%u) ***\n")
          (string (some (get_or exception_names f.isr_num [])) ∷ word f.isr_num ∷ [])
        ≡ some s1 =
      printf-pieces_of (title_pieces f h) s0 in
    let e2 : printf s1 (codes "Error code: 0x%08x\n") (word f.error_code ∷ []) ≡ some s2 =
      printf-pieces_of (error_pieces f h) s1 in
    let e3 : printf s2 (codes "EIP: 0x%08x  CS: 0x%04x  EFLAGS: 0x%08x\n")
          (word f.eip ∷ word f.cs ∷ word f.eflags ∷ [])
        ≡ some s3 =
      printf-pieces_of (place_pieces f h) s2 in
    let e4 : printf s3 (codes "EAX: 0x%08x  EBX: 0x%08x  ECX: 0x%08x  EDX: 0x%08x\n")
          (word f.eax ∷ word f.ebx ∷ word f.ecx ∷ word f.edx ∷ [])
        ≡ some s4 =
      printf-pieces_of (data_pieces f h) s3 in
    let e5 : printf s4 (codes "ESI: 0x%08x  EDI: 0x%08x  EBP: 0x%08x\n")
          (word f.esi ∷ word f.edi ∷ word f.ebp ∷ [])
        ≡ some (puts s4 (index_line f)) =
      printf-pieces_of (index_pieces f h) s4 in
    rw (e1, e2, e3, e4, e5) refl
