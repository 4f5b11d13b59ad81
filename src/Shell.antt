-- ===== src/Shell.antt =====
-- The shell, src/kernel/shell.c, and its command echo, src/kernel/root/echo.c: the line editor, the
-- tokenizer, which cuts the line into words in place, and the command table. A command is what it
-- does to the console, given its arguments; those that are about other parts of the kernel (mem,
-- ticks, reboot, mode, gfxdemo) are taken as given.
pub mod Lines
pub mod Bounds
pub mod Scans
pub mod Tokens
pub mod Words
pub mod Commands
mod Tests
use alma_os.Base.{
  ℕ, zero, suc, List, [], ◌∷◌, ◌++◌, Bool, true, false, not, ◌&&◌, ◌||◌, Option, none, some, ◌+◌,
  ◌-◌, ◌==◌, ltb, leb, if◌then◌else◌, length, get_or, set, drop, map,
}
use alma_os.Base.Text.{codes}
use alma_os.Vga
use alma_os.Vga.{Screen, putchar, puts, set_color}
use alma_os.CString.Texts.{differ}
use alma_os.Getopt.{is_zero}
use alma_os.Keyboard
use alma_os.Keyboard.{Keyboard, has_data}

-- `CMD_MAX_LEN`
abbrev pub max_len : ℕ
max_len = 64

-- `cmd_buf` with the memory behind it, `cmd_len` and the console.
pub record Shell : Type 0 where
  pub buf : List ℕ
  pub len : ℕ
  pub screen : Screen

-- A command of `cmd_table`: its name and its function, from the arguments.
pub record Command : Type 0 where
  pub name : List ℕ
  pub fn : List (List ℕ) → Screen → Screen

abbrev pub char_at : List ℕ → ℕ → ℕ
char_at buf i = get_or buf i 0

-- `while (*p == ' ') p++`, with at most `fuel` rounds.
pub skip_spaces : ℕ → List ℕ → ℕ → ℕ
skip_spaces zero buf p = p
skip_spaces (suc fuel) buf p =
    let on = skip_spaces fuel buf (p + 1) in if char_at buf p == b' ' then on else p

-- `while (*p && *p != ' ') p++`
pub skip_word : ℕ → List ℕ → ℕ → ℕ
skip_word zero buf p = p
skip_word (suc fuel) buf p =
    let on = skip_word fuel buf (p + 1) in
    if not (char_at buf p == 0) && not (char_at buf p == b' ') then on else p

-- The tokenizer at `p`, with room for `slots` more arguments: where the arguments start, and the
-- buffer with a NUL after each. A scan inside the buffer ends within its length.
pub tokenize : ℕ → List ℕ → ℕ → List ℕ × List ℕ
tokenize zero buf p = ([], buf)
tokenize (suc slots) buf p =
    let start = skip_spaces (length buf) buf p in
    let stop = skip_word (length buf) buf start in
    let at_end = char_at buf stop == 0 in
    let rest =
      tokenize slots (if at_end then buf else set buf stop 0) (if at_end then stop else stop + 1) in
    if char_at buf p == 0
    then ([], buf)
    else if char_at buf start == 0
    then ([], buf)
    else (start ∷ rest.0, rest.1)

unfoldable pub up_to_nul : List ℕ → List ℕ
up_to_nul [] = []
up_to_nul (c ∷ cs) = if c == 0 then [] else c ∷ up_to_nul cs

-- The C string at an offset of the buffer.
abbrev pub text_at : List ℕ → ℕ → List ℕ
text_at buf i = up_to_nul (drop i buf)

-- `argv` of a command line: at most 16 arguments.
pub arguments : List ℕ → List (List ℕ)
arguments buf = let r = tokenize 16 buf 0 in map (λ i. text_at r.1 i) r.0

-- The loop over `cmd_table`.
pub find_command : List Command → List ℕ → Option Command
find_command [] name = none
find_command (c ∷ cs) name =
    let rest = find_command cs name in if is_zero (differ name c.name) then some c else rest

abbrev pub first_word : List (List ℕ) → List ℕ
first_word argv = get_or argv 0 []

-- A call of the command found, or the complaint.
unfoldable pub call : Option Command → List (List ℕ) → Screen → Screen
call none argv screen =
    puts screen (codes "Comando desconhecido: " ++ first_word argv ++ (b'\n' ∷ []))
call (some c) argv screen = c.fn argv screen

unfoldable pub dispatch : List Command → List (List ℕ) → Screen → Screen
dispatch table [] screen = screen
dispatch table (name ∷ rest) screen = call (find_command table name) (name ∷ rest) screen

pub execute_cmd : List Command → Shell → Shell
execute_cmd table s =
    let line = set s.buf s.len 0 in
    if s.len == 0 then record s { buf = line } else record s {
      buf = (tokenize 16 line 0).1;
      screen = dispatch table (arguments line) s.screen;
    }

abbrev pub prompt : List ℕ
prompt = codes "AlmaOS> "

-- The end of a line, after the command: on a line of its own, the prompt in light green on black,
-- and then light grey again.
pub show_prompt : Screen → Screen
show_prompt screen =
    let green = set_color screen 10 0 in
    let fresh = if green.col == 0 then green else putchar green b'\n' in
    set_color (puts fresh prompt) 7 0

-- One round of the loop of `shell_run`, with the character read.
pub round : List Command → Shell → ℕ → Shell
round table s c =
    if c == b'\n'
    then (let done = execute_cmd table (record s { screen = putchar s.screen b'\n' }) in
        record done { len = 0; screen = show_prompt done.screen })
    else if c == 8
    then if ltb 0 s.len then record s { len = s.len - 1; screen = putchar s.screen 8 } else s
    else if ltb s.len (max_len - 1)
    then record s { buf = set s.buf s.len c; len = s.len + 1; screen = putchar s.screen c }
    else s

pub shell_init : Shell → Shell
shell_init s = record s { len = 0 }

-- `shell_run`: the first prompt starts where the position is.
pub start : Shell → Shell
start s = record s { screen = set_color (puts (set_color s.screen 10 0) prompt) 7 0 }

pub rounds : List Command → Shell → List ℕ → Shell
rounds table s [] = s
rounds table s (c ∷ cs) = rounds table (round table s c) cs

-- A character from COM1.
unfoldable pub from_serial : ℕ → ℕ
from_serial c = if c == b'\r' then b'\n' else if c == 0x7F then 8 else c

abbrev take_key : ℕ × Keyboard → List ℕ → ℕ × Keyboard × List ℕ
take_key r serial = (r.0, r.1, serial)

-- `shell_read_char`: the keyboard goes first, then what waits at COM1; `none` for the `hlt`.
pub read_char : Keyboard → List ℕ → Option (ℕ × Keyboard × List ℕ)
read_char keys [] = if has_data keys then some (take_key (Keyboard.read keys) []) else none
read_char keys (c ∷ serial) =
    if has_data keys
    then some (take_key (Keyboard.read keys) (c ∷ serial))
    else some (from_serial c, keys, serial)

-- The options of echo before the first argument that is none of them: whether the newline is
-- wanted, and what is left; `none` for the help.
pub echo_options : Bool → List (List ℕ) → Option (Bool × List (List ℕ))
echo_options newline [] = some (newline, [])
echo_options newline (a ∷ argv) =
    let rest = echo_options false argv in
    if is_zero (differ a (codes "-n")) || is_zero (differ a (codes "--no-newline"))
    then rest
    else if is_zero (differ a (codes "-h")) || is_zero (differ a (codes "--help"))
    then none
    else some (newline, a ∷ argv)

-- The arguments, with a blank between two.
pub echo_words : List (List ℕ) → Screen → Screen
echo_words [] screen = screen
echo_words (a ∷ argv) screen =
    let printed = puts screen a in
    echo_words argv (if ltb 0 (length argv) then putchar printed b' ' else printed)

unfoldable pub echo_rest : Option (Bool × List (List ℕ)) → Screen → Screen
echo_rest none screen = puts screen (
    codes "O comando echo imprime argumentos na sa"
    ++ (0xC3 ∷ 0xAD ∷ [])
    ++ codes "da padr"
    ++ (0xC3 ∷ 0xA3 ∷ [])
    ++ codes "o.\nUso: echo [-n] [texto...]\n")
echo_rest (some (newline, argv)) screen =
    let printed = echo_words argv screen in if newline then putchar printed b'\n' else printed

-- `argv[0]` is the command's name.
pub echo : List (List ℕ) → Screen → Screen
echo argv screen = echo_rest (echo_options true (drop 1 argv)) screen

pub cmd_clear : List (List ℕ) → Screen → Screen
cmd_clear argv screen = Vga.clear screen

pub cmd_help : List (List ℕ) → Screen → Screen
cmd_help argv screen = puts screen (
    codes "Comandos disponiveis:\n"
    ++ codes "  help   - mostra esta ajuda\n"
    ++ codes "  clear  - limpa a tela\n"
    ++ codes "  mem    - mostra mapa de memoria e heap\n"
    ++ codes "  ticks  - mostra ticks do PIT\n"
    ++ codes "  reboot - reinicia o sistema\n"
    ++ codes "  echo   - exibe texto (ex: echo Hello)\n"
    ++ codes "  mode   - mostra ou troca o modo de video\n"
    ++ codes "  gfxdemo- desenha um cubo com o rasterizador do gfx\n")

-- The functions of other files.
pub record Others : Type 0 where
  pub mem : List (List ℕ) → Screen → Screen
  pub ticks : List (List ℕ) → Screen → Screen
  pub reboot : List (List ℕ) → Screen → Screen
  pub mode : List (List ℕ) → Screen → Screen
  pub gfxdemo : List (List ℕ) → Screen → Screen

pub cmd_table : Others → List Command
cmd_table o =
    record { name = codes "help"; fn = cmd_help }
    ∷ record { name = codes "clear"; fn = cmd_clear }
    ∷ record { name = codes "mem"; fn = o.mem }
    ∷ record { name = codes "ticks"; fn = o.ticks }
    ∷ record { name = codes "reboot"; fn = o.reboot }
    ∷ record { name = codes "echo"; fn = echo }
    ∷ record { name = codes "mode"; fn = o.mode }
    ∷ record { name = codes "gfxdemo"; fn = o.gfxdemo }
    ∷ []
