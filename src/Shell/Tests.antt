-- ===== src/Shell/Tests.antt =====
-- Tests of the shell, and its theorems at concrete inputs.
use alma_os.Base.{
  ℕ, get_or, ap, ◌≢◌, List, [], ◌∷◌, ◌++◌, ◌≡◌, refl, arith, length, drop, replicate, take, All,
}
use alma_os.Base.Text.{codes}
use alma_os.Vga.{Screen, putchar}
use alma_os.CString.Texts.{HasNoZero}
use alma_os.Shell.{
  Shell, arguments, tokenize, skip_spaces, skip_word, up_to_nul, dispatch, round, rounds,
  show_prompt, Others, cmd_table,
}
use alma_os.Shell.Scans.{Spaced, IsWord, spelled, words}
use alma_os.Shell.Words.{arguments-words}
use alma_os.Shell.Lines.{IsValid, line, edits, rounds-line}
use alma_os.Shell.Commands.{round-words}

abbrev blank : Screen
blank = record { cells = λ j. 0x0720; col = 8; row = 0; attr = 0x07; cursor = 8; mirrored = [] }

-- The line ` echo  hi` with two blanks behind it.
abbrev typed : List ℕ
typed = codes " echo  hi  "

abbrev ready : Shell
ready = record { buf = typed ++ replicate 57 b'z'; len = 11; screen = blank }

abbrev two_words : List Spaced
two_words =
    record { blanks = 1; word = codes "echo" } ∷ record { blanks = 2; word = codes "hi" } ∷ []

two_words-AreWords : All (λ w. IsWord w.word) two_words
two_words-AreWords = omega arith

two_arguments : arguments (typed ++ (0 ∷ replicate 52 b'z')) ≡ codes "echo" ∷ codes "hi" ∷ []
unfolding arguments tokenize skip_spaces skip_word up_to_nul
two_arguments = refl

abbrev given : Others
given = record {
  mem = λ argv s. s;
  ticks = λ argv s. s;
  reboot = λ argv s. s;
  mode = λ argv s. s;
  gfxdemo = λ argv s. s;
}

arguments-words_example :
    arguments (spelled two_words 2 ++ (0 ∷ replicate 52 b'z')) ≡ take 16 (words two_words)
arguments-words_example =
    arguments-words two_words 2 (replicate 52 b'z') two_words-AreWords (omega arith)

round-words_example :
    (round (cmd_table given) ready b'\n').screen
    ≡ show_prompt (dispatch (cmd_table given) (take 16 (words two_words)) (putchar blank b'\n'))
round-words_example =
    round-words (cmd_table given) {s = ready} two_words 2
      (record { whole = omega arith; room = omega arith }) two_words-AreWords (omega arith) refl

rounds-line_example :
    IsValid (rounds (cmd_table given) ready (codes "xy\u{8}"))
    × (line (rounds (cmd_table given) ready (codes "xy\u{8}"))
        ≡ edits (line ready) (codes "xy\u{8}"))
    × (length (rounds (cmd_table given) ready (codes "xy\u{8}")).buf ≡ length ready.buf)
    × (drop 64 (rounds (cmd_table given) ready (codes "xy\u{8}")).buf ≡ drop 64 ready.buf)
rounds-line_example =
    rounds-line (codes "xy\u{8}") (cmd_table given) {s = ready}
      (record { whole = omega arith; room = omega arith })

first-differs : (a b : List ℕ) → get_or a 0 0 ≢ get_or b 0 0 → a ≢ b
first-differs a b ne e = ne (ap (λ xs. get_or xs 0 0) e)

names-HasNoZero : All (λ c. HasNoZero c.name) (cmd_table given)
unfolding cmd_table
names-HasNoZero = omega arith
