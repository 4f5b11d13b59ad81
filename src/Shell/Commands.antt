-- ===== src/Shell/Commands.antt =====
-- From the line to the command in src/kernel/shell.c, and the command echo of
-- src/kernel/root/echo.c.
use alma_os.Base.{
  ℕ, zero, suc, List, [], ◌∷◌, ◌++◌, Bool, true, false, ◌&&◌, Option, none, some, ◌<◌, ◌==◌, ltb,
  if◌then◌else◌, length, set, drop, take, replicate, All, length-append, ◌≡◌, ◌≢◌, inl, inr,
  Bool-cases, refl, sym, ap, ◌∙◌, arith, ==_ne, ==_iff,
}
use alma_os.Base.Text.{codes}
use native.Mathlib.Decide.{ℕ_discrete}
use mathlib.Core.List.{append-nil}
use alma_os.Vga.{Screen, puts, putchar}
use alma_os.Vga.Typing.{puts-append, puts-cons, puts-nil}
use alma_os.CString.Texts.{differ, HasNoZero, differ-zero, differ_self}
use alma_os.Getopt.{is_zero}
use alma_os.Getopt.Lookup.{texts_discrete, is_zero-true}
use alma_os.Shell.{
  Shell, Command, arguments, find_command, dispatch, execute_cmd, round, show_prompt, echo_options,
  echo_words, echo_rest, echo,
}
use alma_os.Shell.Scans.{Spaced, IsWord, spelled, Between, words}
use alma_os.Shell.Words.{arguments-words}
use alma_os.Shell.Lines.{IsValid, line}

set-split :
    (n : ℕ) (xs : List ℕ) (v : ℕ) → n < length xs → set xs n v ≡ take n xs ++ (v ∷ drop (suc n) xs)
set-split n [] v h = absurd (omega (arith, h))
set-split zero (x ∷ xs) v h = refl
set-split (suc n) (x ∷ xs) v h = ap (λ r. x ∷ r) (set-split n xs v (omega (arith, h)))

no_words :
    (ws : List Spaced) (n : ℕ) → All (λ w. IsWord w.word) ws → spelled ws n ≡ [] → words ws ≡ []
no_words [] n a e = refl
no_words (w ∷ ws) n a e = absurd (
    omega (
      arith,
      a.0.1,
      ap length e,
      length-append (replicate w.blanks b' ') (w.word ++ spelled ws n),
      length-append w.word (spelled ws n),
    ))

execute_cmd-words :
    (table : List Command) {s : Shell} (ws : List Spaced) (n : ℕ)
    → IsValid s
    → All (λ w. IsWord w.word) ws
    → Between ws
    → line s ≡ spelled ws n
    → (execute_cmd table s).screen ≡ dispatch table (take 16 (words ws)) s.screen
unfolding execute_cmd
execute_cmd-words table {s} ws n v a b e = elim (ℕ_discrete s.len 0) [
  | yes none_typed ↦
      rw
        ((==_iff s.len 0).1 none_typed, no_words ws n a (sym e ∙ ap (λ k. take k s.buf) none_typed))
        (unfold dispatch in refl)
  | no typed ↦ rw (==_ne s.len 0 typed) (
      ap (λ argv. dispatch table argv s.screen)
        (ap arguments (
            set-split s.len s.buf 0 (omega (arith, v.whole, v.room))
            ∙ ap (λ l. l ++ (0 ∷ drop (suc s.len) s.buf)) e)
          ∙ arguments-words ws n (drop (suc s.len) s.buf) a b))
]

-- When Enter is pressed on a line of words, however they are spaced, the command runs with the
-- first 16 of them as its arguments, after the line break and before the prompt; a line of blanks
-- runs nothing.
pub round-words :
    (table : List Command) {s : Shell} (ws : List Spaced) (n : ℕ)
    → IsValid s
    → All (λ w. IsWord w.word) ws
    → Between ws
    → line s ≡ spelled ws n
    → (round table s b'\n').screen
      ≡ show_prompt (dispatch table (take 16 (words ws)) (putchar s.screen b'\n'))
unfolding round
round-words table {s} ws n v a b e = ap show_prompt (
    execute_cmd-words table {s = record s { screen = putchar s.screen b'\n' }} ws n
      (record { whole = v.whole; room = v.room }) a b e)

abbrev pick : (name : List ℕ) (c : Command) → Dec (name ≡ c.name) → Option Command → Option Command
pick name c (yes e) rest = some c
pick name c (no ne) rest = rest

-- The first command of a table with a name.
unfoldable pub first_named : List Command → List ℕ → Option Command
first_named [] name = none
first_named (c ∷ cs) name = pick name c (texts_discrete name c.name) (first_named cs name)

is_zero-differ :
    (cs ds : List ℕ) → HasNoZero cs → HasNoZero ds → cs ≢ ds → is_zero (differ cs ds) ≡ false
is_zero-differ cs ds p q ne = elim (Bool-cases (is_zero (differ cs ds))) [
  | inl t ↦ absurd (ne (differ-zero cs ds p q (is_zero-true (differ cs ds) t)))
  | inr f ↦ f
]

is_zero-differ_self : (cs : List ℕ) → is_zero (differ cs cs) ≡ true
is_zero-differ_self cs = ap is_zero (differ_self cs)

picks :
    (name : List ℕ) (c : Command) (rest : Option Command) (d : Dec (name ≡ c.name))
    → HasNoZero name
    → HasNoZero c.name
    → (if is_zero (differ name c.name) then some c else rest) ≡ pick name c d rest
picks name c rest (yes e) p q =
    rw (ap (λ t. is_zero (differ name t)) (sym e) ∙ is_zero-differ_self name) refl
picks name c rest (no ne) p q = rw (is_zero-differ name c.name p q ne) refl

-- The table is searched by the whole name: no prefix is enough.
pub find_command-named :
    (table : List Command) (name : List ℕ)
    → All (λ c. HasNoZero c.name) table
    → HasNoZero name
    → find_command table name ≡ first_named table name
unfolding find_command first_named
find_command-named [] name p q = refl
find_command-named (c ∷ cs) name p q =
    rw (find_command-named cs name p.1 q)
      (picks name c (first_named cs name) (texts_discrete name c.name) q p.0)

-- The arguments with one blank between two.
unfoldable pub joined : List (List ℕ) → List ℕ
joined [] = []
joined (a ∷ []) = a
joined (a ∷ b ∷ rest) = a ++ (b' ' ∷ joined (b ∷ rest))

echo_words-joined : (argv : List (List ℕ)) (s : Screen) → echo_words argv s ≡ puts s (joined argv)
unfolding echo_words joined
echo_words-joined [] s = sym (puts-nil s)
echo_words-joined (a ∷ []) s = refl
echo_words-joined (a ∷ b ∷ rest) s =
    let test : ltb 0 (length (b ∷ rest)) ≡ true = ground arith in
    rw test (
      echo_words-joined (b ∷ rest) (putchar (puts s a) b' ')
      ∙ sym (
          puts-append a (b' ' ∷ joined (b ∷ rest)) s
          ∙ puts-cons b' ' (joined (b ∷ rest)) (puts s a)))

-- A text that echo prints: none of its options.
pub record IsPlain (a : List ℕ) : Type 0 where
  pub has_no_zero : HasNoZero a
  pub not_n : a ≢ codes "-n"
  pub not_no_newline : a ≢ codes "--no-newline"
  pub not_h : a ≢ codes "-h"
  pub not_help : a ≢ codes "--help"

-- The first argument is plain, if there is one.
abbrev pub StartsPlain : List (List ℕ) → Type 0
StartsPlain [] = Unit
StartsPlain (a ∷ argv) = IsPlain a

echo_options-plain :
    (argv : List (List ℕ)) (newline : Bool)
    → StartsPlain argv
    → echo_options newline argv ≡ some (newline, argv)
unfolding echo_options
echo_options-plain [] newline h = refl
echo_options-plain (a ∷ argv) newline h =
    rw
      (
        is_zero-differ a (codes "-n") h.has_no_zero (omega arith) h.not_n,
        is_zero-differ a (codes "--no-newline") h.has_no_zero (omega arith) h.not_no_newline,
        is_zero-differ a (codes "-h") h.has_no_zero (omega arith) h.not_h,
        is_zero-differ a (codes "--help") h.has_no_zero (omega arith) h.not_help,
      )
      refl

-- Any number of `-n`.
unfoldable pub with_flags : ℕ → List (List ℕ) → List (List ℕ)
with_flags zero argv = argv
with_flags (suc n) argv = codes "-n" ∷ with_flags n argv

echo_options-flag :
    (argv : List (List ℕ)) (newline : Bool)
    → echo_options newline (codes "-n" ∷ argv) ≡ echo_options false argv
unfolding echo_options differ
echo_options-flag argv newline = refl

echo_options-flags :
    (n : ℕ) (argv : List (List ℕ)) (newline : Bool)
    → StartsPlain argv
    → echo_options newline (with_flags n argv) ≡ some (newline && n == 0, argv)
unfolding with_flags
echo_options-flags zero argv true h = echo_options-plain argv true h
echo_options-flags zero argv false h = echo_options-plain argv false h
echo_options-flags (suc n) argv newline h =
    echo_options-flag (with_flags n argv) newline
    ∙ echo_options-flags n argv false h
    ∙ ap (λ b. some (b, argv)) (never newline n)
  where
    never : (b : Bool) (n : ℕ) → false ≡ (b && suc n == 0)
    never true n = ground arith
    never false n = refl

echo_rest-line :
    (newline : Bool) (argv : List (List ℕ)) (s : Screen)
    → echo_rest (some (newline, argv)) s
      ≡ puts s (joined argv ++ (if newline then b'\n' ∷ [] else []))
unfolding echo_rest
echo_rest-line true argv s = sym (
    puts-append (joined argv) (b'\n' ∷ []) s
    ∙ puts-cons b'\n' [] (puts s (joined argv))
    ∙ puts-nil (putchar (puts s (joined argv)) b'\n')
    ∙ ap (λ r. putchar r b'\n') (sym (echo_words-joined argv s)))
echo_rest-line false argv s =
    echo_words-joined argv s ∙ ap (puts s) (sym (append-nil (joined argv)))

-- echo prints its arguments with one blank between two, and then a line break unless a `-n` came
-- first; texts that look like options later on are printed.
pub echo-joined :
    (name : List ℕ) (n : ℕ) (argv : List (List ℕ)) (s : Screen)
    → StartsPlain argv
    → echo (name ∷ with_flags n argv) s
      ≡ puts s (joined argv ++ (if n == 0 then b'\n' ∷ [] else []))
unfolding echo
echo-joined name n argv s h =
    ap (λ o. echo_rest o s) (echo_options-flags n argv true h) ∙ echo_rest-line (n == 0) argv s
