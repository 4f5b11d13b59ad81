-- ===== src/Getopt.antt =====
-- Option parsing for the shell's builtins, src/kernel/getopt.c. A C string is the list of its
-- characters, and a pointer into one is what is left of it; reading past the end gives the
-- terminator. `argc` is the length of `argv`. `int *` targets are numbered cells.
pub mod Long
pub mod Progress
pub mod Clusters
pub mod Lookup
mod Tests
use alma_os.Base.{
  ℕ, zero, suc, List, [], ◌∷◌, Bool, true, false, not, ◌&&◌, ◌||◌, Option, none, some, ◌+◌, ◌-◌,
  ◌==◌, leb, ltb, if◌then◌else◌, length, get_or, take, drop,
}
use alma_os.Base.Int.{ℤ, pos, negsuc}
use alma_os.CString.Texts.{differ}

-- `-1`
abbrev pub end_of_options : ℤ
end_of_options = negsuc 0

abbrev pub is_zero : ℤ → Bool
is_zero (pos n) = n == 0
is_zero (negsuc n) = false

pub data HasArg : Type 0 where
  no_argument required_argument optional_argument : HasArg

-- `option_t`
pub record LongOption : Type 0 where
  pub name : List ℕ
  pub has_arg : HasArg
  pub flag : Option ℕ
  pub val : ℤ

-- The file's globals, less `opterr`, which nothing reads, and the cells that option flags and
-- `longindex` point to.
pub record State : Type 0 where
  pub optarg : Option (List ℕ)
  pub optind : ℕ
  pub optopt : ℕ
  pub next : Option (List ℕ)
  pub cells : ℕ → ℤ

abbrev pub initial : State
initial = record { optarg = none; optind = 1; optopt = 0; next = none; cells = λ c. pos 0 }

abbrev pub char_at : List ℕ → ℕ → ℕ
char_at s i = get_or s i 0

-- From the first character `opt` on; `none` is NULL.
pub scan_short : List ℕ → ℕ → Option (List ℕ)
scan_short [] opt = none
scan_short (c ∷ cs) opt = let rest = scan_short cs opt in if c == opt then some (c ∷ cs) else rest

pub find_short : List ℕ → ℕ → Option (List ℕ)
find_short optstring opt =
    scan_short (if char_at optstring 0 == b':' then drop 1 optstring else optstring) opt

abbrev pub silent : List ℕ → Bool
silent optstring = char_at optstring 0 == b':'

-- `_next`, NULL read as the end of a token.
abbrev pub pending : State → List ℕ
pending st = elim st.next [ none ↦ [] | some cs ↦ cs ]

module _ (argv : List (List ℕ)) (optstring : List ℕ) where
  -- The option wants an argument: the rest of the token, or the next element of `argv`.
  unfoldable pub short_argument : ℕ → List ℕ → State → ℤ × State
  short_argument opt rest st =
      if not (char_at rest 0 == 0)
      then (pos opt, record st { optarg = some rest; next = none })
      else if ltb st.optind (length argv)
      then (
        pos opt,
        record st { optarg = some (get_or argv st.optind []); optind = st.optind + 1; next = none },
      )
      else (pos (if silent optstring then b':' else b'?'), record st { optopt = opt; next = none })

  unfoldable pub known_short : ℕ → List ℕ → List ℕ → State → ℤ × State
  known_short opt p rest st =
      if char_at p 1 == b':'
      then short_argument opt rest st
      else (pos opt, record st { optarg = none; next = some rest })

  -- What follows from the search of `optstring`.
  unfoldable pub resolve_short : ℕ → List ℕ → State → Option (List ℕ) → ℤ × State
  resolve_short opt rest st none = (pos b'?', record st { optopt = opt; next = some rest })
  resolve_short opt rest st (some p) = known_short opt p rest st

  -- From `int opt = (unsigned char)*_next++` on, with `_next` at the token.
  unfoldable pub take_short : List ℕ → State → ℤ × State
  take_short token st =
      let opt = char_at token 0 in resolve_short opt (drop 1 token) st (find_short optstring opt)

  -- `_next` is NULL or at the end: go on to the element at `optind`.
  unfoldable pub next_token : State → ℤ × State
  next_token st =
      let arg = get_or argv st.optind [] in
      if not (char_at arg 0 == b'-') || char_at arg 1 == 0
      then (end_of_options, st)
      else if char_at arg 1 == b'-' && char_at arg 2 == 0
      then (end_of_options, record st { optind = st.optind + 1 })
      else if char_at arg 1 == b'-'
      then (end_of_options, st)
      else take_short (drop 1 arg) (record st { optind = st.optind + 1 })

  unfoldable pub getopt : State → ℤ × State
  getopt st =
      if leb (length argv) st.optind
      then (end_of_options, st)
      else (let token = pending st in
          if char_at token 0 == 0 then next_token st else take_short token st)
