-- ===== src/Getopt/Long.antt =====
-- `getopt_long` of src/kernel/getopt.c.
use alma_os.Base.{
  ℕ, List, [], ◌∷◌, Bool, not, ◌&&◌, ◌||◌, Option, none, some, ◌+◌, ◌==◌, leb, ltb, if◌then◌else◌,
  length, get_or, take, drop,
}
use alma_os.Base.Int.{ℤ, pos}
use alma_os.CString.Texts.{differ}
use alma_os.Getopt.{
  end_of_options, is_zero, HasArg, no_argument, required_argument, optional_argument, LongOption,
  State, char_at, silent, getopt, pending,
}

unfoldable pub one_on : Option (ℕ × List ℕ) → Option (ℕ × List ℕ)
one_on none = none
one_on (some (i, eq)) = some (i + 1, eq)

-- Where the first `=` of a name stands, and what is left from it on.
unfoldable pub find_equals : List ℕ → Option (ℕ × List ℕ)
unfolding one_on
find_equals [] = none
find_equals (c ∷ cs) =
    let rest = one_on (find_equals cs) in if c == b'=' then some (0, c ∷ cs) else rest

unfoldable pub length_up_to : Option (ℕ × List ℕ) → List ℕ → ℕ
length_up_to none name = length name
length_up_to (some (i, eq)) name = i

-- `nlen`
unfoldable pub name_length : List ℕ → ℕ
name_length name = length_up_to (find_equals name) name

-- `strncmp(...) == 0 && name[nlen] == '\0'`, by what `strncmp` does on texts.
unfoldable pub names_match : List ℕ → List ℕ → ℕ → Bool
names_match option_name name nlen =
    is_zero (differ (take nlen option_name) (take nlen name)) && char_at option_name nlen == 0

-- The first option that matches, and its index; `none` for `found < 0`.
unfoldable pub find_long : List LongOption → List ℕ → ℕ → ℕ → Option (ℕ × LongOption)
find_long [] name nlen i = none
find_long (o ∷ os) name nlen i =
    let rest = find_long os name nlen (i + 1) in
    if names_match o.name name nlen then some (i, o) else rest

unfoldable pub store_cell : Option ℕ → ℤ → State → State
store_cell none v st = st
store_cell (some cell) v st = record st { cells = λ c. if c == cell then v else st.cells c }

-- The return by `flag`.
unfoldable pub by_flag : Option ℕ → ℤ → State → ℤ × State
by_flag none val st = (val, st)
by_flag (some cell) val st = (pos 0, store_cell (some cell) val st)

module _ (argv : List (List ℕ)) (optstring : List ℕ) where
  -- `--name` without `=`, where the option requires an argument.
  unfoldable pub next_argument : LongOption → State → ℤ × State
  next_argument o st =
      if ltb st.optind (length argv)
      then by_flag o.flag o.val
          (record st { optarg = some (get_or argv st.optind []); optind = st.optind + 1 })
      else (pos (if silent optstring then b':' else b'?'), record st { optopt = 0 })

  -- The option is found; `eq` is what is left of the token from the `=` on.
  unfoldable pub long_argument : LongOption → HasArg → Option (ℕ × List ℕ) → State → ℤ × State
  long_argument o no_argument eq st = by_flag o.flag o.val (record st { optarg = none })
  long_argument o required_argument (some (i, from)) st =
      by_flag o.flag o.val (record st { optarg = some (drop 1 from) })
  long_argument o required_argument none st = next_argument o st
  long_argument o optional_argument (some (i, from)) st =
      by_flag o.flag o.val (record st { optarg = some (drop 1 from) })
  long_argument o optional_argument none st = by_flag o.flag o.val (record st { optarg = none })

  module _ (longopts : List LongOption) (longindex : Option ℕ) where
    -- What follows from the search of `longopts`.
    unfoldable pub resolve_long : Option (ℕ × List ℕ) → State → Option (ℕ × LongOption) → ℤ × State
    resolve_long eq st none = (pos b'?', record st { optopt = 0 })
    resolve_long eq st (some (i, o)) =
        long_argument o o.has_arg eq (store_cell longindex (pos i) st)

    -- A token that starts with `--`: `name` is what follows.
    unfoldable pub long_token : List ℕ → State → ℤ × State
    long_token name st =
        resolve_long (find_equals name) (record st { optind = st.optind + 1 })
          (find_long longopts name (name_length name) 0)

    unfoldable pub getopt_long : State → ℤ × State
    getopt_long st =
        if leb (length argv) st.optind
        then (end_of_options, st)
        else if not (char_at (pending st) 0 == 0)
        then getopt argv optstring st
        else (let arg = get_or argv st.optind [] in
            if not (char_at arg 0 == b'-') || char_at arg 1 == 0
            then (end_of_options, st)
            else if char_at arg 1 == b'-' && char_at arg 2 == 0
            then (end_of_options, record st { optind = st.optind + 1 })
            else if char_at arg 1 == b'-'
            then long_token (drop 2 arg) st
            else getopt argv optstring st)
