-- ===== src/Getopt/Tests.antt =====
-- Tests of option parsing, and its theorems at concrete inputs.
use alma_os.Base.{ℕ, List, [], ◌∷◌, Option, some, none, ◌≡◌, refl, arith}
use alma_os.Base.Text.{codes}
use alma_os.Base.Int.{ℤ, pos}
use alma_os.CString.Texts.{differ}
use alma_os.Getopt.{
  State, initial, LongOption, no_argument, required_argument, getopt, find_short, scan_short,
  take_short, resolve_short, known_short, short_argument, next_token,
}
use alma_os.Getopt.Long.{
  getopt_long, long_token, resolve_long, long_argument, next_argument, by_flag, store_cell,
  find_long, find_equals, one_on, length_up_to, name_length, names_match,
}
use alma_os.Getopt.Progress.{parse, parse_total, cons_result, is_end}
use alma_os.Getopt.Clusters.{IsFlag, calls, calls-cluster}

abbrev longopts : List LongOption
longopts =
    record { name = codes "help"; has_arg = no_argument; flag = none; val = pos b'h' }
    ∷ record { name = codes "out"; has_arg = required_argument; flag = none; val = pos b'o' }
    ∷ record { name = codes "verbose"; has_arg = no_argument; flag = some 7; val = pos 1 }
    ∷ []

abbrev optstring : List ℕ
optstring = codes "abo:"

abbrev command : List (List ℕ)
command =
    codes "tool"
    ∷ codes "-ab"
    ∷ codes "--out=x"
    ∷ codes "--verbose"
    ∷ codes "-oy"
    ∷ codes "file"
    ∷ []

-- The result codes of the whole command, and where the operands start.
results : Option (List ℤ × State) → List ℤ
results none = []
results (some (cs, st)) = cs

parse-command :
    results (parse command optstring longopts none 60 initial)
    ≡ pos b'a' ∷ pos b'b' ∷ pos b'o' ∷ pos 0 ∷ pos b'o' ∷ []
unfolding results parse cons_result is_end getopt_long getopt take_short resolve_short known_short
    short_argument next_token find_short scan_short long_token resolve_long long_argument
    next_argument by_flag store_cell find_long find_equals one_on length_up_to name_length
    names_match differ
parse-command = refl

parse_total_example :
    (r : List ℤ × State) × (parse command optstring longopts none 60 initial ≡ some r)
parse_total_example = parse_total command optstring longopts none 60 initial (omega arith)

IsFlag-a : IsFlag optstring b'a'
unfolding find_short scan_short
IsFlag-a = (omega arith, (codes "abo:", refl, omega arith))

IsFlag-b : IsFlag optstring b'b'
unfolding find_short scan_short
IsFlag-b = (omega arith, (codes "bo:", refl, omega arith))

in_cluster : State
in_cluster = record initial { next = some (codes "ab"); optind = 2 }

calls-cluster_example :
    ((calls command optstring 2 in_cluster).0 ≡ pos b'a' ∷ pos b'b' ∷ [])
    × ((calls command optstring 2 in_cluster).1.next ≡ some [])
    × ((calls command optstring 2 in_cluster).1.optind ≡ 2)
unfolding in_cluster
calls-cluster_example =
    calls-cluster command optstring (codes "ab") in_cluster refl (IsFlag-a, (IsFlag-b, tt))
      (omega arith)
