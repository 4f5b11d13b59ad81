-- ===== src/Getopt/Progress.antt =====
-- Each call of `getopt` and `getopt_long` of src/kernel/getopt.c consumes something, so that the
-- loop over the options of a command ends.
use alma_os.Base.{
  ℕ, zero, suc, List, [], ◌∷◌, Bool, true, false, Option, none, some, ◌+◌, ◌<◌, ◌≤◌, ◌==◌,
  if◌then◌else◌, length, get_or, drop, ◌≡◌, ◌≢◌, ◌⊎◌, inl, inr, refl, arith, Bool-cases, ◌∙◌, ap,
}
use alma_os.Base.Int.{ℤ, pos, negsuc}
use alma_os.Getopt.{
  end_of_options, HasArg, no_argument, required_argument, optional_argument, LongOption, State,
  char_at, getopt, pending, find_short, short_argument, known_short, resolve_short, take_short,
  next_token,
}
use alma_os.Getopt.Long.{
  by_flag, store_cell, next_argument, long_argument, resolve_long, long_token, getopt_long,
  find_long, find_equals, name_length,
}

-- The characters of some elements of `argv`, their terminators included.
abbrev pub total : List (List ℕ) → ℕ
total [] = 0
total (arg ∷ args) = suc (length arg) + total args

-- What is left to parse.
abbrev pub left : List (List ℕ) → State → ℕ
left argv st = total (drop st.optind argv) + length (pending st)

total-drop :
    (argv : List (List ℕ)) (i : ℕ)
    → i < length argv
    → total (drop i argv) ≡ suc (length (get_or argv i [])) + total (drop (i + 1) argv)
total-drop [] i h = absurd (omega arith)
total-drop (arg ∷ args) zero h = refl
total-drop (arg ∷ args) (suc i) h =
    total-drop args i (omega arith)
    ∙ ap (λ k. suc (length (get_or args i [])) + total (drop k (arg ∷ args))) (one_more i)
  where
    one_more : (i : ℕ) → suc (i + 1) ≡ suc i + 1
    one_more i = omega arith

-- One more element is behind.
total-drop_le :
    (argv : List (List ℕ)) (i : ℕ)
    → i < length argv
    → total (drop (i + 1) argv) ≤ total (drop i argv)
total-drop_le argv i h = omega (arith, total-drop argv i h)

left-short_argument :
    (argv : List (List ℕ)) (optstring : List ℕ) (opt : ℕ) (rest : List ℕ) (st : State)
    → left argv (short_argument argv optstring opt rest st).1 ≤ total (drop st.optind argv)
unfolding short_argument
left-short_argument argv optstring opt rest st = ground (arith, total-drop_le argv st.optind)

left-known_short :
    (argv : List (List ℕ)) (optstring : List ℕ) (opt : ℕ) (p rest : List ℕ) (st : State)
    → left argv (known_short argv optstring opt p rest st).1
      ≤ total (drop st.optind argv) + length rest
unfolding known_short
left-known_short argv optstring opt p rest st =
    ground (arith, left-short_argument argv optstring opt rest st)

left-resolve_short :
    (argv : List (List ℕ)) (optstring : List ℕ) (opt : ℕ) (rest : List ℕ) (st : State)
    (found : Option (List ℕ))
    → left argv (resolve_short argv optstring opt rest st found).1
      ≤ total (drop st.optind argv) + length rest
unfolding resolve_short
left-resolve_short argv optstring opt rest st none = omega arith
left-resolve_short argv optstring opt rest st (some p) =
    left-known_short argv optstring opt p rest st

left-take_short :
    (argv : List (List ℕ)) (optstring : List ℕ) (c : ℕ) (cs : List ℕ) (st : State)
    → left argv (take_short argv optstring (c ∷ cs) st).1 ≤ total (drop st.optind argv) + length cs
unfolding take_short
left-take_short argv optstring c cs st =
    left-resolve_short argv optstring c cs st (find_short optstring c)

-- A token that is not empty loses a character at least.
left-take_short_lt :
    (argv : List (List ℕ)) (optstring token : List ℕ) (st : State)
    → char_at token 0 ≢ 0
    → left argv (take_short argv optstring token st).1 < total (drop st.optind argv) + length token
left-take_short_lt argv optstring [] st h = absurd (h refl)
left-take_short_lt argv optstring (c ∷ cs) st h =
    omega (arith, left-take_short argv optstring c cs st)

char_at-drop : (arg : List ℕ) → char_at (drop 1 arg) 0 ≡ char_at arg 1
char_at-drop [] = refl
char_at-drop (a ∷ more) = refl

length-drop_one : (arg : List ℕ) → length (drop 1 arg) ≤ length arg
length-drop_one [] = omega arith
length-drop_one (a ∷ more) = omega arith

-- `r` is the end of the options, or has less than `n` left.
abbrev pub Consumes : List (List ℕ) → ℕ → ℤ × State → Type 0
Consumes argv n r = (r.0 ≡ end_of_options) ⊎ (left argv r.1 < n)

Consumes-next_token :
    (argv : List (List ℕ)) (optstring : List ℕ) (st : State)
    → st.optind < length argv
    → Consumes argv (left argv st) (next_token argv optstring st)
unfolding next_token
Consumes-next_token argv optstring st h =
    let arg = get_or argv st.optind [] in
    let st' = record st { optind = st.optind + 1 } in
    ground (
      arith,
      total-drop argv st.optind,
      char_at-drop arg,
      length-drop_one arg,
      left-take_short_lt argv optstring (drop 1 arg) st',
    )

Consumes-getopt :
    (argv : List (List ℕ)) (optstring : List ℕ) (st : State)
    → Consumes argv (left argv st) (getopt argv optstring st)
unfolding getopt
Consumes-getopt argv optstring st = ground (
  arith,
  Consumes-next_token argv optstring st,
  left-take_short_lt argv optstring (pending st) st,
)

left-store_cell :
    (argv : List (List ℕ)) (cell : Option ℕ) (v : ℤ) (st : State)
    → left argv (store_cell cell v st) ≡ left argv st
unfolding store_cell
left-store_cell argv none v st = refl
left-store_cell argv (some cell) v st = refl

left-by_flag :
    (argv : List (List ℕ)) (flag : Option ℕ) (val : ℤ) (st : State)
    → left argv (by_flag flag val st).1 ≡ left argv st
unfolding by_flag
left-by_flag argv none val st = refl
left-by_flag argv (some cell) val st = left-store_cell argv (some cell) val st

left-next_argument :
    (argv : List (List ℕ)) (optstring : List ℕ) (o : LongOption) (st : State)
    → left argv (next_argument argv optstring o st).1 ≤ left argv st
unfolding next_argument
left-next_argument argv optstring o st = ground (
  arith,
  total-drop_le argv st.optind,
  left-by_flag argv o.flag o.val
      (record st { optarg = some (get_or argv st.optind []); optind = st.optind + 1 }),
)

left-long_argument :
    (argv : List (List ℕ)) (optstring : List ℕ) (o : LongOption) (has_arg : HasArg)
    (eq : Option (ℕ × List ℕ)) (st : State)
    → left argv (long_argument argv optstring o has_arg eq st).1 ≤ left argv st
unfolding long_argument
left-long_argument argv optstring o no_argument eq st =
    omega (arith, left-by_flag argv o.flag o.val (record st { optarg = none }))
left-long_argument argv optstring o required_argument (some (i, from)) st =
    omega (arith, left-by_flag argv o.flag o.val (record st { optarg = some (drop 1 from) }))
left-long_argument argv optstring o required_argument none st =
    left-next_argument argv optstring o st
left-long_argument argv optstring o optional_argument (some (i, from)) st =
    omega (arith, left-by_flag argv o.flag o.val (record st { optarg = some (drop 1 from) }))
left-long_argument argv optstring o optional_argument none st =
    omega (arith, left-by_flag argv o.flag o.val (record st { optarg = none }))

unfoldable pub is_end : ℤ → Bool
is_end (pos n) = false
is_end (negsuc n) = n == 0

unfoldable pub cons_result : ℤ → Option (List ℤ × State) → Option (List ℤ × State)
cons_result c none = none
cons_result c (some (cs, st)) = some (c ∷ cs, st)

is_end-pos : (c : ℤ) → c ≡ end_of_options → is_end c ≡ true
unfolding is_end
is_end-pos c h = rw h refl

cons_result-IsSome :
    (c : ℤ) (o : Option (List ℤ × State))
    → (r : List ℤ × State) × (o ≡ some r)
    → (r : List ℤ × State) × (cons_result c o ≡ some r)
unfolding cons_result
cons_result-IsSome c none (r, h) = absurd (cc)
cons_result-IsSome c (some (cs, st)) h = ((c ∷ cs, st), refl)

module _ (argv : List (List ℕ)) (optstring : List ℕ) (longopts : List LongOption)
    (longindex : Option ℕ) where
  left-resolve_long :
      (eq : Option (ℕ × List ℕ)) (st : State) (found : Option (ℕ × LongOption))
      → left argv (resolve_long argv optstring longopts longindex eq st found).1 ≤ left argv st
  unfolding resolve_long
  left-resolve_long eq st none = omega arith
  left-resolve_long eq st (some (i, o)) = omega (
    arith,
    left-store_cell argv longindex (pos i) st,
    left-long_argument argv optstring o o.has_arg eq (store_cell longindex (pos i) st),
  )

  left-long_token :
      (name : List ℕ) (st : State)
      → st.optind < length argv
      → left argv (long_token argv optstring longopts longindex name st).1 < left argv st
  unfolding long_token
  left-long_token name st h = omega (
    arith,
    total-drop argv st.optind h,
    left-resolve_long (find_equals name) (record st { optind = st.optind + 1 })
        (find_long longopts name (name_length name) 0),
  )

  -- A call of `getopt_long` either returns -1 or leaves less to parse than there was: characters
  -- of the token at hand and of the elements that follow.
  pub getopt_long-Consumes :
      (st : State) → Consumes argv (left argv st) (getopt_long argv optstring longopts longindex st)
  unfolding getopt_long
  getopt_long-Consumes st =
      let arg = get_or argv st.optind [] in
      ground (arith, Consumes-getopt argv optstring st, left-long_token (drop 2 arg) st)

  -- `while ((c = getopt_long(...)) != -1)`, with the results in order.
  unfoldable pub parse : ℕ → State → Option (List ℤ × State)
  parse zero st = none
  parse (suc fuel) st =
      let (c, st') = getopt_long argv optstring longopts longindex st in
      let rest = parse fuel st' in if is_end c then some ([], st') else cons_result c rest

  goes_on :
      {fuel : ℕ} (st : State)
      → is_end (getopt_long argv optstring longopts longindex st).0 ≡ false
      → left argv st < suc fuel
      → left argv (getopt_long argv optstring longopts longindex st).1 < fuel
  goes_on st go h = elim (getopt_long-Consumes st) [
    | inl e ↦ absurd (cc (is_end-pos _ e))
    | inr less ↦ omega arith
  ]

  -- The usual loop over the options of a command ends: whatever the arguments and the options, as
  -- many rounds as there are characters left, and one more, reach the -1.
  pub parse_total :
      (fuel : ℕ) (st : State)
      → left argv st < fuel
      → (r : List ℤ × State) × (parse fuel st ≡ some r)
  unfolding parse
  parse_total zero st h = absurd (omega arith)
  parse_total (suc fuel) st h =
      let r = getopt_long argv optstring longopts longindex st in
      elim (Bool-cases (is_end r.0)) [
        | inl stop ↦ (([], r.1), rw stop refl)
        | inr go ↦
            rw go (cons_result-IsSome r.0 (parse fuel r.1) (parse_total fuel r.1 (goes_on st go h)))
      ]
