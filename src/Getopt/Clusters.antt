-- ===== src/Getopt/Clusters.antt =====
-- Clusters of short options (`-abc`) in src/kernel/getopt.c, where more elements follow and where
-- none does.
use alma_os.Base.{
  ℕ, zero, suc, List, [], ◌∷◌, ◌++◌, length-append, true, false, none, some, ◌+◌, ◌<◌, ◌≤◌, leb,
  length, get_or, ◌≡◌, ◌≢◌, refl, arith, ◌∙◌, ap, map, replicate, ==_ne,
}
use alma_os.Base.Int.{ℤ, pos}
use alma_os.Getopt.{
  end_of_options, State, char_at, getopt, pending, find_short, known_short, resolve_short,
  take_short, next_token,
}

-- The character is an option of `optstring` that takes no argument.
abbrev pub IsFlag : List ℕ → ℕ → Type 0
IsFlag optstring c =
    (c ≢ 0) × ((p : List ℕ) × (find_short optstring c ≡ some p) × (char_at p 1 ≢ b':'))

abbrev pub AreFlags : List ℕ → List ℕ → Type 0
AreFlags optstring [] = Unit
AreFlags optstring (c ∷ cs) = IsFlag optstring c × AreFlags optstring cs

leb_lt : (a b : ℕ) → b < a → leb a b ≡ false
leb_lt a b h = ground arith

leb_le : (a b : ℕ) → a ≤ b → leb a b ≡ true
leb_le a b h = ground arith

module _ (argv : List (List ℕ)) (optstring : List ℕ) where
  -- The results of `n` calls in a row, and the state after them.
  unfoldable pub calls : ℕ → State → List ℤ × State
  calls zero st = ([], st)
  calls (suc n) st =
      let (c, st') = getopt argv optstring st in let (cs, st'') = calls n st' in (c ∷ cs, st'')

  calls-suc :
      (n : ℕ) (st : State) (c : ℤ) (st' : State)
      → getopt argv optstring st ≡ (c, st')
      → calls (suc n) st ≡ (c ∷ (calls n st').0, (calls n st').1)
  unfolding calls
  calls-suc n st c st' e = ap {B = List ℤ × State} (λ r. (r.0 ∷ (calls n r.1).0, (calls n r.1).1)) e

  getopt-done :
      (st : State) → length argv ≤ st.optind → getopt argv optstring st ≡ (end_of_options, st)
  unfolding getopt
  getopt-done st h = rw (leb_le (length argv) st.optind h) refl

  calls-done :
      (n : ℕ) (st : State) → length argv ≤ st.optind → calls n st ≡ (replicate n end_of_options, st)
  unfolding calls
  calls-done zero st h = refl
  calls-done (suc n) st h =
      calls-suc n st end_of_options st (getopt-done st h)
      ∙ ap {B = List ℤ × State} (λ r. (end_of_options ∷ r.0, r.1)) (calls-done n st h)

  calls-zero : (st : State) → calls 0 st ≡ ([], st)
  unfolding calls
  calls-zero st = refl

  take_short-flag :
      (c : ℕ) (cs : List ℕ) (st : State)
      → IsFlag optstring c
      → take_short argv optstring (c ∷ cs) st ≡ (pos c, record st { optarg = none; next = some cs })
  unfolding take_short resolve_short known_short
  take_short-flag c cs st (nonzero, (p, found, plain)) =
      rw (found, resolve_short) (rw (==_ne _ _ plain) refl)

  getopt-pending :
      (c : ℕ) (cs : List ℕ) (st : State)
      → st.next ≡ some (c ∷ cs)
      → c ≢ 0
      → st.optind < length argv
      → getopt argv optstring st ≡ take_short argv optstring (c ∷ cs) st
  unfolding getopt
  getopt-pending c cs st at nonzero h =
      let e : pending st ≡ c ∷ cs = rw at refl in
      rw (leb_lt (length argv) st.optind h, e, ==_ne c 0 nonzero) refl

  -- While an element of `argv` follows the cluster, one call for each letter of a cluster of options
  -- without arguments returns these letters in order, and stays at that element.
  pub calls-cluster :
      (cs : List ℕ) (st : State)
      → st.next ≡ some cs
      → AreFlags optstring cs
      → st.optind < length argv
      → ((calls (length cs) st).0 ≡ map pos cs)
        × ((calls (length cs) st).1.next ≡ some [])
        × ((calls (length cs) st).1.optind ≡ st.optind)
  calls-cluster [] st at flags h = rw calls-zero (refl, at, refl)
  calls-cluster (c ∷ cs) st at flags h =
      let st' = record st { optarg = none; next = some cs } in
      let rest = calls-cluster cs st' refl flags.1 h in
      let one = getopt-pending c cs st at flags.0.0 h ∙ take_short-flag c cs st flags.0 in
      rw (calls-suc (length cs) st (pos c) st' one) (ap (λ r. pos c ∷ r) rest.0, rest.1, rest.2)

  -- The element at `optind` is a cluster.
  getopt-cluster :
      (c : ℕ) (cs : List ℕ) (st : State)
      → pending st ≡ []
      → st.optind < length argv
      → get_or argv st.optind [] ≡ b'-' ∷ c ∷ cs
      → c ≢ 0
      → c ≢ b'-'
      → getopt argv optstring st
        ≡ take_short argv optstring (c ∷ cs) (record st { optind = st.optind + 1 })
  unfolding getopt next_token
  getopt-cluster c cs st empty h at nonzero nodash =
      rw (leb_lt (length argv) st.optind h, empty, at, ==_ne c 0 nonzero, ==_ne c b'-' nodash) refl

get_or-append :
    (before : List (List ℕ)) (arg : List ℕ) → get_or (before ++ (arg ∷ [])) (length before) [] ≡ arg
get_or-append [] arg = refl
get_or-append (b ∷ bs) arg = get_or-append bs arg

-- A cluster of options without arguments that is the last element of `argv` loses all its letters
-- but the first: the first call returns that letter and moves `optind` to the end, and every further
-- call returns -1, with the rest of the cluster still pending.
pub calls-last_cluster :
    (before : List (List ℕ)) (optstring : List ℕ) (c : ℕ) (cs : List ℕ) (st : State) (further : ℕ)
    → pending st ≡ []
    → st.optind ≡ length before
    → IsFlag optstring c
    → c ≢ b'-'
    → let argv = before ++ ((b'-' ∷ c ∷ cs) ∷ []) in
      ((calls argv optstring (suc further) st).0 ≡ pos c ∷ replicate further end_of_options)
      × ((calls argv optstring (suc further) st).1.next ≡ some cs)
      × ((calls argv optstring (suc further) st).1.optind ≡ length argv)
calls-last_cluster before optstring c cs st further empty at flag nodash =
    let argv = before ++ ((b'-' ∷ c ∷ cs) ∷ []) in
    let size = length-append before ((b'-' ∷ c ∷ cs) ∷ []) in
    let st1 = record st { optind = st.optind + 1 } in
    let st2 = record st1 { optarg = none; next = some cs } in
    let first =
      getopt-cluster argv optstring c cs st empty (omega (arith, size))
        (rw at (get_or-append before (b'-' ∷ c ∷ cs))) flag.0 nodash
      ∙ take_short-flag argv optstring c cs st1 flag in
    rw
      (
        calls-suc argv optstring further st (pos c) st2 first,
        calls-done argv optstring further st2 (omega (arith, size)),
      )
      (refl, refl, omega (arith, size))

-- The header of getopt.h says that `optind = 1` prepares for a new `argv`. It does not: what is
-- pending of an old cluster is taken before anything of the new `argv`.
pub getopt-stale :
    (argv : List (List ℕ)) (optstring : List ℕ) (c : ℕ) (cs : List ℕ) (st : State)
    → st.next ≡ some (c ∷ cs)
    → IsFlag optstring c
    → 1 < length argv
    → (getopt argv optstring (record st { optind = 1 })).0 ≡ pos c
getopt-stale argv optstring c cs st at flag h =
    rw
      (
        getopt-pending argv optstring c cs (record st { optind = 1 }) at flag.0 h,
        take_short-flag argv optstring c cs (record st { optind = 1 }) flag,
      )
      refl
