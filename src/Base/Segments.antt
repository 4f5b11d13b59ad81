-- ===== src/Base/Segments.antt =====
-- The first and the later members of lists that are joined.
use Prim.Native.Nat.{ℕ, zero, suc, ◌+◌, ◌-◌, ◌≤◌}
use mathlib.Core.Path.{◌≡◌, refl, sym, ap, ◌∙◌}
use mathlib.Core.List.{List, [], ◌∷◌, ◌++◌}
use native.Mathlib.Omega.{arith}
use alma_os.Base.Lists.{length, take, drop}

module _ {ℓ} {A : Type ℓ} where
  pub length-drop : (n : ℕ) (xs : List A) → length (drop n xs) ≡ length xs - n
  length-drop zero xs = omega arith
  length-drop (suc n) [] = omega arith
  length-drop (suc n) (x ∷ xs) = omega (arith, length-drop n xs)

  drop_nothing : (n : ℕ) → drop {A = A} n [] ≡ []
  drop_nothing zero = refl
  drop_nothing (suc n) = refl

  pub drop-drop : (m n : ℕ) (xs : List A) → drop m (drop n xs) ≡ drop (n + m) xs
  drop-drop m zero xs = ap (λ k. drop k xs) (omega arith)
  drop-drop m (suc n) [] = drop_nothing m ∙ sym (drop_nothing (suc n + m))
  drop-drop m (suc n) (x ∷ xs) =
      drop-drop m n xs ∙ ap (λ k. drop k (x ∷ xs)) {x = suc (n + m)} {y = suc n + m} (omega arith)

  pub take-append : (n : ℕ) (xs ys : List A) → n ≤ length xs → take n (xs ++ ys) ≡ take n xs
  take-append zero xs ys h = refl
  take-append (suc n) [] ys h = absurd (omega (arith, h))
  take-append (suc n) (x ∷ xs) ys h = ap (λ l. x ∷ l) (take-append n xs ys (omega (arith, h)))

  pub drop-append : (n : ℕ) (xs ys : List A) → n ≤ length xs → drop n (xs ++ ys) ≡ drop n xs ++ ys
  drop-append zero xs ys h = refl
  drop-append (suc n) [] ys h = absurd (omega (arith, h))
  drop-append (suc n) (x ∷ xs) ys h = drop-append n xs ys (omega (arith, h))

  -- Past the end of the first list.
  pub take-append_on :
      (n : ℕ) (xs ys : List A) → length xs ≤ n → take n (xs ++ ys) ≡ xs ++ take (n - length xs) ys
  take-append_on n [] ys h = ap (λ k. take k ys) (omega arith)
  take-append_on zero (x ∷ xs) ys h = absurd (omega (arith, h))
  take-append_on (suc n) (x ∷ xs) ys h =
      ap (λ l. x ∷ l) (take-append_on n xs ys (omega (arith, h)))
      ∙ ap (λ k. x ∷ (xs ++ take k ys)) {x = n - length xs} {y = suc n - suc (length xs)}
          (omega arith)

  pub drop-append_on :
      (n : ℕ) (xs ys : List A) → length xs ≤ n → drop n (xs ++ ys) ≡ drop (n - length xs) ys
  drop-append_on n [] ys h = ap (λ k. drop k ys) (omega arith)
  drop-append_on zero (x ∷ xs) ys h = absurd (omega (arith, h))
  drop-append_on (suc n) (x ∷ xs) ys h =
      drop-append_on n xs ys (omega (arith, h))
      ∙ ap (λ k. drop k ys) {x = n - length xs} {y = suc n - suc (length xs)} (omega arith)

  pub take_whole : (n : ℕ) (xs : List A) → length xs ≤ n → take n xs ≡ xs
  take_whole zero [] h = refl
  take_whole zero (x ∷ xs) h = absurd (omega (arith, h))
  take_whole (suc n) [] h = refl
  take_whole (suc n) (x ∷ xs) h = ap (λ l. x ∷ l) (take_whole n xs (omega (arith, h)))
