-- ===== src/Fat/Clusters.antt =====
-- The table of clusters in src/bootloader/stage2/fat.c: two entries of 12 bits in three bytes.
use alma_os.Base.{
  ℕ, zero, suc, List, [], ◌∷◌, ◌+◌, ◌*◌, ◌/◌, ◌%◌, ◌<◌, ◌^◌, ◌==◌, if◌then◌else◌, length, get_or,
  All, ◌≡◌, ap₂, ◌∙◌, arith, u32,
}
use alma_os.Fat.{byte_at, word_at, next_cluster}

-- A FAT12 table of its entries, as the disk holds it.
unfoldable pub packed : List ℕ → List ℕ
packed [] = []
packed (a ∷ []) = a % 2 ^ 8 ∷ a / 2 ^ 8 ∷ []
packed (a ∷ b ∷ es) = a % 2 ^ 8 ∷ (a / 2 ^ 8 + b % 2 ^ 4 * 2 ^ 4) ∷ b / 2 ^ 4 ∷ packed es

-- `next_cluster` without its wrap.
entry_at : List ℕ → ℕ → ℕ
entry_at table c =
    let val = word_at table (c * 3 / 2) in if c % 2 == 0 then val % 2 ^ 12 else val / 2 ^ 4

word_at-step :
    (x y z : ℕ) (table : List ℕ) (i j : ℕ)
    → i ≡ suc (suc (suc j))
    → word_at (x ∷ y ∷ z ∷ table) i ≡ word_at table j
word_at-step x y z table i j e =
    let next : i + 1 ≡ suc (suc (suc (j + 1))) = omega (arith, e) in
    ap₂ (λ a b. byte_at (x ∷ y ∷ z ∷ table) a + byte_at (x ∷ y ∷ z ∷ table) b * 2 ^ 8) e next

entry_at-step :
    (x y z : ℕ) (table : List ℕ) (c : ℕ)
    → entry_at (x ∷ y ∷ z ∷ table) (suc (suc c)) ≡ entry_at table c
unfolding entry_at
entry_at-step x y z table c =
    let same_half : suc (suc c) % 2 ≡ c % 2 = omega arith in
    let three_on : suc (suc c) * 3 / 2 ≡ suc (suc (suc (c * 3 / 2))) = omega arith in
    ap₂ (λ p v. if p == 0 then v % 2 ^ 12 else v / 2 ^ 4) same_half
      (word_at-step x y z table (suc (suc c) * 3 / 2) (c * 3 / 2) three_on)

entry_at-packed :
    (es : List ℕ) (c : ℕ)
    → All (λ e. e < 2 ^ 12) es
    → c < length es
    → entry_at (packed es) c ≡ get_or es c 0
unfolding packed entry_at
entry_at-packed [] c a h = absurd (omega (arith, h))
entry_at-packed (x ∷ []) zero a h = omega (arith, a.0)
entry_at-packed (x ∷ []) (suc c) a h = absurd (omega (arith, h))
entry_at-packed (x ∷ y ∷ es) zero a h = omega (arith, a.0)
entry_at-packed (x ∷ y ∷ es) (suc zero) a h = omega (arith, a.0, a.1.0)
entry_at-packed (x ∷ y ∷ es) (suc (suc c)) a h =
    entry_at-step (x % 2 ^ 8) (x / 2 ^ 8 + y % 2 ^ 4 * 2 ^ 4) (y / 2 ^ 4) (packed es) c
    ∙ entry_at-packed es c a.1.1 (omega (arith, h))

-- `FAT_NextCluster` reads back the entry of every cluster that a table packs.
pub next_cluster-packed :
    (es : List ℕ) (cluster : ℕ)
    → All (λ e. e < 2 ^ 12) es
    → cluster < length es
    → length es < 2 ^ 16
    → next_cluster (packed es) cluster ≡ get_or es cluster 0
unfolding next_cluster entry_at
next_cluster-packed es cluster a h small =
    let same : u32 (cluster * 3) ≡ cluster * 3 = omega (arith, h, small) in
    rw same (entry_at-packed es cluster a h)
