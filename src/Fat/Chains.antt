-- ===== src/Fat/Chains.antt =====
-- Where the bytes of a file of src/bootloader/stage2/fat.c lie on the disk: sector by sector in the
-- clusters of its chain.
use alma_os.Base.{
  ℕ, zero, suc, List, [], ◌∷◌, ◌++◌, Bool, true, false, some, ◌+◌, ◌-◌, ◌*◌, ◌<◌, ◌≤◌, ◌^◌, leb,
  if◌then◌else◌, u32, ◌≡◌, refl, ap, ◌∙◌, arith,
}
use alma_os.Fat.{FileData, Volume, Reader, cluster_to_lba, next_cluster}
use alma_os.Fat.Reading.{left_of, moved, refilled, next_place, refill_file, refill_of, refill}
use alma_os.Fat.Mounting.{cluster_to_lba-exact}
use alma_os.Fat.Streams.{ahead, upcoming}

-- What each sector of the disk holds.
abbrev pub Disk : Type 0
Disk = ℕ → List ℕ

abbrev pub per_cluster : Volume → ℕ
per_cluster v = v.boot.sectors_per_cluster

-- The sectors of cluster `c` from the `i`th one on.
abbrev pub sector_of : Volume → ℕ → ℕ → ℕ
sector_of v c i = v.data_lba + (c - 2) * per_cluster v + i

unfoldable pub sectors : Disk → Volume → ℕ → ℕ → ℕ → List ℕ
sectors disk v c i zero = []
sectors disk v c i (suc n) = disk (sector_of v c i) ++ sectors disk v c (i + 1) n

-- All the bytes of clusters, one after the other.
unfoldable pub cluster_bytes : Disk → Volume → List ℕ → List ℕ
cluster_bytes disk v [] = []
cluster_bytes disk v (c ∷ cs) = sectors disk v c 0 (per_cluster v) ++ cluster_bytes disk v cs

-- A cluster of the data, whose sectors have numbers of 32 bits.
pub record IsCluster (v : Volume) (c : ℕ) : Type 0 where
  pub from_2 : 2 ≤ c
  pub no_end : c < 0xFF8
  pub in_reach : v.data_lba + (c - 2) * per_cluster v + per_cluster v < 2 ^ 32

-- The table leads from `c` through these clusters and then to the end of the chain.
abbrev pub IsChain : Volume → ℕ → List ℕ → Type 0
IsChain v c [] = IsCluster v c × (0xFF8 ≤ next_cluster v.table c)
IsChain v c (d ∷ cs) = IsCluster v c × (next_cluster v.table c ≡ d) × IsChain v d cs

pub IsCluster-chain : (v : Volume) (c : ℕ) (cs : List ℕ) → IsChain v c cs → IsCluster v c
IsCluster-chain v c [] h = h.0
IsCluster-chain v c (d ∷ cs) h = h.0

-- An open file whose buffer holds its current sector, and the clusters that follow its current one.
pub record IsPlaced (disk : Disk) (v : Volume) (cs : List ℕ) (fd : FileData) : Type 0 where
  pub handle : ℕ
  pub open_as : fd.handle ≡ some handle
  pub chain : IsChain v fd.current_cluster cs
  pub in_cluster : fd.sector_in_cluster < per_cluster v
  pub buffered : fd.buffer ≡ disk (sector_of v fd.current_cluster fd.sector_in_cluster)

-- A disk of which each sector can be read.
abbrev pub Serves : Reader → Disk → Type 0
Serves read disk = (lba : ℕ) → read lba 1 ≡ some (disk lba)

pub next_place-inside :
    (v : Volume) (fd : FileData)
    → per_cluster v < 2 ^ 8
    → fd.sector_in_cluster + 1 < per_cluster v
    → next_place v fd ≡ record fd { sector_in_cluster = fd.sector_in_cluster + 1 }
unfolding next_place
next_place-inside v fd byte inside =
    let exact : u32 (fd.sector_in_cluster + 1) ≡ fd.sector_in_cluster + 1 =
      omega (arith, byte, inside) in
    rw exact (rw (more (fd.sector_in_cluster + 1) (per_cluster v) inside) refl)
  where
    more : (a b : ℕ) → a < b → leb b a ≡ false
    more a b h = ground arith

pub next_place-behind :
    (v : Volume) (fd : FileData)
    → per_cluster v < 2 ^ 8
    → fd.sector_in_cluster + 1 ≡ per_cluster v
    → next_place v fd ≡ record fd {
      sector_in_cluster = 0;
      current_cluster = next_cluster v.table fd.current_cluster;
    }
unfolding next_place
next_place-behind v fd byte last =
    let exact : u32 (fd.sector_in_cluster + 1) ≡ per_cluster v = omega (arith, byte, last) in
    rw exact (rw (least (per_cluster v)) refl)
  where
    least : (a : ℕ) → leb a a ≡ true
    least a = ground arith

-- What `refill_file` does at the next place.
abbrev pub filled : Reader → Volume → FileData → Bool × FileData
filled read v on =
    if leb 0xFF8 on.current_cluster
    then (false, record on { size = on.position })
    else refilled on (read (u32 (cluster_to_lba v on.current_cluster + on.sector_in_cluster)) 1)

pub refill-filled :
    (read : Reader) (v : Volume) (fd : FileData) (h : ℕ)
    → fd.handle ≡ some h
    → refill read v fd ≡ filled read v (next_place v fd)
unfolding refill
refill-filled read v fd h e = ap (refill_of read v fd) e ∙ unfold refill_of refill_file in refl

sector_of-exact :
    (v : Volume) (c i : ℕ)
    → IsCluster v c
    → i < per_cluster v
    → u32 (cluster_to_lba v c + i) ≡ sector_of v c i
sector_of-exact v c i k inside =
    let exact =
      cluster_to_lba-exact v c k.from_2 (omega (arith, k.no_end)) (omega (arith, k.in_reach)) in
    omega (arith, exact, k.in_reach, inside)

pub filled-served :
    (read : Reader) (disk : Disk) (v : Volume) (on : FileData)
    → Serves read disk
    → IsCluster v on.current_cluster
    → on.sector_in_cluster < per_cluster v
    → filled read v on
      ≡ (true, record on { buffer = disk (sector_of v on.current_cluster on.sector_in_cluster) })
unfolding refilled
filled-served read disk v on serves k inside =
    let c = on.current_cluster in
    let open_end : leb 0xFF8 c ≡ false = not_end c k.no_end in
    let given : read (u32 (cluster_to_lba v c + on.sector_in_cluster)) 1
        ≡ some (disk (sector_of v c on.sector_in_cluster)) =
      serves _ ∙ ap (λ lba. some (disk lba)) (sector_of-exact v c on.sector_in_cluster k inside) in
    simp (open_end, given) refl
  where
    not_end : (c : ℕ) → c < 0xFF8 → leb 0xFF8 c ≡ false
    not_end c h = ground arith

pub upcoming-next :
    (k : ℕ) (read : Reader) (v : Volume) (fd fd' : FileData)
    → refill read v (moved fd (left_of fd)) ≡ (true, fd')
    → upcoming (suc k) read v fd ≡ ahead fd ++ upcoming k read v fd'
unfolding upcoming
upcoming-next k read v fd fd' e =
    ap (λ r. ahead fd ++ (if r.0 then upcoming k read v r.1 else [])) e

pub upcoming-end :
    (k : ℕ) (read : Reader) (v : Volume) (fd : FileData)
    → (refill read v (moved fd (left_of fd))).0 ≡ false
    → upcoming (suc k) read v fd ≡ ahead fd ++ []
unfolding upcoming
upcoming-end k read v fd e = rw e refl
