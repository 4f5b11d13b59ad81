-- ===== src/Fat/Contents.antt =====
-- A file of src/bootloader/stage2/fat.c gives the bytes of its clusters in their order on the disk.
use alma_os.Base.{
  ℕ, zero, suc, List, [], ◌∷◌, ◌++◌, true, false, some, ◌+◌, ◌-◌, ◌*◌, ◌%◌, ◌<◌, ◌≤◌, ◌^◌, leb,
  length, drop, length-append, ◌≡◌, refl, sym, ap, ◌∙◌, arith,
}
use mathlib.Core.List.{append_assoc}
use alma_os.Base.Segments.{drop-append, drop-append_on}
use alma_os.Fat.{FileData, Volume, Reader, next_cluster}
use alma_os.Fat.Reading.{offset_of, left_of, moved, next_place, refill}
use alma_os.Fat.Streams.{ahead, upcoming}
use alma_os.Fat.Chains.{
  Disk, per_cluster, sector_of, sectors, cluster_bytes, IsCluster, IsCluster-chain, IsPlaced,
  Serves, next_place-inside, next_place-behind, filled, refill-filled, filled-served, upcoming-next,
  upcoming-end,
}

-- The sectors of some clusters.
unfoldable pub sectors_of : Volume → List ℕ → ℕ
sectors_of v [] = 0
sectors_of v (c ∷ cs) = per_cluster v + sectors_of v cs

-- A file at the beginning of sector `i` of cluster `c`.
abbrev at_sector : Disk → Volume → FileData → ℕ → ℕ → FileData
at_sector disk v fd c i = record (moved fd (left_of fd)) {
  current_cluster = c;
  sector_in_cluster = i;
  buffer = disk (sector_of v c i);
}

ahead-at_sector :
    (disk : Disk) (v : Volume) (fd : FileData) (c i : ℕ)
    → ahead (at_sector disk v fd c i) ≡ disk (sector_of v c i)
unfolding moved
ahead-at_sector disk v fd c i =
    ap (λ o. drop o (disk (sector_of v c i))) {x = offset_of (moved fd (left_of fd))} {y = 0}
      (omega arith)

-- What follows when the next sector is `i` of cluster `c`.
upcoming-at_sector :
    (k : ℕ) (read : Reader) (disk : Disk) (v : Volume) (fd : FileData) (h c i : ℕ) (rest : List ℕ)
    → Serves read disk
    → fd.handle ≡ some h
    → IsCluster v c
    → i < per_cluster v
    → next_place v (moved fd (left_of fd))
      ≡ record (moved fd (left_of fd)) { current_cluster = c; sector_in_cluster = i }
    → upcoming k read v (at_sector disk v fd c i) ≡ ahead (at_sector disk v fd c i) ++ rest
    → upcoming (suc k) read v fd ≡ ahead fd ++ (disk (sector_of v c i) ++ rest)
unfolding moved
upcoming-at_sector k read disk v fd h c i rest serves open_as cluster inside next later =
    let on = record (moved fd (left_of fd)) { current_cluster = c; sector_in_cluster = i } in
    let there =
      refill-filled read v (moved fd (left_of fd)) h open_as
      ∙ (ap (filled read v) next ∙ filled-served read disk v on serves cluster inside) in
    upcoming-next k read v fd (at_sector disk v fd c i) there
    ∙ ap (λ bs. ahead fd ++ bs) (later ∙ ap (λ bs. bs ++ rest) (ahead-at_sector disk v fd c i))

pub upcoming-sectors :
    (cs : List ℕ) (n : ℕ) (read : Reader) (disk : Disk) (v : Volume) (fd : FileData)
    → Serves read disk
    → per_cluster v < 2 ^ 8
    → IsPlaced disk v cs fd
    → fd.sector_in_cluster + suc n ≡ per_cluster v
    → upcoming (suc (n + sectors_of v cs)) read v fd
      ≡ ahead fd
        ++ (sectors disk v fd.current_cluster (fd.sector_in_cluster + 1) n
            ++ cluster_bytes disk v cs)
unfolding sectors sectors_of cluster_bytes moved
upcoming-sectors [] zero read disk v fd serves byte p last =
    let g = moved fd (left_of fd) in
    let at_end = p.chain.1 in
    let behind = next_place-behind v g byte (omega (arith, last)) in
    let stops : (refill read v g).0 ≡ false =
      ap (λ r. r.0) (refill-filled read v g p.handle p.open_as ∙ ap (filled read v) behind)
      ∙ simp (ended (next_cluster v.table fd.current_cluster) at_end) refl in
    upcoming-end (0 + 0) read v fd stops
  where
    ended : (c : ℕ) → 0xFF8 ≤ c → leb 0xFF8 c ≡ true
    ended c h = ground arith
upcoming-sectors (d ∷ cs) zero read disk v fd serves byte p last =
    let g = moved fd (left_of fd) in
    let m = per_cluster v - 1 in
    let all : suc m ≡ per_cluster v = omega (arith, last) in
    let cluster = IsCluster-chain v d cs p.chain.2 in
    let first : 0 < per_cluster v = omega (arith, last) in
    let next =
      next_place-behind v g byte (omega (arith, last))
      ∙ ap (λ c. record g { sector_in_cluster = 0; current_cluster = c }) p.chain.1 in
    let placed : IsPlaced disk v cs (at_sector disk v fd d 0) = record {
      handle = p.handle;
      open_as = p.open_as;
      chain = p.chain.2;
      in_cluster = first;
      buffered = refl;
    } in
    let later =
      upcoming-sectors cs m read disk v (at_sector disk v fd d 0) serves byte placed
        (omega (arith, all)) in
    let rest = sectors disk v d (0 + 1) m ++ cluster_bytes disk v cs in
    ap (λ (k : ℕ). upcoming (suc k) read v fd) {x = 0 + (per_cluster v + sectors_of v cs)}
      {y = suc (m + sectors_of v cs)} (omega (arith, all))
    ∙ (upcoming-at_sector (suc (m + sectors_of v cs)) read disk v fd p.handle d 0 rest serves
          p.open_as cluster first next later
        ∙ ap (λ bs. ahead fd ++ bs)
            (sym (
                append_assoc (disk (sector_of v d 0)) (sectors disk v d (0 + 1) m)
                  (cluster_bytes disk v cs))
              ∙ ap (λ (k : ℕ). sectors disk v d 0 k ++ cluster_bytes disk v cs) all))
upcoming-sectors cs (suc n) read disk v fd serves byte p last =
    let g = moved fd (left_of fd) in
    let c = fd.current_cluster in
    let i = fd.sector_in_cluster in
    let inside : i + 1 < per_cluster v = omega (arith, last) in
    let cluster = IsCluster-chain v c cs p.chain in
    let next = next_place-inside v g byte inside in
    let placed : IsPlaced disk v cs (at_sector disk v fd c (i + 1)) = record {
      handle = p.handle;
      open_as = p.open_as;
      chain = p.chain;
      in_cluster = inside;
      buffered = refl;
    } in
    let later =
      upcoming-sectors cs n read disk v (at_sector disk v fd c (i + 1)) serves byte placed
        (omega (arith, last)) in
    let rest = sectors disk v c (i + 1 + 1) n ++ cluster_bytes disk v cs in
    ap (λ (k : ℕ). upcoming (suc k) read v fd) {x = suc n + sectors_of v cs}
      {y = suc (n + sectors_of v cs)} (omega arith)
    ∙ (upcoming-at_sector (suc (n + sectors_of v cs)) read disk v fd p.handle c (i + 1) rest serves
          p.open_as cluster inside next later
        ∙ ap (λ bs. ahead fd ++ bs)
            (sym (
              append_assoc (disk (sector_of v c (i + 1))) (sectors disk v c (i + 1 + 1) n)
                (cluster_bytes disk v cs))))

sectors-split :
    (disk : Disk) (v : Volume) (c j i m : ℕ)
    → sectors disk v c j (i + m) ≡ sectors disk v c j i ++ sectors disk v c (j + i) m
unfolding sectors
sectors-split disk v c j zero m =
    ap (sectors disk v c j) {x = 0 + m} {y = m} (omega arith)
    ∙ ap (λ (k : ℕ). sectors disk v c k m) {x = j} {y = j + 0} (omega arith)
sectors-split disk v c j (suc i) m =
    ap (sectors disk v c j) {x = suc i + m} {y = suc (i + m)} (omega arith)
    ∙ (ap (λ bs. disk (sector_of v c j) ++ bs)
          (sectors-split disk v c (j + 1) i m
            ∙ ap (λ (k : ℕ). sectors disk v c (j + 1) i ++ sectors disk v c k m) {x = j + 1 + i}
                {y = j + suc i} (omega arith))
        ∙ sym (
            append_assoc (disk (sector_of v c j)) (sectors disk v c (j + 1) i)
              (sectors disk v c (j + suc i) m)))

length-sectors :
    (disk : Disk) (v : Volume) (c j i : ℕ)
    → ((lba : ℕ) → length (disk lba) ≡ 512)
    → length (sectors disk v c j i) ≡ i * 512
unfolding sectors
length-sectors disk v c j zero whole = refl
length-sectors disk v c j (suc i) whole = omega (
  arith,
  length-append (disk (sector_of v c j)) (sectors disk v c (j + 1) i),
  whole (sector_of v c j),
  length-sectors disk v c (j + 1) i whole,
)

-- What a file has to give: the bytes of its current cluster and of those that follow, without the
-- sectors before the current one and the bytes before its position in that sector.
abbrev pub contents : Disk → Volume → List ℕ → FileData → List ℕ
contents disk v cs fd =
    drop (fd.sector_in_cluster * 512 + fd.position % 512)
      (cluster_bytes disk v (fd.current_cluster ∷ cs))

contents-sectors :
    (disk : Disk) (v : Volume) (cs : List ℕ) (fd : FileData) (n : ℕ)
    → ((lba : ℕ) → length (disk lba) ≡ 512)
    → fd.buffer ≡ disk (sector_of v fd.current_cluster fd.sector_in_cluster)
    → fd.sector_in_cluster + suc n ≡ per_cluster v
    → contents disk v cs fd
      ≡ ahead fd
        ++ (sectors disk v fd.current_cluster (fd.sector_in_cluster + 1) n
            ++ cluster_bytes disk v cs)
unfolding cluster_bytes sectors
contents-sectors disk v cs fd n whole buffered last =
    let c = fd.current_cluster in
    let i = fd.sector_in_cluster in
    let o = fd.position % 512 in
    let here = disk (sector_of v c i) in
    let before = sectors disk v c 0 i in
    let behind = sectors disk v c (i + 1) n in
    let rest = cluster_bytes disk v cs in
    let split : sectors disk v c 0 (per_cluster v) ≡ before ++ (here ++ behind) =
      ap (sectors disk v c 0) (sym last)
      ∙ (sectors-split disk v c 0 i (suc n)
          ∙ ap (λ (k : ℕ). before ++ sectors disk v c k (suc n)) {x = 0 + i} {y = i}
              (omega arith)) in
    let joined : sectors disk v c 0 (per_cluster v) ++ rest ≡ before ++ (here ++ (behind ++ rest)) =
      ap (λ bs. bs ++ rest) split
      ∙ (append_assoc before (here ++ behind) rest
          ∙ ap (λ bs. before ++ bs) (append_assoc here behind rest)) in
    let skipped : length before ≡ i * 512 = length-sectors disk v c 0 i whole in
    ap (drop (i * 512 + o)) joined
    ∙ (drop-append_on (i * 512 + o) before (here ++ (behind ++ rest)) (omega (arith, skipped))
        ∙ (ap (λ (k : ℕ). drop k (here ++ (behind ++ rest))) {x = i * 512 + o - length before}
              {y = o} (omega (arith, skipped))
            ∙ (drop-append o here (behind ++ rest) (omega (arith, whole (sector_of v c i)))
                ∙ ap (λ bs. drop o bs ++ (behind ++ rest)) (sym buffered))))

-- What the code gives, sector by sector, is what lies on the disk.
pub upcoming-contents :
    (read : Reader) (disk : Disk) (v : Volume) (cs : List ℕ) (fd : FileData)
    → Serves read disk
    → ((lba : ℕ) → length (disk lba) ≡ 512)
    → per_cluster v < 2 ^ 8
    → IsPlaced disk v cs fd
    → (k : ℕ) × (upcoming k read v fd ≡ contents disk v cs fd)
upcoming-contents read disk v cs fd serves whole byte p =
    let n = per_cluster v - fd.sector_in_cluster - 1 in
    let last : fd.sector_in_cluster + suc n ≡ per_cluster v = omega (arith, p.in_cluster) in
    (
      suc (n + sectors_of v cs),
      upcoming-sectors cs n read disk v fd serves byte p last
          ∙ sym (contents-sectors disk v cs fd n whole p.buffered last),
    )
