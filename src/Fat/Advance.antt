-- ===== src/Fat/Advance.antt =====
-- What a read does to the loop's numbers, in src/bootloader/stage2/fat.c.
use alma_os.Base.{
  ℕ, suc, List, [], ◌++◌, Bool, true, false, ◌+◌, ◌-◌, ◌<◌, ◌≤◌, ◌^◌, u16, length, take, drop,
  length-append, ◌≡◌, refl, sym, ap, ap₂, ◌∙◌, arith, if◌then◌else◌,
}
use mathlib.Core.List.{append_assoc, append-nil}
use alma_os.Base.Segments.{
  take-append, drop-append, take-append_on, drop-append_on, drop-drop, length-drop, take_whole,
}
use alma_os.Fat.{FileData, Volume, Reader}
use alma_os.Fat.Reading.{Progress, offset_of, left_of, moved, refill, copied, with_file_of}
use alma_os.Fat.Streams.{IsSectored, IsWhole, ahead, upcoming, IsRefilled-refill}

-- What a read of `count` bytes does to the loop's numbers, with `bytes` ahead of it.
pub record IsRead (read : Reader) (v : Volume) (count : ℕ) (bytes : List ℕ) (p q : Progress)
    : Type 0 where
  pub given : q.out ≡ p.out ++ take count bytes
  pub counted : q.bytes_read ≡ p.bytes_read + count
  pub at : q.file.position ≡ p.file.position + count
  pub kind : q.file.is_directory ≡ p.file.is_directory
  pub whole : IsWhole q.file
  pub later : count < length bytes → (k : ℕ) × (upcoming k read v q.file ≡ drop count bytes)

moved_twice :
    (fd : FileData) (c : ℕ)
    → fd.position < 2 ^ 32
    → c < left_of fd
    → moved (moved fd c) (left_of (moved fd c)) ≡ moved fd (left_of fd)
unfolding moved
moved_twice fd c small h = ap (λ (n : ℕ). record fd { position = n }) (omega (arith, small, h))

ahead-moved :
    (fd : FileData) (c : ℕ)
    → fd.position + c < 2 ^ 32
    → c < left_of fd
    → ahead (moved fd c) ≡ drop c (ahead fd)
unfolding moved
ahead-moved fd c small h =
    ap (λ (n : ℕ). drop n fd.buffer) {y = offset_of fd + c} (omega (arith, small, h))
    ∙ sym (drop-drop c (offset_of fd) fd.buffer)

-- The bytes after `c` of those in the buffer.
upcoming-moved :
    (k : ℕ) (read : Reader) (v : Volume) (fd : FileData) (c : ℕ)
    → fd.position + c < 2 ^ 32
    → c < left_of fd
    → IsWhole fd
    → upcoming (suc k) read v (moved fd c) ≡ drop c (upcoming (suc k) read v fd)
unfolding upcoming
upcoming-moved k read v fd c small h whole =
    let rest : Bool × FileData → List ℕ = λ r. if r.0 then upcoming k read v r.1 else [] in
    let room : c ≤ length (ahead fd) =
      omega (arith, length-drop (offset_of fd) fd.buffer, whole, h) in
    ap₂ (λ a m. a ++ rest (refill read v m)) (ahead-moved fd c small h)
      (moved_twice fd c (omega (arith, small)) h)
    ∙ sym (drop-append c (ahead fd) (rest (refill read v (moved fd (left_of fd)))) room)

pub upcoming-on :
    (k : ℕ) (read : Reader) (v : Volume) (fd : FileData)
    → (refill read v (moved fd (left_of fd))).0 ≡ true
    → upcoming (suc k) read v fd
      ≡ ahead fd ++ upcoming k read v (refill read v (moved fd (left_of fd))).1
unfolding upcoming
upcoming-on k read v fd on = rw on refl

pub length-upcoming_last :
    (k : ℕ) (read : Reader) (v : Volume) (fd : FileData)
    → (refill read v (moved fd (left_of fd))).0 ≡ false
    → length (upcoming (suc k) read v fd) ≡ length (ahead fd)
unfolding upcoming
length-upcoming_last k read v fd off = rw off omega (arith, length-append (ahead fd) [])

pub length-ahead : (fd : FileData) → IsWhole fd → length (ahead fd) ≡ left_of fd
length-ahead fd whole = omega (arith, length-drop (offset_of fd) fd.buffer, whole)

abbrev pub InReach : Progress → ℕ → Type 0
InReach p count = (p.file.position + count < 2 ^ 32) × (p.bytes_read + count < 2 ^ 32)

-- A read that ends inside the buffer.
pub IsRead-within :
    (k : ℕ) (read : Reader) (v : Volume) (p : Progress) (count : ℕ)
    → IsWhole p.file
    → InReach p count
    → count < left_of p.file
    → IsRead read v count (upcoming (suc k) read v p.file) p (copied p count)
unfolding copied
IsRead-within k read v p count whole reach h = record {
  given =
      ap (λ l. p.out ++ l)
        (ap (λ n. take n (ahead p.file)) {y = count} (omega (arith, h))
          ∙ sym (take_here count (omega (arith, length-ahead p.file whole, h))));
  counted = omega (arith, reach.1);
  at = unfold moved in omega (arith, reach.0);
  kind = unfold moved in refl;
  whole = unfold moved in whole;
  later = λ more. (suc k, upcoming-moved k read v p.file count reach.0 h whole);
}
  where
    take_here :
        (n : ℕ)
        → n ≤ length (ahead p.file)
        → take n (upcoming (suc k) read v p.file) ≡ take n (ahead p.file)
    take_here n room = unfold upcoming in take-append n (ahead p.file) _ room

-- A read that goes on in the next sector.
pub IsRead-across :
    (k : ℕ) (read : Reader) (v : Volume) (p q : Progress) (count : ℕ)
    → IsWhole p.file
    → IsSectored read
    → InReach p count
    → left_of p.file ≤ count
    → (refill read v (moved p.file (left_of p.file))).0 ≡ true
    → let p' = copied p (left_of p.file) in
      let next = (refill read v p'.file).1 in
      IsRead read v (count - left_of p.file) (upcoming k read v next) (with_file_of p' next) q
      → IsRead read v count (upcoming (suc k) read v p.file) p q
unfolding copied
IsRead-across k read v p q count whole sectored reach h on r =
    let here = ahead p.file in
    let left = left_of p.file in
    let later = upcoming k read v (refill read v (moved p.file left)).1 in
    let long : length here ≡ left = length-ahead p.file whole in
    let joined : upcoming (suc k) read v p.file ≡ here ++ later = upcoming-on k read v p.file on in
    let all_here : take (u16 left) here ≡ here = take_whole (u16 left) here (omega (arith, long)) in
    let fewer : count - length here ≡ count - left = ap (λ (n : ℕ). count - n) long in
    let kept = IsRefilled-refill read v (moved p.file left) sectored (unfold moved in whole) in
    record {
      given =
          r.given
          ∙ (ap (λ l. p.out ++ l ++ take (count - left) later) all_here
              ∙ (append_assoc p.out here (take (count - left) later)
                  ∙ ap (λ l. p.out ++ l)
                      (sym (
                        ap (λ l. take count l) joined
                        ∙ (take-append_on count here later (omega (arith, long, h))
                            ∙ ap (λ (n : ℕ). here ++ take n later) fewer)))));
      counted = r.counted ∙ omega (arith, reach.1, h);
      at =
          r.at
          ∙ (ap (λ (n : ℕ). n + (count - left)) kept.1
              ∙ (unfold moved in omega (arith, reach.0, h)));
      kind = r.kind ∙ (kept.2 ∙ (unfold moved in refl));
      whole = r.whole;
      later = λ more.
          let (k', e) =
            r.later (omega (arith, more, ap length joined, length-append here later, long)) in
          (
            k',
            e
                ∙ sym (
                    ap (λ l. drop count l) joined
                    ∙ (drop-append_on count here later (omega (arith, long, h))
                        ∙ ap (λ (n : ℕ). drop n later) fewer)),
          );
    }

-- A read of all that is left, with no sector after it.
pub IsRead-last :
    (k : ℕ) (read : Reader) (v : Volume) (p : Progress) (count : ℕ)
    → IsWhole p.file
    → IsSectored read
    → InReach p count
    → left_of p.file ≡ count
    → length (upcoming (suc k) read v p.file) ≡ count
    → let p' = copied p count in
      IsRead read v count
        (upcoming (suc k) read v p.file)
        p
        (with_file_of p' (refill read v p'.file).1)
unfolding copied
IsRead-last k read v p count whole sectored reach h all =
    let kept = IsRefilled-refill read v (moved p.file count) sectored (unfold moved in whole) in
    record {
      given =
          ap (λ l. p.out ++ l)
            (ap (λ (n : ℕ). take n (ahead p.file)) {y = count} (omega (arith, h))
              ∙ sym (take_here count (omega (arith, length-ahead p.file whole, h))));
      counted = omega (arith, reach.1);
      at = kept.1 ∙ (unfold moved in omega (arith, reach.0));
      kind = kept.2 ∙ (unfold moved in refl);
      whole = kept.0;
      later = λ more. absurd (omega (arith, more, all));
    }
  where
    take_here :
        (n : ℕ)
        → n ≤ length (ahead p.file)
        → take n (upcoming (suc k) read v p.file) ≡ take n (ahead p.file)
    take_here n room = unfold upcoming in take-append n (ahead p.file) _ room

pub IsRead-nothing :
    (k : ℕ) (read : Reader) (v : Volume) (p : Progress)
    → IsWhole p.file
    → IsRead read v 0 (upcoming k read v p.file) p p
IsRead-nothing k read v p whole = record {
  given = sym (append-nil p.out);
  counted = omega arith;
  at = omega arith;
  kind = refl;
  whole = whole;
  later = λ more. (k, refl);
}
