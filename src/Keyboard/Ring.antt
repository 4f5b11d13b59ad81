-- ===== src/Keyboard/Ring.antt =====
-- The ring of src/kernel/keyboard.c as a queue of at most 127 characters, oldest first.
use alma_os.Base.{
  ℕ, suc, zero, List, [], ◌∷◌, ◌++◌, ◌+◌, ◌-◌, ◌%◌, ◌<◌, ltb, length, get_or, set, ◌≡◌, ◌≢◌, refl,
  ap, ap₂, arith, if◌then◌else◌, length-set, get_or-set_self, get_or-set_ne, sym, ◌∙◌, ==_iff,
  ==_ne,
}
use native.Mathlib.Decide.{ℕ_discrete}
use alma_os.Keyboard.{Keyboard, buffer_size, push, pop, has_data, read}

-- The `n` characters from index `start` on, going round at the end of the buffer.
abbrev pub slice : List ℕ → ℕ → ℕ → List ℕ
slice buffer start zero = []
slice buffer start (suc n) = get_or buffer start 0 ∷ slice buffer ((start + 1) % buffer_size) n

-- How many characters wait.
abbrev pub waiting : Keyboard → ℕ
waiting s = (s.head + buffer_size - s.tail) % buffer_size

abbrev pub queue : Keyboard → List ℕ
queue s = slice s.buffer s.tail (waiting s)

-- The bounded queue that the ring implements: a full one drops what comes.
unfoldable pub enqueue : List ℕ → ℕ → List ℕ
enqueue q c = if ltb (length q) (buffer_size - 1) then q ++ (c ∷ []) else q

pub record IsValid (s : Keyboard) : Type 0 where
  pub whole : length s.buffer ≡ buffer_size
  pub head_in : s.head < buffer_size
  pub tail_in : s.tail < buffer_size

pub length-slice : (buffer : List ℕ) (start n : ℕ) → length (slice buffer start n) ≡ n
length-slice buffer start zero = refl
length-slice buffer start (suc n) = ap suc (length-slice buffer ((start + 1) % buffer_size) n)

-- A write just past a slice appends to it.
slice-set :
    (buffer : List ℕ) (start n i c : ℕ)
    → length buffer ≡ buffer_size
    → start < buffer_size
    → n < buffer_size - 1
    → i ≡ (start + n) % buffer_size
    → slice (set buffer i c) start (suc n) ≡ slice buffer start n ++ (c ∷ [])
slice-set buffer start zero i c whole inside room at =
    let e : i ≡ start = omega arith in
    rw e (ap (λ k. k ∷ []) (get_or-set_self buffer start c 0 (omega arith)))
slice-set buffer start (suc n) i c whole inside room at =
    ap₂ ◌∷◌ (get_or-set_ne buffer i start c 0 (omega arith)) (
      slice-set buffer ((start + 1) % buffer_size) n i c whole (omega arith) (omega arith)
        (omega arith))

pub push-IsValid : {s : Keyboard} (c : ℕ) → IsValid s → IsValid (push s c)
unfolding push
push-IsValid {s} c v = ground (arith, length-set s.buffer s.head c)

enqueue-full : (q : List ℕ) (c : ℕ) → length q ≡ buffer_size - 1 → enqueue q c ≡ q
unfolding enqueue
enqueue-full q c h = ground arith

enqueue-room : (q : List ℕ) (c : ℕ) → length q < buffer_size - 1 → enqueue q c ≡ q ++ (c ∷ [])
unfolding enqueue
enqueue-room q c h = ground arith

push-full : (s : Keyboard) (c : ℕ) → (s.head + 1) % buffer_size ≡ s.tail → push s c ≡ s
unfolding push
push-full s c h = rw ((==_iff _ _).1 h)

push-room :
    (s : Keyboard) (c : ℕ)
    → (s.head + 1) % buffer_size ≢ s.tail
    → push s c ≡ record s { buffer = set s.buffer s.head c; head = (s.head + 1) % buffer_size }
unfolding push
push-room s c h = rw (==_ne _ _ h)

queue-push_room :
    {s : Keyboard} (c : ℕ)
    → IsValid s
    → (s.head + 1) % buffer_size ≢ s.tail
    → queue (push s c) ≡ queue s ++ (c ∷ [])
queue-push_room {s} c v room =
    rw (push-room s c room, grows)
      (slice-set s.buffer s.tail (waiting s) s.head c v.whole v.tail_in (omega arith) (omega arith))
  where
    grows : ((s.head + 1) % buffer_size + buffer_size - s.tail) % buffer_size ≡ suc (waiting s)
    grows = omega arith

-- `kb_push` appends to the queue of a valid ring, and drops the character when 127 wait.
pub queue-push : {s : Keyboard} (c : ℕ) → IsValid s → queue (push s c) ≡ enqueue (queue s) c
queue-push {s} c v = elim (ℕ_discrete ((s.head + 1) % buffer_size) s.tail) [
  | yes full ↦
      rw (push-full s c full)
        (sym (enqueue-full (queue s) c (length-slice s.buffer s.tail (waiting s) ∙ omega arith)))
  | no room ↦
      queue-push_room c v room
      ∙ sym (enqueue-room (queue s) c (rw (length-slice s.buffer s.tail (waiting s)) (omega arith)))
]

pub pop-IsValid : {s : Keyboard} → IsValid s → IsValid (pop s).1
unfolding pop
pop-IsValid v = ground arith

-- `has_data` says whether the queue of a valid ring holds something.
pub has_data-queue : {s : Keyboard} → IsValid s → has_data s ≡ ltb 0 (length (queue s))
unfolding has_data
has_data-queue {s} v = ground (arith, length-slice s.buffer s.tail (waiting s))

-- What a non-blocking read makes of a queue: 0 if it is empty, its first character if not.
unfoldable pub dequeue : List ℕ → ℕ × List ℕ
dequeue [] = (0, [])
dequeue (c ∷ q) = (c, q)

slice_pos :
    (buffer : List ℕ) (start n : ℕ)
    → 0 < n
    → slice buffer start n
      ≡ get_or buffer start 0 ∷ slice buffer ((start + 1) % buffer_size) (n - 1)
slice_pos buffer start zero h = absurd (omega arith)
slice_pos buffer start (suc n) h = ap (λ k. slice buffer start (suc k)) (omega arith)

pub queue-pop : {s : Keyboard} → IsValid s → s.head ≢ s.tail → queue s ≡ (pop s).0 ∷ queue (pop s).1
unfolding pop
queue-pop {s} v some_wait =
    slice_pos s.buffer s.tail (waiting s) (omega arith)
    ∙ ap (λ k. get_or s.buffer s.tail 0 ∷ slice s.buffer ((s.tail + 1) % buffer_size) k)
        (omega arith)

read-empty : (s : Keyboard) → s.head ≡ s.tail → read s ≡ (0, s)
unfolding read
read-empty s h = rw ((==_iff _ _).1 h)

read-pop : (s : Keyboard) → s.head ≢ s.tail → read s ≡ pop s
unfolding read
read-pop s h = rw (==_ne _ _ h)

slice_none : (buffer : List ℕ) (start n : ℕ) → n ≡ 0 → slice buffer start n ≡ []
slice_none buffer start zero h = refl
slice_none buffer start (suc n) h = absurd (omega arith)

pub queue-empty : {s : Keyboard} → IsValid s → s.head ≡ s.tail → queue s ≡ []
queue-empty {s} v h = slice_none s.buffer s.tail (waiting s) (omega arith)

-- `keyboard_read` takes the oldest character, and leaves the rest in order.
pub queue-read :
    {s : Keyboard}
    → IsValid s
    → let (c, s') = read s in ((c, queue s') ≡ dequeue (queue s)) × IsValid s'
unfolding dequeue
queue-read {s} v = elim (ℕ_discrete s.head s.tail) [
  | yes none_wait ↦ rw (read-empty s none_wait, queue-empty v none_wait) (refl, v)
  | no some_wait ↦ rw (read-pop s some_wait, queue-pop v some_wait) (refl, pop-IsValid v)
]
