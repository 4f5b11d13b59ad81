-- ===== src/Keyboard/Decode.antt =====
-- The interrupt handler of src/kernel/keyboard.c against `Spec`: flags, characters, queue.
use alma_os.Base.{
  ℕ, List, Bool, true, false, ◌&&◌, ◌%◌, ◌<◌, ◌==◌, ltb, if◌then◌else◌, bit_xor, has_bit, ◌≡◌, refl,
  arith, Bool-cases, inl, inr, checked_below, checked_below-at, ==_iff, none, some,
}
use alma_os.Keyboard.{Keyboard, is_letter, translate, push, push_nonzero, release, press, handler}
use alma_os.Keyboard.Ring.{IsValid, queue, push-IsValid, queue-push, enqueue}
use alma_os.Keyboard.Spec.{
  Event, event, Modifiers, after, Layers, swap_case, character, is_modifier, typed, Console, accept,
  interrupt,
}

abbrev pub modifiers : Keyboard → Modifiers
modifiers s = record { shift = s.shift; altgr = s.altgr; caps = s.caps; extended = s.ext }

abbrev pub layers_of : Keyboard → Layers
layers_of s = record { plain = s.kb_map; shifted = s.map_shift; alternate = s.map_altgr }

-- What a client can know of the driver's state.
abbrev pub console : Keyboard → Console
console s = record { modifiers = modifiers s; layers_in_use = layers_of s; queue = queue s }

flip_table :
    checked_below 128 (λ c. (if is_letter c then bit_xor c 0x20 else c) == swap_case c) ≡ true
unfolding checked_below is_letter swap_case
flip_table = refl

flip_high : (c : ℕ) → ltb c 128 ≡ false → (if is_letter c then bit_xor c 0x20 else c) ≡ swap_case c
unfolding is_letter swap_case
flip_high c h = ground arith

-- `c ^= 0x20` on letters swaps their case.
pub flip_lem : (c : ℕ) → (if is_letter c then bit_xor c 0x20 else c) ≡ swap_case c
flip_lem c = elim (Bool-cases (ltb c 128)) [
  | inl low ↦ (==_iff _ _).0 (checked_below-at 128 _ c flip_table (ground arith))
  | inr high ↦ flip_high c high
]

flip_under_caps :
    (caps : Bool) (c : ℕ)
    → (if caps && is_letter c then bit_xor c 0x20 else c) ≡ (if caps then swap_case c else c)
flip_under_caps true c = flip_lem c
flip_under_caps false c = refl

layer-eq :
    (s : Keyboard)
    → (if s.altgr then s.map_altgr else if s.shift then s.map_shift else s.kb_map) ≡ (
        let l = layers_of s in
        if s.altgr then l.alternate else if s.shift then l.shifted else l.plain)
layer-eq s = refl

-- The source's choice of table and its `^ 0x20` give the key's character.
pub translate-character :
    (s : Keyboard) (code : ℕ) → translate s code ≡ character (layers_of s) (modifiers s) code
unfolding translate character
translate-character s code = flip_under_caps s.caps _

-- The console after an event, as `Spec.interrupt` has it.
interrupt_of : Keyboard → Event → Console
interrupt_of s e = record {
  modifiers = after (modifiers s) e;
  layers_in_use = layers_of s;
  queue = accept (queue s) (typed (layers_of s) (modifiers s) e);
}

event-release :
    (code : ℕ)
    → code < 256
    → code == 0xE0 ≡ false
    → has_bit code 7 ≡ true
    → event code ≡ Event.released (code % 128)
unfolding event
event-release code h a b = ground arith

event-press :
    (code : ℕ)
    → code < 256
    → code == 0xE0 ≡ false
    → has_bit code 7 ≡ false
    → event code ≡ Event.pressed code
unfolding event
event-press code h a b = ground arith

console-release :
    (s : Keyboard) (key : ℕ) → console (release s key) ≡ interrupt_of s (Event.released key)
unfolding release after interrupt_of typed accept
console-release s key = ground arith

modifiers-push_nonzero : (s : Keyboard) (c : ℕ) → modifiers (push_nonzero s c) ≡ modifiers s
unfolding push_nonzero push
modifiers-push_nonzero s c = ground arith

layers_of-push_nonzero : (s : Keyboard) (c : ℕ) → layers_of (push_nonzero s c) ≡ layers_of s
unfolding push_nonzero push
layers_of-push_nonzero s c = ground arith

pub push_nonzero-IsValid : {s : Keyboard} (c : ℕ) → IsValid s → IsValid (push_nonzero s c)
unfolding push_nonzero
push_nonzero-IsValid c v = ground (arith, push-IsValid c v)

queue-push_nonzero :
    {s : Keyboard} (c : ℕ)
    → IsValid s
    → queue (push_nonzero s c) ≡ (if c == 0 then queue s else enqueue (queue s) c)
unfolding push_nonzero
queue-push_nonzero {s} c v = elim (Bool-cases (c == 0)) [
  | inl z ↦ rw z refl
  | inr z ↦ rw z (queue-push c v)
]

-- The press of a key that is no modifier.
abbrev press_plain : Keyboard → ℕ → Keyboard
press_plain s key =
    push_nonzero (record s { ext = false }) (translate (record s { ext = false }) key)

press-plain :
    (s : Keyboard) (key : ℕ)
    → is_modifier (modifiers s) key ≡ false
    → press s key ≡ press_plain s key
unfolding press is_modifier
press-plain s key h = ground arith

press-modifier :
    (s : Keyboard) (key : ℕ)
    → is_modifier (modifiers s) key ≡ true
    → console (press s key) ≡ interrupt_of s (Event.pressed key)
unfolding press is_modifier interrupt_of typed after accept
press-modifier s key h = ground arith

after-plain :
    (m : Modifiers) (key : ℕ)
    → is_modifier m key ≡ false
    → after m (Event.pressed key) ≡ record m { extended = false }
unfolding is_modifier after
after-plain m key h = ground arith

character-extended :
    (l : Layers) (m : Modifiers) (key : ℕ)
    → character l (record m { extended = false }) key ≡ character l m key
unfolding character
character-extended l m key = refl

accept-typed :
    (q : List ℕ) (l : Layers) (m : Modifiers) (key : ℕ)
    → is_modifier m key ≡ false
    → accept q (typed l m (Event.pressed key))
      ≡ (let c = character l m key in if c == 0 then q else enqueue q c)
unfolding typed accept
accept-typed q l m key h = rw h (accept-if (character l m key == 0))
  where
    accept-if :
        (b : Bool)
        → accept q (if b then none else some (character l m key))
          ≡ (if b then q else enqueue q (character l m key))
    accept-if true = refl
    accept-if false = refl

press-plain_console :
    {s : Keyboard} (key : ℕ)
    → IsValid s
    → is_modifier (modifiers s) key ≡ false
    → console (press_plain s key) ≡ interrupt_of s (Event.pressed key)
unfolding interrupt_of
press-plain_console {s} key v h =
    let s' = record s { ext = false } in
    let v' : IsValid s' = record { whole = v.whole; head_in = v.head_in; tail_in = v.tail_in } in
    let c = translate s' key in
    rw (
      modifiers-push_nonzero s' c,
      layers_of-push_nonzero s' c,
      queue-push_nonzero c v',
      after-plain (modifiers s) key h,
      accept-typed (queue s) (layers_of s) (modifiers s) key h,
      translate-character s' key,
      character-extended (layers_of s) (modifiers s) key,
    )

press-IsValid : {s : Keyboard} (key : ℕ) → IsValid s → IsValid (press s key)
unfolding press
press-IsValid {s} key v = ground (
  arith,
  push_nonzero-IsValid {s = record s { ext = false }} (translate (record s { ext = false }) key),
)

-- `keyboard_handler` keeps the ring valid.
pub handler-IsValid : {s : Keyboard} (code : ℕ) → IsValid s → IsValid (handler s code)
unfolding handler release
handler-IsValid {s} code v = ground (arith, press-IsValid code v)

handler-press :
    (s : Keyboard) (code : ℕ)
    → code == 0xE0 ≡ false
    → has_bit code 7 ≡ false
    → handler s code ≡ press s code
unfolding handler
handler-press s code a b = rw (a, b) refl

handler-release :
    (s : Keyboard) (code : ℕ)
    → code == 0xE0 ≡ false
    → has_bit code 7 ≡ true
    → handler s code ≡ release s (code % 128)
unfolding handler
handler-release s code a b = rw (a, b) refl

handler-prefix :
    (s : Keyboard) (code : ℕ)
    → code == 0xE0 ≡ true
    → console (handler s code) ≡ interrupt (console s) code
unfolding handler interrupt event after typed accept
handler-prefix s code a = rw a refl

console-press :
    {s : Keyboard} (key : ℕ)
    → IsValid s
    → console (press s key) ≡ interrupt_of s (Event.pressed key)
console-press {s} key v = elim (Bool-cases (is_modifier (modifiers s) key)) [
  | inl m ↦ press-modifier s key m
  | inr m ↦ rw (press-plain s key m) (press-plain_console key v m)
]

interrupt_of-interrupt :
    (s : Keyboard) (code : ℕ) → interrupt_of s (event code) ≡ interrupt (console s) code
unfolding interrupt_of interrupt
interrupt_of-interrupt s code = refl

-- An interrupt does to the driver what the specification says: the flags of the new state are
-- those after the event, the active tables are the same, and the queue has the character that the
-- event types, unless 127 wait already.
pub console-handler :
    {s : Keyboard} (code : ℕ)
    → IsValid s
    → code < 256
    → console (handler s code) ≡ interrupt (console s) code
console-handler {s} code v h = elim (Bool-cases (code == 0xE0)) [
  | inl a ↦ handler-prefix s code a
  | inr a ↦ elim (Bool-cases (has_bit code 7)) [
    | inl b ↦
        rw (handler-release s code a b, console-release s (code % 128), ← event-release code h a b)
          (interrupt_of-interrupt s code)
    | inr b ↦
        rw (handler-press s code a b, console-press code v, ← event-press code h a b)
          (interrupt_of-interrupt s code)
  ]
]
