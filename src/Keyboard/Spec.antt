-- ===== src/Keyboard/Spec.antt =====
-- What the driver promises: modifier keys as a small state machine over scancode set 1, the
-- character of each key press, and a queue of at most 127 characters. No ring, no prefix byte in
-- a buffer, no table pointers.
use alma_os.Base.{
  ℕ, List, [], ◌∷◌, Bool, true, false, not, Option, none, some, ◌&&◌, ◌||◌, ◌-◌, ◌+◌, ◌%◌, ◌==◌,
  leb, ltb, ◌++◌, All, ◌≡◌, ◌≢◌, ◌↔◌, refl, arith, suc, length, Bool-cases, inl, inr, if◌then◌else◌,
  get_or,
}
use alma_os.Keyboard.{Table, contents, Layout, layout_us, layout_abnt2}
use alma_os.Keyboard.Ring.{enqueue, dequeue}

-- One scancode byte, as the hardware manual reads it.
pub data Event : Type 0 where
  prefix : Event
  pressed : ℕ → Event
  released : ℕ → Event

unfoldable pub event : ℕ → Event
event code =
    if code == 0xE0
    then Event.prefix
    else if ltb code 128
    then Event.pressed code
    else Event.released (code % 128)

-- `extended` holds after a prefix, up to the next event.
pub record Modifiers : Type 0 where
  pub shift : Bool
  pub altgr : Bool
  pub caps : Bool
  pub extended : Bool

abbrev is_shift_key : ℕ → Bool
is_shift_key key = key == 0x2A || key == 0x36

unfoldable pub after : Modifiers → Event → Modifiers
after m Event.prefix = record m { extended = true }
after m (Event.pressed key) = record {
  shift = is_shift_key key || m.shift;
  altgr = m.extended && key == 0x38 || m.altgr;
  caps = if key == 0x3A then not m.caps else m.caps;
  extended = false;
}
after m (Event.released key) = record {
  shift = not (is_shift_key key) && m.shift;
  altgr = not (m.extended && key == 0x38) && m.altgr;
  caps = m.caps;
  extended = false;
}

-- The three layers of a layout.
pub record Layers : Type 0 where
  pub plain : Table
  pub shifted : Table
  pub alternate : Table

unfoldable pub layers : Layout → Layers
layers layout_us = record { plain = Table.us; shifted = Table.shift_us; alternate = Table.altgr_us }
layers layout_abnt2 = record {
  plain = Table.abnt2;
  shifted = Table.shift_abnt2;
  alternate = Table.altgr_abnt2;
}

-- Upper case for lower and the other way round, on the letters of ASCII only.
unfoldable pub swap_case : ℕ → ℕ
swap_case c =
    if leb b'a' c && leb c b'z' then c - 32 else if leb b'A' c && leb c b'Z' then c + 32 else c

-- The key's cell in the layer that the modifiers choose, its case swapped under Caps Lock.
unfoldable pub character : Layers → Modifiers → ℕ → ℕ
character l m key =
    let layer = if m.altgr then l.alternate else if m.shift then l.shifted else l.plain in
    let c = get_or (contents layer) key 0 in if m.caps then swap_case c else c

unfoldable pub is_modifier : Modifiers → ℕ → Bool
is_modifier m key = is_shift_key key || key == 0x3A || m.extended && key == 0x38

-- The character that an event types: only a press of a key that is no modifier and whose cell is
-- not 0 types one.
unfoldable pub typed : Layers → Modifiers → Event → Option ℕ
typed l m Event.prefix = none
typed l m (Event.released key) = none
typed l m (Event.pressed key) =
    if is_modifier m key
    then none
    else (let c = character l m key in if c == 0 then none else some c)

pub record Console : Type 0 where
  pub modifiers : Modifiers
  pub layers_in_use : Layers
  pub queue : List ℕ

unfoldable pub accept : List ℕ → Option ℕ → List ℕ
accept q none = q
accept q (some c) = enqueue q c

unfoldable pub interrupt : Console → ℕ → Console
interrupt t code = record {
  modifiers = after t.modifiers (event code);
  layers_in_use = t.layers_in_use;
  queue = accept t.queue (typed t.layers_in_use t.modifiers (event code));
}

-- What the rest of the kernel and the hardware do with the driver.
pub data Op : Type 0 where
  irq : ℕ → Op
  read : Op
  choose : Layout → Op

unfoldable pub step : Console → Op → ℕ × Console
step t (Op.irq code) = (0, interrupt t code)
step t Op.read = let (c, q) = dequeue t.queue in (c, record t { queue = q })
step t (Op.choose l) = (0, record t { layers_in_use = layers l })

-- The replies to a sequence of operations; 0 where there is none to give.
unfoldable pub run : Console → List Op → List ℕ
run t [] = []
run t (op ∷ ops) = let (c, t') = step t op in c ∷ run t' ops

ready : Console → List ℕ → Option (ℕ × Console)
ready t [] = none
ready t (c ∷ q) = some (c, record t { queue = q })

or_else : Option (ℕ × Console) → Option (ℕ × Console) → Option (ℕ × Console)
or_else (some r) later = some r
or_else none later = later

-- A blocking read: the interrupts come one by one while the queue is empty.
unfoldable pub wait : Console → List ℕ → Option (ℕ × Console)
unfolding ready or_else
wait t [] = ready t t.queue
wait t (code ∷ codes) = or_else (ready t t.queue) (wait (interrupt t code) codes)

pub wait-empty :
    (t : Console) (code : ℕ) (codes : List ℕ)
    → t.queue ≡ []
    → wait t (code ∷ codes) ≡ wait (interrupt t code) codes
unfolding wait
wait-empty t code codes h = rw h refl

pub wait-nil : (t : Console) → t.queue ≡ [] → wait t [] ≡ none
unfolding wait
wait-nil t h = rw h refl

pub wait-ready :
    (t : Console) (codes : List ℕ) (c : ℕ) (q : List ℕ)
    → t.queue ≡ c ∷ q
    → wait t codes ≡ some (c, record t { queue = q })
unfolding wait
wait-ready t [] c q h = rw h refl
wait-ready t (code ∷ codes) c q h = rw h refl

-- What is typed is never 0.
pub typed-ne-zero : (l : Layers) (m : Modifiers) (e : Event) (c : ℕ) → typed l m e ≡ some c → c ≢ 0
unfolding typed
typed-ne-zero l m Event.prefix c h = cc
typed-ne-zero l m (Event.released key) c h = cc
typed-ne-zero l m (Event.pressed key) c h = ground arith

IsNonzero-append :
    (q : List ℕ) (c : ℕ) → c ≢ 0 → All (λ k. k ≢ 0) q → All (λ k. k ≢ 0) (q ++ (c ∷ []))
IsNonzero-append [] c h a = (h, tt)
IsNonzero-append (k ∷ q) c h a = (a.0, IsNonzero-append q c h a.1)

enqueue-nonzero : (q : List ℕ) (c : ℕ) → c ≢ 0 → All (λ k. k ≢ 0) q → All (λ k. k ≢ 0) (enqueue q c)
unfolding enqueue
enqueue-nonzero q c h a = elim (Bool-cases (ltb (length q) 127)) [
  | inl room ↦ rw room (IsNonzero-append q c h a)
  | inr full ↦ rw full a
]

accept-nonzero :
    (q : List ℕ) (o : Option ℕ)
    → ((c : ℕ) → o ≡ some c → c ≢ 0)
    → All (λ k. k ≢ 0) q
    → All (λ k. k ≢ 0) (accept q o)
unfolding accept
accept-nonzero q none h a = a
accept-nonzero q (some c) h a = enqueue-nonzero q c (h c refl) a

dequeue-nonzero : (q : List ℕ) → All (λ k. k ≢ 0) q → All (λ k. k ≢ 0) (dequeue q).1
unfolding dequeue
dequeue-nonzero [] a = a
dequeue-nonzero (c ∷ q) a = a.1

-- The queue of a console never comes to hold a 0.
pub step-nonzero :
    (t : Console) (op : Op) → All (λ k. k ≢ 0) t.queue → All (λ k. k ≢ 0) (step t op).1.queue
unfolding step interrupt
step-nonzero t (Op.irq code) a =
    accept-nonzero t.queue (typed t.layers_in_use t.modifiers (event code))
      (typed-ne-zero t.layers_in_use t.modifiers (event code)) a
step-nonzero t Op.read a = dequeue-nonzero t.queue a
step-nonzero t (Op.choose l) a = a

pub dequeue-zero :
    (q : List ℕ) → All (λ k. k ≢ 0) q → ((dequeue q).0 ≡ 0) ↔ (ltb 0 (length q) ≡ false)
unfolding dequeue
dequeue-zero [] a = (λ h. refl, λ h. refl)
dequeue-zero (c ∷ q) a = (λ h. absurd (a.0 h), λ h. absurd (omega (arith, (ltb_pos h))))
  where
    ltb_pos : ltb 0 (suc (length q)) ≡ false → ⊥
    ltb_pos h = ground arith
