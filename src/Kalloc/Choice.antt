-- ===== src/Kalloc/Choice.antt =====
-- Which region `kalloc_init` of src/kernel/kalloc.c chooses from an E820 map.
use alma_os.Base.{
  ℕ, List, [], ◌∷◌, Bool, true, ◌&&◌, Option, none, some, ◌+◌, ◌-◌, ◌%◌, ◌^◌, ◌≤◌, ◌<◌, ◌==◌, ltb,
  leb, if◌then◌else◌, min, max, ◌≡◌, ◌⊎◌, inl, inr, refl, arith, Bool-cases, All, ◌∙◌, ap,
}
use alma_os.Kalloc.{
  Entry, Region, Span, page_size, page_floor, min_physical, align_up, end_of, usable_of, candidate,
  trim, better, scan, init, no_region,
}
use alma_os.Kalloc.Blocks.{IsValid, rounded}

-- What the BIOS reports: a range of physical addresses that does not wrap.
abbrev pub IsRange : Entry → Type 0
IsRange e = e.base + e.size < 2 ^ 64

abbrev eligible : Entry → Bool
eligible e = e.entry_type == 1 && leb min_physical e.base && ltb e.base 0x1_0000_0000

-- The bytes of whole pages that an entry offers below 4 GiB.
unfoldable pub whole_pages : Entry → ℕ
whole_pages e =
    if eligible e then page_floor (min (e.base + e.size) 0x1_0000_0000) - rounded e.base else 0

unfoldable pub most : List Entry → ℕ
most [] = 0
most (e ∷ es) = max (whole_pages e) (most es)

-- What a loop body hands on, in terms of the entry.
offered : Option Span → ℕ
offered none = 0
offered (some s) = page_floor s.bytes

end_of_lem : (e : Entry) → IsRange e → end_of e ≡ min (e.base + e.size) 0x1_0000_0000
unfolding end_of
end_of_lem e h = ground arith

usable_of_lem :
    (e : Entry)
    → IsRange e
    → min_physical ≤ e.base
    → e.base < 0x1_0000_0000
    → usable_of e ≡ min (e.base + e.size) 0x1_0000_0000 - e.base
unfolding usable_of
usable_of_lem e h lo hi = omega (arith, end_of_lem e h)

offered-trim :
    (start usable : ℕ)
    → start + usable ≤ 0x1_0000_0000
    → start < 0x1_0000_0000
    → 0 < start
    → offered (trim start usable) ≡ page_floor (start + usable) - rounded start
unfolding trim align_up offered
offered-trim start usable h k pos = ground arith

offered-candidate : (e : Entry) → IsRange e → offered (candidate e) ≡ whole_pages e
unfolding candidate whole_pages offered
offered-candidate e h = ground (arith, usable_of_lem e h, offered-trim e.base (usable_of e))

offered-better :
    (r : Region) (o : Option Span)
    → r.capacity % page_size ≡ 0
    → (better r o).capacity ≡ max r.capacity (offered o)
unfolding better offered
offered-better r none h = omega arith
offered-better r (some s) h = ground arith

better-aligned :
    (r : Region) (o : Option Span)
    → r.capacity % page_size ≡ 0
    → (better r o).capacity % page_size ≡ 0
unfolding better
better-aligned r none h = h
better-aligned r (some s) h = ground arith

capacity-scan :
    (es : List Entry) (r : Region)
    → r.capacity % page_size ≡ 0
    → All IsRange es
    → (scan r es).capacity ≡ max r.capacity (most es)
unfolding scan most
capacity-scan [] r h a = omega arith
capacity-scan (e ∷ es) r h a = omega (
  arith,
  capacity-scan es (better r (candidate e)) (better-aligned r (candidate e) h) a.1,
  offered-better r (candidate e) h,
  offered-candidate e a.0,
)

-- On a map whose ranges do not wrap, `kalloc_init` takes as many bytes as the entry with the most
-- whole pages offers, and reports success exactly when that is not 0.
pub capacity-init :
    (es : List Entry)
    → All IsRange es
    → ((init (some es)).1.capacity ≡ most es) × ((init (some es)).0 ≡ ltb 0 (most es))
unfolding init
capacity-init es a =
    let e = capacity-scan es no_region refl a in (omega (arith, e), ap (ltb 0) (omega (arith, e)))

-- The region lies in what the entry reports as usable memory, at or above 1 MiB and below 4 GiB,
-- on page boundaries.
pub record IsCarved (r : Region) (e : Entry) : Type 0 where
  pub usable : e.entry_type ≡ 1
  pub high : min_physical ≤ r.base
  pub starts_in : e.base ≤ r.base
  pub ends_in : r.base + r.capacity ≤ e.base + e.size
  pub addressable : r.base + r.capacity ≤ 2 ^ 32
  pub base_aligned : r.base % page_size ≡ 0
  pub capacity_aligned : r.capacity % page_size ≡ 0

-- Some entry of the list has the region.
abbrev pub AmongEntries : List Entry → Region → Type 0
AmongEntries [] r = ⊥
AmongEntries (e ∷ es) r = IsCarved r e ⊎ AmongEntries es r

trim-bounds :
    (start usable : ℕ) (s : Span)
    → start + usable ≤ 0x1_0000_0000
    → start < 0x1_0000_0000
    → 0 < start
    → trim start usable ≡ some s
    → (start ≤ s.start) × (s.start % page_size ≡ 0) × (s.start + s.bytes ≡ start + usable)
unfolding trim align_up
trim-bounds start usable s h k pos e = ground arith

candidate-eligible :
    (e : Entry) (s : Span)
    → candidate e ≡ some s
    → (e.entry_type ≡ 1)
      × (min_physical ≤ e.base)
      × (e.base < 0x1_0000_0000)
      × (trim e.base (usable_of e) ≡ some s)
unfolding candidate
candidate-eligible e s h = ground arith

candidate-IsCarved :
    (e : Entry) (s : Span) (r : Region)
    → IsRange e
    → candidate e ≡ some s
    → r.base ≡ s.start
    → r.capacity ≡ page_floor s.bytes
    → IsCarved r e
candidate-IsCarved e s r h c at size =
    let (usable, high, low, t) = candidate-eligible e s c in
    let u = usable_of_lem e h high low in
    let b = trim-bounds e.base (usable_of e) s (omega (arith, u)) low (omega arith) t in
    omega (arith, u, b)

-- One round of the loop either keeps the region or takes it from the entry.
better-from :
    (e : Entry) (r : Region) (o : Option Span)
    → IsRange e
    → candidate e ≡ o
    → (better r o ≡ r) ⊎ IsCarved (better r o) e
better-from e r none h c = unfold better in inl refl
better-from e r (some s) h c = elim (Bool-cases (ltb r.capacity s.bytes)) [
  | inl more ↦ inr (unfold better in rw more (candidate-IsCarved e s _ h c refl refl))
  | inr less ↦ inl (unfold better in rw less refl)
]

scan-from :
    (es : List Entry) (r : Region) → All IsRange es → (scan r es ≡ r) ⊎ AmongEntries es (scan r es)
unfolding scan
scan-from [] r a = inl refl
scan-from (e ∷ es) r a = elim (scan-from es (better r (candidate e)) a.1) [
  | inr later ↦ inr (inr later)
  | inl kept ↦ elim (better-from e r (candidate e) a.0 refl) [
    | inl same ↦ inl (kept ∙ same)
    | inr taken ↦ inr (inl (rw kept taken))
  ]
]

offset-scan : (es : List Entry) (r : Region) → (scan r es).offset ≡ r.offset
unfolding scan
offset-scan [] r = refl
offset-scan (e ∷ es) r = offset-scan es (better r (candidate e)) ∙ offset-better r (candidate e)
  where
    offset-better : (r : Region) (o : Option Span) → (better r o).offset ≡ r.offset
    offset-better r none = unfold better in refl
    offset-better r (some s) = unfold better in ground arith

AmongEntries-IsValid : (es : List Entry) (r : Region) → r.offset ≡ 0 → AmongEntries es r → IsValid r
AmongEntries-IsValid [] r z a = absurd a
AmongEntries-IsValid (e ∷ es) r z (inl c) = omega arith
AmongEntries-IsValid (e ∷ es) r z (inr a) = AmongEntries-IsValid es r z a

no_region-IsValid : IsValid no_region
no_region-IsValid = omega arith

-- When `kalloc_init` succeeds on a map whose ranges do not wrap, its region is carved out of one
-- usable entry of the map, with nothing used, and is valid for `kalloc_pages`.
pub init-IsCarved :
    (es : List Entry)
    → All IsRange es
    → (init (some es)).0 ≡ true
    → AmongEntries es (init (some es)).1
      × ((init (some es)).1.offset ≡ 0)
      × IsValid (init (some es)).1
unfolding init
init-IsCarved es a success = elim (scan-from es no_region a) [
  | inl kept ↦ absurd (none_left kept)
  | inr found ↦
      let z = offset-scan es no_region in
      (found, z, AmongEntries-IsValid es (scan no_region es) z found)
]
  where
    none_left : scan no_region es ≡ no_region → ⊥
    none_left kept =
        let e : (scan no_region es).capacity ≡ 0 = ap (λ (r : Region). r.capacity) kept in
        ground arith
