-- ===== src/Serial/Sending.antt =====
-- What src/kernel/serial.c sends.
use alma_os.Base.{
  ℕ, zero, suc, List, [], ◌∷◌, true, some, ◌+◌, ◌*◌, ◌≤◌, ◌==◌, ==_ne, if◌then◌else◌, u8, length,
  ◌≡◌, ◌≢◌, inl, inr, refl, sym, ap, ◌∙◌, arith, Bool-cases,
}
use alma_os.Ports.{Event, asked, Device, inb, written, reads}
use alma_os.Serial.{
  Serial, com1, line_status, can_send, max_spins, wait, wait_ready, send, putchar, put_text, puts,
}

-- A text with a carriage return before each end of a line, the last byte first, before other bytes.
unfoldable pub sent_after : List ℕ → List ℕ → List ℕ
sent_after earlier [] = earlier
sent_after earlier (c ∷ text) =
    if c == b'\n'
    then sent_after (u8 c ∷ b'\r' ∷ earlier) text
    else sent_after (u8 c ∷ earlier) text

-- From one history to another: what was written to a port, and how many reads at most.
abbrev Becomes : List Event → List ℕ → ℕ → List Event → Type 0
Becomes h bytes count h2 =
    (written com1 h2 ≡ bytes)
    × ((port : ℕ) → port ≢ com1 → written port h2 ≡ written port h)
    × (reads h2 ≤ reads h + count)

wait-Becomes :
    (device : Device) (spins : ℕ) (h : List Event)
    → Becomes h (written com1 h) spins (wait device spins h)
unfolding wait written reads
wait-Becomes device zero h = (refl, (λ port ne. refl), omega arith)
wait-Becomes device (suc spins) h = elim (Bool-cases (can_send (inb device h line_status))) [
  | inl e ↦ rw e (refl, (λ port ne. refl), omega arith)
  | inr e ↦
      let (bytes, others, count) = wait-Becomes device spins (asked line_status ∷ h) in
      rw e (bytes, others, omega (arith, count))
]

send-Becomes :
    (device : Device) (byte : ℕ) (h : List Event)
    → Becomes h (byte ∷ written com1 h) max_spins (send device byte h)
unfolding send wait_ready written reads
send-Becomes device byte h =
    let (bytes, others, count) = wait-Becomes device max_spins h in
    (
      ap (λ bs. byte ∷ bs) bytes,
      (λ port ne. rw (==_ne com1 port (λ e. ne (sym e))) (others port ne)),
      count,
    )

Becomes-then :
    (h h2 h3 : List Event) (bytes bytes2 : List ℕ) (count count2 : ℕ)
    → Becomes h bytes count h2
    → Becomes h2 bytes2 count2 h3
    → Becomes h bytes2 (count + count2) h3
Becomes-then h h2 h3 bytes bytes2 count count2 first then_ =
    (then_.0, (λ port ne. then_.1 port ne ∙ first.1 port ne), omega (arith, first.2, then_.2))

putchar-Becomes :
    (device : Device) (c : ℕ) (s : Serial)
    → s.enabled ≡ true
    → Becomes s.history
        (sent_after (written com1 s.history) (c ∷ []))
        (max_spins + max_spins)
        (putchar device c s).history
unfolding putchar sent_after
putchar-Becomes device c s on = elim (Bool-cases (c == b'\n')) [
  | inl e ↦
      let first = send-Becomes device b'\r' s.history in
      let second = send-Becomes device (u8 c) (send device b'\r' s.history) in
      let both =
        Becomes-then s.history (send device b'\r' s.history) _ _ _ max_spins max_spins first
          second in
      rw (on, e) (both.0 ∙ ap (λ bs. u8 c ∷ bs) first.0, both.1, both.2)
  | inr e ↦
      let (bytes, others, count) = send-Becomes device (u8 c) s.history in
      rw (on, e) (bytes, others, omega (arith, count))
]

putchar-enabled : (device : Device) (c : ℕ) (s : Serial) → (putchar device c s).enabled ≡ s.enabled
unfolding putchar
putchar-enabled device c s = elim (Bool-cases s.enabled) [ inl e ↦ rw e refl | inr e ↦ rw e refl ]

sent_after-cons :
    (c : ℕ) (text earlier : List ℕ)
    → sent_after earlier (c ∷ text) ≡ sent_after (sent_after earlier (c ∷ [])) text
unfolding sent_after
sent_after-cons c text earlier = elim (Bool-cases (c == b'\n')) [
  | inl e ↦ rw e refl
  | inr e ↦ rw e refl
]

put_text-Becomes :
    (device : Device) (text : List ℕ) (s : Serial)
    → s.enabled ≡ true
    → Becomes s.history
        (sent_after (written com1 s.history) text)
        (length text * (max_spins + max_spins))
        (put_text device text s).history
unfolding put_text sent_after
put_text-Becomes device [] s on = (refl, (λ port ne. refl), omega arith)
put_text-Becomes device (c ∷ text) s on =
    let next = putchar device c s in
    let first = putchar-Becomes device c s on in
    let (bytes, others, count) =
      put_text-Becomes device text next (putchar-enabled device c s ∙ on) in
    (
      bytes
          ∙ (ap (λ bs. sent_after bs text) first.0
              ∙ sym (sent_after-cons c text (written com1 s.history))),
      (λ port ne. others port ne ∙ first.1 port ne),
      omega (arith, count, first.2),
    )

-- `serial_puts` on a port that is enabled gives the UART the characters of the text, each of them 8 bits
-- and each end of a line after a carriage return, and nothing else at any port; whatever the device
-- answers, it comes to an end, within 200000 reads of the status for each character.
pub puts-sent_after :
    (device : Device) (text : List ℕ) (s : Serial)
    → s.enabled ≡ true
    → (written com1 (puts device (some text) s).history ≡ sent_after (written com1 s.history) text)
      × ((port : ℕ)
          → port ≢ com1
          → written port (puts device (some text) s).history ≡ written port s.history)
      × (reads (puts device (some text) s).history ≤ reads s.history + length text * 200000)
unfolding puts
puts-sent_after device text s on = put_text-Becomes device text s on
