-- ===== src/Aarch64/Drivers.antt =====
-- aarch64/src: the drivers of the UARTs and of the mailbox, on devices that become ready.
use r.Common.{
  ℕ, zero, suc, ◌+◌, ◌-◌, ◌*◌, ◌/◌, ◌%◌, ◌^◌, ◌<◌, ◌≡◌, refl, ap, ◌∙◌, bit_and, bit_or, true, false,
  ◌==◌, ==_refl, List, ◌∷◌, done, arith,
}
use r.Common.Bits.{bit_and_split, bit_or_split, bit_and_mask, bit_and_zero, bit_or_zero}
use r.Aarch64.Io.{Devices, register, read_reg, write_reg, after, ReadyAfter, wait_lem}
use r.Aarch64.Mailbox.{
  Mailbox, mbox_read, mbox_write, mbox_status, mbox_full, mbox_empty, has_flag, request_word, await,
  mailbox_request, Tag, request_words, message_size, tag_size,
}
use r.Aarch64.Uart.{
  MiniUart, Pl011Uart, select_uart1, mini_uart_putb, pl011_putb, aux_mu_lsr, aux_mu_io, uart0_fr,
  uart0_dr,
}

-- Of a 32-bit value, the masks make the bits of the two pins 010 each and keep all other bits.
pub select_uart1_lem :
    (v : ℕ) → v < 2 ^ 32 → select_uart1 v ≡ v / 2 ^ 18 * 2 ^ 18 + 0x12 * 2 ^ 12 + v % 2 ^ 12
unfolding select_uart1
select_uart1_lem v h =
    let hi = v / 2 ^ 18 in
    let mid = v / 2 ^ 12 % 2 ^ 6 in
    let lo = v % 2 ^ 12 in
    let split : v ≡ (hi * 2 ^ 6 + mid) * 2 ^ 12 + lo = omega arith in
    let kept_hi : bit_and hi (2 ^ 14 - 1) ≡ hi = bit_and_mask 14 hi ∙ omega arith in
    let kept_lo : bit_and lo (2 ^ 12 - 1) ≡ lo = bit_and_mask 12 lo ∙ omega arith in
    let masked : bit_and v 0xfffc0fff ≡ (hi * 2 ^ 6 + 0) * 2 ^ 12 + lo =
      ap (λ n. bit_and n 0xfffc0fff) split
      ∙ bit_and_split 12 (hi * 2 ^ 6 + mid) lo ((2 ^ 14 - 1) * 2 ^ 6 + 0) (2 ^ 12 - 1) (omega arith)
          (omega arith)
      ∙ rw
          (
            bit_and_split 6 hi mid (2 ^ 14 - 1) 0 (omega arith) (omega arith),
            kept_hi,
            kept_lo,
            bit_and_zero mid,
          )
          refl in
    ap (λ n. bit_or n (0x12 * 2 ^ 12)) masked
    ∙ bit_or_split 12 (hi * 2 ^ 6 + 0) lo 0x12 0 (omega arith) (omega arith)
    ∙ rw (bit_or_split 6 hi 0 0 0x12 (omega arith) (omega arith), bit_or_zero hi, bit_or_zero lo)
        (omega arith)

module _ {D : Type 0} (devices : Devices D) where
  -- When the UART's registers lie in its range and its status shows no room for `k` reads, fewer than the
  -- fuel, and then room, `putb` ends, has read the status until then and has stored the byte and nothing else.
  mini_uart_putb-ready :
      (uart : MiniUart) (k fuel b status at : ℕ) (d : D)
      → k < fuel
      → register devices uart.miniuart_range aux_mu_lsr ≡ done status
      → register devices uart.miniuart_range aux_mu_io ≡ done at
      → ReadyAfter devices status (λ v. bit_and v (2 ^ 5) == 0) k d
      → mini_uart_putb devices uart fuel b d
        ≡ done (devices.store (after devices status (suc k) d) at b)
  unfolding mini_uart_putb write_reg
  mini_uart_putb-ready uart k fuel b status at d l s w ready =
      rw (wait_lem devices uart.miniuart_range aux_mu_lsr status _ s k fuel d l ready, w) refl

  -- The same of the other UART.
  pl011_putb-ready :
      (uart : Pl011Uart) (k fuel b status at : ℕ) (d : D)
      → k < fuel
      → register devices uart.pl011_range uart0_fr ≡ done status
      → register devices uart.pl011_range uart0_dr ≡ done at
      → ReadyAfter devices status (has_flag (2 ^ 5)) k d
      → pl011_putb devices uart fuel b d
        ≡ done (devices.store (after devices status (suc k) d) at b)
  unfolding pl011_putb write_reg
  pl011_putb-ready uart k fuel b status at d l s w ready =
      rw (wait_lem devices uart.pl011_range uart0_fr status _ s k fuel d l ready, w) refl

  -- The devices once the request is written.
  abbrev pub asked : ℕ → ℕ → ℕ → ℕ → D → D
  asked req status at k d = devices.store (after devices status (suc k) d) at (request_word req)

  -- When the mailbox's registers lie in its range, its status shows that it is full for `k` reads and then
  -- not, and after the request is written shows that it is empty for `m` reads, both fewer than the fuel, and
  -- then the request comes back, the function ends, and has stored the request's word and nothing else.
  pub mailbox_request-answered :
      (mailbox : Mailbox) (req status at reply k m fuel : ℕ) (d : D)
      → register devices mailbox.mbox_range mbox_status ≡ done status
      → register devices mailbox.mbox_range mbox_write ≡ done at
      → register devices mailbox.mbox_range mbox_read ≡ done reply
      → k < fuel
      → m < fuel
      → ReadyAfter devices status (has_flag mbox_full) k d
      → ReadyAfter devices status (has_flag mbox_empty) m (asked req status at k d)
      → (devices.load (after devices status (suc m) (asked req status at k d)) reply).0
        ≡ request_word req
      → mailbox_request devices mailbox req fuel d
        ≡ done (devices.load (after devices status (suc m) (asked req status at k d)) reply).1
  unfolding mailbox_request await write_reg read_reg
  mailbox_request-answered mailbox req status at reply k m zero d s w r lk lm full empty same =
      absurd (omega arith)
  mailbox_request-answered mailbox req status at reply k m (suc fuel) d s w r lk lm full empty
        same =
      let answered = devices.load (after devices status (suc m) (asked req status at k d)) reply in
      rw (wait_lem devices mailbox.mbox_range mbox_status status _ s k (suc fuel) d lk full) (
        rw w (
          rw (wait_lem devices mailbox.mbox_range mbox_status status _ s m (suc fuel) _ lm empty) (
            rw r (
              ap
                (λ c. elim c [
                  | true ↦ done answered.1
                  | false ↦ await devices mailbox (request_word req) fuel answered.1
                ])
                (ap (λ n. n == request_word req) same ∙ ==_refl (request_word req))))))

-- The size that a message states, its first word, is 16 bytes less than the message takes in memory.
pub request_words-short :
    (code t u : ℕ) (tag : Tag)
    → (size : ℕ) × (rest : List ℕ) × (request_words code tag t u ≡ size ∷ rest)
      × (size + 16 ≡ message_size (tag_size t) (tag_size u))
unfolding request_words
request_words-short code t u tag = (message_size t u, _, refl, omega arith)
