-- ===== src/Aarch64/Uart.antt =====
-- aarch64/src/uartmini.rs, uartpl011.rs and devcons.rs: the two UARTs of the board.
--
-- Registers are 32 bits wide. The divisors of the PL011's baud rate, which the code computes in floating
-- point, are the same fractions rounded down; a quotient of 40.67 is not near a whole number.
use r.Common.{
  ℕ, ◌+◌, ◌-◌, ◌*◌, ◌/◌, ◌%◌, ◌^◌, bit_and, bit_or, ◌==◌, Option, none, some, Run, done, ◌>>=◌,
  expect,
}
use r.Common.Text.{codes}
use r.Common.Word.{u32_mod}
use r.Fdt.Reg.{with_offset}
use r.Fdt.Header.{DeviceTree}
use r.Fdt.Node.{Node}
use r.Mem.{VirtRange, virt_from_reg}
use r.Aarch64.Kmem.{kzero}
use r.Aarch64.Io.{Devices, GpioPull, off, pull_code, read_reg, write_reg, write_or_reg, wait, delay}
use r.Aarch64.Discover.{first_compatible, first_reg, device_range, bare_range}
use r.Aarch64.Mailbox.{Mailbox, has_flag, mailbox_set_clock_rate}

-- registers.rs: offsets of registers.
abbrev pub gpfsel1 : ℕ
gpfsel1 = 0x04

abbrev pub gppud : ℕ
gppud = 0x94

abbrev pub gppudclk0 : ℕ
gppudclk0 = 0x98

abbrev pub uart0_dr : ℕ
uart0_dr = 0x00

abbrev pub uart0_fr : ℕ
uart0_fr = 0x18

abbrev pub uart0_ibrd : ℕ
uart0_ibrd = 0x24

abbrev pub uart0_fbrd : ℕ
uart0_fbrd = 0x28

abbrev pub uart0_lcrh : ℕ
uart0_lcrh = 0x2c

abbrev pub uart0_cr : ℕ
uart0_cr = 0x30

abbrev pub uart0_imsc : ℕ
uart0_imsc = 0x38

abbrev pub uart0_icr : ℕ
uart0_icr = 0x44

abbrev pub aux_enable : ℕ
aux_enable = 0x04

abbrev pub aux_mu_io : ℕ
aux_mu_io = 0x00

abbrev pub aux_mu_ier : ℕ
aux_mu_ier = 0x04

abbrev pub aux_mu_iir : ℕ
aux_mu_iir = 0x08

abbrev pub aux_mu_lcr : ℕ
aux_mu_lcr = 0x0c

abbrev pub aux_mu_mcr : ℕ
aux_mu_mcr = 0x10

abbrev pub aux_mu_lsr : ℕ
aux_mu_lsr = 0x14

abbrev pub aux_mu_cntl : ℕ
aux_mu_cntl = 0x20

abbrev pub aux_mu_baud : ℕ
aux_mu_baud = 0x28

-- `!x` at 32 bits.
abbrev pub not32 : ℕ → ℕ
not32 x = u32_mod - 1 - x

pub record MiniUart : Type 0 where
  pub gpio_range : VirtRange
  pub aux_range : VirtRange
  pub miniuart_range : VirtRange

-- `or_else`: the second lookup only where the first one finds nothing.
abbrev or_else : Option Node → Run (Option Node) → Run (Option Node)
or_else none other = other
or_else (some n) other = done (some n)

unfoldable pub mini_uart_new : DeviceTree → ℕ → Run MiniUart
mini_uart_new dt mmio_virt_offset = do
  first ← first_compatible dt (codes "brcm,bcm2835-gpio")
  node ← or_else first (first_compatible dt (codes "brcm,bcm2711-gpio"))
  found ← first_reg dt node
  reg ← expect found
  moved ← with_offset reg mmio_virt_offset
  gpio ← virt_from_reg moved
  aux ← device_range dt (codes "brcm,bcm2835-aux") mmio_virt_offset
  miniuart ← device_range dt (codes "brcm,bcm2835-aux-uart") mmio_virt_offset
  done (record { gpio_range = gpio; aux_range = aux; miniuart_range = miniuart })

-- The function select register with the two pins of the UART set to ALT5.
unfoldable pub select_uart1 : ℕ → ℕ
select_uart1 v =
    bit_or (bit_and v (not32 (bit_or (7 * 2 ^ 12) (7 * 2 ^ 15)))) (bit_or (2 * 2 ^ 12) (2 * 2 ^ 15))

pub record Pl011Uart : Type 0 where
  pub gpio_range : VirtRange
  pub pl011_range : VirtRange

unfoldable pub pl011_new : DeviceTree → Run Pl011Uart
pl011_new dt = do
  gpio ← bare_range dt (codes "brcm,bcm2835-gpio")
  pl011 ← bare_range dt (codes "arm,pl011")
  done (record { gpio_range = gpio; pl011_range = pl011 })

module _ {D : Type 0} (devices : Devices D) where
  unfoldable pub mini_uart_init : MiniUart → D → Run D
  mini_uart_init uart d = do
    (v, d1) ← read_reg devices uart.gpio_range gpfsel1 d
    d2 ← write_reg devices uart.gpio_range gpfsel1 (select_uart1 v) d1
    d3 ← write_reg devices uart.gpio_range gppud 0 d2
    d4 ←
        write_reg devices uart.gpio_range gppudclk0 (bit_or (2 ^ 14) (2 ^ 15))
          (delay devices 150 d3)
    d5 ← write_reg devices uart.gpio_range gppudclk0 0 (delay devices 150 d4)
    d6 ← write_or_reg devices uart.aux_range aux_enable 1 d5
    d7 ← write_reg devices uart.miniuart_range aux_mu_cntl 0 d6
    d8 ← write_reg devices uart.miniuart_range aux_mu_lcr 3 d7
    d9 ← write_reg devices uart.miniuart_range aux_mu_mcr 0 d8
    d10 ← write_reg devices uart.miniuart_range aux_mu_ier 0 d9
    d11 ← write_reg devices uart.miniuart_range aux_mu_iir 0xc6 d10
    d12 ← write_reg devices uart.miniuart_range aux_mu_baud 270 d11
    write_reg devices uart.miniuart_range aux_mu_cntl 3 d12

  -- The loop waits while the transmitter is not empty, a number of reads at most.
  unfoldable pub mini_uart_putb : MiniUart → ℕ → ℕ → D → Run D
  mini_uart_putb uart fuel b d = do
    d' ← wait devices uart.miniuart_range aux_mu_lsr (λ v. bit_and v (2 ^ 5) == 0) fuel d
    write_reg devices uart.miniuart_range aux_mu_io b d'

  unfoldable pub gpiosetpull : Pl011Uart → ℕ → GpioPull → D → Run D
  gpiosetpull uart pin pull d = do
    let gppudclk_reg = gppudclk0 + pin / 32 * 4
    d1 ← write_reg devices uart.pl011_range gppud (pull_code pull) d
    d2 ← write_reg devices uart.pl011_range gppudclk_reg (2 ^ (pin % 32)) (delay devices 150 d1)
    d3 ← write_reg devices uart.pl011_range gppud 0 (delay devices 150 d2)
    write_reg devices uart.pl011_range gppudclk_reg 0 d3

  unfoldable pub pl011_init : Pl011Uart → Option Mailbox → ℕ → ℕ → D → Run D
  pl011_init uart mailbox msg fuel d = do
    let uart_clock_rate_hz : ℕ = 3000000
    let divisor : ℕ = 16 * 115200
    let int_brd = uart_clock_rate_hz / divisor
    let frac_brd = ((uart_clock_rate_hz - int_brd * divisor) * 128 + divisor) / (2 * divisor)
    d1 ← write_reg devices uart.pl011_range uart0_cr 0 d
    d2 ← gpiosetpull uart 14 off d1
    d3 ← gpiosetpull uart 15 off d2
    d4 ← write_reg devices uart.pl011_range uart0_icr 0x7ff d3
    d5 ← mailbox_set_clock_rate devices mailbox msg fuel 2 uart_clock_rate_hz 0 d4
    d6 ← write_reg devices uart.pl011_range uart0_ibrd int_brd d5
    d7 ← write_reg devices uart.pl011_range uart0_fbrd frac_brd d6
    d8 ← write_reg devices uart.pl011_range uart0_lcrh 0x70 d7
    d9 ← write_reg devices uart.pl011_range uart0_imsc 0x7f2 d8
    write_reg devices uart.pl011_range uart0_cr 0x81 d9

  unfoldable pub pl011_putb : Pl011Uart → ℕ → ℕ → D → Run D
  pl011_putb uart fuel b d = do
    d' ← wait devices uart.pl011_range uart0_fr (has_flag (2 ^ 5)) fuel d
    write_reg devices uart.pl011_range uart0_dr b d'

  -- devcons.rs: the console's UART.
  unfoldable pub devcons_init : DeviceTree → D → Run (MiniUart × D)
  devcons_init dt d = do uart ← mini_uart_new dt kzero; d' ← mini_uart_init uart d; done (uart, d')
