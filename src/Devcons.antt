-- ===== src/Devcons.antt =====
-- port/src/devcons.rs: the console over a UART.
--
-- The trait `Uart` is a state with the operation that puts a byte. The lock of the console is taken
-- and released within each function; what it protects is the slot that the functions take and leave.
use r.Common.{
  ℕ, ◌-◌, ◌≡◌, refl, ap, ◌∙◌, Option, none, some, List, [], ◌∷◌, Run, done, panic, Bool, ◌==◌,
  if◌then◌else◌, true, false,
}

abbrev ctrl : ℕ → ℕ
ctrl b = b - b'@'

abbrev pub backspace : ℕ
backspace = ctrl b'H'

abbrev pub newline : ℕ
newline = 10

abbrev pub carriage_return : ℕ
carriage_return = 13

module _ (Uart : Type 0) (put : Uart → ℕ → Uart) where
  unfoldable pub putb : Uart → ℕ → Uart
  putb uart b =
      if b == newline
      then put (put uart carriage_return) b
      else if b == backspace
      then put (put (put uart b) b' ') b
      else put uart b

  -- The loop of `Console::putstr` and of `PanicConsole::putstr`.
  unfoldable pub putb_all : Uart → List ℕ → Uart
  unfolding putb
  putb_all uart [] = uart
  putb_all uart (b ∷ bs) = putb_all (putb uart b) bs

  unfoldable pub console_new : Uart → Option Uart → Option Uart
  console_new uart cons = some uart

  unfoldable pub console_putstr : Option Uart → List ℕ → Run (Option Uart)
  unfolding putb_all
  console_putstr none s = panic
  console_putstr (some uart) s = done (some (putb_all uart s))

  unfoldable pub panic_console_putstr : Uart → List ℕ → Uart
  unfolding putb_all
  panic_console_putstr uart s = putb_all uart s

  -- Bytes put as they are.
  unfoldable pub feed : Uart → List ℕ → Uart
  feed uart [] = uart
  feed uart (b ∷ bs) = feed (put uart b) bs

-- The bytes that the console puts for a string.
abbrev pub expand : List ℕ → List ℕ
expand [] = []
expand (b ∷ bs) =
    let rest = expand bs in
    if b == newline
    then carriage_return ∷ b ∷ rest
    else if b == backspace
    then b ∷ b' ' ∷ b ∷ rest
    else b ∷ rest

putb_all-feed :
    (Uart : Type 0) (put : Uart → ℕ → Uart) (s : List ℕ) (uart : Uart)
    → putb_all Uart put uart s ≡ feed Uart put uart (expand s)
unfolding putb_all putb feed
putb_all-feed Uart put [] uart = refl
putb_all-feed Uart put (b ∷ bs) uart =
    putb_all-feed Uart put bs (putb Uart put uart b) ∙ one (b == newline) (b == backspace)
  where
    one :
        (c d : Bool)
        → feed Uart put
            (if c
              then put (put uart carriage_return) b
              else if d
              then put (put (put uart b) b' ') b
              else put uart b)
            (expand bs)
          ≡ feed Uart put uart (
              if c
              then carriage_return ∷ b ∷ expand bs
              else if d
              then b ∷ b' ' ∷ b ∷ expand bs
              else b ∷ expand bs)
    one true d = refl
    one false true = refl
    one false false = refl

-- The console puts the expanded string, byte by byte and in order, to the UART that it was given.
pub console_putstr-console_new :
    (Uart : Type 0) (put : Uart → ℕ → Uart) (uart : Uart) (cons : Option Uart) (s : List ℕ)
    → console_putstr Uart put (console_new Uart put uart cons) s
      ≡ done (some (feed Uart put uart (expand s)))
unfolding console_putstr console_new
console_putstr-console_new Uart put uart cons s =
    ap (λ u. done (some u)) (putb_all-feed Uart put s uart)
