-- ===== src/Serial/Uart.antt =====
-- The registers of a 16550 as its manual describes them: what a trace of port accesses has sent
-- over the line, and the divisor that it has set.
use toy_bootloader.Common.{ℕ, Bool, false, List, [], ◌∷◌, ◌++◌, ◌==◌, if◌then◌else◌, test_bit}
use toy_bootloader.Machine.{Trace, inb, outb, idle}

-- `dlab` is the divisor latch access bit: while it is set, the first two ports are the divisor.
pub record Uart : Type 0 where
  pub dlab : Bool
  pub divisor_low : ℕ
  pub divisor_high : ℕ
  pub sent : List ℕ

abbrev pub reset : Uart
reset = record { dlab = false; divisor_low = 0; divisor_high = 0; sent = [] }

unfoldable pub store : Uart → ℕ → ℕ → Uart
store u p v =
    if p == 0x3F8
    then (if u.dlab then record u { divisor_low = v } else record u { sent = u.sent ++ (v ∷ []) })
    else if p == 0x3F9
    then (if u.dlab then record u { divisor_high = v } else u)
    else if p == 0x3FB
    then record u { dlab = test_bit v 7 }
    else u

unfoldable pub uart : Trace → Uart
unfolding store
uart [] = reset
uart (inb p v ∷ t) = uart t
uart (outb p v ∷ t) = store (uart t) p v
uart (idle ∷ t) = uart t

-- A text as it goes over the line: up to the terminator, each newline behind a carriage return.
unfoldable pub crlf : List ℕ → List ℕ
crlf [] = []
crlf (c ∷ s) = if c == 0 then [] else (if c == b'\n' then b'\r' ∷ c ∷ [] else c ∷ []) ++ crlf s
