-- ===== src/Serial/Defs.antt =====
-- setbr, write, puts and strnlen of stages 3, 4 and 5. Stage 3, unlike stage 4, also
-- writes the FIFO control register and waits in `write`; stage 5 does not initialise the port.
use toy_bootloader.Common.{
  ℕ, zero, suc, ◌+◌, Bool, true, false, none, some, Option, List, [], ◌∷◌, bit_and, bit_or, ◌==◌,
  if◌then◌else◌, length,
}
use toy_bootloader.Machine.{Env, M, Arg, pure, ◌>>=◌, ◌>>◌, hang, do_inb, do_outb}
use Prim.Native.String.{String}

abbrev pub com1 : ℕ
com1 = 0x3F8

-- `fifo` says whether the last line of stage 3 is there.
unfoldable pub setbr : Env → Bool → M (Unit {0})
setbr env fifo = do
  lcr ← do_inb env (com1 + 3)
  do_outb (com1 + 3) (bit_or lcr 0x80)
  do_outb (com1 + 0) 0x03
  do_outb (com1 + 1) 0x00
  do_outb (com1 + 3) (bit_and lcr 0x47)
  elim fifo [ true ↦ do_outb (com1 + 2) 0xC7 | false ↦ pure tt ]

unfoldable pub init_once : Env → Bool → M (Unit {0})
init_once env fifo = do
  done ← λ m. some (m.is_init, m)
  elim (done == 0) [
    | false ↦ pure tt
    | true ↦ do λ m. some (tt, record m { is_init = 1 }); setbr env fifo
  ]

-- `-1` is `none`.
unfoldable pub line_status : Env → ℕ → M (Option ℕ)
line_status env result = do
  lsr ← do_inb env (com1 + 5)
  pure (if bit_and lsr 0xE == 0 then some result else none)

-- The loop of `puts`: a newline is preceded by a carriage return.
unfoldable pub put_chars : List ℕ → M (Unit {0})
put_chars [] = pure tt
put_chars (c ∷ s) = elim (c == 0) [
  | true ↦ pure tt
  | false ↦ do
    elim (c == b'\n') [ true ↦ do_outb com1 b'\r' | false ↦ pure tt ]
    do_outb com1 c
    put_chars s
]

unfoldable pub puts : Env → Bool → List ℕ → M (Option ℕ)
puts env fifo s = do init_once env fifo; put_chars s; line_status env 1

-- Stage 5.
unfoldable pub puts64 : List ℕ → M (Unit {0})
puts64 s = put_chars s

-- `write` of stage 4 and loader_protected, over `buf[0..count)`.
unfoldable pub write_chars : List ℕ → M (Unit {0})
write_chars [] = pure tt
write_chars (c ∷ s) = do
  elim (c == b'\n') [ true ↦ do_outb com1 b'\r' | false ↦ pure tt ]
  do_outb com1 c
  write_chars s

unfoldable pub write : Env → List ℕ → M (Option ℕ)
write env buf = do init_once env false; write_chars buf; line_status env (length buf)

-- `while (!(do_inb(com1 + 5) & 0x20)) do_outb(com1, c);` of stage 3.
unfoldable pub send_while_busy : Env → ℕ → ℕ → M (Unit {0})
send_while_busy env zero c = hang
send_while_busy env (suc fuel) c = do
  lsr ← do_inb env (com1 + 5)
  elim (bit_and lsr 0x20 == 0) [
    | true ↦ do do_outb com1 c; send_while_busy env fuel c
    | false ↦ pure tt
  ]

unfoldable pub write_chars3 : Env → ℕ → List ℕ → M (Unit {0})
write_chars3 env fuel [] = pure tt
write_chars3 env fuel (c ∷ s) = do
  elim (c == b'\n') [ true ↦ send_while_busy env fuel b'\r' | false ↦ pure tt ]
  send_while_busy env fuel c
  write_chars3 env fuel s

unfoldable pub write3 : Env → ℕ → List ℕ → M (Option ℕ)
write3 env fuel buf = do init_once env true; write_chars3 env fuel buf; line_status env (length buf)

unfoldable pub strnlen : List ℕ → ℕ → ℕ
strnlen s zero = zero
strnlen [] (suc maxlen) = zero
strnlen (c ∷ s) (suc maxlen) = if c == 0 then zero else suc (strnlen s maxlen)

-- The loop of stage 5's `strnlen`: the bytes from `s[i]` on, and the rounds that are left.
unfoldable pub strnlen64_loop : ℕ → List ℕ → ℕ → ℕ
strnlen64_loop zero s i = i
strnlen64_loop (suc n) [] i = i
strnlen64_loop (suc n) (c ∷ s) i = if c == 0 then i else strnlen64_loop n s (i + 1)

unfoldable pub strnlen64 : List ℕ → ℕ → ℕ
unfolding strnlen64_loop
strnlen64 s maxlen = strnlen64_loop maxlen s 0

-- `printf` of stage 3: the kernel's formatter, then `puts`.
unfoldable pub printf : Env → String → List Arg → M (Unit {0})
printf env fmt args = do ignored ← puts env true (env.format fmt args); pure tt
