-- ===== src/Serial/Protected.antt =====
-- loader_protected/write.c.
use toy_bootloader.Common.{
  ℕ, zero, suc, ◌+◌, true, false, Option, none, some, List, [], ◌∷◌, bit_and, bit_or, ◌==◌, length,
}
use toy_bootloader.Machine.{Env, M, pure, ◌>>=◌, ◌>>◌, do_inb, do_outb}

abbrev pub com1 : ℕ
com1 = 0x3F8

unfoldable pub setbr : Env → ℕ → M (Unit {0})
setbr env com1 = do
  lcr ← do_inb env (com1 + 3)
  do_outb (com1 + 3) (bit_or lcr 0x80)
  do_outb (com1 + 0) 0x03
  do_outb (com1 + 1) 0x00
  do_outb (com1 + 3) (bit_and lcr 0x47)

-- `if (!is_init) { is_init = 1; setbr(com1); }`
unfoldable pub set_up : Env → M (Unit {0})
unfolding setbr
set_up env = do
  done ← λ m. some (m.is_init, m)
  elim (done == 0) [
    | true ↦ do λ m. some (tt, record m { is_init = 1 }); setbr env com1
    | false ↦ pure tt
  ]

-- The test of the line status; `-1` is `none`.
unfoldable pub line_status : Env → ℕ → M (Option ℕ)
line_status env result = do
  lsr ← do_inb env (com1 + 5)
  elim (bit_and lsr 0xE == 0) [ true ↦ pure (some result) | false ↦ pure none ]

-- The loop of `write`.
unfoldable pub write_chars : List ℕ → M (Unit {0})
write_chars [] = pure tt
write_chars (c ∷ s) = do
  elim (c == b'\n') [ true ↦ do_outb com1 b'\r' | false ↦ pure tt ]
  do_outb com1 c
  write_chars s

unfoldable pub write : Env → List ℕ → M (Option ℕ)
write env buf = do set_up env; write_chars buf; line_status env (length buf)

-- The loop of `puts`.
unfoldable pub put_chars : List ℕ → M (Unit {0})
put_chars [] = pure tt
put_chars (c ∷ s) = elim (c == 0) [
  | true ↦ pure tt
  | false ↦ do
    elim (c == b'\n') [ true ↦ do_outb com1 b'\r' | false ↦ pure tt ]
    do_outb com1 c
    put_chars s
]

unfoldable pub puts : Env → List ℕ → M (Option ℕ)
puts env s = do set_up env; put_chars s; line_status env 1

-- The bytes from `s[i]` on, and the rounds that are left.
unfoldable pub strnlen_loop : ℕ → List ℕ → ℕ → ℕ
strnlen_loop zero s i = i
strnlen_loop (suc n) [] i = i
strnlen_loop (suc n) (c ∷ s) i = elim (c == 0) [ true ↦ i | false ↦ strnlen_loop n s (i + 1) ]

unfoldable pub strnlen : List ℕ → ℕ → ℕ
unfolding strnlen_loop
strnlen s maxlen = strnlen_loop maxlen s 0
