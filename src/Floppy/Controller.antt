-- ===== src/Floppy/Controller.antt =====
-- The controller as its manual describes it to software: a command is collected byte by byte, and
-- its results are then read byte by byte. Codes that the driver does not use count as one byte.
use toy_bootloader.Common.{
  ℕ, zero, suc, ◌+◌, ◌-◌, ◌<◌, ◌%◌, ◌≡◌, refl, Bool, true, false, none, List, [], ◌∷◌, ◌++◌, ◌==◌,
  ◌&&◌, ltb, leb, if◌then◌else◌, length, test_bit, u8,
}
use toy_bootloader.Machine.{Trace, inb, outb, idle, Env}
use toy_bootloader.Dma.Chip.{Channel, channel2, is_programmed}
use toy_bootloader.Floppy.Types.{ReadSectorParams}
use toy_bootloader.Floppy.Status.{fpy_fifo, fpy_check_st0, fpy_check_st1, fpy_check_st2}
use toy_bootloader.Floppy.Block.{read_block}
use toy_bootloader.Floppy.Polling.{Answers, status}
use toy_bootloader.Floppy.Observed.{Observer}
use toy_bootloader.Floppy.IrqLaws.{RaisesAfter, idles}

-- `command`: the bytes of a command so far. `result`: the whole command, and how many results are
-- left to read.
pub data Phase : Type 0 where
  command : List ℕ → Phase
  result : List ℕ → ℕ → Phase

-- The bytes of a command, and of its results.
abbrev pub need : ℕ → ℕ
need code =
    if code == 2
    then 9
    else if code == 3
    then 3
    else if code == 4
    then 2
    else if code == 5
    then 9
    else if code == 6
    then 9
    else if code == 7
    then 2
    else if code == 9
    then 9
    else if code == 10
    then 2
    else if code == 12
    then 9
    else if code == 15
    then 3
    else if code == 19
    then 4
    else 1

abbrev pub results : ℕ → ℕ
results code =
    if code == 2
    then 7
    else if code == 4
    then 1
    else if code == 5
    then 7
    else if code == 6
    then 7
    else if code == 8
    then 2
    else if code == 9
    then 7
    else if code == 10
    then 7
    else if code == 12
    then 7
    else if code == 16
    then 1
    else if code == 20
    then 1
    else 0

abbrev pub complete : List ℕ → Phase
complete [] = command []
complete (c ∷ cs) =
    if length (c ∷ cs) == need (c % 32)
    then (if results (c % 32) == 0 then command [] else result (c ∷ cs) (results (c % 32)))
    else command (c ∷ cs)

abbrev pub put : Phase → ℕ → Phase
put (command bs) v = complete (bs ++ (v ∷ []))
put (result bs n) v = result bs n

abbrev pub get : Phase → Phase
get (command bs) = command bs
get (result bs zero) = command []
get (result bs (suc zero)) = command []
get (result bs (suc (suc n))) = result bs (suc n)

unfoldable pub phase : Trace → Phase
phase [] = command []
phase (inb p v ∷ t) = if p == fpy_fifo then get (phase t) else phase t
phase (outb p v ∷ t) = if p == fpy_fifo then put (phase t) v else phase t
phase (idle ∷ t) = phase t

pub phase-Observer : Observer Phase phase put
unfolding phase
phase-Observer = record { poll = λ v t. refl; fifo_write = λ v t. refl }

pub phase-idles : (k : ℕ) (t : Trace) → phase (idles k t) ≡ phase t
unfolding phase
phase-idles zero t = refl
phase-idles (suc k) t = phase-idles k (idle ∷ t)

-- The first 512 bytes of the transfer buffer, and the 768 that the DMA channel may write: without an
-- end of the transfer the controller goes on into the next sector.
abbrev pub in_sector : ℕ → Bool
in_sector j = leb 0x1000 j && ltb j 0x1200

abbrev pub in_buffer : ℕ → Bool
in_buffer j = leb 0x1000 j && ltb j 0x1300

-- The sector that a read command asks for has come, and no result is read yet.
abbrev pub HasRead : Trace → ReadSectorParams → Type 0
HasRead t p = phase t ≡ result (read_block 0x6 p) 7

-- A drive in good order with the contents `disk`, by cylinder, head, sector and place: it shows its
-- phase in the status register, raises its interrupt after a read, transfers the sector if the DMA
-- channel is programmed for that, and reports no error. `initial` has the channel's registers before
-- the first access to them.
pub record IsDrive (env : Env) (initial : Channel) (bound : ℕ) (disk : ℕ → ℕ → ℕ → ℕ → ℕ)
    : Type 0 where
  pub answers : Answers env bound
  pub accepts : (t : Trace) → phase t ≡ command [] → test_bit (status env t) 7 ≡ true
  pub listens : (t : Trace) → phase t ≡ command [] → test_bit (status env t) 6 ≡ false
  pub raises :
      (t : Trace) (p : ReadSectorParams)
      → HasRead t p
      → (k : ℕ) × (k + 1 < bound) × RaisesAfter env k t
  pub transfers :
      (t : Trace) (p : ReadSectorParams) (mem : ℕ → ℕ) (j : ℕ)
      → HasRead t p
      → is_programmed (channel2 initial t) ≡ true
      → in_sector j ≡ true
      → env.dma t mem j ≡ disk p.cylinder p.head p.sector (j - 0x1000)
  pub keeps :
      (t : Trace) (p : ReadSectorParams) (mem : ℕ → ℕ) (j : ℕ)
      → HasRead t p
      → is_programmed (channel2 initial t) ≡ true
      → in_buffer j ≡ false
      → env.dma t mem j ≡ mem j
  pub st0 :
      (t : Trace) (b : List ℕ)
      → phase t ≡ result b 7
      → fpy_check_st0 (u8 (env.read t fpy_fifo)) ≡ none
  pub st1 :
      (t : Trace) (b : List ℕ)
      → phase t ≡ result b 6
      → fpy_check_st1 (u8 (env.read t fpy_fifo)) ≡ none
  pub st2 :
      (t : Trace) (b : List ℕ)
      → phase t ≡ result b 5
      → fpy_check_st2 (u8 (env.read t fpy_fifo)) ≡ none
