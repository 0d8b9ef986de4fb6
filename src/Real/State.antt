-- ===== src/Real/State.antt =====
-- Registers, BIOS calls, the globals of stage 2 and those of shared/ that it fills in.
use toy_bootloader.Common.{ℕ, Bool, List}
use toy_bootloader.Machine.{DiskProps, SegRegister}
use Prim.Native.String.{String}

pub record Regs : Type 0 where
  pub ax : ℕ
  pub bx : ℕ
  pub cx : ℕ
  pub dx : ℕ

-- What a BIOS interrupt or the `cpuid` instruction hands back; `carry` is the carry flag.
pub record Reply : Type 0 where
  pub regs : Regs
  pub carry : Bool

pub data RealEvent : Type 0 where
  int : ℕ → Regs → RealEvent
  cpuid : ℕ → RealEvent
  inb : ℕ → ℕ → RealEvent
  outb : ℕ → ℕ → RealEvent
  lgdt : ℕ → RealEvent

abbrev pub RealTrace : Type 0
RealTrace = List RealEvent

-- An argument of stage 2's `printf`; a `%c` takes a character code.
pub data RealArg : Type 0 where
  value : ℕ → RealArg
  text : String → RealArg

-- `bios` and `do_cpuid` answer the latest event of the trace. `format` is `vsprintf` of the Linux
-- kernel's printf.c.
pub record Bios : Type 0 where
  pub bios : RealTrace → Reply
  pub do_cpuid : RealTrace → Regs
  pub port : RealTrace → ℕ → ℕ
  pub format : String → List RealArg → List ℕ

pub record CurPos : Type 0 where
  pub row : ℕ
  pub column : ℕ

-- `struct gdt_seg_descriptor`, a packed bit-field of 64 bits.
pub record GdtSegDescriptor : Type 0 where
  pub seg_limit_1 : ℕ
  pub base_address_1 : ℕ
  pub base_address_2 : ℕ
  pub accessed : ℕ
  pub readable_writable : ℕ
  pub direction_conforming : ℕ
  pub code_sel : ℕ
  pub true_bit : ℕ
  pub privilelge_level : ℕ
  pub segment_present : ℕ
  pub seg_limit_2 : ℕ
  pub available_system_software : ℕ
  pub mode_64_bit : ℕ
  pub op_size : ℕ
  pub granularity : ℕ
  pub base_address_3 : ℕ

-- `gdt[4]` and the six selectors of shared/gdt.c.
pub record Segments : Type 0 where
  pub gdt0 : GdtSegDescriptor
  pub gdt1 : GdtSegDescriptor
  pub gdt2 : GdtSegDescriptor
  pub gdt3 : GdtSegDescriptor
  pub seg_ss : SegRegister
  pub seg_es : SegRegister
  pub seg_fs : SegRegister
  pub seg_gs : SegRegister
  pub seg_ds : SegRegister
  pub seg_cs : SegRegister

-- The globals of shared/cpuid.c; the three structs are kept as the words that they are read from.
pub record CpuidInfos : Type 0 where
  pub clflush_cl : ℕ
  pub loc_apic_id : ℕ
  pub proc_features : ℕ
  pub max_cpuid : ℕ
  pub extra_1c : ℕ
  pub extra_1d : ℕ

pub record RealMachine : Type 0 where
  pub trace : RealTrace
  pub cursor_pos : CurPos
  pub cur_color : ℕ
  pub progress_cursor : CurPos
  pub props : DiskProps
  pub segments : Segments
  pub cpu : CpuidInfos
