-- ===== src/Machine/State.antt =====
-- Port events, the environment, and the globals of shared/.
use toy_bootloader.Common.{ℕ, Bool, Option, List, ◌==◌, if◌then◌else◌}
use Prim.Native.String.{String}

-- One access of the processor to its surroundings, `idle` being a round of a wait on memory.
pub data Event : Type 0 where
  inb : ℕ → ℕ → Event
  outb : ℕ → ℕ → Event
  idle : Event

-- The accesses so far, the latest first.
abbrev pub Trace : Type 0
Trace = List Event

-- The messages of `MK_ERR`, without the file and the line that they begin with.
pub data Error : Type 0 where
  expected_true : String → ℕ → String → Error
  expected_false : String → ℕ → String → Error
  abnormal_termination : Error
  invalid_command : Error
  polling_termination : Error
  timeout : Error
  bad_msr_values : Error
  msr_dataio : Error
  bad_version : Error

-- `err_t`: `none` is `NO_ERR`.
abbrev pub ErrT : Type 0
ErrT = Option Error

-- The values of `fpy_irq_received`: 0 = wait, 1 = ok, a pointer = an error.
pub data IrqReceived : Type 0 where
  waiting : IrqReceived
  received : IrqReceived
  failed : Error → IrqReceived

-- The functions that the code stores in `idt_handlers_32`.
pub data Handler : Type 0 where
  unset interrupt_panic interrupt_none handle_timer_interrupt handle_int3 : Handler
  fpy_interrupt_handler : Handler

-- An argument of `printf`.
pub data Arg : Type 0 where
  number : ℕ → Arg
  text : String → Arg
  message : Error → Arg

-- The globals of shared/disk_props.c, which stage 2 writes and the later stages read.
pub record DiskProps : Type 0 where
  pub drive_number : ℕ
  pub drive_types : ℕ
  pub cylinder_number : ℕ
  pub max_sector_number : ℕ
  pub max_head_number : ℕ
  pub number_of_drives : ℕ

-- What the code does not implement. `format` is `vsprintf` of the Linux kernel's printf.c.
pub record Env : Type 0 where
  pub read : Trace → ℕ → ℕ
  pub irq : Trace → Bool
  pub dma : Trace → (ℕ → ℕ) → ℕ → ℕ
  pub format : String → List Arg → List ℕ
  pub props : DiskProps

-- A selector of shared/gdt.h.
pub record SegRegister : Type 0 where
  pub rpl : ℕ
  pub ti : ℕ
  pub index : ℕ

-- `struct int_infos`.
pub record IntInfos : Type 0 where
  pub edi : ℕ
  pub esi : ℕ
  pub edx : ℕ
  pub ecx : ℕ
  pub ebx : ℕ
  pub eax : ℕ
  pub int_nbr : ℕ
  pub ret_code : ℕ
  pub ip : ℕ

-- A gate of shared/idt_32.h, a packed bit-field of 64 bits.
pub record IdtEvent : Type 0 where
  pub offset0 : ℕ
  pub seg_selector : SegRegister
  pub reserved : ℕ
  pub idt_flag : ℕ
  pub dpl : ℕ
  pub p : ℕ
  pub offset1 : ℕ

-- `idt_limit` is the limit that `lidt` has loaded, with the address of `g_idt`.
pub record Machine : Type 0 where
  pub trace : Trace
  pub mem : ℕ → ℕ
  pub is_init : ℕ
  pub fpy_irq_received : IrqReceived
  pub fpy_irq_handle_state : ℕ
  pub idt_handlers_32 : ℕ → Handler
  pub g_idt : ℕ → IdtEvent
  pub idt_limit : Option ℕ
  pub timer : ℕ

abbrev pub update {ℓ} : {A : Type ℓ} → (ℕ → A) → ℕ → A → ℕ → A
update f k v j = if j == k then v else f j
