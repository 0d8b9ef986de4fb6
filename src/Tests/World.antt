-- ===== src/Tests/World.antt =====
-- A machine with a controller that is always ready for a byte, a line that is always free, and an
-- interrupt in each round; and one in real mode.
use toy_bootloader.Common.{◌==◌, if◌then◌else◌, true, false, none, []}
use toy_bootloader.Machine.{
  SegRegister, IdtEvent, waiting, Handler, DiskProps, Env, Machine, update,
}
use toy_bootloader.Floppy.Types.{CheckInterruptRes}
use toy_bootloader.Real.{Bios, GdtSegDescriptor, Segments, RealMachine}
use toy_bootloader.Stage4.Paging.{Tables, Control}

abbrev pub floppy_props : DiskProps
floppy_props = record {
  drive_number = 0;
  drive_types = 4;
  cylinder_number = 79;
  max_sector_number = 18;
  max_head_number = 2;
  number_of_drives = 1;
}

abbrev pub env : Env
env = record {
  read = λ t p. if p == 0x3F4 then 0x80 else if p == 0x3FD then 0x60 else 0;
  irq = λ t. true;
  dma = λ t mem. mem;
  format = λ s args. [];
  props = floppy_props;
}

abbrev pub empty_gate : IdtEvent
empty_gate = record {
  offset0 = 0;
  seg_selector = record { rpl = 0; ti = 0; index = 0 };
  reserved = 0;
  idt_flag = 0;
  dpl = 0;
  p = 0;
  offset1 = 0;
}

abbrev pub machine : Machine
machine = record {
  trace = [];
  mem = λ a. 0;
  is_init = 0;
  fpy_irq_received = waiting;
  fpy_irq_handle_state = 0;
  g_idt = λ n. empty_gate;
  idt_limit = none;
  idt_handlers_32 = update (λ n. Handler.interrupt_panic) 38 Handler.fpy_interrupt_handler;
  timer = 0;
}

abbrev pub no_result : CheckInterruptRes
no_result = record { error = none; st0 = 0; current_cylinder = 0 }

abbrev pub bios : Bios
bios = record {
  bios = λ t. record { regs = record { ax = 0; bx = 0; cx = 0; dx = 0 }; carry = false };
  do_cpuid = λ t. record { ax = 0; bx = 0; cx = 0; dx = 0 };
  port = λ t p. 0;
  format = λ s args. [];
}

abbrev pub blank : GdtSegDescriptor
blank = record {
  seg_limit_1 = 0;
  base_address_1 = 0;
  base_address_2 = 0;
  accessed = 0;
  readable_writable = 0;
  direction_conforming = 0;
  code_sel = 0;
  true_bit = 0;
  privilelge_level = 0;
  segment_present = 0;
  seg_limit_2 = 0;
  available_system_software = 0;
  mode_64_bit = 0;
  op_size = 0;
  granularity = 0;
  base_address_3 = 0;
}

abbrev pub null_selector : SegRegister
null_selector = record { rpl = 0; ti = 0; index = 0 }

abbrev pub segments : Segments
segments = record {
  gdt0 = blank;
  gdt1 = blank;
  gdt2 = blank;
  gdt3 = blank;
  seg_ss = null_selector;
  seg_es = null_selector;
  seg_fs = null_selector;
  seg_gs = null_selector;
  seg_ds = null_selector;
  seg_cs = null_selector;
}

abbrev pub real_machine : RealMachine
real_machine = record {
  trace = [];
  cursor_pos = record { row = 3; column = 0 };
  cur_color = 7;
  progress_cursor = record { row = 1; column = 20 };
  props = floppy_props;
  segments = segments;
  cpu = record {
    clflush_cl = 0;
    loc_apic_id = 0;
    proc_features = 0;
    max_cpuid = 0;
    extra_1c = 0;
    extra_1d = 0;
  };
}

abbrev pub tables : Tables
tables = record {
  pml4_at = 0x9000;
  pdp_at = 0xA000;
  pd_at = 0xB000;
  pml4 = λ i. 0;
  pdp = λ i. 0;
  pd = λ i. 0;
}

abbrev pub control : Control
control = record { cr0 = 1; cr3 = 0; cr4 = 0; efer = 0 }
