-- ===== src/Stage3/Idt.antt =====
-- The interrupt table: `idt_set`, `idt`, `interrupt_panic`, `interrupt_none` and `clear_interrupt` of
-- stage3/idt.c, over the list of shared/idt.h.
use toy_bootloader.Common.{
  ℕ, ◌/◌, ◌%◌, ◌^◌, Bool, true, false, some, List, [], ◌∷◌, ◌==◌, ◌&&◌, ◌||◌, leb, if◌then◌else◌,
  u8, u32,
}
use toy_bootloader.Machine.{
  SegRegister, IdtEvent, IntInfos, Env, Handler, number, M, pure, ◌>>◌, hang, update, set_interrupt,
}
use toy_bootloader.Serial.Defs.{printf}
use Prim.Native.String.{String, ◌++◌}

-- An entry of `X_IDT_ENTRIES`.
pub record Vector : Type 0 where
  pub number : ℕ
  pub has_code : Bool
  pub info : String

abbrev pub vectors : List Vector
vectors =
    record { number = 0; has_code = false; info = "Divide Error" }
    ∷ record { number = 1; has_code = false; info = "Debug Exception" }
    ∷ record { number = 2; has_code = false; info = "NMI Interruption" }
    ∷ record { number = 3; has_code = false; info = "Breakpoint" }
    ∷ record { number = 4; has_code = false; info = "Overflow" }
    ∷ record { number = 5; has_code = false; info = "Bound range exceeded" }
    ∷ record { number = 6; has_code = false; info = "Invalid OpCode" }
    ∷ record { number = 7; has_code = false; info = "Device not compatible" }
    ∷ record { number = 8; has_code = true; info = "Double fault" }
    ∷ record { number = 9; has_code = false; info = "Coprocessor segment overrun" }
    ∷ record { number = 10; has_code = true; info = "Invalid TSS" }
    ∷ record { number = 11; has_code = true; info = "Segment not present" }
    ∷ record { number = 12; has_code = true; info = "Stack-segment Not present" }
    ∷ record { number = 13; has_code = true; info = "General protection" }
    ∷ record { number = 14; has_code = true; info = "Page fault" }
    ∷ record { number = 15; has_code = false; info = "Intel-reserved" }
    ∷ record { number = 16; has_code = false; info = "x87 FPU Floating point error" }
    ∷ record { number = 17; has_code = true; info = "Alignement check" }
    ∷ record { number = 18; has_code = false; info = "machine check" }
    ∷ record { number = 19; has_code = false; info = "SMID floating-point excepion" }
    ∷ record { number = 20; has_code = false; info = "virtualization exception" }
    ∷ record { number = 32; has_code = false; info = "IRQ0 - PIT" }
    ∷ record { number = 33; has_code = false; info = "IRQ1 - Keyboard" }
    ∷ record { number = 35; has_code = false; info = "IRQ3 - UART (COM2 and COM4)" }
    ∷ record { number = 36; has_code = false; info = "IRQ4 - UART (COM1 and COM3)" }
    ∷ record { number = 37; has_code = false; info = "IRQ5 - Hard disk/ Parallel port" }
    ∷ record { number = 38; has_code = false; info = "IRQ6 - Floppy disk controller" }
    ∷ record { number = 39; has_code = false; info = "IRQ7 - Parallel port LPT1" }
    ∷ record { number = 40; has_code = false; info = "IRQ8 - RTC" }
    ∷ record { number = 41; has_code = false; info = "IRQ9 - APCI" }
    ∷ record { number = 42; has_code = false; info = "IRQ10 - Available" }
    ∷ record { number = 43; has_code = false; info = "IRQ11 - Available" }
    ∷ record { number = 44; has_code = false; info = "IRQ12 - PS/2 mouse controller" }
    ∷ record { number = 45; has_code = false; info = "IRQ13 - Math coprocessor" }
    ∷ record { number = 46; has_code = false; info = "IRQ14 - Hard disk controller 1" }
    ∷ record { number = 47; has_code = false; info = "IRQ15 - Hard disk controller 2" }
    ∷ []

unfoldable pub is_interrupt : ℕ → Bool
is_interrupt e = e == 2 || (leb 32 e && leb e 255)

-- The gate that `idt_set` builds; the fields that it does not name are 0.
unfoldable pub gate_of : ℕ → ℕ → SegRegister → IdtEvent
unfolding is_interrupt
gate_of event_n offset seg_selector = record {
  offset0 = offset % 2 ^ 16;
  offset1 = u32 offset / 2 ^ 16;
  seg_selector = seg_selector;
  p = 1;
  idt_flag = if is_interrupt event_n then 0x70 else 0x78;
  dpl = 0;
  reserved = 0;
}

unfoldable pub idt_set : ℕ → ℕ → SegRegister → M (Unit {0})
unfolding gate_of
idt_set event_n offset seg_selector m = some (
  tt,
  record m { g_idt = update m.g_idt (u8 event_n) (gate_of (u8 event_n) offset seg_selector) },
)

-- The macro `X` of `idt`, over the entries that are left; `entries` has the addresses of the
-- `idt_entry_32_##N`.
unfoldable pub set_vectors : (ℕ → ℕ) → SegRegister → List Vector → M (Unit {0})
unfolding idt_set
set_vectors entries seg_cs [] = pure tt
set_vectors entries seg_cs (v ∷ vs) = do
  idt_set v.number (entries v.number) seg_cs
  set_interrupt v.number Handler.interrupt_panic
  set_vectors entries seg_cs vs

-- `debugf` is empty without `DEBUG`; `sizeof(g_idt) - 1` is 2047.
unfoldable pub idt : Env → (ℕ → ℕ) → SegRegister → M (Unit {0})
idt env entries seg_cs = do
  set_vectors entries seg_cs vectors
  λ m. some (tt, record m { idt_limit = some 2047 })
  printf env "interruptions enabled\n" []

-- The case of the `switch` for the entry that has the number.
unfoldable pub report_vector : Env → IntInfos → List Vector → M (Unit {0})
report_vector env r [] = pure tt
report_vector env r (v ∷ vs) = elim (v.number == r.int_nbr) [
  | true ↦ do
    printf env ("interruption informations : \"" ++ v.info ++ "\"\n") []
    elim v.has_code [
      | true ↦ printf env "error_code : 0x%x\n" (number r.ret_code ∷ [])
      | false ↦ pure tt
    ]
  | false ↦ report_vector env r vs
]

-- What `interrupt_panic` prints before its endless loop.
unfoldable pub panic_report : Env → IntInfos → M (Unit {0})
panic_report env r = do
  printf env "***PANIC***\n" []
  printf env "interruption %d\n" (number r.int_nbr ∷ [])
  report_vector env r vectors
  printf env "edi:0x%x, esi:0x%x, edx:0x%x, ecx:0x%x, eax:0x%x, ip:0x%x\n"
      (number r.edi ∷ number r.esi ∷ number r.edx ∷ number r.ecx ∷ number r.eax ∷ number r.ip ∷ [])

unfoldable pub interrupt_panic : Env → IntInfos → M (Unit {0})
unfolding panic_report
interrupt_panic env r = do panic_report env r; hang

unfoldable pub interrupt_none : IntInfos → M (Unit {0})
interrupt_none regs = pure tt

unfoldable pub clear_interrupt : ℕ → M (Unit {0})
clear_interrupt n = set_interrupt n Handler.interrupt_panic
