-- ===== src/Tests/Stages.antt =====
-- The loaders of the stages, the line 20 and the interrupt table at concrete values.
use toy_bootloader.Common.{
  List, ℕ, ◌+◌, ◌*◌, ◌≡◌, ◌≢◌, ◌⊎◌, refl, true, false, none, some, [], ◌∷◌, inl, inr, arith, Steps,
  ap, ◌∙◌,
}
use toy_bootloader.Machine.{Env, SegRegister, Machine, Handler, set_interrupt, Adds-invisible}
use toy_bootloader.Real.{RealTrace, RealMachine, Segments}
use toy_bootloader.Boot.Init.{LinkerVariables, init}
use toy_bootloader.Boot.InitLaws.{Described, Attempts, regs_for, init_lem}
use toy_bootloader.Stage2.Screen.{puts, printf}
use toy_bootloader.Stage2.Gdt.{fill_segments, gdt_setup}
use toy_bootloader.Stage2.Load.{RealInit, stage2_load}
use toy_bootloader.Stage2.LoadLaws.{Shared, shared, Acts, stage2_load-Steps}
use toy_bootloader.Stage2.A20.{a20}
use toy_bootloader.Stage2.A20Laws.{NeverTwo, asked, after_calls, a20_lem}
use toy_bootloader.Stage3.Idt.{idt}
use toy_bootloader.Stage3.IdtLaws.{is_vector, Enters, selector_word, idt_gates}
use toy_bootloader.Loaders.Defs.{Init, zero_bytes, breakpoint_instr, stage3_load}
use toy_bootloader.Loaders.Late.{stage4_load}
use toy_bootloader.Loaders.Order
use toy_bootloader.Loaders.Order.{rest, stage3_load-Steps, stage5_load-Steps}
use toy_bootloader.Serial.Uart.{uart, crlf}
use toy_bootloader.Stage4.Paging.{Tables, Control}
use toy_bootloader.Stage4.Walk.{walk, bit}
use toy_bootloader.Loaders.Entry.{GivesBytes, stage4_load_lem}
use toy_bootloader.Serial.Ports.{IsCom}
use toy_bootloader.Floppy.Controller.{command, phase}
use toy_bootloader.Floppy.Sensing.{View, view}
use toy_bootloader.Stage3.Drive.{floppy_init}
use toy_bootloader.Stage3.Start.{unseen, floppy_init_lem}
use toy_bootloader.Tests.Copy.{
  set_channel, pattern_disk, drive_env, good-IsDrive, good-Starts, empty_result,
}
use toy_bootloader.Tests.World.{
  no_result, segments, tables, control, env, machine, bios, real_machine,
}

abbrev gdt_task : RealInit
gdt_task = record { fun = gdt_setup bios; name = "gdt_setup"; file = "gdt.c" }

-- `gdt_setup` fills the descriptors, and leaves the disk's properties.
abbrev Fills : RealInit → Shared → Shared → Type 0
Fills f s s' = (s'.props ≡ s.props) × (s'.segments ≡ fill_segments s.segments)

gdt_task-Acts : Acts Described Fills gdt_task
unfolding gdt_setup printf puts
gdt_task-Acts m h = (_, refl, h, (refl, refl))

stage2_load-Steps_example :
    (m' : RealMachine) × (stage2_load bios (gdt_task ∷ gdt_task ∷ []) real_machine ≡ some (tt, m'))
    × Described (shared m')
    × Steps Fills (gdt_task ∷ gdt_task ∷ []) (shared real_machine) (shared m')
stage2_load-Steps_example =
    stage2_load-Steps bios Described Fills (gdt_task ∷ gdt_task ∷ []) real_machine
      (gdt_task-Acts, (gdt_task-Acts, tt)) (inr (omega arith))

abbrev image : LinkerVariables
image = record {
  content_start = 0x8000;
  stage_2_first_section_index = 3;
  stage_2_load_count = 20;
  stage_3_first_section_index = 23;
  stage_3_load_count = 40;
  shared_start = 0x7E00;
  shared_first_section_index = 1;
  shared_load_count = 2;
}

init_lem_example :
    let p = real_machine.props in
    (t1 t2 t3 : RealTrace) × (m2 : RealMachine) × (init bios image (gdt_task ∷ []) real_machine
      ≡ some (tt, record m2 { trace = t3 }))
    × Attempts bios p (regs_for p 1 2 0x7E00) [] t1
    × Attempts bios p (regs_for p 3 20 0x8000) t1 t2
    × (stage2_load bios (gdt_task ∷ []) (record real_machine { trace = t2 }) ≡ some (tt, m2))
    × Steps Fills (gdt_task ∷ []) (shared real_machine) (shared m2)
    × Attempts bios m2.props (regs_for m2.props 23 40 0x8000) m2.trace t3
init_lem_example =
    init_lem Fills bios image (gdt_task ∷ []) real_machine (gdt_task-Acts, tt) (inr (omega arith))

-- The keyboard controller of the test shows 0.
never_two : NeverTwo bios
never_two t h = cc

a20_lem_example :
    (((bios.bios (asked bios real_machine)).regs.ax ≡ 0) × (a20 bios 5 real_machine ≡ none))
    ⊎ (((bios.bios (asked bios real_machine)).regs.ax ≢ 0)
        × (m' : RealMachine) × (a20 bios 5 real_machine ≡ some (tt, m'))
        × (printf bios "|\\ success \n" [] (after_calls bios real_machine) ≡ some (tt, m')))
a20_lem_example = a20_lem bios 5 real_machine never_two

abbrev breakpoint_task : Init
breakpoint_task = record {
  name = "breakpoint_instr";
  file = "breakpoint.c";
  fun = breakpoint_instr;
}

abbrev floppy_task : Init
floppy_task = record {
  name = "floppy_init";
  file = "floppy.c";
  fun = floppy_init drive_env 2 no_result empty_result;
}

-- Each task sets its handler.
abbrev Handles : Init → Machine → Machine → Type 0
Handles f m m' =
    ((f.name ≡ "breakpoint_instr") × (m'.idt_handlers_32 3 ≡ Handler.handle_int3))
    ⊎ ((f.name ≡ "floppy_init") × (m'.idt_handlers_32 38 ≡ Handler.fpy_interrupt_handler))

-- No command is under way, and no request to the interrupt handler.
abbrev Calm : Machine → Type 0
Calm m = (m.fpy_irq_handle_state ≡ 0) × (phase m.trace ≡ command [])

Stable-Calm : Order.Stable Calm
Stable-Calm m i t mem added (state, start) =
    (state, ap (λ (v : View). v.0) (Adds-invisible IsCom view unseen added) ∙ start)

breakpoint_task-Acts : Order.Acts Calm Handles breakpoint_task
unfolding breakpoint_instr set_interrupt
breakpoint_task-Acts m calm = (_, refl, calm, inl (refl, refl))

floppy_task-Acts : Order.Acts Calm Handles floppy_task
floppy_task-Acts m (state, start) =
    let (m', run, ready, state', _) =
      floppy_init_lem drive_env 2 2 pattern_disk (good-IsDrive set_channel)
        (good-Starts set_channel) (omega arith) (omega arith) no_result empty_result m state
        start in
    (m', run, (state', ready.start), inr (refl, ready.handler))

machine-Calm : Calm machine
unfolding phase
machine-Calm = (refl, refl)

abbrev tasks : List Init
tasks = breakpoint_task ∷ floppy_task ∷ []

stage3_load-Steps_example :
    (m' : Machine) × (stage3_load drive_env 0x100 0x200 tasks machine ≡ some (tt, m'))
    × Calm m'
    × Steps Handles tasks
        (record (rest machine) { mem = zero_bytes 0x100 0x100 machine.mem })
        (rest m')
stage3_load-Steps_example =
    stage3_load-Steps drive_env Calm Stable-Calm Handles 0x100 0x200 tasks machine (omega arith)
      (breakpoint_task-Acts, (floppy_task-Acts, tt)) machine-Calm

abbrev code_selector : SegRegister
code_selector = record { rpl = 0; ti = 0; index = 1 }

abbrev entries : ℕ → ℕ
entries j = 0x10000 + j * 16

idt_gates_example :
    (m' : Machine) × (idt env entries code_selector machine ≡ some (tt, m'))
    × (m'.idt_limit ≡ some 2047)
    × (((is_vector 14 ≡ true)
          × Enters (m'.g_idt 14) 15 0x100E0 (selector_word code_selector)
          × (m'.idt_handlers_32 14 ≡ Handler.interrupt_panic))
        ⊎ ((is_vector 14 ≡ false)
            × (m'.g_idt 14 ≡ machine.g_idt 14)
            × (m'.idt_handlers_32 14 ≡ machine.idt_handlers_32 14)))
idt_gates_example = idt_gates env entries code_selector machine 14 (omega arith) (omega arith)

-- Each format gives `ok`.
abbrev speaking : Env
speaking = record env { format = λ fmt args. b'o' ∷ b'k' ∷ [] }

speaking-GivesBytes : GivesBytes speaking
speaking-GivesBytes fmt args = omega arith

stage4_load_lem_example :
    (t' : Tables) × (c' : Control) × (s' : Segments) × (m' : Machine) × (stage4_load speaking tables
        control segments machine
      ≡ some ((t', c', s'), m'))
    × ((uart m'.trace).sent ≡ b'o' ∷ b'k' ∷ b'o' ∷ b'k' ∷ b'o' ∷ b'k' ∷ [])
    × (walk t' c' 0x123456 ≡ some 0x123456)
    × (bit c'.cr4 5 ≡ 1)
    × (bit c'.efer 8 ≡ 1)
    × (bit c'.cr0 31 ≡ 1)
    × (s'.seg_cs.index ≡ 3)
unfolding uart crlf
stage4_load_lem_example =
    stage4_load_lem speaking tables control segments machine 0x123456
      (record {
        pml4 = refl;
        pdp = refl;
        pd = refl;
        pml4_low = omega arith;
        pdp_low = omega arith;
        pd_low = omega arith;
      })
      (omega arith) speaking-GivesBytes (inl refl)
