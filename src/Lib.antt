-- ===== src/Lib.antt =====
-- A verification of the toy bootloader.
--
-- The program is a chain of stages. Stage 1 is loaded by the BIOS and loads stage 2, which runs in
-- real mode: it prints on the screen, reads the disk's properties, fills the segment descriptors and
-- loads stage 3. Stage 3 runs in 32-bit protected mode: it sets up the interrupt controllers, the
-- timer, the serial console and the floppy controller with its DMA channel, and reads the next
-- stages from the disk. Stage 4 sets up paging and enters 64-bit mode for stage 5.
--
-- Common holds shared tests, list functions, lemmas on bits, and the steps of a list of functions
-- that run one after the other (Sequence).
--
-- Machine is the protected-mode machine: its state is the trace of port accesses, the memory, and
-- the globals of shared/floppy.c, shared/idt.c, stage3/write.c and stage3/timer.c. A computation (M)
-- maps a state to a result and a state, or to `none`, which stands for undefined behaviour or for a
-- busy wait that used up its fuel. What a port reads, when an interrupt is pending, what a DMA
-- transfer leaves in memory and what `vsprintf` formats are fields of Env, functions of the trace so
-- far. Keeping has one rule for each way to build a computation, for what the computation leaves
-- alone.
--
-- Two things are simpler than in the machine. The interrupt of the floppy controller is taken only
-- while the driver waits for it (wait_received), and that of the timer only in a round of the loop
-- of `sleep`: a handler never runs between two other statements. And what is sent over the serial
-- port (`sent` of Uart) is what was written to its data register: the queue of the port has no
-- limit.
--
-- Serial models the consoles: Defs has stage3/write.c, stage5/write.c and `write` of stage4/write.c,
-- Long the rest of stage4/write.c, and Protected loader_protected/write.c. Calls has the sequences
-- of calls over the stages but those of stage 3's `write`, and Uart the 16550 as its manual has it.
--
-- Dma models shared/dma.h; Dma/Chip is one channel of the 8237 as its manual has it. The drive of
-- Floppy/Controller transfers a sector as that channel is programmed, so the copying of sectors
-- stands on what stage 3 writes to the chip.
--
-- Floppy models shared/floppy.h, shared/floppy_impl.h and shared/floppy_read.h: Types has the
-- structs, Status the registers and their checks, Fifo the byte protocol, Block the bytes of each
-- command, Irq the interrupt handshake, Commands the commands and Read the copying of sectors.
-- Controller is the controller and a drive in good order as the manual has them. The other files
-- have the proofs; those of Delivery, Frames, Safety, CopySafety, Stopping and SectorId are about
-- any controller, and those of Showing, Unread, Phases, InStep and Sensed about one that shows its
-- phase and whose results are open.
--
-- Stage3 models stage3/floppy.c (Drive; its init table is in Loaders/Table), the interrupt
-- controllers and the timer of stage3/idt.c and stage3/timer.c (Pic, with PicLaws and Sleep), and
-- the interrupt table of stage3/idt.c with shared/idt.h and shared/idt_32.h (Idt).
--
-- Real is the real-mode machine: BIOS calls, port accesses and `cpuid` are events of its trace, and
-- Bios has the answers. A register that the code leaves open in a BIOS call is 0. Boot models
-- stage1/boot.c: copy_kernel (Copy) and init (Init); Tasks and Whole put init together with stage
-- 2's init table, which Stage2/Table has in the order of the objects in stage2/Makefile. Stage2
-- models stage2/print.c and the progress bar of stage2/load.c (Screen), the rest of that file
-- (Load), stage2/gdt.c (Gdt), stage2/a20.c (A20), stage2/disk_props.c and stage2/int.c (Queries),
-- stage2/cpuid.c (Cpuid), and stage2/mem.c, stage2/misc.c and stage2/strnlen.c (Memory).
--
-- Stage4 models stage4/paging.c. Loaders models stage3/load.c, stage3/copy_stage4.c,
-- stage3/breakpoint.c and loader_protected/load.c (Defs), and stage4/load.c and stage5/load.c
-- (Late), up to their jumps into assembly. An init table is a list of functions of the machine;
-- Table has the last entries of stage 3's, in the order of stage3/linker.ld: those of
-- stage3/floppy.c and that of stage3/copy_stage4.c. Disk puts them together with loader_protected.
-- The entries before them are not in that chain, as `setup_timer` shifts by more than the width of
-- `int`, which is undefined.
--
-- Loops over lists and counters are structural. The bounded polls of the floppy driver have the 1000
-- rounds of the source. The unbounded ones (`while (!fpy_read_status().mrq);`, the wait for an
-- interrupt, the polling of stage 3's `write`, the wait for the keyboard controller) take fuel: what
-- exceeds the rounds that the device lets pass is enough. That of `sleep` takes the list of its
-- rounds, each with whether the timer interrupts in it, and waits where the list ends. The copy loop
-- of `fpy_copy_bytes` has one round more than the whole blocks of 512 bytes in the count, as each
-- round takes 512 bytes.
--
-- Not modelled: assembly and linker scripts, among them the mode switches and the entries of the
-- interrupts; of stage 3's init table, the order of the entries before those of stage3/floppy.c; the
-- formatter, a copy of the Linux kernel's printf.c, which is the field `format`; what the BIOS
-- writes to memory; debug output.
pub mod Common
pub mod Machine
pub mod Serial
pub mod Dma
pub mod Floppy
pub mod Stage3
pub mod Real
pub mod Boot
pub mod Stage2
pub mod Stage4
pub mod Loaders
pub mod Tests
