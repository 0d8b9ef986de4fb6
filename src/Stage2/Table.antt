-- ===== src/Stage2/Table.antt =====
-- Stage 2's init table, in the order of the objects in stage2/Makefile.
use toy_bootloader.Common.{ℕ, List, [], ◌∷◌, ◌++◌}
use toy_bootloader.Real.{RealTrace, Bios}
use toy_bootloader.Stage2.Load.{RealInit}
use toy_bootloader.Stage2.Memory.{MemSec, set_memory_size}
use toy_bootloader.Stage2.Cpuid.{cpuid_entries}
use toy_bootloader.Stage2.A20.{a20}
use toy_bootloader.Stage2.Gdt.{gdt_setup}
use toy_bootloader.Stage2.Queries.{disk_props}

module _ (env : Bios) (fuel : ℕ) (buffer : RealTrace → MemSec) where
  abbrev pub memory_entry : RealInit
  memory_entry = record {
    fun = set_memory_size env buffer;
    name = "set_memory_size";
    file = "mem.c";
  }

  abbrev pub line_entry : RealInit
  line_entry = record { fun = a20 env fuel; name = "a20"; file = "a20.c" }

  abbrev pub segments_entry : RealInit
  segments_entry = record { fun = gdt_setup env; name = "gdt_setup"; file = "gdt.c" }

  abbrev pub disk_entry : RealInit
  disk_entry = record { fun = disk_props env; name = "disk_props"; file = "disk_props.c" }

  unfoldable pub stage2_entries : List RealInit
  unfolding cpuid_entries
  stage2_entries =
      memory_entry ∷ (cpuid_entries env ++ (line_entry ∷ segments_entry ∷ disk_entry ∷ []))
