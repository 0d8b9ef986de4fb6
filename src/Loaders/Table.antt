-- ===== src/Loaders/Table.antt =====
-- The last entries of stage 3's init table: those of stage3/floppy.c, and that of
-- stage3/copy_stage4.c behind them, as stage3/linker.ld orders them.
use toy_bootloader.Common.{ℕ, List, [], ◌∷◌, ◌++◌}
use toy_bootloader.Machine.{Env}
use toy_bootloader.Floppy.Types.{CheckInterruptRes, ReadtrackRes}
use toy_bootloader.Stage3.Drive.{floppy_init, floppy_dma, floppy_dma_setup_read, floppy_test}
use toy_bootloader.Loaders.Defs.{Init, Part, copy_stage4}

module _ (env : Env) (fuel : ℕ) (r : CheckInterruptRes) (uninit : ReadtrackRes) where
  abbrev pub init_entry : Init
  init_entry = record {
    name = "floppy_init";
    file = "floppy.c";
    fun = floppy_init env fuel r uninit;
  }

  abbrev pub dma_entry : Init
  dma_entry = record { name = "floppy_dma"; file = "floppy.c"; fun = floppy_dma env }

  abbrev pub read_entry : Init
  read_entry = record {
    name = "floppy_dma_setup_read";
    file = "floppy.c";
    fun = floppy_dma_setup_read env;
  }

  abbrev pub test_entry : Init
  test_entry = record {
    name = "floppy_test";
    file = "floppy.c";
    fun = floppy_test env fuel r uninit;
  }

  -- `INIT_ORDERED` of stage3/floppy.c.
  unfoldable pub floppy_entries : List Init
  floppy_entries = init_entry ∷ dma_entry ∷ read_entry ∷ test_entry ∷ test_entry ∷ []

  -- `INIT(copy_stage4)`
  abbrev pub copy_entry : Part → Init
  copy_entry part = record {
    name = "copy_stage4";
    file = "copy_stage4.c";
    fun = copy_stage4 env fuel r uninit part;
  }

  unfoldable pub disk_entries : Part → List Init
  unfolding floppy_entries
  disk_entries part = floppy_entries ++ (copy_entry part ∷ [])
