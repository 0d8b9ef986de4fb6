-- ===== src/Loaders/Entry.antt =====
-- Stage 4 from its start to the jump into 64-bit mode.
use toy_bootloader.Common.{
  ap, ℕ, ◌<◌, ◌^◌, ◌≡◌, ◌∙◌, false, some, List, [], ◌++◌, arith, inr, append_assoc, All,
}
use toy_bootloader.Machine.{Env, Machine, Arg, SegRegister}
use toy_bootloader.Real.{Segments}
use toy_bootloader.Serial.Uart.{uart, crlf}
use toy_bootloader.Serial.Sends.{IsByte, Ready, Transmits}
use toy_bootloader.Serial.Transmit.{puts-Transmits}
use toy_bootloader.Serial.Agree.{consoles_agree}
use toy_bootloader.Stage4.Paging.{Tables, Control, setup_paging}
use toy_bootloader.Stage4.Walk.{IsAligned, walk, bit, setup_paging_identity}
use toy_bootloader.Loaders.Late.{printf4, stage4_load}
use Prim.Native.String.{String}

-- The formatter gives bytes.
abbrev pub GivesBytes : Env → Type 0
GivesBytes env = (fmt : String) (args : List Arg) → All IsByte (env.format fmt args)

printf4-Transmits :
    (env : Env) (fmt : String) (m : Machine)
    → GivesBytes env
    → Ready m
    → (m' : Machine) × (printf4 env fmt [] m ≡ some (tt, m'))
      × Transmits (crlf (env.format fmt [])) m m'
unfolding printf4
printf4-Transmits env fmt m bytes rdy =
    let s = env.format fmt [] in
    let (r, m', run, t) = puts-Transmits env false s m (bytes fmt []) rdy in
    let (_, same, _) = consoles_agree env s m in (m', ground (arith, same ∙ run), t)

-- With page-aligned tables below 4 GiB and a console that is fresh or set up, `stage4_load` comes to
-- its jump from every state of the tables and registers: its three lines have gone over the line in
-- this order, the page walk takes every virtual address of the first GiB to the same physical address,
-- long mode, PAE and paging are on, and the code selector is that of the 64-bit segment.
pub stage4_load_lem :
    (env : Env) (t : Tables) (c : Control) (s : Segments) (m : Machine) (va : ℕ)
    → IsAligned t
    → va < 2 ^ 30
    → GivesBytes env
    → Ready m
    → (t' : Tables) × (c' : Control) × (s' : Segments) × (m' : Machine) × (stage4_load env t c s m
        ≡ some ((t', c', s'), m'))
      × ((uart m'.trace).sent
          ≡ (uart m.trace).sent
            ++ (crlf (env.format "stage4 loaded\n" [])
                ++ (crlf (env.format "idt loaded\n" [])
                    ++ crlf (env.format "paging enabled\n" []))))
      × (walk t' c' va ≡ some va)
      × (bit c'.cr4 5 ≡ 1)
      × (bit c'.efer 8 ≡ 1)
      × (bit c'.cr0 31 ≡ 1)
      × (s'.seg_cs.index ≡ 3)
unfolding stage4_load
stage4_load_lem env t c s m va aligned low bytes rdy =
    let (m1, run1, t1) = printf4-Transmits env "stage4 loaded\n" m bytes rdy in
    let (m2, run2, t2) = printf4-Transmits env "idt loaded\n" m1 bytes (inr t1.dlab) in
    let (m3, run3, t3) = printf4-Transmits env "paging enabled\n" m2 bytes (inr t2.dlab) in
    let (maps, pae, long, paging, code, _, _, _, _, _) =
      setup_paging_identity t c s va aligned low in
    let r = setup_paging t c s in
    let (t', c', s') = r in
    (
      t',
      c',
      s',
      m3,
      ground (arith, run1, run2, run3),
      rw (t3.sent, t2.sent, t1.sent) (simp append_assoc),
      maps,
      pae,
      long,
      paging,
      ap (λ (r : SegRegister). r.index) code,
    )
