-- ===== src/Stage2/ScreenLaws.antt =====
-- What the screen functions show, and where.
use toy_bootloader.Common.{
  ℕ, ◌+◌, ◌*◌, ◌/◌, ◌%◌, ◌^◌, ◌≤◌, ◌<◌, ◌≡◌, ◌≢◌, refl, ap, sym, ◌∙◌, false, not, some, List, [],
  ◌∷◌, ◌++◌, arith, bit_and, bit_or, bit_or_fields, ◌==◌, if◌then◌else◌, All, append_assoc,
  append-nil, all_below, all_below_sound, length,
}
use toy_bootloader.Real.{
  RealTrace, Regs, int, cpuid, inb, outb, lgdt, Bios, CurPos, RealMachine, R, pure, ◌>>◌,
}
use toy_bootloader.Stage2.Screen.{setpos, writechar, advance, sign_extend, putc}

-- A character cell as the video BIOS is asked to fill it.
pub record Cell : Type 0 where
  pub row : ℕ
  pub column : ℕ
  pub code : ℕ
  pub color : ℕ

-- The screen of the video BIOS: function 2 moves the cursor to row DH and column DL, function 9
-- writes the character AL in the colour BL at the cursor. The cells are in the order of writing.
pub record Video : Type 0 where
  pub at : ℕ
  pub cells : List Cell

abbrev pub video_int : Video → Regs → Video
video_int v r =
    if r.ax / 2 ^ 8 == 2
    then record v { at = r.dx }
    else if r.ax / 2 ^ 8 == 9
    then record v {
      cells =
          v.cells
          ++ (record {
            row = v.at / 2 ^ 8;
            column = v.at % 2 ^ 8;
            code = r.ax % 2 ^ 8;
            color = r.bx % 2 ^ 8;
          }
              ∷ []);
    }
    else v

unfoldable pub video : RealTrace → Video
video [] = record { at = 0; cells = [] }
video (int n r ∷ t) = if n == 0x10 then video_int (video t) r else video t
video (cpuid n ∷ t) = video t
video (inb p v ∷ t) = video t
video (outb p v ∷ t) = video t
video (lgdt n ∷ t) = video t

abbrev pub shown : RealMachine → List Cell
shown m = (video m.trace).cells

-- The cursor fits its two bytes and the colour its half byte.
pub record IsOnScreen (m : RealMachine) : Type 0 where
  pub row : m.cursor_pos.row < 256
  pub column : m.cursor_pos.column ≤ 80
  pub color : m.cur_color < 16

-- A character that `putc` shows, of the seven-bit set.
abbrev pub IsPlain : ℕ → Type 0
IsPlain c = (c < 128) × (c ≢ b'\n')

-- `putc` and the loops over it change the trace, the cursor and the colour alone.
abbrev pub drawn : RealMachine → RealTrace → CurPos → RealMachine
drawn m t p = record m { trace = t; cursor_pos = p }

abbrev pub cell_at : RealMachine → ℕ → Cell
cell_at m c = record {
  row = m.cursor_pos.row;
  column = m.cursor_pos.column;
  code = c;
  color = m.cur_color;
}

-- A text in one row and one colour.
abbrev pub line_cells : ℕ → ℕ → ℕ → List ℕ → List Cell
line_cells row column color [] = []
line_cells row column color (c ∷ s) =
    record { row = row; column = column; code = c; color = color }
    ∷ line_cells row (column + 1) color s

plain_and : (c : ℕ) → c < 128 → (bit_and c 0xF0 == 0xF0) ≡ false
unfolding all_below
plain_and c h = ground (arith, all_below_sound (λ c. not (bit_and c 0xF0 == 0xF0)) 128 refl c h)

module _ (env : Bios) where
  -- One character, at the cursor and in the current colour.
  pub putc_plain :
      (c : ℕ) (m : RealMachine)
      → IsPlain c
      → IsOnScreen m
      → (t : RealTrace) × (putc env c m ≡ some (tt, drawn m t (advance m.cursor_pos)))
        × ((video t).cells ≡ shown m ++ (cell_at m c ∷ []))
  unfolding putc setpos writechar video
  putc_plain c m plain ok =
      let p = m.cursor_pos in
      let move =
        int 0x10 (record { ax = 0x0200; bx = 0; cx = 0; dx = bit_or (p.row * 2 ^ 8) p.column }) in
      let put = int 0x10 (record {
        ax = bit_or 0x0900 (sign_extend c);
        bx = bit_or 0 m.cur_color;
        cx = 1;
        dx = 0;
      }) in
      (
        put ∷ move ∷ m.trace,
        ground (arith, plain_and c plain.0),
        ground (
          arith,
          bit_or_fields 8 p.row p.column (omega arith),
          bit_or_fields 8 9 c (omega arith),
          bit_or_fields 4 0 m.cur_color ok.color,
        ),
      )

  -- Characters in a row.
  abbrev pub draw : List ℕ → R (Unit {0})
  draw [] = pure tt
  draw (c ∷ s) = putc env c >> draw s

  -- A plain text that ends within the 81 columns goes to one row, from left to right.
  pub draw_line :
      (s : List ℕ) (m : RealMachine)
      → All IsPlain s
      → IsOnScreen m
      → m.cursor_pos.column + length s ≤ 80
      → (t : RealTrace) × (draw s m
          ≡ some (
            tt,
            drawn m t (record { row = m.cursor_pos.row; column = m.cursor_pos.column + length s }),
          ))
        × ((video t).cells
            ≡ shown m ++ line_cells m.cursor_pos.row m.cursor_pos.column m.cur_color s)
  draw_line [] m h ok fits = (m.trace, ground arith, sym (append-nil (shown m)))
  draw_line (c ∷ s) m (h, hs) ok fits =
      let (t, run, cells) = putc_plain c m h ok in
      let m' = drawn m t (record { row = m.cursor_pos.row; column = m.cursor_pos.column + 1 }) in
      let next : advance m.cursor_pos ≡ m'.cursor_pos = ground arith in
      let (t', run', cells') =
        draw_line s m' hs (record { row = ok.row; column = omega arith; color = ok.color })
          (omega arith) in
      (
        t',
        ground (arith, run, next, run'),
        cells'
            ∙ ap (λ l. l ++ line_cells m.cursor_pos.row (m.cursor_pos.column + 1) m.cur_color s)
                cells
            ∙ append_assoc (shown m) _ _,
      )
