-- ===== src/Stage2/Screen.antt =====
-- stage2/print.c and the progress bar of stage2/load.c. A byte with the high digit F is no
-- character: it selects the colour of its low digit.
use toy_bootloader.Common.{
  ℕ, zero, suc, ◌+◌, ◌*◌, ◌/◌, ◌^◌, true, false, some, List, [], ◌∷◌, bit_and, bit_or, ltb, leb,
  ◌==◌, if◌then◌else◌, u8,
}
use toy_bootloader.Real.{RealArg, Bios, CurPos, R, pure, ◌>>=◌, ◌>>◌, do_int}
use Prim.Native.String.{String}

-- `enum color`.
pub data Color : Type 0 where
  black blue green cyan red magenta brown light_gray dark_gray light_blue light_green : Color
  light_red light_magenta yellow white : Color

unfoldable pub color_code : Color → ℕ
color_code black = 0
color_code blue = 1
color_code green = 2
color_code cyan = 3
color_code red = 4
color_code magenta = 5
color_code brown = 6
color_code light_gray = 7
color_code dark_gray = 8
color_code light_blue = 9
color_code light_green = 10
color_code light_red = 11
color_code light_magenta = 12
color_code yellow = 13
color_code white = 14

-- `COLOR(X)`
unfoldable pub color_char : Color → ℕ
unfolding color_code
color_char c = bit_or 0xF0 (color_code c)

-- A `char` is signed: above 127 its sign fills the upper bits of `0x0900 | c`.
abbrev pub sign_extend : ℕ → ℕ
sign_extend c = if ltb c 128 then c else 0xFF00 + c

abbrev pub set_color : ℕ → R (Unit {0})
set_color c m = some (tt, record m { cur_color = c })

unfoldable pub get_color : R ℕ
get_color m = some (m.cur_color, m)

abbrev pub set_cursor : CurPos → R (Unit {0})
set_cursor p m = some (tt, record m { cursor_pos = p })

abbrev pub next_line : CurPos → CurPos
next_line p = record { column = 0; row = u8 (p.row + 1) }

abbrev pub advance : CurPos → CurPos
advance p = if leb 80 p.column then next_line p else record p { column = u8 (p.column + 1) }

module _ (env : Bios) where
  -- The row is in DH and the column in DL; nothing calls this.
  unfoldable pub getpos : R CurPos
  getpos = do
    reply ← do_int env 0x10 (record { ax = 0x0300; bx = 0; cx = 0; dx = 0 })
    pure (record { row = u8 (reply.regs.dx / 2 ^ 8); column = bit_and reply.regs.dx 0xFF })

  unfoldable pub setpos : CurPos → R (Unit {0})
  setpos p = do
    ignored ←
        do_int env 0x10
          (record { ax = 0x0200; bx = 0; cx = 0; dx = bit_or (p.row * 2 ^ 8) p.column })
    pure tt

  unfoldable pub writechar : ℕ → R (Unit {0})
  writechar c = do
    color ← λ m. some (m.cur_color, m)
    ignored ←
        do_int env 0x10
          (record { ax = bit_or 0x0900 (sign_extend c); bx = bit_or 0x0000 color; cx = 1; dx = 0 })
    pure tt

  unfoldable pub clear_screen : R (Unit {0})
  clear_screen = do ignored ← do_int env 0x10 (record { ax = 0; bx = 0; cx = 0; dx = 0 }); pure tt

  unfoldable pub putc : ℕ → R (Unit {0})
  putc c = elim (bit_and c 0xF0 == 0xF0) [
    | true ↦ set_color (bit_and c 0xF)
    | false ↦ do
      p ← λ m. some (m.cursor_pos, m)
      elim (c == b'\n') [
        | true ↦ set_cursor (next_line p)
        | false ↦ do setpos p; writechar c; set_cursor (advance p)
      ]
  ]

  unfoldable pub puts : List ℕ → R (Unit {0})
  puts [] = pure tt
  puts (c ∷ s) = elim (c == 0) [ true ↦ pure tt | false ↦ do putc c; puts s ]

  unfoldable pub printf : String → List RealArg → R (Unit {0})
  printf fmt args = puts (env.format fmt args)

  -- The `for` loop of `update_progress_bar`, with the rounds that are left; `i` counts from 1.
  unfoldable pub bar_cells : ℕ → ℕ → ℕ → R (Unit {0})
  bar_cells zero i curr = pure tt
  bar_cells (suc n) i curr = do
    putc (if ltb i curr then b'=' else if i == curr then b'>' else b' ')
    bar_cells n (i + 1) curr

  unfoldable pub update_progress_bar : ℕ → ℕ → R (Unit {0})
  unfolding color_code
  update_progress_bar curr count = do
    base_cur ← λ m. some (m.cursor_pos, m)
    base_color ← λ m. some (m.cur_color, m)
    set_color (color_code yellow)
    progress_cursor ← λ m. some (m.progress_cursor, m)
    set_cursor progress_cursor
    putc b'['
    bar_cells count 1 curr
    putc b']'
    set_cursor base_cur
    set_color base_color
