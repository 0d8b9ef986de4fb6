-- ===== src/Stage2/Printing.antt =====
-- What printing on the screen changes.
use toy_bootloader.Common.{
  ℕ, ◌*◌, ◌^◌, ◌≡◌, refl, some, List, [], ◌∷◌, inl, inr, arith, bit_and, bit_or, ◌==◌, Bool-cases,
}
use toy_bootloader.Real.{RealEvent, RealTrace, int, RealArg, Bios, CurPos, RealMachine, R, ◌>>◌}
use toy_bootloader.Stage2.Screen.{
  next_line, advance, sign_extend, setpos, writechar, putc, puts, printf,
}
use Prim.Native.String.{String}

-- A computation that returns, and changes the trace, the cursor and the colour alone.
pub record Prints (p : R (Unit {0})) (m : RealMachine) : Type 0 where
  pub trace : RealTrace
  pub cursor_pos : CurPos
  pub cur_color : ℕ
  pub returns :
      p m ≡ some (tt, record m { trace = trace; cursor_pos = cursor_pos; cur_color = cur_color })

abbrev pub printed : {p : R (Unit {0})} (m : RealMachine) → Prints p m → RealMachine
printed m d = record m { trace = d.trace; cursor_pos = d.cursor_pos; cur_color = d.cur_color }

pub Prints-then :
    (p q : R (Unit {0})) (m : RealMachine) (d : Prints p m)
    → Prints q (printed m d)
    → Prints (p >> q) m
Prints-then p q m d e = record {
  trace = e.trace;
  cursor_pos = e.cursor_pos;
  cur_color = e.cur_color;
  returns = ground (arith, d.returns, e.returns);
}

-- The two calls of the video BIOS for a character.
abbrev move : RealMachine → RealEvent
move m = int 0x10 (record {
  ax = 0x0200;
  bx = 0;
  cx = 0;
  dx = bit_or (m.cursor_pos.row * 2 ^ 8) m.cursor_pos.column;
})

abbrev cell : RealMachine → ℕ → RealEvent
cell m c =
    int 0x10
      (record { ax = bit_or 0x0900 (sign_extend c); bx = bit_or 0 m.cur_color; cx = 1; dx = 0 })

module _ (env : Bios) where
  pub putc-Prints : (c : ℕ) (m : RealMachine) → Prints (putc env c) m
  unfolding putc setpos writechar
  putc-Prints c m = elim (Bool-cases (bit_and c 0xF0 == 0xF0)) [
    | inl color ↦ record {
      trace = m.trace;
      cursor_pos = m.cursor_pos;
      cur_color = bit_and c 0xF;
      returns = ground (arith, color);
    }
    | inr plain ↦ elim (Bool-cases (c == b'\n')) [
      | inl newline ↦ record {
        trace = m.trace;
        cursor_pos = next_line m.cursor_pos;
        cur_color = m.cur_color;
        returns = ground (arith, plain, newline);
      }
      | inr other ↦ record {
        trace = cell m c ∷ move m ∷ m.trace;
        cursor_pos = advance m.cursor_pos;
        cur_color = m.cur_color;
        returns = ground (arith, plain, other);
      }
    ]
  ]

  pub puts-Prints : (s : List ℕ) (m : RealMachine) → Prints (puts env s) m
  unfolding puts
  puts-Prints [] m = record {
    trace = m.trace;
    cursor_pos = m.cursor_pos;
    cur_color = m.cur_color;
    returns = refl;
  }
  puts-Prints (c ∷ s) m = elim (Bool-cases (c == 0)) [
    | inl stop ↦ record {
      trace = m.trace;
      cursor_pos = m.cursor_pos;
      cur_color = m.cur_color;
      returns = ground (arith, stop);
    }
    | inr go ↦
        let d = putc-Prints c m in
        let e = puts-Prints s (printed m d) in
        record {
          trace = e.trace;
          cursor_pos = e.cursor_pos;
          cur_color = e.cur_color;
          returns = ground (arith, go, d.returns, e.returns);
        }
  ]

  pub printf-Prints :
      (fmt : String) (args : List RealArg) (m : RealMachine) → Prints (printf env fmt args) m
  unfolding printf
  printf-Prints fmt args m = puts-Prints (env.format fmt args) m
