-- ===== src/Serial/Ports.antt =====
-- Which ports the console functions touch.
use toy_bootloader.Common.{
  ℕ, ◌≤◌, ◌<◌, ◌≡◌, refl, inl, inr, Bool, true, false, some, List, [], ◌∷◌, arith, bit_and, bit_or,
  u8, ◌==◌, Bool-cases,
}
use toy_bootloader.Machine.{
  Trace, inb, outb, Env, Machine, Arg, M, do_inb, do_outb, Adds, Adds-refl, Adds-event, Adds-trans,
}
use toy_bootloader.Serial.Defs.{com1, setbr, init_once, line_status, put_chars, puts, printf}
use Prim.Native.String.{String}

abbrev pub IsCom : ℕ → Type 0
IsCom p = (0x3F8 ≤ p) × (p < 0x3FE)

-- The computation returns, and changes at most the trace, by accesses to the line, and `is_init`.
pub record OnLine {A : Type 0} (p : M A) (m : Machine) : Type 0 where
  pub value : A
  pub init : ℕ
  pub trace : Trace
  pub returns : p m ≡ some (value, record m { is_init = init; trace = trace })
  pub adds : Adds IsCom m.trace trace

setbr-OnLine : (env : Env) (fifo : Bool) (m : Machine) → OnLine (setbr env fifo) m
unfolding setbr do_inb do_outb
setbr-OnLine env fifo m = split fifo
  where
    lcr : ℕ
    lcr = u8 (env.read m.trace 0x3FB)

    base : Trace
    base =
        outb 0x3FB (u8 (bit_and lcr 0x47))
        ∷ outb 0x3F9 0
        ∷ outb 0x3F8 3
        ∷ outb 0x3FB (u8 (bit_or lcr 0x80))
        ∷ inb 0x3FB lcr
        ∷ m.trace

    base-Adds : Adds IsCom m.trace base
    base-Adds = Adds-event IsCom _ (omega arith) (
        Adds-event IsCom _ (omega arith) (
          Adds-event IsCom _ (omega arith) (
            Adds-event IsCom _ (omega arith)
              (Adds-event IsCom (inb 0x3FB lcr) (omega arith) (Adds-refl IsCom m.trace)))))

    split : (fifo : Bool) → OnLine (setbr env fifo) m
    split true = record {
      value = tt;
      init = m.is_init;
      trace = outb 0x3FA 0xC7 ∷ base;
      returns = refl;
      adds = Adds-event IsCom _ (omega arith) base-Adds;
    }
    split false = record {
      value = tt;
      init = m.is_init;
      trace = base;
      returns = refl;
      adds = base-Adds;
    }

init_once-OnLine : (env : Env) (fifo : Bool) (m : Machine) → OnLine (init_once env fifo) m
unfolding init_once
init_once-OnLine env fifo m = elim (Bool-cases (m.is_init == 0)) [
  | inl fresh ↦
      let s = setbr-OnLine env fifo (record m { is_init = 1 }) in
      record {
        value = tt;
        init = s.init;
        trace = s.trace;
        returns = ground (arith, fresh, s.returns);
        adds = s.adds;
      }
  | inr old ↦ record {
    value = tt;
    init = m.is_init;
    trace = m.trace;
    returns = ground (arith, old);
    adds = Adds-refl IsCom m.trace;
  }
]

pub put_chars-OnLine : (s : List ℕ) (m : Machine) → OnLine (put_chars s) m
unfolding put_chars do_outb
put_chars-OnLine [] m = record {
  value = tt;
  init = m.is_init;
  trace = m.trace;
  returns = refl;
  adds = Adds-refl IsCom m.trace;
}
put_chars-OnLine (c ∷ s) m = elim (Bool-cases (c == 0)) [
  | inl stop ↦ record {
    value = tt;
    init = m.is_init;
    trace = m.trace;
    returns = rw (stop, put_chars);
    adds = Adds-refl IsCom m.trace;
  }
  | inr go ↦ elim (Bool-cases (c == b'\n')) [
    | inl newline ↦
        let t = outb com1 (u8 c) ∷ outb com1 b'\r' ∷ m.trace in
        let rest = put_chars-OnLine s (record m { trace = t }) in
        record {
          value = tt;
          init = rest.init;
          trace = rest.trace;
          returns = rw (go, put_chars) (ground (arith, newline, rest.returns));
          adds =
              Adds-trans IsCom
                (Adds-event IsCom (outb com1 (u8 c)) (omega arith)
                  (Adds-event IsCom (outb com1 b'\r') (omega arith) (Adds-refl IsCom m.trace)))
                rest.adds;
        }
    | inr other ↦
        let t = outb com1 (u8 c) ∷ m.trace in
        let rest = put_chars-OnLine s (record m { trace = t }) in
        record {
          value = tt;
          init = rest.init;
          trace = rest.trace;
          returns = rw (go, put_chars) (ground (arith, other, rest.returns));
          adds =
              Adds-trans IsCom
                (Adds-event IsCom (outb com1 (u8 c)) (omega arith) (Adds-refl IsCom m.trace))
                rest.adds;
        }
  ]
]

pub printf-OnLine :
    (env : Env) (fmt : String) (args : List Arg) (m : Machine) → OnLine (printf env fmt args) m
unfolding printf puts line_status do_inb
printf-OnLine env fmt args m =
    let a = init_once-OnLine env true m in
    let b =
      put_chars-OnLine (env.format fmt args) (record m { is_init = a.init; trace = a.trace }) in
    let v = u8 (env.read b.trace 0x3FD) in
    record {
      value = tt;
      init = b.init;
      trace = inb 0x3FD v ∷ b.trace;
      returns = ground (arith, a.returns, b.returns);
      adds = Adds-event IsCom _ (omega arith) (Adds-trans IsCom a.adds b.adds);
    }
