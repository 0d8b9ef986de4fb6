-- ===== src/Stage2/Bar.antt =====
-- The progress bar of stage2/load.c.
use toy_bootloader.Common.{
  ℕ, zero, suc, ◌+◌, ◌-◌, ◌≤◌, ◌<◌, ◌≡◌, refl, ap, ◌∙◌, some, List, [], ◌∷◌, ◌++◌, arith, ltb, ◌==◌,
  if◌then◌else◌, All, append_assoc, length, replicate,
}
use toy_bootloader.Real.{RealTrace, Bios, RealMachine, R, ◌>>◌}
use toy_bootloader.Stage2.Screen.{putc, bar_cells, update_progress_bar, color_code, yellow}
use toy_bootloader.Stage2.ScreenLaws.{
  Cell, video, shown, IsOnScreen, IsPlain, drawn, line_cells, draw, draw_line,
}

-- The bar for task `curr` of `count`: `=` for each task before it, `>` for it, blanks for the rest.
abbrev pub bar_text : ℕ → ℕ → List ℕ
bar_text curr count = replicate (curr - 1) b'=' ++ (b'>' ∷ replicate (count - curr) b' ')

-- The characters of the loop.
loop_text : ℕ → ℕ → ℕ → List ℕ
loop_text zero i curr = []
loop_text (suc n) i curr =
    (if ltb i curr then b'=' else if i == curr then b'>' else b' ') ∷ loop_text n (i + 1) curr

loop_text-IsPlain : (n i curr : ℕ) → All IsPlain (loop_text n i curr)
unfolding loop_text
loop_text-IsPlain zero i curr = tt
loop_text-IsPlain (suc n) i curr = (ground arith, loop_text-IsPlain n (i + 1) curr)

length-loop_text : (n i curr : ℕ) → length (loop_text n i curr) ≡ n
unfolding loop_text
length-loop_text zero i curr = refl
length-loop_text (suc n) i curr = ap suc (length-loop_text n (i + 1) curr)

loop_text_rest : (n i curr : ℕ) → curr < i → loop_text n i curr ≡ replicate n b' '
unfolding loop_text
loop_text_rest zero i curr h = refl
loop_text_rest (suc n) i curr h = ground (arith, loop_text_rest n (i + 1) curr)

-- `d` tasks from `i` on are done.
loop_text_lem :
    (d r i curr : ℕ)
    → curr ≡ i + d
    → loop_text (d + suc r) i curr ≡ replicate d b'=' ++ (b'>' ∷ replicate r b' ')
unfolding loop_text
loop_text_lem zero r i curr h = ground (arith, loop_text_rest r (i + 1) curr)
loop_text_lem (suc d) r i curr h =
    let e : suc d + suc r ≡ suc (d + suc r) = omega arith in
    rw e (ground (arith, loop_text_lem d r (i + 1) curr))

bar_text-loop_text :
    (curr count : ℕ) → 1 ≤ curr → curr ≤ count → loop_text count 1 curr ≡ bar_text curr count
bar_text-loop_text curr count lo hi =
    let e : count ≡ curr - 1 + suc (count - curr) = omega arith in
    ap (λ n. loop_text n 1 curr) e ∙ loop_text_lem (curr - 1) (count - curr) 1 curr (omega arith)

line_cells-append :
    (row column color : ℕ) (s s' : List ℕ)
    → line_cells row column color (s ++ s')
      ≡ line_cells row column color s ++ line_cells row (column + length s) color s'
line_cells-append row column color [] s' = let e : column ≡ column + 0 = omega arith in rw (← e)
line_cells-append row column color (c ∷ s) s' =
    let e : column + suc (length s) ≡ column + 1 + length s = omega arith in
    rw (e, line_cells-append row (column + 1) color s s')

bracketed :
    (a b c d : List Cell) (row column color : ℕ) (s : List ℕ)
    → b ≡ a ++ line_cells row column color (b'[' ∷ [])
    → c ≡ b ++ line_cells row (column + 1) color s
    → d ≡ c ++ line_cells row (column + 1 + length s) color (b']' ∷ [])
    → d ≡ a ++ line_cells row column color (b'[' ∷ (s ++ (b']' ∷ [])))
bracketed a b c d row column color s p q r =
    rw (r, q, p, line_cells-append row (column + 1) color s (b']' ∷ [])) (simp append_assoc)

module _ (env : Bios) where
  bar_cells-draw : (n i curr : ℕ) → bar_cells env n i curr ≡ draw env (loop_text n i curr)
  unfolding bar_cells loop_text
  bar_cells-draw zero i curr = refl
  bar_cells-draw (suc n) i curr =
      ap
        (λ (k : R (Unit {0})).
          putc env (if ltb i curr then b'=' else if i == curr then b'>' else b' ') >> k)
        (bar_cells-draw n (i + 1) curr)

  -- For each task `curr` of `count`, with the bar within the screen, `update_progress_bar` returns,
  -- and shows the bar in brackets, in yellow, at the place that `stage2_load` set aside; the cursor,
  -- the colour and all else but the screen are as before.
  pub update_progress_bar_lem :
      (curr count : ℕ) (m : RealMachine)
      → 1 ≤ curr
      → curr ≤ count
      → m.progress_cursor.row < 256
      → m.progress_cursor.column + count + 2 ≤ 80
      → (t : RealTrace) × (update_progress_bar env curr count m ≡ some (tt, record m { trace = t }))
        × ((video t).cells
            ≡ shown m
              ++ line_cells m.progress_cursor.row m.progress_cursor.column
                  (color_code yellow)
                  (b'[' ∷ (bar_text curr count ++ (b']' ∷ []))))
  unfolding update_progress_bar color_code
  update_progress_bar_lem curr count m lo hi row fits =
      let p = m.progress_cursor in
      let text = loop_text count 1 curr in
      let size : length text ≡ count = length-loop_text count 1 curr in
      let m0 = record m { cursor_pos = p; cur_color = 13 } in
      let ok0 : IsOnScreen m0 = record { row = row; column = omega arith; color = omega arith } in
      let (t1, run1, cells1) = draw_line env (b'[' ∷ []) m0 (omega arith) ok0 (omega arith) in
      let m1 = drawn m0 t1 (record { row = p.row; column = p.column + 1 }) in
      let ok1 : IsOnScreen m1 = record { row = row; column = omega arith; color = omega arith } in
      let (t2, run2, cells2) =
        draw_line env text m1 (loop_text-IsPlain count 1 curr) ok1 (omega arith) in
      let m2 = drawn m1 t2 (record { row = p.row; column = p.column + 1 + length text }) in
      let ok2 : IsOnScreen m2 = record { row = row; column = omega arith; color = omega arith } in
      let (t3, run3, cells3) = draw_line env (b']' ∷ []) m2 (omega arith) ok2 (omega arith) in
      let cells =
        bracketed (shown m) (video t1).cells (video t2).cells (video t3).cells p.row p.column 13
          text cells1 cells2 cells3 in
      (
        t3,
        rw (bar_cells-draw count 1 curr) (ground (arith, run1, run2, run3)),
        cells
            ∙ ap (λ s. shown m ++ line_cells p.row p.column 13 (b'[' ∷ (s ++ (b']' ∷ []))))
                (bar_text-loop_text curr count lo hi),
      )
