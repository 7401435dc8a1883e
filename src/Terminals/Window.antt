-- ===== src/Terminals/Window.antt =====
-- The retained output is the end of all that the terminal printed.
use dispatch_web.Base.{
  true, false, drop-drop, drop-append, length, take, drop, nat_eq, string_eq, Text, text_is_eq, ℕ,
  ◌+◌, ◌-◌, ◌≤◌, ◌<◌, min, max, ◌≡◌, refl, ◌++◌, arith, ap, Bool-cases, ◌∙◌, ltb, length-drop, inl,
  length-append, inr,
}
use dispatch_web.Terminals.{
  max_output, TermEntry, append_output, end_of_output, Reading, read_entry,
}

-- The output of `e` is the end of `printed`: what is left after its first `output_offset` units,
-- which are those beyond the limit and no others.
pub record IsWindow (printed : Text) (e : TermEntry) : Type 0 where
  pub offset : e.output_offset ≡ length printed - max_output
  pub suffix : e.output ≡ drop e.output_offset printed

output_length :
    (printed : Text) (e : TermEntry)
    → IsWindow printed e
    → e.output_offset + length e.output ≡ length printed
output_length printed e w =
    let n = ap length w.suffix ∙ length-drop e.output_offset printed in omega (arith, n, w.offset)

grown :
    (printed : Text) (e : TermEntry) (added : Text)
    → IsWindow printed e
    → e.output ++ added ≡ drop e.output_offset (printed ++ added)
grown printed e added w =
    rw (drop-append e.output_offset printed added (omega (arith, w.offset)))
      (ap (λ s. s ++ added) w.suffix)

over_limit : (s : Text) → ltb max_output (length s) ≡ true → max_output < length s
over_limit s h = ground (arith, h)

within_limit : (s : Text) → ltb max_output (length s) ≡ false → length s ≤ max_output
within_limit s h = ground (arith, h)

-- Appending output keeps the window: it shows the end of all output, the new data included, as
-- much of it as the limit allows: everything while that is within the limit, and else exactly the
-- last `max_output` units.
pub append_output-IsWindow :
    (printed : Text) (e : TermEntry) (added : Text)
    → IsWindow printed e
    → IsWindow (printed ++ added) (append_output e added)
unfolding append_output
append_output-IsWindow printed e added w =
    elim (Bool-cases (ltb max_output (length (e.output ++ added)))) [
      | inl over ↦ simp over (record {
        offset = omega (
          arith,
          length-append printed added,
          length-append e.output added,
          output_length printed e w,
          w.offset,
          over_limit (e.output ++ added) over,
        );
        suffix =
            ap (drop (length (e.output ++ added) - max_output)) (grown printed e added w)
            ∙ drop-drop (length (e.output ++ added) - max_output) e.output_offset _
                (printed ++ added) refl;
      })
      | inr fits ↦ simp fits (record {
        offset = omega (
          arith,
          length-append printed added,
          length-append e.output added,
          output_length printed e w,
          w.offset,
          within_limit (e.output ++ added) fits,
        );
        suffix = grown printed e added w;
      })
    ]

-- What a reading is: it holds the printed text from its start to the cursor that it returns. It starts at the
-- cursor that was asked for, or at the window if that is older and at the end if it is newer; the
-- returned cursor never passes the end, and passes the start unless the start is the end.
pub record IsReading (printed : Text) (e : TermEntry) (cursor : ℕ) (r : Reading) : Type 0 where
  pub start : ℕ
  pub clamped : start ≡ max e.output_offset (min cursor (length printed))
  pub text : r.text ≡ take (r.cursor - start) (drop start printed)
  pub forward : start ≤ r.cursor
  pub progress : start < length printed → start < r.cursor
  pub limit : r.cursor ≤ length printed

-- Reading a window gives such a reading, for every cursor and every limit: all of the printed text
-- from the clamped cursor to the returned cursor, which moves forward unless it is at the end.
pub read_entry-IsReading :
    (printed : Text) (e : TermEntry) (cursor max_bytes : ℕ)
    → IsWindow printed e
    → IsReading printed e cursor (read_entry e cursor max_bytes)
unfolding read_entry end_of_output
read_entry-IsReading printed e cursor max_bytes w =
    let n = output_length printed e w in
    let start : ℕ = max e.output_offset (min cursor (e.output_offset + length e.output)) in
    record {
      start = start;
      clamped = rw n refl;
      text = ap (take ((read_entry e cursor max_bytes).cursor - start)) (
          ap (drop (start - e.output_offset)) w.suffix
          ∙ drop-drop (start - e.output_offset) e.output_offset start printed (omega arith));
      forward = omega (arith, n);
      progress = λ h. omega (arith, n);
      limit = omega (arith, n);
    }
