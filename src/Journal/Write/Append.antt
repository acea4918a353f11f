-- ===== src/Journal/Write/Append.antt =====
-- An appended line is read behind everything that was complete before.
use mootloop.Base.{
  ℕ, ◌≡◌, refl, ◌∙◌, sym, Option, List, [], ◌∷◌, ◌++◌, arith, nat_eq, ok, ◌>>=◌, drop, take,
  Bool-cases, inl, inr, length-take-le, drop-append_length,
}
use mathlib.Core.List.{append_assoc, append-nil}
use mootloop.Journal.Read.{parse_line, scan}
use mootloop.Journal.Read.Resume.{
  IsLine, IsLine-snoc, take-line, scan-newline, scan-newline_ok, scan-other, scan-line, scan-append,
  scan-take,
}
use mootloop.Journal.Write.{append_fsync_line}
use mootloop.Journal.Write.Repair.{
  complete, complete_line, complete_newline, append-complete-some, repair_torn_tail-complete,
}

module _ {E : Type 0} (validate : List ℕ → Option E) where
  -- What a read consumes is exactly the complete lines.
  scan-complete :
      (xs line : List ℕ) (es : List E) (n : ℕ)
      → IsLine line
      → scan validate line xs ≡ ok (es, n)
      → take n (line ++ xs) ≡ complete (line ++ xs)
  unfolding scan
  scan-complete [] line es n h e =
      let at_start : n ≡ 0 = cc in rw (at_start, append-nil) (sym (complete_line line h))
  scan-complete (b ∷ xs) line es n h e = elim (Bool-cases (nat_eq b 10)) [
    | inl nl ↦
        let (ps, fs, k, e1, e2, e3, e4) = scan-newline_ok validate b line xs es n nl e in
        let ih = scan-complete xs [] fs k tt e2 in
        rw (e4, take-line, ih) (sym (append-complete-some line (b ∷ xs) (complete_newline b xs nl)))
    | inr other ↦ rw (append_assoc line (b ∷ []) xs) at (
        scan-complete xs (line ++ b ∷ []) es n (IsLine-snoc line b h other)
          (sym (scan-other validate b line xs other) ∙ e))
  ]

  -- Appending a line to a journal that reads, torn tail or not, gives a journal that reads as the
  -- same events followed by what the new line parses to. The line holds no newline.
  pub append_fsync_line-read :
      (bytes line : List ℕ) (es ps : List E) (n : ℕ)
      → IsLine line
      → scan validate [] bytes ≡ ok (es, n)
      → parse_line validate (line ++ 10 ∷ []) ≡ ok ps
      → (scan validate [] (append_fsync_line bytes line) >>= λ r. ok r.0) ≡ ok (es ++ ps)
  unfolding append_fsync_line scan
  append_fsync_line-read bytes line es ps n h e p =
      let kept = scan-complete bytes [] es n tt e in
      let (alone, short) = scan-take validate bytes [] es n tt e in
      let len = length-take-le n bytes (omega arith) in
      let whole = scan-append validate (take n bytes) (line ++ 10 ∷ []) [] es n tt alone in
      let rest : drop n (take n bytes ++ (line ++ 10 ∷ [])) ≡ line ++ 10 ∷ [] =
        rw len at (drop-append_length (take n bytes) (line ++ 10 ∷ [])) in
      let last = scan-line validate line (10 ∷ []) [] h ∙ scan-newline validate 10 line [] refl in
      rw (repair_torn_tail-complete bytes, ← kept, whole, rest, last, p) (rw append-nil)
