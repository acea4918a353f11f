-- ===== src/Journal/Read/Resume.antt =====
-- Reading in pieces: a read that goes on from a returned offset finds exactly the rest.
use mootloop.Base.{
  ℕ, suc, ◌+◌, ◌≤◌, ◌≡◌, refl, ◌∙◌, sym, ap, true, false, Option, some, List, [], ◌∷◌, ◌++◌, arith,
  nat_eq, Result, ok, err, ◌>>=◌, >>=-eq-ok, length, length-append, drop, take, Bool-cases, inl,
  inr, All,
}
use mathlib.Core.List.{append_assoc, append-nil}
use native.Mathlib.Nat.{zero-add, suc-add, add_assoc}
use mootloop.Journal.Read.{parse_line, scan, tail_events}

-- No byte of the line is a newline.
abbrev pub IsLine : List ℕ → Type 0
IsLine = All (λ b. nat_eq b 10 ≡ false)

pub IsLine-snoc :
    (line : List ℕ) (b : ℕ) → IsLine line → nat_eq b 10 ≡ false → IsLine (line ++ b ∷ [])
IsLine-snoc [] b h n = (n, tt)
IsLine-snoc (x ∷ line) b h n = (h.0, IsLine-snoc line b h.1 n)

pub take-append :
    {A : Type 0} (xs ys : List A) (n : ℕ) → take (length xs + n) (xs ++ ys) ≡ xs ++ take n ys
take-append [] ys n = rw zero-add
take-append (x ∷ xs) ys n = rw (suc-add, take-append xs ys n)

pub drop-append :
    {A : Type 0} (xs ys : List A) (n : ℕ) → drop (length xs + n) (xs ++ ys) ≡ drop n ys
drop-append [] ys n = rw zero-add
drop-append (x ∷ xs) ys n = rw (suc-add, drop-append xs ys n)

drop-line :
    (line rest : List ℕ) (b n : ℕ) → drop (length line + 1 + n) (line ++ b ∷ rest) ≡ drop n rest
drop-line line rest b n =
    let shift : length line + 1 + n ≡ length line + suc n = omega arith in
    rw (shift, drop-append line (b ∷ rest) (suc n))

pub take-line :
    (line rest : List ℕ) (b n : ℕ)
    → take (length line + 1 + n) (line ++ b ∷ rest) ≡ line ++ b ∷ take n rest
take-line line rest b n =
    let shift : length line + 1 + n ≡ length line + suc n = omega arith in
    rw (shift, take-append line (b ∷ rest) (suc n))

module _ {E : Type 0} where
  -- Events and bytes that were read before a further result.
  abbrev pub with_line : List E → ℕ → List E × ℕ → Result (List E × ℕ)
  with_line es n r = ok (es ++ r.0, n + r.1)

  with_line-nil : (m : Result (List E × ℕ)) → (m >>= with_line [] 0) ≡ m
  with_line-nil (ok (es, n)) = rw zero-add
  with_line-nil (err e) = refl

  with_line-with_line :
      (m : Result (List E × ℕ)) (es fs : List E) (n k : ℕ)
      → ((m >>= with_line fs k) >>= with_line es n) ≡ (m >>= with_line (es ++ fs) (n + k))
  with_line-with_line (ok (gs, j)) es fs n k = rw (append_assoc, add_assoc)
  with_line-with_line (err e) es fs n k = refl

  from_start : (m : Result (List E × ℕ)) → (m >>= λ r. ok (r.0, 0 + r.1)) ≡ m
  from_start (ok (es, n)) = rw zero-add
  from_start (err e) = refl

  abbrev from_offset : ℕ → List E × ℕ → Result (List E × ℕ)
  from_offset n r = ok (r.0, n + r.1)

  abbrev behind : List E → List E × ℕ → Result (List E × ℕ)
  behind es r = ok (es ++ r.0, r.1)

  with_line-shift :
      (m : Result (List E × ℕ)) (es : List E) (n : ℕ)
      → ((m >>= from_offset n) >>= behind es) ≡ (m >>= with_line es n)
  with_line-shift (ok (fs, k)) es n = refl
  with_line-shift (err e) es n = refl

module _ {E : Type 0} (validate : List ℕ → Option E) where
  pub scan-newline :
      (b : ℕ) (line bs : List ℕ)
      → nat_eq b 10 ≡ true
      → scan validate line (b ∷ bs) ≡ (
          parse_line validate (line ++ b ∷ []) >>= λ es.
          scan validate [] bs >>= with_line es (length line + 1))
  unfolding scan
  scan-newline b line bs h = rw (h, scan)

  pub scan-other :
      (b : ℕ) (line bs : List ℕ)
      → nat_eq b 10 ≡ false
      → scan validate line (b ∷ bs) ≡ scan validate (line ++ b ∷ []) bs
  unfolding scan
  scan-other b line bs h = rw (h, scan)

  -- The start of a line can be read before the rest of it.
  pub scan-line :
      (line rest seen : List ℕ)
      → IsLine line
      → scan validate seen (line ++ rest) ≡ scan validate (seen ++ line) rest
  scan-line [] rest seen h = rw append-nil
  scan-line (b ∷ line) rest seen h =
      scan-other b seen (line ++ rest) h.0
      ∙ scan-line line rest (seen ++ b ∷ []) h.1
      ∙ ap (λ l. scan validate l rest) (append_assoc seen (b ∷ []) line)

  pub scan-newline_ok :
      (b : ℕ) (line bs : List ℕ) (es : List E) (n : ℕ)
      → nat_eq b 10 ≡ true
      → scan validate line (b ∷ bs) ≡ ok (es, n)
      → (ps fs : List E) × (k : ℕ) × (parse_line validate (line ++ b ∷ []) ≡ ok ps)
        × (scan validate [] bs ≡ ok (fs, k))
        × (es ≡ ps ++ fs)
        × (n ≡ length line + 1 + k)
  scan-newline_ok b line bs es n h e =
      let (ps, e1, e2) =
        >>=-eq-ok (parse_line validate (line ++ b ∷ []))
          (λ es. scan validate [] bs >>= with_line es (length line + 1))
          (sym (scan-newline b line bs h) ∙ e) in
      let (r, e3, e4) = >>=-eq-ok (scan validate [] bs) (with_line ps (length line + 1)) e2 in
      (ps, r.0, r.1, e1, e3, cc, cc)

  pub scan-append :
      (xs ys line : List ℕ) (es : List E) (n : ℕ)
      → IsLine line
      → scan validate line xs ≡ ok (es, n)
      → scan validate line (xs ++ ys)
        ≡ (scan validate [] (drop n (line ++ (xs ++ ys))) >>= with_line es n)
  unfolding scan
  scan-append [] ys line es n h e =
      let none_read : es ≡ [] = cc in
      let at_start : n ≡ 0 = cc in
      rw (none_read, at_start) (rw with_line-nil (sym (scan-line line ys [] h)))
  scan-append (b ∷ xs) ys line es n h e = elim (Bool-cases (nat_eq b 10)) [
    | inl nl ↦
        let (ps, fs, k, e1, e2, e3, e4) = scan-newline_ok b line xs es n nl e in
        let rest = scan-append xs ys [] fs k tt e2 in
        rw (e3, e4, drop-line)
          (scan-newline b line (xs ++ ys) nl
            ∙ rw (e1, rest) (with_line-with_line _ ps fs (length line + 1) k))
    | inr other ↦
        scan-other b line (xs ++ ys) other
        ∙ scan-append xs ys (line ++ b ∷ []) es n (IsLine-snoc line b h other)
            (sym (scan-other b line xs other) ∙ e)
        ∙ ap (λ l. scan validate [] (drop n l) >>= with_line es n)
            (append_assoc line (b ∷ []) (xs ++ ys))
  ]

  -- The bytes that a read consumed give the same events when they are read alone.
  pub scan-take :
      (xs line : List ℕ) (es : List E) (n : ℕ)
      → IsLine line
      → scan validate line xs ≡ ok (es, n)
      → (scan validate [] (take n (line ++ xs)) ≡ ok (es, n)) × (n ≤ length line + length xs)
  unfolding scan
  scan-take [] line es n h e =
      let at_start : n ≡ 0 = cc in (rw at_start (rw at_start at e), omega arith)
  scan-take (b ∷ xs) line es n h e = elim (Bool-cases (nat_eq b 10)) [
    | inl nl ↦
        let (ps, fs, k, e1, e2, e3, e4) = scan-newline_ok b line xs es n nl e in
        let (alone, short) = scan-take xs [] fs k tt e2 in
        (
          rw (e3, e4, take-line)
              (scan-line line (b ∷ take k xs) [] h
                ∙ scan-newline b line (take k xs) nl
                ∙ rw (e1, alone)),
          omega arith,
        )
    | inr other ↦
        let (alone, short) =
          scan-take xs (line ++ b ∷ []) es n (IsLine-snoc line b h other)
            (sym (scan-other b line xs other) ∙ e) in
        (
          rw (append_assoc line (b ∷ []) xs) at alone,
          omega (arith, length-append {0} line (b ∷ [])),
        )
  ]

  -- A reader that comes back with the offset it was given, after more bytes have been appended to
  -- the file, gets exactly the events that one read of the whole file gives behind those it has,
  -- and the offset that the whole read ends at; an error of the later lines raises in both.
  pub tail_events-resume :
      (xs ys : List ℕ) (es : List E) (n : ℕ)
      → tail_events validate (some xs) 0 ≡ ok (es, n)
      → tail_events validate (some (xs ++ ys)) 0
        ≡ (tail_events validate (some (xs ++ ys)) n >>= λ r. ok (es ++ r.0, r.1))
  unfolding tail_events
  tail_events-resume xs ys es n e =
      from_start (scan validate [] (xs ++ ys))
      ∙ scan-append xs ys [] es n tt (sym (from_start (scan validate [] xs)) ∙ e)
      ∙ sym (with_line-shift (scan validate [] (drop n (xs ++ ys))) es n)
