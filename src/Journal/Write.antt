-- ===== src/Journal/Write.antt =====
-- persistence.py, the writer under the file lock: `_repair_torn_tail` and `append_fsync_line`.
-- A file is its bytes.
pub mod Repair
pub mod Append
use mootloop.Base.{
  ℕ, zero, suc, ◌+◌, ◌-◌, ◌<◌, Bool, true, false, ◌&&◌, Option, none, some, List, [], ◌∷◌, ◌++◌,
  nat_eq, Text, if◌then◌else◌, Result, ok, err, length, drop, take, text_eq, text_eq_key, ◌==◌, leb,
  journal_integrity,
}

-- `bytes.rfind(b"\n")`
unfoldable pub rfind_newline : List ℕ → Option ℕ
rfind_newline [] = none
rfind_newline (b ∷ bs) = elim (rfind_newline bs) [
  | some i ↦ some (suc i)
  | none ↦ if nat_eq b 10 then some 0 else none
]

unfoldable pub ends_with_newline : List ℕ → Bool
ends_with_newline [] = false
ends_with_newline (b ∷ []) = nat_eq b 10
ends_with_newline (b ∷ c ∷ bs) = ends_with_newline (c ∷ bs)

unfoldable pub chunk_size : (size position : ℕ) → ℕ
chunk_size size position = if leb position size then position else size

-- The backward search by chunks, on fuel: `position` falls by at least one in each round, so the
-- length of the file is enough.
unfoldable pub truncate_at : (size fuel : ℕ) → List ℕ → (position : ℕ) → ℕ
unfolding rfind_newline chunk_size
truncate_at size zero bytes position = 0
truncate_at size (suc fuel) bytes position = elim (nat_eq position 0) [
  | true ↦ 0
  | false ↦
      let before = position - chunk_size size position in
      elim (rfind_newline (take (chunk_size size position) (drop before bytes))) [
        | some newline ↦ before + newline + 1
        | none ↦ truncate_at size fuel bytes before
      ]
]

abbrev pub chunk_limit : ℕ
chunk_limit = 65536

unfoldable pub repair_torn_tail : List ℕ → List ℕ
unfolding truncate_at ends_with_newline
repair_torn_tail bytes =
    if ends_with_newline bytes
    then bytes
    else take (truncate_at chunk_limit (length bytes) bytes (length bytes)) bytes

unfoldable pub append_fsync_line : List ℕ → Text → List ℕ
unfolding repair_torn_tail
append_fsync_line bytes line = repair_torn_tail bytes ++ (line ++ 10 ∷ [])
