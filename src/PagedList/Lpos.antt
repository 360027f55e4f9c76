-- ===== src/PagedList/Lpos.antt =====
-- LPOS of wedb_list/src/list.rs: the positions of the elements equal to a value, from the front or from
-- the back.
use garnet_rust.Common.{
  ℕ, zero, suc, ◌+◌, ◌-◌, ◌^◌, List, [], ◌∷◌, Option, none, some, true, false, ltb, leb, ◌==◌,
  if◌then◌else◌, min, take, bytes_eq,
}
use garnet_rust.Common.Int.{ℤ, pos, negsuc}
use garnet_rust.PagedList.Object.{Bytes, ListObject}
use garnet_rust.PagedList.Range.{iter, iter_rev}

-- The loop over the elements with their offsets, which `place` turns into positions: the matches left
-- to skip, and the number found.
unfoldable pub scan : Bytes → (ℕ → ℕ) → ℕ → ℕ → ℕ → ℕ → List Bytes → List ℕ
scan element place target skip_matches found offset [] = []
scan element place target skip_matches found offset (item ∷ items) = elim (bytes_eq item element) [
  | false ↦ scan element place target skip_matches found (offset + 1) items
  | true ↦ elim (ltb 0 skip_matches) [
    | true ↦ scan element place target (skip_matches - 1) found (offset + 1) items
    | false ↦
        let rest = scan element place target skip_matches (found + 1) (offset + 1) items in
        place offset ∷ (if leb target (found + 1) then [] else rest)
  ]
]

abbrev pub max_comparisons : ListObject → ℕ → ℕ
max_comparisons o maxlen = if maxlen == 0 then o.len else min maxlen o.len

-- `usize::MAX` for a count of 0
abbrev pub target_count : Option ℕ → ℕ
target_count none = 1
target_count (some c) = if c == 0 then 2 ^ 64 - 1 else c

abbrev pub ranked : ListObject → Bytes → ℤ → ℕ → ℕ → List ℕ
ranked o element (pos zero) target most = []
ranked o element (pos (suc skip)) target most =
    scan element (λ offset. offset) target skip 0 0 (take most (iter o))
ranked o element (negsuc skip) target most =
    scan element (λ offset. o.len - 1 - offset) target skip 0 0 (take most (iter_rev o))

unfoldable pub lpos : ListObject → Bytes → ℤ → Option ℕ → ℕ → List ℕ
unfolding scan
lpos o element rank count maxlen =
    if o.len == 0 then [] else ranked o element rank (target_count count) (max_comparisons o maxlen)
