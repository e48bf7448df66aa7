-- ===== src/Widths/Sort.antt =====
-- `PartSort` and `Quick` of pcap_analyse/burst_width.c, on an array of ints. A range from `first` to
-- `end` is written as `first` and the distance `d` from there to `end`.
pub mod Range
pub mod Scan
pub mod Partition
pub mod Laws
use hcmonitor.Prelude.{
  ℕ, zero, suc, ◌+◌, ◌-◌, ℤ, ltb_ℤ, ltb, ◌==◌, if◌then◌else◌, update, Option, some, none, true,
  false,
}

-- `while(first<end && arr[end]>=tmp) end--;`: the distance that is left.
unfoldable pub scan_down : (ℕ → ℤ) → ℤ → ℕ → ℕ → ℕ
scan_down arr tmp first zero = zero
scan_down arr tmp first (suc d) =
    let rest = scan_down arr tmp first d in if ltb_ℤ (arr (first + suc d)) tmp then suc d else rest

-- `while(first<end && arr[first]<=tmp) first++;`: the new `first` and the distance.
unfoldable pub scan_up : (ℕ → ℤ) → ℤ → ℕ → ℕ → ℕ × ℕ
scan_up arr tmp first zero = (first, zero)
scan_up arr tmp first (suc d) =
    let rest = scan_up arr tmp (first + 1) d in
    if ltb_ℤ tmp (arr first) then (first, suc d) else rest

-- A round of the outer loop: the array, `first` and the distance behind it.
unfoldable pub part_round : (ℕ → ℤ) → ℤ → ℕ → ℕ → (ℕ → ℤ) × ℕ × ℕ
part_round arr tmp first d =
    let d' = scan_down arr tmp first d in
    let end = first + d' in
    let lower = update arr first (arr end) in
    let up = scan_up lower tmp first d' in (update lower end (lower up.0), up.0, up.1)

-- The outer loop; `none` is a lack of fuel. The pivot goes where the ends meet.
unfoldable pub part_loop : ℕ → (ℕ → ℤ) → ℤ → ℕ → ℕ → Option ((ℕ → ℤ) × ℕ)
part_loop fuel arr tmp first zero = some (update arr first tmp, first)
part_loop zero arr tmp first (suc d) = none
part_loop (suc fuel) arr tmp first (suc d) =
    let r = part_round arr tmp first (suc d) in part_loop fuel r.0 tmp r.1 r.2

-- `PartSort`
unfoldable pub part_sort : (ℕ → ℤ) → ℕ → ℕ → Option ((ℕ → ℤ) × ℕ)
part_sort arr first d = part_loop d arr (arr first) first d

-- `Quick`: of the two ranges beside the pivot, one that is empty ends at once.
unfoldable pub quick : ℕ → (ℕ → ℤ) → ℕ → ℕ → Option (ℕ → ℤ)
quick fuel arr first zero = some arr
quick zero arr first (suc d) = none
quick (suc fuel) arr first (suc d) = elim (part_sort arr first (suc d)) [
  | none ↦ none
  | some (parted, mid) ↦ elim (quick fuel parted first (mid - 1 - first)) [
    | none ↦ none
    | some lower ↦ quick fuel lower (mid + 1) (first + suc d - (mid + 1))
  ]
]
