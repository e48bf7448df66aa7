-- ===== src/Queue/Init.antt =====
-- `InitQueue` of HCMonitor/rx_queue.c: the table of packet queues.
use hcmonitor.Prelude.{
  ℕ, zero, suc, ◌+◌, ◌/◌, ◌%◌, ◌^◌, ◌≤◌, ◌≡◌, ◌≢◌, ◌↔◌, ◌⊎◌, refl, pos, negsuc, Option, some, none,
  List, length, set, length-set, arith, ltb, ltb→ge, if◌then◌else◌, Bool-cases, Option-cases, inl,
  inr, replicate, length-replicate,
}
use hcmonitor.Config.{Mconfig}
use hcmonitor.Node.{NodeData}
use hcmonitor.Queue.{PrQueue}

-- `BUFSIZE` and `MAX_QUE_NUM`
abbrev pub bufsize : ℕ
bufsize = 80000000

abbrev pub max_que_num : ℕ
max_que_num = 6

-- A new queue of `size` slots; `garbage` is what `malloc` leaves in them.
abbrev pub new_queue : ℕ → (ℕ → NodeData) → PrQueue
new_queue size garbage = record {
  ring = record { slots = garbage; occupy = 0; deque = 0 };
  cap = size;
}

-- The loop, from index `i` on: `PrQue[i]` is written, for whatever length `PrQue` has.
unfoldable pub init_loop :
    ℕ → ℕ → ℕ → (ℕ → NodeData) → List (Option PrQueue) → Option (List (Option PrQueue))
init_loop zero i size garbage que = some que
init_loop (suc rounds) i size garbage que =
    let rest = init_loop rounds (i + 1) size garbage (set que i (some (new_queue size garbage))) in
    if ltb i (length que) then rest else none

-- `QUESIZE` and `PrQue`, whose slots `calloc` made NULL; `none` is a division by zero, a failed
-- allocation, or a write outside the table.
unfoldable pub init_queue : Mconfig → (ℕ → NodeData) → Option (ℕ × List (Option PrQueue))
unfolding init_loop
init_queue c garbage = elim (c.rx_que) [
  | negsuc n ↦ none
  | pos n ↦
      if ltb 0 n
      then (let size = bufsize / n % 2 ^ 32 in
          elim (init_loop max_que_num 0 size garbage (replicate n none)) [
            | none ↦ none
            | some que ↦ some (size, que)
          ])
      else none
]

-- The loop ends in bounds exactly if the table has room for all its rounds.
init_loop_fits :
    (rounds i size : ℕ) (garbage : ℕ → NodeData) (que : List (Option PrQueue))
    → (init_loop rounds i size garbage que ≢ none) ↔ ((rounds ≡ 0) ⊎ (i + rounds ≤ length que))
unfolding init_loop
init_loop_fits zero i size garbage que = ground arith
init_loop_fits (suc rounds) i size garbage que =
    let q = some (new_queue size garbage) in
    ground (arith, init_loop_fits rounds (i + 1) size garbage (set que i q), length-set que i q)

-- `InitQueue` stays within the table that it allocates exactly if `rx_que` is at least 6: the table
-- has `rx_que` entries, and the loop writes `MAX_QUE_NUM` of them.
pub init_queue-in_bounds :
    (c : Mconfig) (garbage : ℕ → NodeData) (n : ℕ)
    → c.rx_que ≡ pos n
    → (init_queue c garbage ≢ none) ↔ (max_que_num ≤ n)
unfolding init_queue
init_queue-in_bounds c garbage n e =
    let size = bufsize / n % 2 ^ 32 in
    let table : List (Option PrQueue) = replicate n none in
    let fits = init_loop_fits max_que_num 0 size garbage table in
    let len = length-replicate {A = Option PrQueue} n none in
    elim (Bool-cases (ltb 0 n)) [
      | inl p ↦ elim (Option-cases (init_loop max_que_num 0 size garbage table)) [
        | inl f ↦
            rw (e, init_queue, p, f) ((λ q. absurd (q refl)), λ q r. fits.1 (inr (omega arith)) f)
        | inr (que, f) ↦
            rw (e, init_queue, p, f)
              (
                (λ q. elim (fits.0 (λ g. ground arith)) [
                  | inl z ↦ omega arith
                  | inr le ↦ omega arith
                ]),
                λ q r. ground arith,
              )
      ]
      | inr p ↦ rw (e, init_queue, p) ((λ q. absurd (q refl)), λ q r. omega (arith, ltb→ge 0 n p))
    ]
