-- ===== src/Figures/Report.antt =====
-- What `cdf_acktime` of HCMonitor/monitor.c writes of the samples once they are split: averages, the
-- share of good samples, the histogram, and the percentiles at the entries of `u`.
pub mod Rank
pub mod Insertion
pub mod Lines
pub mod Laws
mod Tests
use hcmonitor.Prelude.{
  ℕ, zero, suc, ◌+◌, ◌-◌, ◌/◌, ◌%◌, ◌^◌, ℤ, pos, negsuc, ◌-ℤ◌, ◌==◌, ltb, not, ◌&&◌, if◌then◌else◌,
  to_unsigned, truthy, Option, some, none, Bool, List, [], ◌∷◌, ◌++◌, map,
}
use hcmonitor.Config.{Mconfig}
use hcmonitor.Floats.{Floats}
use hcmonitor.Monitor.Online.{Areas}
use hcmonitor.Setup.{cat_buff}
use hcmonitor.Figures.{avg, goodputcnt, sketch_delay}

-- The entries of `u`, as fractions.
abbrev pub u_table : List (ℕ × ℕ)
u_table =
    (1, 10)
    ∷ (2, 10)
    ∷ (3, 10)
    ∷ (4, 10)
    ∷ (5, 10)
    ∷ (6, 10)
    ∷ (7, 10)
    ∷ (8, 10)
    ∷ (9, 10)
    ∷ (95, 100)
    ∷ (99, 100)
    ∷ (999, 1000)
    ∷ (9999, 10000)
    ∷ (1, 1)
    ∷ []

-- How many entries `w`, `w_high` and `w_low` have.
abbrev pub w_size : ℕ
w_size = 20

-- `ceil(u[i] * n) - 1` as an unsigned int.
abbrev pub index_of : ℤ → ℕ
index_of rank = to_unsigned (2 ^ 32) (rank -ℤ pos 1)

-- `compInc`: it never takes two samples to be equal.
unfoldable pub comp_inc : (F : Floats) → F.Float → F.Float → ℤ
comp_inc F a b = if F.lt b a then pos 1 else negsuc 0

module _ (F : Floats) where
  -- The arrays of `ack_time_hy`, and of the two priorities.
  pub record Arrays : Type 0 where
    pub time : ℕ → F.Float
    pub pri_high : ℕ → F.Float
    pub pri_low : ℕ → F.Float

  -- How long the arrays are, and how many samples are in them.
  pub record Sizes : Type 0 where
    pub thre : ℕ
    pub ph_size : ℕ
    pub pl_size : ℕ
    pub idx : ℕ
    pub num_high : ℕ
    pub num_low : ℕ

  -- A line of the report: an entry of `u`, and the samples there.
  pub record CdfLine : Type 0 where
    pub u : F.Float
    pub w : F.Float
    pub w_high : Option F.Float
    pub w_low : Option F.Float

  unfoldable pub fraction : ℕ × ℕ → F.Float
  fraction (a, b) = F.div (F.of_int (pos a)) (F.of_int (pos b))

  -- `ceil(u[i] * n)`
  unfoldable pub rank : ℕ → F.Float → ℤ
  rank n u = F.ceil (F.mul u (F.of_int (pos n)))

  -- The sample at `u`, of `n` in an array of `size`; a read outside is `none`.
  unfoldable pub pick : (ℕ → F.Float) → ℕ → ℕ → F.Float → Option F.Float
  pick a size n u =
      let index = index_of (rank n u) in if ltb index size then some (a index) else none

  -- The same under `if(num_high)` and `if(num_low)`, where enable_pri is set.
  unfoldable pub pick_some : Bool → (ℕ → F.Float) → ℕ → ℕ → F.Float → Option (Option F.Float)
  pick_some enable_pri a size n u =
      if enable_pri && not (n == 0)
      then elim (pick a size n u) [ none ↦ none | some x ↦ some (some x) ]
      else some none

  -- What `clear`, which `insert_mysql_hy` calls, leaves in the arrays: of `time`, it clears as many
  -- entries as there are at first.
  abbrev pub cleared : Arrays → Arrays
  cleared s = record {
    time = λ i. if ltb i cat_buff then F.of_int (pos 0) else s.time i;
    pri_high = λ _. F.of_int (pos 0);
    pri_low = λ _. F.of_int (pos 0);
  }

  -- The body of the loop over `u`.
  unfoldable pub percentile : Bool → Sizes → Arrays → F.Float → Option CdfLine
  percentile enable_pri z s u = elim (pick s.time z.thre z.idx u) [
    | none ↦ none
    | some w ↦ elim (pick_some enable_pri s.pri_high z.ph_size z.num_high u) [
      | none ↦ none
      | some high ↦ elim (pick_some enable_pri s.pri_low z.pl_size z.num_low u) [
        | none ↦ none
        | some low ↦ some (record { u = u; w = w; w_high = high; w_low = low })
      ]
    ]
  ]

  -- The loop, from entry `i` on, over what stands in the memory from `u[i]` on; under OP_MYSQL the
  -- arrays are cleared behind entry 10. A write outside `w` is `none`.
  unfoldable pub percentiles :
      Bool → Bool → Sizes → ℕ → List F.Float → Arrays → Option (List CdfLine)
  percentiles op_mysql enable_pri z i [] s = none
  percentiles op_mysql enable_pri z i (u ∷ us) s =
      let rest =
        percentiles op_mysql enable_pri z (i + 1) us
          (if op_mysql && (i == 10) then cleared s else s) in
      if F.eq u (F.of_int (pos 0))
      then some []
      else if ltb i w_size
      then elim (percentile enable_pri z s u) [
        | none ↦ none
        | some l ↦ elim rest [ none ↦ none | some ls ↦ some (l ∷ ls) ]
      ]
      else none

  -- The memory from `u` on, as far as the loop can come: `beyond` is what stands behind the table.
  abbrev pub u_memory : (ℕ → F.Float) → List F.Float
  u_memory beyond =
      map fraction u_table
      ++ (beyond 0 ∷ beyond 1 ∷ beyond 2 ∷ beyond 3 ∷ beyond 4 ∷ beyond 5 ∷ beyond 6 ∷ [])

  -- `cdf_acktime` behind the split: what it reports, and `interval_cnt`.
  pub record Report : Type 0 where
    pub avg_delay : F.Float
    pub avg_delay_high : Option F.Float
    pub avg_delay_low : Option F.Float
    pub gpct : F.Float
    pub goodput : ℕ
    pub interval_cnt : ℕ → ℕ
    pub lines : List CdfLine

  module _ (qsort : (ℕ → F.Float) → ℕ → ℕ → F.Float) (scaled : ℕ → F.Float → ℕ) where
    -- `scaled conn gpct` is `(unsigned int)(conn * 0.05 * gpct)`, in doubles, and `span` the interval,
    -- which is not 0 where there are samples to report.
    --
    -- The averages are taken of the sorted areas, but of the samples as they came; a priority
    -- without samples keeps its average, and is not sorted.
    unfoldable pub report :
        Bool
        → (ℕ → F.Float)
        → ℕ
        → ℕ
        → ℕ
        → Bool
        → ℕ
        → (ℕ → F.Float)
        → ℕ
        → Areas F
        → (ℕ → ℕ)
        → Option Report
    report op_mysql beyond garbage conn span enable_pri thre time idx a cnt =
        let sort =
          λ (n : ℕ) (xs : ℕ → F.Float). if enable_pri && not (n == 0) then qsort xs n else xs in
        let high = sort a.num_high a.ack_pri_high in
        let low = sort a.num_low a.ack_pri_low in
        let average = λ (n : ℕ) (xs : ℕ → F.Float).
          if enable_pri && not (n == 0) then some (avg F xs n) else none in
        let sorted = qsort time idx in
        let z : Sizes = record {
          thre = thre;
          ph_size = a.ph_size;
          pl_size = a.pl_size;
          idx = idx;
          num_high = a.num_high;
          num_low = a.num_low;
        } in
        let s : Arrays = record { time = sorted; pri_high = high; pri_low = low } in
        elim (goodputcnt F garbage time idx) [
          | none ↦ none
          | some gpct ↦ elim (percentiles op_mysql enable_pri z 0 (u_memory beyond) s) [
            | none ↦ none
            | some lines ↦ some (record {
              avg_delay = avg F time idx;
              avg_delay_high = average a.num_high high;
              avg_delay_low = average a.num_low low;
              gpct = gpct;
              goodput = scaled conn gpct / span;
              interval_cnt = sketch_delay F sorted idx cnt;
              lines = lines;
            })
          ]
        ]
