-- ===== src/Hash.antt =====
-- DPDK's rte_hash, which HCMonitor/monitor.c keeps its per-connection slots with. The library is
-- no part of the sources, so the model takes it as a parameter: a table, and the two calls, which
-- return a position or a negative error.
pub mod Model
use hcmonitor.Prelude.{ℕ, ◌<◌, ℤ, pos, negsuc, List, ◌≡◌, ◌≢◌}

-- A key is the list of the words that the library compares.
pub record RteHash : Type 1 where
  pub Table : Type 0
  pub empty : Table
  pub add_key : Table → List ℕ → ℤ × Table
  pub lookup : Table → List ℕ → ℤ

-- What rte_hash.h says of the two calls: the position of a key is unique to it, stays the same
-- while the key is in the table, is the one that adding it returned or returns again, and is
-- below the number of entries. Adding a key leaves another that is not there absent.
pub record HashLaws (h : RteHash) (entries : ℕ) : Type 0 where
  pub lookup-add_key :
      (t : h.Table) (k : List ℕ) (p : ℕ)
      → (h.add_key t k).0 ≡ pos p
      → h.lookup (h.add_key t k).1 k ≡ pos p
  pub add_key_keeps :
      (t : h.Table) (k j : List ℕ) (p : ℕ)
      → h.lookup t j ≡ pos p
      → h.lookup (h.add_key t k).1 j ≡ pos p
  pub add_key_other :
      (t : h.Table) (k j : List ℕ) (n : ℕ)
      → j ≢ k
      → h.lookup t j ≡ negsuc n
      → (l : ℕ) × (h.lookup (h.add_key t k).1 j ≡ negsuc l)
  pub add_key_again :
      (t : h.Table) (k : List ℕ) (p : ℕ) → h.lookup t k ≡ pos p → (h.add_key t k).0 ≡ pos p
  pub distinct :
      (t : h.Table) (j k : List ℕ) (p : ℕ) → h.lookup t j ≡ pos p → h.lookup t k ≡ pos p → j ≡ k
  pub bound : (t : h.Table) (k : List ℕ) (p : ℕ) → h.lookup t k ≡ pos p → p < entries
