-- ===== src/Monitor/Connection/Runs.antt =====
-- The monitor on any records, against the connections by themselves.
use hcmonitor.Prelude.{ℕ, ◌≡◌, Bool, Option, some, List, [], ◌∷◌, ◌++◌}
use mathlib.Core.Path.{subst}
use mathlib.Core.Option.{some-injective}
use mathlib.Core.List.{append-nil, append_assoc}
use hcmonitor.Config.{Mconfig}
use hcmonitor.Floats.{Floats}
use hcmonitor.Hash.{RteHash, HashLaws}
use hcmonitor.Node.{NodeData, key_bytes}
use hcmonitor.Monitor.{req_hash_entries, ReqTemp, Monitor, handle, run}
use hcmonitor.Monitor.Rule.{run_inv, Holds-some}
use hcmonitor.Monitor.Connection.{Conn, emitted, conn_of, next_conns, samples}
use hcmonitor.Monitor.Connection.Refines.{Refines}
use hcmonitor.Monitor.Connection.Advances.{Advances, handle-Advances}

module _ {F : Floats} {h : RteHash} (c : Mconfig) (blank : Conn) where
  -- What is known behind records, and the samples.
  abbrev After :
      (List ℕ → Option Conn) → List (F.Float × Bool) → List NodeData → Monitor F h → Type 0
  After conns xs ds t =
      Refines blank (λ k. conn_of F c blank k ds (conns k)) (xs ++ samples F c blank conns ds) t

  After-cons :
      (conns : List ℕ → Option Conn) (xs : List (F.Float × Bool)) (d : NodeData)
      (ds : List NodeData) (t : Monitor F h)
      → After
          (next_conns F c blank d conns)
          (xs ++ emitted F c blank d (conns (key_bytes c d)))
          ds
          t
      → After conns xs (d ∷ ds) t
  unfolding conn_of samples
  After-cons conns xs d ds t v =
      subst
        (λ ys. Refines blank (λ k. conn_of F c blank k ds (next_conns F c blank d conns k)) ys t)
        (append_assoc xs (emitted F c blank d (conns (key_bytes c d)))
          (samples F c blank (next_conns F c blank d conns) ds))
        v

  After-nil :
      (conns : List ℕ → Option Conn) (xs : List (F.Float × Bool)) (m : Monitor F h)
      → Refines blank conns xs m
      → After conns xs [] m
  unfolding conn_of samples
  After-nil conns xs m v = rw (append-nil xs) v

module _ {F : Floats} {h : RteHash} (laws : HashLaws h req_hash_entries) (c : Mconfig)
    (stray : ReqTemp) (blank : Conn) where
  -- Any records that are handled, in a monitor that refines the connections.
  pub run-Refines :
      (conns : List ℕ → Option Conn) (xs : List (F.Float × Bool)) (ds : List NodeData)
      (m t : Monitor F h)
      → Refines blank conns xs m
      → run c stray ds m ≡ some t
      → After c blank conns xs ds t
  unfolding run
  run-Refines conns xs [] m t v e = rw (← (some-injective _ _ e)) (After-nil c blank conns xs m v)
  run-Refines conns xs (d ∷ ds) m t v e =
      let (u, made, rest) = run_inv c stray d ds m t e in
      After-cons c blank conns xs d ds t (
        run-Refines (next_conns F c blank d conns)
          (xs ++ emitted F c blank d (conns (key_bytes c d))) ds u t
          (Holds-some (Advances laws c stray blank conns xs d) (handle c stray d m)
            (handle-Advances laws c stray blank conns xs d m v) made)
          rest)
