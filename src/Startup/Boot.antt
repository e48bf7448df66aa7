-- ===== src/Startup/Boot.antt =====
-- When a part of `main` goes on, and what calls it has made.
use native.Mathlib.Decide.{ℕ_discrete}
use hcmonitor.Prelude.{
  ℕ, zero, suc, ◌+◌, ◌<◌, ◌≤◌, ◌≡◌, ◌↔◌, refl, arith, Bool, true, false, List, [], ◌∷◌, ◌++◌,
  Bool-cases, inl, inr,
}
use mathlib.Core.Path.{subst}
use hcmonitor.Monitor.Rule.{All}
use hcmonitor.Split.Groups.{All-snoc}
use hcmonitor.Startup.{Call, Stop, failed, Outcome, stops, goes, Boot, after, ◌>>◌, test, skip, ask}

-- Whether the program goes on.
unfoldable pub going : Outcome → Bool
going (goes made) = true
going (stops made why) = false

-- An end that is not due to a call.
unfoldable pub IsTest : Stop → Type 0
IsTest (failed call) = ⊥
IsTest why = Unit

-- What holds of the numbers from `q` on, `n` of them.
abbrev pub Range : ℕ → ℕ → (ℕ → Type 0) → Type 0
Range n q P = (j : ℕ) → q ≤ j → j < q + n → P j

pub Range-zero : (q : ℕ) (P : ℕ → Type 0) → Unit {0} ↔ Range zero q P
Range-zero q P = ((λ _ j le lt. absurd (omega (arith, le, lt))), λ _. tt)

pub Range-suc : (n q : ℕ) (P : ℕ → Type 0) → (P q × Range n (q + 1) P) ↔ Range (suc n) q P
Range-suc n q P = (
  (λ (here, rest) j le lt. elim (ℕ_discrete q j) [
    | yes e ↦ subst P e here
    | no ne ↦ rest j (omega (arith, le, ne)) (omega (arith, lt))
  ]),
  λ all.
      (all q (omega arith) (omega arith), λ j le lt. all j (omega (arith, le)) (omega (arith, lt))),
)

module _ (succeeds : Call → Bool) where
  abbrev pub AllSucceed : List Call → Type 0
  AllSucceed = All (λ (call : Call). succeeds call ≡ true)

  -- All calls have succeeded, but the last where that is why the program ends.
  unfoldable pub Honest : Outcome → Type 0
  unfolding IsTest
  Honest (goes made) = AllSucceed made
  Honest (stops made (failed call)) =
      (before : List Call) × (made ≡ before ++ call ∷ [])
      × AllSucceed before
      × (succeeds call ≡ false)
  Honest (stops made why) = AllSucceed made

  -- A part of `main` that goes on exactly if `P`, and whose end is `Honest`.
  pub record Part (b : Boot) (P : Type 0) : Type 0 where
    pub goes_on : (calls : List Call) → (going (b calls) ≡ true) ↔ P
    pub honest : (calls : List Call) → AllSucceed calls → Honest (b calls)

  pub Honest-test :
      (calls : List Call) (why : Stop) → IsTest why → AllSucceed calls → Honest (stops calls why)
  unfolding Honest IsTest
  Honest-test calls (failed call) v all = absurd v
  Honest-test calls why v all = all

module _ {succeeds : Call → Bool} where
  going-after :
      {k : Boot} {P Q : Type 0} (o : Outcome)
      → (going o ≡ true) ↔ P
      → Part succeeds k Q
      → (going (after o k) ≡ true) ↔ (P × Q)
  unfolding after going
  going-after (stops made why) (f, g) w = ((λ e. cc), λ (p, q). g p)
  going-after (goes made) (f, g) w =
      ((λ e. (f refl, (w.goes_on made).0 e)), λ (p, q). (w.goes_on made).1 q)

  Honest-after :
      {k : Boot} {Q : Type 0} (o : Outcome)
      → Honest succeeds o
      → Part succeeds k Q
      → Honest succeeds (after o k)
  unfolding after Honest
  Honest-after (stops made why) v w = v
  Honest-after (goes made) v w = w.honest made v

  pub then-Part :
      {b k : Boot} {P Q : Type 0}
      → Part succeeds b P
      → Part succeeds k Q
      → Part succeeds (b >> k) (P × Q)
  unfolding ◌>>◌
  then-Part {b} v w = record {
    goes_on = λ calls. going-after (b calls) (v.goes_on calls) w;
    honest = λ calls all. Honest-after (b calls) (v.honest calls all) w;
  }

  pub test-Part : (t : Bool) (why : Stop) → IsTest why → Part succeeds (test t why) (t ≡ true)
  unfolding test going Honest
  test-Part true why v = record { goes_on = λ _. ((λ e. e), λ e. e); honest = λ _ all. all }
  test-Part false why v = record {
    goes_on = λ _. ((λ e. e), λ e. e);
    honest = λ calls all. Honest-test succeeds calls why v all;
  }

  pub skip-Part : Part succeeds skip Unit
  unfolding skip going Honest
  skip-Part = record { goes_on = λ _. ((λ _. tt), λ _. refl); honest = λ _ all. all }

  pub ask-Part : (call : Call) → Part succeeds (ask succeeds call) (succeeds call ≡ true)
  unfolding ask test going Honest
  ask-Part call = elim (Bool-cases (succeeds call)) [
    | inl e ↦ record {
      goes_on = λ calls. rw (e, test) ((λ _. refl), λ _. refl);
      honest = λ calls all. rw (e, test) (All-snoc (λ c. succeeds c ≡ true) calls call all e);
    }
    | inr e ↦ record {
      goes_on = λ calls. rw (e, test) ((λ f. f), λ f. f);
      honest = λ calls all. rw (e, test) (calls, refl, all, e);
    }
  ]

  pub iff-Part : {b : Boot} {P Q : Type 0} → (P ↔ Q) → Part succeeds b P → Part succeeds b Q
  iff-Part (f, g) v = record {
    goes_on = λ calls. ((λ e. f ((v.goes_on calls).0 e)), λ q. (v.goes_on calls).1 (g q));
    honest = v.honest;
  }
