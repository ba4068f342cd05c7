-- ===== src/Action/Keeps.antt =====
-- Invariants of actions: one rule for each way to build an action.
use debian_binfmt_support.Prelude.{ℕ, Bool, true, false, if◌then◌else◌, List, [], ◌∷◌, ◌&&◌}
use debian_binfmt_support.Action.{
  Outcome, done, exited, crashed, Action, pure, exit, crash, gets, call, continue, ◌>>=◌,
  each_worked,
}

-- `m` keeps `P`, however it ends.
pub record Keeps {S A : Type 0} (P : S → Type 0) (m : Action S A) : Type 0 where
  pub at : (before : S) → P before → P (m before).1

module _ {S A : Type 0} {P : S → Type 0} where
  pub Keeps-crash : Keeps P (crash {A = A})
  unfolding crash
  Keeps-crash = record { at = λ before held. held }

  pub Keeps-exit : (n : ℕ) → Keeps P (exit {A = A} n)
  unfolding exit
  Keeps-exit n = record { at = λ before held. held }

  pub Keeps-gets : (look : S → A) → Keeps P (gets look)
  unfolding gets
  Keeps-gets look = record { at = λ before held. held }

  pub Keeps-pure : (result : A) → Keeps P (pure result)
  unfolding pure
  Keeps-pure result = record { at = λ before held. held }

  pub Keeps-call : (f : S → A × S) → ((s : S) → P s → P (f s).1) → Keeps P (call f)
  unfolding call
  Keeps-call f k = record { at = k }

  pub Keeps-if :
      (b : Bool) (m n : Action S A) → Keeps P m → Keeps P n → Keeps P (if b then m else n)
  Keeps-if true m n km kn = km
  Keeps-if false m n km kn = kn

module _ {S A B : Type 0} {P : S → Type 0} where
  Keeps-continue :
      (r : Outcome A) (f : A → Action S B) → ((a : A) → Keeps P (f a)) → Keeps P (continue r f)
  Keeps-continue (done a) f k = record { at = λ s h. (k a).at s h }
  Keeps-continue (exited n) f k = record { at = λ s h. h }
  Keeps-continue crashed f k = record { at = λ s h. h }

  pub Keeps-bind :
      (step : Action S A) (next : A → Action S B)
      → Keeps P step
      → ((a : A) → Keeps P (next a))
      → Keeps P (step >>= next)
  unfolding ◌>>=◌
  Keeps-bind step next first rest = record {
    at = λ before held.
        (Keeps-continue (step before).0 next rest).at (step before).1 (first.at before held);
  }

module _ {S X : Type 0} {P : S → Type 0} where
  pub Keeps-each_worked :
      (f : X → Action S Bool) (xs : List X) (worked : Bool)
      → ((x : X) → Keeps P (f x))
      → Keeps P (each_worked f xs worked)
  unfolding each_worked
  Keeps-each_worked f [] worked k = Keeps-pure worked
  Keeps-each_worked f (x ∷ xs) worked k =
      Keeps-bind (f x) _ (k x) (λ r. Keeps-each_worked f xs (worked && r) k)

pub ruleset keeps_rules = (Keeps-pure, Keeps-exit, Keeps-crash, Keeps-gets, Keeps-if, Keeps-bind)
