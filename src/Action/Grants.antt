-- ===== src/Action/Grants.antt =====
-- What holds of the state when an action answers 1: one rule for each way to build an action.
use debian_binfmt_support.Prelude.{◌≡◌, Bool, true, false, if◌then◌else◌}
use debian_binfmt_support.Action.{
  Outcome, done, exited, crashed, Action, pure, crash, continue, ◌>>=◌,
}

-- What holds of the state when the answer is 1.
pub record Grants {S : Type 0} (G : S → Type 0) (m : Action S Bool) : Type 0 where
  pub at : (s : S) → (m s).0 ≡ done true → G (m s).1

module _ {S : Type 0} {G : S → Type 0} where
  pub Grants-crash : Grants G crash
  unfolding crash
  Grants-crash = record { at = λ s e. cc }

  pub Grants-false : Grants G (pure false)
  unfolding pure
  Grants-false = record { at = λ s e. cc }

  pub Grants-if :
      (b : Bool) (m n : Action S Bool) → Grants G m → Grants G n → Grants G (if b then m else n)
  Grants-if true m n gm gn = gm
  Grants-if false m n gm gn = gn

module _ {S A : Type 0} {G : S → Type 0} where
  Grants-continue :
      (r : Outcome A) (s : S) (f : A → Action S Bool)
      → ((a : A) → Grants G (f a))
      → (continue r f s).0 ≡ done true
      → G (continue r f s).1
  Grants-continue (done a) s f k e = (k a).at s e
  Grants-continue (exited n) s f k e = cc
  Grants-continue crashed s f k e = cc

  pub Grants-then :
      (m : Action S A) (f : A → Action S Bool) → ((a : A) → Grants G (f a)) → Grants G (m >>= f)
  unfolding ◌>>=◌
  Grants-then m f k = record { at = λ s e. Grants-continue (m s).0 (m s).1 f k e }

pub ruleset grants_rules = (Grants-false, Grants-crash, Grants-if, Grants-then)
