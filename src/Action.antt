-- ===== src/Action.antt =====
-- Steps of the two programs: a function of the state that returns, exits or crashes.
-- What was written before an exit stays written, so the state comes back in each case.
pub mod Keeps
pub mod Safe
pub mod Grants
pub mod Ensures
pub mod Inversion
use debian_binfmt_support.Prelude.{
  ℕ, ◌≡◌, refl, Bool, true, false, if◌then◌else◌, List, [], ◌∷◌, ◌&&◌,
}

pub data Outcome (A : Type 0) : Type 0 where
  done : A → Outcome A
  -- `exit (n)`
  exited : ℕ → Outcome A
  -- A null pointer is read, an assertion fails, or memory is read out of bounds.
  crashed : Outcome A

abbrev pub Action : Type 0 → Type 0 → Type 0
Action S A = S → Outcome A × S

module _ {S A : Type 0} where
  unfoldable pub pure : A → Action S A
  pure a s = (done a, s)

  unfoldable pub exit : ℕ → Action S A
  exit n s = (exited n, s)

  unfoldable pub crash : Action S A
  crash s = (crashed, s)

  unfoldable pub gets : (S → A) → Action S A
  gets f s = (done (f s), s)

  -- A call that changes the state and cannot fail by itself.
  unfoldable pub call : (S → A × S) → Action S A
  call f s = let (a, s') = f s in (done a, s')

module _ {S A B : Type 0} where
  abbrev pub continue : Outcome A → (A → Action S B) → Action S B
  continue (done a) f s = f a s
  continue (exited n) f s = (exited n, s)
  continue crashed f s = (crashed, s)

  infixl 10 ◌>>=◌ ◌>>◌
  unfoldable pub ◌>>=◌ : Action S A → (A → Action S B) → Action S B
  unfolding pure exit crash gets call
  ◌>>=◌ m f s = let (r, s') = m s in continue r f s'

  abbrev pub ◌>>◌ : Action S A → Action S B → Action S B
  m >> n = m >>= λ _. n

-- `for (...) worked &= f (x);`
module _ {S X : Type 0} where
  unfoldable pub each_worked : (X → Action S Bool) → List X → Bool → Action S Bool
  each_worked f [] worked = pure worked
  each_worked f (x ∷ xs) worked = f x >>= λ r. each_worked f xs (worked && r)
