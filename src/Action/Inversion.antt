-- ===== src/Action/Inversion.antt =====
-- The parts of a sequence of actions that returns.
use debian_binfmt_support.Prelude.{◌≡◌, refl, ap}
use debian_binfmt_support.Action.{Outcome, done, exited, crashed, Action, continue, ◌>>=◌}

-- Where `m` returns `a`, and in what state.
pub record Returned {S A : Type 0} (m : Action S A) (s : S) : Type 0 where
  pub value : A
  pub state : S
  pub ran : m s ≡ (done value, state)

module _ {S A B : Type 0} (f : A → Action S B) where
  continue-done :
      (r : Outcome A) (s : S) {b : B} → (continue r f s).0 ≡ done b → (a : A) × (r ≡ done a)
  continue-done (done a) s h = (a, refl)
  continue-done (exited n) s h = cc
  continue-done crashed s h = cc

  pub bind-Returned : (m : Action S A) (s : S) {b : B} → ((m >>= f) s).0 ≡ done b → Returned m s
  unfolding ◌>>=◌
  bind-Returned m s h =
      let (a, e) = continue-done (m s).0 (m s).1 h in
      record { value = a; state = (m s).1; ran = ap (λ (r : Outcome A). (r, (m s).1)) e }

  pub bind_after : (m : Action S A) (s : S) (r : Returned m s) → (m >>= f) s ≡ f r.value r.state
  unfolding ◌>>=◌
  bind_after m s r = rw r.ran refl

pub not_exited :
    {S A B : Type 0} {b : B} (r : Outcome A) (f : A → Action S B) (s : S)
    → r ≡ exited 2
    → (continue r f s).0 ≡ done b
    → ⊥
not_exited (done a) f s e h = cc
not_exited (exited n) f s e h = cc
not_exited crashed f s e h = cc
