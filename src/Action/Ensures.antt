-- ===== src/Action/Ensures.antt =====
-- What holds of the value that an action returns, if it returns one.
use debian_binfmt_support.Prelude.{ℕ, ◌≡◌, refl, ap, subst, Bool, true, false, if◌then◌else◌}
use debian_binfmt_support.Action.{
  Outcome, done, exited, crashed, Action, pure, exit, crash, continue, ◌>>=◌,
}
use debian_binfmt_support.Action.Keeps.{Keeps}

pub record Ensures {S A : Type 0} (Q : A → Type 0) (m : Action S A) : Type 0 where
  pub returned : (s : S) (a : A) → (m s).0 ≡ done a → Q a

module _ {S A : Type 0} {Q : A → Type 0} where
  pub Ensures-pure : (a : A) → Q a → Ensures Q (pure {S = S} a)
  unfolding pure
  Ensures-pure a q = record { returned = λ s b e. subst_done a b e q }
    where
      got : A → Outcome A → A
      got d (done a) = a
      got d (exited n) = d
      got d crashed = d

      subst_done : (a b : A) → done a ≡ done b → Q a → Q b
      subst_done a b e q = subst Q (ap (got a) e) q

  pub Ensures-exit : (n : ℕ) → Ensures Q (exit {S = S} {A = A} n)
  unfolding exit
  Ensures-exit n = record { returned = λ s a e. cc }

  pub Ensures-crash : Ensures Q (crash {S = S} {A = A})
  unfolding crash
  Ensures-crash = record { returned = λ s a e. cc }

  pub Ensures-if :
      (b : Bool) (m n : Action S A) → Ensures Q m → Ensures Q n → Ensures Q (if b then m else n)
  Ensures-if true m n em en = em
  Ensures-if false m n em en = en

module _ {S A B : Type 0} {R : A → Type 0} {Q : B → Type 0} where
  pub Ensures-bind :
      (m : Action S A) (f : A → Action S B)
      → Ensures R m
      → ((a : A) → R a → Ensures Q (f a))
      → Ensures Q (m >>= f)
  unfolding ◌>>=◌
  Ensures-bind m f em ef = record {
    returned = λ s. let (r, s') = m s in rest r s' (λ a e. em.returned s a e);
  }
    where
      rest :
          (r : Outcome A) (s' : S)
          → ((a : A) → r ≡ done a → R a)
          → (b : B) → (continue r f s').0 ≡ done b
          → Q b
      rest (done a) s' h b e = (ef a (h a refl)).returned s' b e
      rest (exited n) s' h b e = cc
      rest crashed s' h b e = cc

module _ {S A B : Type 0} {Q : B → Type 0} where
  -- Nothing need be known of the first result.
  pub Ensures-then :
      (m : Action S A) (f : A → Action S B) → ((a : A) → Ensures Q (f a)) → Ensures Q (m >>= f)
  Ensures-then m f ef =
      Ensures-bind {R = λ _. Unit} m f (record { returned = λ s a e. tt }) (λ a _. ef a)

module _ {S A B : Type 0} {P : S → Type 0} {R : A → Type 0} where
  -- What follows need keep `P` only from results that can be returned.
  pub Keeps-after :
      (m : Action S A) (f : A → Action S B)
      → Keeps P m
      → Ensures R m
      → ((a : A) → R a → Keeps P (f a))
      → Keeps P (m >>= f)
  unfolding ◌>>=◌
  Keeps-after m f km em kf = record {
    at = λ s h. let (r, s') = m s in rest r s' (λ a e. em.returned s a e) (km.at s h);
  }
    where
      rest : (r : Outcome A) (s' : S) → ((a : A) → r ≡ done a → R a) → P s' → P (continue r f s').1
      rest (done a) s' g p = (kf a (g a refl)).at s' p
      rest (exited n) s' g p = p
      rest crashed s' g p = p
