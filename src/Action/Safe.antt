-- ===== src/Action/Safe.antt =====
-- Actions that do not crash while an invariant of the state holds, and exit with certain statuses
-- if they exit: one rule for each way to build an action.
use debian_binfmt_support.Prelude.{
  ℕ, ◌≡◌, refl, ap, ◌⊎◌, inl, inr, Bool, true, false, if◌then◌else◌, List, [], ◌∷◌, ◌&&◌,
}
use debian_binfmt_support.Action.{
  Outcome, done, exited, crashed, Action, pure, exit, gets, call, continue, ◌>>=◌, each_worked,
}

-- A result is in `Q`, the status of an exit in `X`.
abbrev pub Holds : {A : Type 0} → (ℕ → Type 0) → (A → Type 0) → Outcome A → Type 0
Holds X Q (done a) = Q a
Holds X Q (exited n) = X n
Holds X Q crashed = ⊥

abbrev pub Anything : {A : Type 0} → A → Type 0
Anything a = Unit

-- From a state in `P` the action does not crash, leaves a state in `P`, and returns what is in
-- `Q`, if it returns.
pub record Yields {S A : Type 0} (X : ℕ → Type 0) (P : S → Type 0) (Q : A → Type 0) (m : Action S A)
    : Type 0 where
  pub at : (s : S) → P s → Holds X Q (m s).0 × P (m s).1

abbrev pub Safe : {S A : Type 0} → (ℕ → Type 0) → (S → Type 0) → Action S A → Type 0
Safe X P m = Yields X P Anything m

module _ {S A : Type 0} {X : ℕ → Type 0} {P : S → Type 0} {Q : A → Type 0} where
  pub Yields-pure : (a : A) → Q a → Yields X P Q (pure a)
  unfolding pure
  Yields-pure a q = record { at = λ s p. (q, p) }

  pub Yields-exit : (n : ℕ) → X n → Yields X P Q (exit n)
  unfolding exit
  Yields-exit n x = record { at = λ s p. (x, p) }

  pub Yields-gets : (f : S → A) → ((s : S) → P s → Q (f s)) → Yields X P Q (gets f)
  unfolding gets
  Yields-gets f q = record { at = λ s p. (q s p, p) }

  pub Yields-call :
      (f : S → A × S) → ((s : S) → P s → Q (f s).0 × P (f s).1) → Yields X P Q (call f)
  unfolding call
  Yields-call f q = record { at = q }

  pub Yields-if :
      (b : Bool) (m n : Action S A)
      → Yields X P Q m
      → Yields X P Q n
      → Yields X P Q (if b then m else n)
  Yields-if true m n ym yn = ym
  Yields-if false m n ym yn = yn

Holds-weaken :
    {A : Type 0} (X : ℕ → Type 0) (Q R : A → Type 0) (r : Outcome A)
    → ((a : A) → Q a → R a)
    → Holds X Q r
    → Holds X R r
Holds-weaken X Q R (done a) k h = k a h
Holds-weaken X Q R (exited n) k h = h
Holds-weaken X Q R crashed k h = h

module _ {S A : Type 0} {X : ℕ → Type 0} {P : S → Type 0} where
  pub Safe-pure : (a : A) → Safe X P (pure a)
  Safe-pure a = Yields-pure a tt

  pub Safe-gets : (f : S → A) → Safe X P (gets f)
  Safe-gets f = Yields-gets f (λ s p. tt)

  pub Yields-weaken :
      {Q R : A → Type 0} (m : Action S A) → ((a : A) → Q a → R a) → Yields X P Q m → Yields X P R m
  Yields-weaken {Q} {R} m k y = record {
    at = λ s p. (Holds-weaken X Q R (m s).0 k (y.at s p).0, (y.at s p).1);
  }

  pub Yields-Safe : {Q : A → Type 0} (m : Action S A) → Yields X P Q m → Safe X P m
  Yields-Safe m y = Yields-weaken m (λ a q. tt) y

module _ {S A B : Type 0} {X : ℕ → Type 0} {P : S → Type 0} {R : A → Type 0} {Q : B → Type 0} where
  Yields-continue :
      (r : Outcome A) (s : S) (f : A → Action S B)
      → Holds X R r
      → P s
      → ((a : A) → R a → Yields X P Q (f a))
      → Holds X Q (continue r f s).0 × P (continue r f s).1
  Yields-continue (done a) s f h p k = (k a h).at s p
  Yields-continue (exited n) s f h p k = (h, p)
  Yields-continue crashed s f h p k = elim h [ ]

  -- What follows may use what is known of the first result.
  pub Yields-bind :
      (m : Action S A) (f : A → Action S B)
      → Yields X P R m
      → ((a : A) → R a → Yields X P Q (f a))
      → Yields X P Q (m >>= f)
  unfolding ◌>>=◌
  Yields-bind m f y k = record {
    at = λ s p. Yields-continue (m s).0 (m s).1 f (y.at s p).0 (y.at s p).1 k;
  }

module _ {S A B : Type 0} {X : ℕ → Type 0} {P : S → Type 0} {Q : B → Type 0} where
  pub Yields-then :
      (m : Action S A) (f : A → Action S B)
      → Safe X P m
      → ((a : A) → Yields X P Q (f a))
      → Yields X P Q (m >>= f)
  Yields-then m f y k = Yields-bind m f y (λ a u. k a)

module _ {S B : Type 0} {X : ℕ → Type 0} {P : S → Type 0} where
  pub Safe-each_worked :
      (f : B → Action S Bool) (xs : List B) (worked : Bool)
      → ((x : B) → Safe X P (f x))
      → Safe X P (each_worked f xs worked)
  unfolding each_worked
  Safe-each_worked f [] worked k = Safe-pure worked
  Safe-each_worked f (x ∷ xs) worked k =
      Yields-then (f x) _ (k x) (λ r. Safe-each_worked f xs (worked && r) k)

-- `argp_err_exit_status`, and the status of `quit`.
abbrev pub Fails : ℕ → Type 0
Fails n = n ≡ 2

pub exit_2-Yields : {S A : Type 0} {P : S → Type 0} {Q : A → Type 0} → Yields Fails P Q (exit 2)
exit_2-Yields = Yields-exit 2 refl

pub ruleset safe_rules = (Safe-pure, exit_2-Yields, Safe-gets, Yields-if, Yields-then)

-- It returns, or exits with status 2.
abbrev pub Ends : {A : Type 0} → Outcome A → Type 0
Ends {A} r = ((a : A) × (r ≡ done a)) ⊎ (r ≡ exited 2)

pub Holds-Ends : {A : Type 0} (r : Outcome A) → Holds Fails Anything r → Ends r
Holds-Ends (done a) h = inl (a, refl)
Holds-Ends (exited n) h = inr (ap exited h)
Holds-Ends crashed h = elim h [ ]

-- How a sequence ends: with its first part, or with its second.
pub continue-cases :
    {S A B : Type 0} (Q : A → Type 0) (r : Outcome A) (f : A → Action S B) (s : S)
    → Holds Fails Q r
    → ((continue r f s).0 ≡ exited 2)
      ⊎ ((a : A) × (r ≡ done a) × Q a × ((continue r f s).0 ≡ (f a s).0))
continue-cases Q (done a) f s h = inr (a, refl, h, refl)
continue-cases Q (exited n) f s h = inl (ap exited h)
continue-cases Q crashed f s h = elim h [ ]

-- No status: the action does not exit.
abbrev pub Never : ℕ → Type 0
Never n = ⊥

pub Holds-done : {A : Type 0} (r : Outcome A) → Holds Never Anything r → (a : A) × (r ≡ done a)
Holds-done (done a) h = (a, refl)
Holds-done (exited n) h = elim h [ ]
Holds-done crashed h = elim h [ ]
