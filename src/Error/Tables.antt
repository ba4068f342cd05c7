-- ===== src/Error/Tables.antt =====
-- The messages of src/error.c and the calls of the system, and the table of formats.
use debian_binfmt_support.Prelude.{ℕ, Bytes}
use debian_binfmt_support.Action.Safe.{
  Fails, Yields, Safe, Yields-call, Yields-then, Yields-exit, Safe-gets, safe_rules,
}
use debian_binfmt_support.Os.{Os, Machine}
use debian_binfmt_support.Error.{
  print, complain, system, observe, warning, warning_err, quit, quit_err,
}

-- The table of formats is one of `K`.
pub record Tabled {S T : Type 0} (K : T → Type 0) (m : Machine S T) : Type 0 where
  pub held : K m.table

module _ {S T : Type 0} {X : ℕ → Type 0} {K : T → Type 0} where
  pub print-Safe : (t : Bytes) → Safe X (Tabled {S = S} K) (print t)
  unfolding print
  print-Safe t = Yields-call _ (λ m k. (tt, record { held = k.held }))

  pub complain-Safe : (t : Bytes) → Safe X (Tabled {S = S} K) (complain t)
  unfolding complain
  complain-Safe t = Yields-call _ (λ m k. (tt, record { held = k.held }))

  pub system-Safe : {A : Type 0} (f : S → A × S) → Safe X (Tabled K) (system f)
  unfolding system
  system-Safe f = Yields-call _ (λ m k. (tt, record { held = k.held }))

  pub observe-Safe : {A : Type 0} (f : S → A) → Safe X (Tabled K) (observe f)
  unfolding observe
  observe-Safe f = Safe-gets _

module _ (os : Os) (name : Bytes) {T : Type 0} {X : ℕ → Type 0} {K : T → Type 0} where
  pub warning-Safe : (t : Bytes) → Safe X (Tabled K) (warning os name t)
  unfolding warning
  warning-Safe t = complain-Safe _

  pub warning_err-Safe : (t : Bytes) → Safe X (Tabled K) (warning_err os name t)
  unfolding warning_err
  warning_err-Safe t = search (safe_rules, complain-Safe)

module _ (os : Os) (name : Bytes) {T : Type 0} {K : T → Type 0} where
  pub quit-Yields :
      {A : Type 0} {Q : A → Type 0} (t : Bytes) → Yields Fails (Tabled K) Q (quit os name {A = A} t)
  unfolding quit
  quit-Yields t = search (safe_rules, complain-Safe)

  pub quit_err-Yields :
      {A : Type 0} {Q : A → Type 0} (t : Bytes)
      → Yields Fails (Tabled K) Q (quit_err os name {A = A} t)
  unfolding quit_err
  quit_err-Yields t = search (safe_rules, complain-Safe)

pub ruleset table_rules = (
  safe_rules, print-Safe, complain-Safe, system-Safe, observe-Safe, warning-Safe, warning_err-Safe,
  quit-Yields, quit_err-Yields,
)
