-- ===== src/Error/Laws.antt =====
-- The messages of src/error.c, and the state behind them.
use debian_binfmt_support.Prelude.{◌≡◌, refl, Bytes}
use debian_binfmt_support.Action.{done, ◌>>=◌}
use debian_binfmt_support.Action.Keeps.{Keeps, Keeps-call, Keeps-gets, Keeps-bind, Keeps-exit}
use debian_binfmt_support.Os.{Os, Machine}
use debian_binfmt_support.Error.{print, complain, observe, warning, warning_err, quit, quit_err}

-- The system is in this state.
abbrev pub SysIs : {S T : Type 0} → S → Machine S T → Type 0
SysIs s m = m.sys ≡ s

module _ {S T : Type 0} {s : S} where
  pub print-SysIs : (t : Bytes) → Keeps (SysIs {T = T} s) (print t)
  unfolding print
  print-SysIs t = Keeps-call _ (λ m h. h)

  pub complain-SysIs : (t : Bytes) → Keeps (SysIs {T = T} s) (complain t)
  unfolding complain
  complain-SysIs t = Keeps-call _ (λ m h. h)

  pub observe-SysIs : {A : Type 0} (f : S → A) → Keeps (SysIs {T = T} s) (observe f)
  unfolding observe
  observe-SysIs f = Keeps-gets _

module _ (os : Os) (name : Bytes) {T : Type 0} {s : os.State} where
  pub warning-SysIs : (t : Bytes) → Keeps (SysIs {T = T} s) (warning os name t)
  unfolding warning ◌>>=◌
  warning-SysIs t = complain-SysIs _

  pub warning_err-SysIs : (t : Bytes) → Keeps (SysIs {T = T} s) (warning_err os name t)
  unfolding warning_err
  warning_err-SysIs t = Keeps-bind _ _ (observe-SysIs _) (λ e. complain-SysIs _)

  pub quit-SysIs : {A : Type 0} (t : Bytes) → Keeps (SysIs {T = T} s) (quit os name {A = A} t)
  unfolding quit
  quit-SysIs t = Keeps-bind _ _ (complain-SysIs _) (λ _. Keeps-exit 2)

  pub quit_err-SysIs :
      {A : Type 0} (t : Bytes) → Keeps (SysIs {T = T} s) (quit_err os name {A = A} t)
  unfolding quit_err
  quit_err-SysIs t =
      Keeps-bind _ _ (observe-SysIs _) (λ e. Keeps-bind _ _ (complain-SysIs _) (λ _. Keeps-exit 2))

-- A message is always printed, and nothing else happens.
module _ (os : Os) (name : Bytes) {T : Type 0} (t : Bytes) (m : Machine os.State T) where
  pub warning_done : warning os name t m ≡ (done tt, (warning os name t m).1)
  unfolding warning ◌>>=◌
  warning_done = refl

  pub warning_err_done : warning_err os name t m ≡ (done tt, (warning_err os name t m).1)
  unfolding warning_err ◌>>=◌
  warning_err_done = refl
