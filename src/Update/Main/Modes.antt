-- ===== src/Update/Main/Modes.antt =====
-- Two modes on one command line of src/update-binfmts.c.
use debian_binfmt_support.Prelude.{
  Bool, ◌≡◌, refl, ◌≢◌, sym, ◌∙◌, Option, none, some, List, [], ◌∷◌, ◌++◌, Bytes,
}
use debian_binfmt_support.Action.{done}
use debian_binfmt_support.Action.Keeps.{Keeps, Keeps-pure, Keeps-bind}
use debian_binfmt_support.Action.Ensures.{Ensures, Ensures-bind, Ensures-then, Keeps-after}
use debian_binfmt_support.Paths.{Paths}
use debian_binfmt_support.Update.Base.{Env, State, check_supported_os}
use debian_binfmt_support.Update.Base.Reads.{Still, check_supported_os-Still}
use debian_binfmt_support.Update.Options.{Mode, Opt, opt_mode, Options, Parsed}
use debian_binfmt_support.Update.Options.Modes.{ModeIs, parse_opt-sets, parse_opt-ModeIs}
use debian_binfmt_support.Update.Options.Reads.{parse_opt-Still}
use debian_binfmt_support.Update.Main.{kept, parse_opts, main, initial_options}

abbrev Calls : Type 0
Calls = List (Opt × List Bytes)

kept-mode : (m : Mode) (o : Options) (p : Option Parsed) → ModeIs m o p → (kept o p).mode ≡ some m
kept-mode m o none h = h
kept-mode m o (some p) h = h

module _ (E : Env) where
  abbrev Never : Options → Type 0
  Never o = ⊥

  -- Once the mode is set, no list with another one comes to its end.
  second_mode :
      (m n : Mode) (mid post : Calls) (rest : List Bytes) (o : Options)
      → o.mode ≡ some m
      → Ensures Never (parse_opts E (mid ++ (opt_mode n, rest) ∷ post) o)
  unfolding parse_opts
  second_mode m n [] post rest o h =
      Ensures-bind _ _ (parse_opt-sets E n o rest) λ p k. absurd (clash (sym k.0 ∙ h))
    where
      clash : ◌≡◌ {A = Option Mode} none (some m) → ⊥
      clash e = cc
  second_mode m n ((key, r) ∷ mid) post rest o h =
      Ensures-bind _ _ (parse_opt-ModeIs E m key o r h)
        λ p k. second_mode m n mid post rest (kept o p) (kept-mode m o p k)

  two_modes :
      (m n : Mode) (pre mid post : Calls) (r1 r2 : List Bytes) (o : Options)
      → Ensures Never (parse_opts E (pre ++ (opt_mode m, r1) ∷ (mid ++ (opt_mode n, r2) ∷ post)) o)
  unfolding parse_opts
  two_modes m n [] mid post r1 r2 o =
      Ensures-bind _ _ (parse_opt-sets E m o r1)
        λ p k. second_mode m n mid post r2 (kept o p) (kept-mode m o p k.1)
  two_modes m n ((key, r) ∷ pre) mid post r1 r2 o =
      Ensures-then _ _ λ p. two_modes m n pre mid post r1 r2 (kept o p)

  parse_opts-Still :
      {s : E.os.State} (calls : Calls) (o : Options) → Keeps (Still E s) (parse_opts E calls o)
  unfolding parse_opts
  parse_opts-Still [] o = Keeps-pure _
  parse_opts-Still ((key, rest) ∷ calls) o =
      Keeps-bind _ _ (parse_opt-Still E key o rest) (λ p. parse_opts-Still calls (kept o p))

-- A command line that sets the mode twice, with any options before, between and behind, never
-- gets as far as an action: `main` does not return, which would be status 0, and the system is
-- left as it was.
pub main_two_modes :
    (E : Env) (m n : Mode) (pre mid post : List (Opt × List Bytes)) (r1 r2 : List Bytes)
    (argp_ok : Bool) (paths : Paths) (start : State E)
    → let run =
        main E (pre ++ (opt_mode m, r1) ∷ (mid ++ (opt_mode n, r2) ∷ post)) argp_ok paths start in
      (run.0 ≢ done tt) × (run.1.sys ≡ start.sys)
unfolding main
main_two_modes E m n pre mid post r1 r2 argp_ok paths start =
    let never = two_modes E m n pre mid post r1 r2 (initial_options paths) in
    let stops =
      Ensures-then {Q = λ (u : Unit {0}). ⊥} (check_supported_os E) _
        (λ _. Ensures-bind _ _ never (λ o k. absurd k)) in
    let still = Keeps-bind {P = Still E start.sys} _ _ (check_supported_os-Still E) (λ _.
      Keeps-after _ _ (parse_opts-Still E _ (initial_options paths)) never (λ o k. absurd k)) in
    (λ e. stops.returned start tt e, still.at start refl)
