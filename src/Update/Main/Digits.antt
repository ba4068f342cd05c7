-- ===== src/Update/Main/Digits.antt =====
-- The offset that the command line leaves for `main` of src/update-binfmts.c.
use debian_binfmt_support.Prelude.{◌≡◌, Option, none, some, List, [], ◌∷◌, Bytes}
use debian_binfmt_support.Action.{done}
use debian_binfmt_support.Action.Ensures.{Ensures, Ensures-pure, Ensures-bind}
use debian_binfmt_support.Paths.{Paths}
use debian_binfmt_support.Update.Base.{Env, State}
use debian_binfmt_support.Update.Options.{Opt, Options, Parsed}
use debian_binfmt_support.Update.Options.Offset.{IsWhole, WholeIn, parse_opt-WholeIn}
use debian_binfmt_support.Update.Main.{initial_options, kept, parse_opts}

kept-IsWhole :
    (o : Options) (p : Option Parsed)
    → IsWhole o.spec.offset
    → WholeIn p
    → IsWhole (kept o p).spec.offset
kept-IsWhole o none h k = h
kept-IsWhole o (some p) h k = k

module _ (E : Env) where
  parse_opts-Ensures :
      (calls : List (Opt × List Bytes)) (o : Options)
      → IsWhole o.spec.offset
      → Ensures (λ o'. IsWhole o'.spec.offset) (parse_opts E calls o)
  unfolding parse_opts
  parse_opts-Ensures [] o h = Ensures-pure o h
  parse_opts-Ensures ((key, rest) ∷ calls) o h =
      Ensures-bind _ _ (parse_opt-WholeIn E key o rest h)
        λ p k. parse_opts-Ensures calls (kept o p) (kept-IsWhole o p h k)

  -- If the command line is accepted, whatever options it has, the offset that it leaves for
  -- `main` is not set or consists of decimal digits alone.
  pub parse_opts-IsWhole :
      (calls : List (Opt × List Bytes)) (paths : Paths) (m : State E) (o : Options)
      → (parse_opts E calls (initial_options paths) m).0 ≡ done o
      → IsWhole o.spec.offset
  parse_opts-IsWhole calls paths m o =
      (parse_opts-Ensures calls (initial_options paths) tt).returned m o
