-- ===== src/Update/Main/Outcomes.antt =====
-- How `main` of src/update-binfmts.c ends.
use debian_binfmt_support.Prelude.{
  ◌≡◌, refl, sym, subst, ◌⊎◌, inl, inr, Bool, true, false, Option, none, some, List, [], ◌∷◌, Bytes,
  if◌then◌else◌, text,
}
use debian_binfmt_support.Action.{done, exit, ◌>>=◌}
use debian_binfmt_support.Action.Safe.{
  Fails, Yields, Yields-pure, Yields-bind, continue-cases, Ends, Holds-Ends,
}
use debian_binfmt_support.Error.Tables.{Tabled}
use debian_binfmt_support.KvHash.{IsLawful, kvhash_initialize}
use debian_binfmt_support.Paths.{Paths}
use debian_binfmt_support.Update.Base.{Env, State}
use debian_binfmt_support.Update.Base.Tables.{AllUsable, EndsForeign, check_supported_os_cases}
use debian_binfmt_support.Update.Options.{Opt, Options, Parsed}
use debian_binfmt_support.Update.Options.Operands.{IsNamed, NamedBehind}
use debian_binfmt_support.Update.Options.Names.{parse_opt-Named}
use debian_binfmt_support.Update.Main.{initial_options, kept, run_mode, parse_opts, main}
use debian_binfmt_support.Update.Main.Crashes.{MayCrash, run_mode-Holds}

kept-IsNamed : (o : Options) (p : Option Parsed) → NamedBehind o p → IsNamed (kept o p)
kept-IsNamed o none n = n
kept-IsNamed o (some p) n = n

module _ (E : Env) {K : E.formats.Table → Type 0} where
  pub parse_opts-Named :
      (calls : List (Opt × List Bytes)) (o : Options)
      → IsNamed o
      → Yields Fails (Tabled K) IsNamed (parse_opts E calls o)
  unfolding parse_opts
  parse_opts-Named [] o w = Yields-pure o w
  parse_opts-Named ((key, rest) ∷ calls) o w =
      Yields-bind _ _ (parse_opt-Named E key o rest w)
        λ p n. parse_opts-Named calls (kept o p) (kept-IsNamed o p n)

initial_options-IsNamed : (paths : Paths) → IsNamed (initial_options paths)
initial_options-IsNamed paths = record {
  installing = λ e. cc;
  removing = λ e. cc;
  finding = λ e. cc;
  magic_given = λ e. cc;
  extension_given = λ e. cc;
}

module _ (E : Env) (L : IsLawful E.formats) where
  empty-Usable : (t : E.formats.Table) → t ≡ kvhash_initialize E.formats → AllUsable E t
  empty-Usable t empty = rw empty (rw L.initially_empty tt)

module _ (E : Env) (L : IsLawful E.formats) (LA : IsLawful E.args) where
  -- From the end of the command line on.
  ending-Ends :
      (argp_ok : Bool) (o : Options) (m : State E)
      → IsNamed o
      → Tabled (AllUsable E) m
      → Ends ((if argp_ok then run_mode E o else exit 2) m).0 ⊎ MayCrash o
  unfolding exit
  ending-Ends false o m w k = inl (inr refl)
  ending-Ends true o m w k = elim (run_mode-Holds E L LA o m w k) [
    | inl fine ↦ inl (Holds-Ends _ fine)
    | inr may ↦ inr may
  ]

-- Over hash tables that keep their promises, a run of `main` with the empty table on a system that
-- is not Linux exits with status 0 and has only printed. On Linux it returns, or exits with status
-- 2, or the command line was accepted up to its end and has set import or find, or enable or
-- install together with --test, or install with no type, or install with --extension and a mask or
-- an offset. No other command line crashes or has another exit status, whatever the files and the
-- answers of the system are.
pub main_outcomes :
    (E : Env)
    → IsLawful E.formats
    → IsLawful E.args
    → (calls : List (Opt × List Bytes)) (argp_ok : Bool) (paths : Paths) (m : State E)
    → m.table ≡ kvhash_initialize E.formats
    → EndsForeign E m (main E calls argp_ok paths m)
      ⊎ ((E.os.sysname m.sys ≡ text "Linux")
          × (Ends (main E calls argp_ok paths m).0
              ⊎ ((o : Options) × ((parse_opts E calls (initial_options paths) m).0 ≡ done o)
                  × MayCrash o)))
unfolding main ◌>>=◌
main_outcomes E L LA calls argp_ok paths m empty =
    let held : Tabled (AllUsable E) m = record { held = empty-Usable E L m.table empty } in
    let (named, k) =
      (parse_opts-Named E calls (initial_options paths) (initial_options-IsNamed paths)).at m
        held in
    let parsed = parse_opts E calls (initial_options paths) m in
    elim (check_supported_os_cases E m) [
      | inr (other', out, same, kept') ↦ inl (other', rw out refl, rw out same, rw out kept')
      | inl (on_linux, linux) ↦ inr (
        on_linux,
        elim (continue-cases IsNamed parsed.0 (λ o. if argp_ok then run_mode E o else exit 2)
            parsed.1 named) [
              | inl failed ↦ inl (inr (rw linux failed))
              | inr (o, eo, w, same) ↦ elim (ending-Ends E L LA argp_ok o parsed.1 w k) [
                | inl ends ↦ inl (rw linux (subst Ends (sym same) ends))
                | inr may ↦ inr (o, eo, may)
              ]
            ],
      )
    ]
