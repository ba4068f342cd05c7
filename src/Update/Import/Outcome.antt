-- ===== src/Update/Import/Outcome.antt =====
-- The answers of `act_import` of src/update-binfmts.c.
use debian_binfmt_support.Prelude.{
  Bool, true, false, not, ◌≡◌, refl, ◌≢◌, ◌∙◌, sym, ap, arith, Option, some, Bytes, text, ◌++◌,
  str_eq_refl, ◌==◌, if◌then◌else◌,
}
use debian_binfmt_support.Action.{Outcome, done, pure, ◌>>=◌, ◌>>◌}
use debian_binfmt_support.Action.Ensures.{Ensures, Ensures-pure, Ensures-then}
use debian_binfmt_support.Error.Laws.{warning_done, warning-SysIs}
use debian_binfmt_support.KvHash.{IsLawful, kvhash_exists, kvhash_lookup}
use debian_binfmt_support.KvHash.Laws.{view}
use debian_binfmt_support.Format.{Binfmt}
use debian_binfmt_support.Format.New.{binfmt_new}
use debian_binfmt_support.Update.Base.{Env, Config, State, program_name, warn}
use debian_binfmt_support.Update.Packaged.{get_import}
use debian_binfmt_support.Update.Packaged.Reads.{get_import-Still}
use debian_binfmt_support.Update.Database.{load_format}
use debian_binfmt_support.Update.Database.Reads.{load_format-Still}
use debian_binfmt_support.Update.Database.Known.{formats_exists-view, formats_lookup-view}
use debian_binfmt_support.Update.Install.{act_install}
use debian_binfmt_support.Update.Install.Foreign.{warned}
use debian_binfmt_support.Update.Import.{
  is_reserved, is_local, id_of, import_path, nothing_in, check_interpreter, install_import,
  local_answer, is_local_change, import_found, import_name,
}

module _ (E : Env) (L : IsLawful E.formats) (c : Config) where
  is_local-true : (b : Binfmt) → b.pkg ≡ some (text ":") → is_local (some b) ≡ some true
  is_local-true b h = rw (h, is_local) (rw (str_eq_refl (text ":")) refl)

  is_local_change-known :
      (id : Bytes) (b : Binfmt) (m : State E)
      → view E.formats m.table id ≡ some (some b)
      → b.pkg ≡ some (text ":")
      → is_local_change E c id m ≡ (done true, m)
  unfolding is_local_change ◌>>=◌ local_answer
  is_local_change-known id b m known h =
      rw
        (
          formats_exists-view E L id m,
          known,
          formats_lookup-view E L id m,
          known,
          is_local-true b h,
        )
        refl

  -- Where the format file opens and holds something, its name is not reserved, and the installed
  -- description of the name is one that the administrator has installed, `act_import` returns 1
  -- after a warning, and the system is as it was.
  pub import_name_local :
      (name : Bytes) (import : E.args.Table) (b : Binfmt) (m m1 m' : State E)
      → is_reserved (id_of E c name) ≡ false
      → get_import E (import_path E c name) m ≡ (done (some import), m1)
      → E.args.hash_get_n_entries import ≢ 0
      → load_format E c (id_of E c name) true m1 ≡ (done tt, m')
      → view E.formats m'.table (id_of E c name) ≡ some (some b)
      → b.pkg ≡ some (text ":")
      → (import_name E c name m
          ≡ (done true, warned E (text "preserving local changes to " ++ id_of E c name) m'))
        × ((import_name E c name m).1.sys ≡ m.sys)
  unfolding import_name ◌>>=◌ import_found nothing_in
  import_name_local name import b m m1 m' free opened some' loaded known h =
      let id : Bytes = id_of E c name in
      let full : (E.args.hash_get_n_entries import == 0) ≡ false = ground arith in
      let kept : import_name E c name m
          ≡ (done true, warned E (text "preserving local changes to " ++ id) m') =
        rw
          (
            free,
            opened,
            full,
            loaded,
            is_local_change-known id b m' known h,
            warning_done E.os program_name (text "preserving local changes to " ++ id) m',
          )
          refl in
      (
        kept,
        ap (λ (r : Outcome Bool × State E). r.1.sys) kept
            ∙ sys_warned m'
            ∙ sym (ap (λ (r : Outcome (Unit {0}) × State E). r.1.sys) loaded)
            ∙ (load_format-Still E c {s = m1.sys} id true).at m1 refl
            ∙ sym (ap (λ (r : Outcome (Option E.args.Table) × State E). r.1.sys) opened)
            ∙ (get_import-Still E {s = m.sys} (import_path E c name)).at m refl,
      )
    where
      sys_warned :
          (x : State E)
          → (warned E (text "preserving local changes to " ++ id_of E c name) x).sys ≡ x.sys
      sys_warned x = (warning-SysIs E.os program_name {s = x.sys} _).at x refl

module _ (E : Env) (c : Config) where
  -- Where the values of a format file hold a package, `act_import` does not answer 0 from there
  -- on, whatever `act_install` answers: a refused installation is reported as a success.
  pub install_import-true :
      (path id : Bytes) (import : E.args.Table) (m : State E)
      → kvhash_exists E.args import (text "package") ≡ true
      → (install_import E c path id import m).0 ≢ done false
  unfolding install_import
  install_import-true path id import m package' h =
      true_ne_false
        (sym ((answers (kvhash_exists E.args import (text "package")) package').returned m false h))
    where
      true_ne_false : true ≢ false
      true_ne_false e = cc

      answers :
          (x : Bool)
          → x ≡ true
          → Ensures
              (λ (b : Bool). b ≡ true)
              (if not x
                then warn E (path ++ text ": required 'package' line missing") >> pure false
                else (check_interpreter E c path (kvhash_lookup E.args import (text "interpreter"))
                    >>= λ _. binfmt_new E.os program_name E.args path import >>= λ binfmt.
                        act_install E c id binfmt >>= λ _. pure true))
      answers false e = cc
      answers true e =
          Ensures-then _ _
            (λ _. Ensures-then _ _ (λ b. Ensures-then _ _ (λ a. Ensures-pure true refl)))
