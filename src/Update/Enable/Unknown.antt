-- ===== src/Update/Enable/Unknown.antt =====
-- `act_enable` of src/update-binfmts.c on a name without an administrative file.
use debian_binfmt_support.Prelude.{
  true, false, ◌≡◌, refl, none, Bytes, if◌then◌else◌, Bool-cases, inl, inr,
}
use debian_binfmt_support.Action.{done, crashed, ◌>>=◌}
use debian_binfmt_support.Error.{observe, warning, kind_exists}
use debian_binfmt_support.KvHash.{IsLawful}
use debian_binfmt_support.KvHash.Laws.{view}
use debian_binfmt_support.Update.Base.{Env, Config, State, exists}
use debian_binfmt_support.Update.Kernel.{load_binfmt_misc}
use debian_binfmt_support.Update.Database.{procdir_name, load_format}
use debian_binfmt_support.Update.Database.Known.{formats_exists-view, formats_lookup-view}
use debian_binfmt_support.Update.Enable.{register, enable_absent, enable_name}

module _ (E : Env) (L : IsLawful E.formats) (c : Config) where
  enable_absent_unknown :
      (name : Bytes) (m m' : State E)
      → load_format E c name false m ≡ (done tt, m')
      → view E.formats m'.table name ≡ none
      → (enable_absent E c name m).0 ≡ (if c.test then crashed else done false)
  unfolding enable_absent ◌>>=◌ register warning
  enable_absent_unknown name m m' loaded absent = elim (Bool-cases c.test) [
    | inl test ↦
        rw (loaded, formats_exists-view E L name m', absent, test)
          (rw (formats_lookup-view E L name m', absent) refl)
    | inr real ↦ rw (loaded, formats_exists-view E L name m', absent, real) refl
  ]

  -- With binfmt_misc loaded and no entry of the name in the kernel, where reading the
  -- administrative directory gives no format of the name either: without `--test` the result is
  -- 0, after a warning; with `--test` a null pointer is read.
  pub enable_name_unknown :
      (name : Bytes) (m m1 m' : State E)
      → load_binfmt_misc E c m ≡ (done true, m1)
      → kind_exists (E.os.stat m1.sys (procdir_name E c name)) ≡ false
      → load_format E c name false m1 ≡ (done tt, m')
      → view E.formats m'.table name ≡ none
      → (enable_name E c name m).0 ≡ (if c.test then crashed else done false)
  unfolding enable_name ◌>>=◌ exists observe
  enable_name_unknown name m m1 m' misc away loaded absent =
      rw (misc, away) (enable_absent_unknown name m1 m' loaded absent)
