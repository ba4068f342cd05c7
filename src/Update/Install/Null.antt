-- ===== src/Update/Install/Null.antt =====
-- `act_install` of src/update-binfmts.c on the null pointer of a description that `binfmt_new` has
-- refused.
use debian_binfmt_support.Prelude.{◌≡◌, refl, true, none, some, Bytes}
use debian_binfmt_support.Action.{done, crashed, crash, ◌>>=◌}
use debian_binfmt_support.KvHash.{IsLawful}
use debian_binfmt_support.KvHash.Laws.{view}
use debian_binfmt_support.Format.{Binfmt}
use debian_binfmt_support.Update.Base.{Env, Config, State}
use debian_binfmt_support.Update.Database.{load_format}
use debian_binfmt_support.Update.Database.Known.{formats_exists-view, formats_lookup-view}
use debian_binfmt_support.Update.Install.{same_package, may_replace, act_install}

module _ (E : Env) (L : IsLawful E.formats) (c : Config) (name : Bytes) (old : Binfmt) where
  may_replace_null :
      (m : State E)
      → view E.formats m.table name ≡ some (some old)
      → may_replace E c name none m ≡ (crashed, m)
  unfolding may_replace same_package ◌>>=◌ crash
  may_replace_null m known =
      rw (formats_exists-view E L name m, known, formats_lookup-view E L name m) refl

  -- With --test or without, if a description of the name is in the table once the administrative
  -- file has been read, act_install of a null pointer crashes in the state that reading it has left.
  pub act_install_null :
      (m m1 : State E)
      → load_format E c name true m ≡ (done tt, m1)
      → view E.formats m1.table name ≡ some (some old)
      → act_install E c name none m ≡ (crashed, m1)
  unfolding act_install ◌>>=◌
  act_install_null m m1 loaded known = rw (loaded, may_replace_null m1 known) refl
