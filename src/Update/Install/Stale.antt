-- ===== src/Update/Install/Stale.antt =====
-- `act_install` of src/update-binfmts.c on a format that is in the table.
use debian_binfmt_support.Prelude.{◌≡◌, refl, ap, Option, some, Bytes}
use debian_binfmt_support.Action.{done, ◌>>=◌}
use debian_binfmt_support.KvHash.{IsLawful}
use debian_binfmt_support.KvHash.Laws.{view, kvhash_insert-existing}
use debian_binfmt_support.Format.{Binfmt}
use debian_binfmt_support.Update.Base.{Env, Config, State, formats_insert}
use debian_binfmt_support.Update.Install.{enable_new}

module _ (E : Env) (L : IsLawful E.formats) (c : Config) where
  formats_insert-known :
      (name : Bytes) (b w : Option Binfmt) (m : State E)
      → view E.formats m.table name ≡ some w
      → formats_insert E name b m ≡ (done tt, m)
  unfolding formats_insert ◌>>=◌
  formats_insert-known name b w m known =
      ap (λ (t : E.formats.Table). (done tt, record m { table = t }))
        (kvhash_insert-existing E.formats L m.table name b w known)

  -- The end of `act_install` on a name that is in the table, with whatever new description, does
  -- what it does with the old one: it answers, prints and changes the system as if the old
  -- description had been installed again.
  pub enable_new_stale :
      (name : Bytes) (new old : Binfmt) (m : State E)
      → view E.formats m.table name ≡ some (some old)
      → enable_new E c name (some new) m ≡ enable_new E c name (some old) m
  unfolding enable_new ◌>>=◌
  enable_new_stale name new old m known =
      rw
        (
          formats_insert-known name (some new) (some old) m known,
          formats_insert-known name (some old) (some old) m known,
        )
        refl
