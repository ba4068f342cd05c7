-- ===== src/Update/Database/Listed.antt =====
-- The directory behind a `load_all_formats` of src/update-binfmts.c that returns.
use debian_binfmt_support.Prelude.{◌≡◌, refl, Bool, Option, none, some, List, Bytes}
use debian_binfmt_support.Action.{done, ◌>>=◌}
use debian_binfmt_support.Error.{observe, quit_err}
use debian_binfmt_support.KvHash.{IsLawful}
use debian_binfmt_support.Update.Base.{Env, Config, State}
use debian_binfmt_support.Update.Database.{opened_dir, load_all_formats}
use debian_binfmt_support.Update.Database.Directory.{Adds, is_entry, load_all_formats-Adds}

-- The names of the directory were added, as it could be read.
abbrev pub AddsListed : (E : Env) → IsLawful E.formats → Config → State E → State E → Type 0
AddsListed E L c m m' =
    (entries : List Bytes) × (E.os.list m.sys c.paths.admindir ≡ some entries)
    × Adds E L c (λ key. is_entry key entries) m m'

module _ (E : Env) (L : IsLawful E.formats) (c : Config) (quiet : Bool) (m : State E) where
  opened_dir-listed :
      (dir : Option (List Bytes))
      → (opened_dir E c quiet dir m).0 ≡ done tt
      → (entries : List Bytes) × (dir ≡ some entries)
  unfolding opened_dir quit_err ◌>>=◌
  opened_dir-listed none h = cc
  opened_dir-listed (some entries) h = (entries, refl)

  pub load_all_formats-AddsListed :
      (load_all_formats E c quiet m).0 ≡ done tt
      → AddsListed E L c m (load_all_formats E c quiet m).1
  unfolding load_all_formats observe ◌>>=◌
  load_all_formats-AddsListed h =
      let (entries, dir) = opened_dir-listed (E.os.list m.sys c.paths.admindir) h in
      (entries, dir, load_all_formats-Adds E L c quiet entries m dir h)
