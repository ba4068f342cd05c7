-- ===== src/Update/Database/Known.antt =====
-- The table of formats before and behind `load_format` of src/update-binfmts.c.
use debian_binfmt_support.Prelude.{Bool, ◌≡◌, refl, arith, Option, none, some, Bytes}
use debian_binfmt_support.Action.{done, ◌>>=◌}
use debian_binfmt_support.Action.Keeps.{
  Keeps, Keeps-pure, Keeps-bind, Keeps-if, Keeps-gets, Keeps-call,
}
use debian_binfmt_support.Os.{Os, Machine}
use debian_binfmt_support.Error.{observe, quit, quit_err}
use debian_binfmt_support.KvHash.{IsLawful}
use debian_binfmt_support.KvHash.Laws.{
  view, present, flat, kvhash_exists-view, kvhash_lookup-view, kvhash_insert-existing,
}
use debian_binfmt_support.Format.{Binfmt}
use debian_binfmt_support.Format.Load.{binfmt_load}
use debian_binfmt_support.Update.Base.{
  Env, Config, State, program_name, is_file, formats_insert, formats_exists, formats_lookup,
}
use debian_binfmt_support.Update.Database.{keep_format, load_format}

abbrev pub TableIs : {S T : Type 0} → T → Machine S T → Type 0
TableIs t m = m.table ≡ t

module _ (os : Os) (pn : Bytes) {T : Type 0} {t : T} where
  binfmt_load-TableIs :
      (name filename : Bytes) (quiet : Bool)
      → Keeps (TableIs {S = os.State} t) (binfmt_load os pn name filename quiet)
  unfolding binfmt_load ◌>>=◌ quit quit_err
  binfmt_load-TableIs name filename quiet = record { at = λ m h. ground arith }

module _ (E : Env) (L : IsLawful E.formats) (c : Config) (name : Bytes) (old : Option Binfmt)
    (t : E.formats.Table) (known : view E.formats t name ≡ some old) where
  pub formats_insert-known : (b : Option Binfmt) → Keeps (TableIs t) (formats_insert E name b)
  unfolding formats_insert
  formats_insert-known b =
      Keeps-call _ (λ m h. rw h (kvhash_insert-existing E.formats L t name b old known))

  keep_format-known : (b : Option Binfmt) → Keeps (TableIs t) (keep_format E c name b)
  unfolding keep_format
  keep_format-known none = Keeps-pure _
  keep_format-known (some b) = formats_insert-known (some b)

  -- Loading a format whose name is in the table leaves the table as it is.
  pub load_format-known : (quiet : Bool) → Keeps (TableIs t) (load_format E c name quiet)
  unfolding load_format is_file observe
  load_format-known quiet = Keeps-bind _ _ (Keeps-gets _) (λ there.
      Keeps-if there _ _
        (Keeps-bind _ _ (binfmt_load-TableIs E.os program_name name _ quiet) keep_format-known)
        (Keeps-pure _))

module _ (E : Env) (L : IsLawful E.formats) (name : Bytes) (m : State E) where
  pub formats_exists-view :
      formats_exists E name m ≡ (done (present (view E.formats m.table name)), m)
  unfolding formats_exists ◌>>=◌
  formats_exists-view = rw (kvhash_exists-view E.formats L m.table name) refl

  pub formats_lookup-view : formats_lookup E name m ≡ (done (flat (view E.formats m.table name)), m)
  unfolding formats_lookup ◌>>=◌
  formats_lookup-view = rw (kvhash_lookup-view E.formats L m.table name) refl
