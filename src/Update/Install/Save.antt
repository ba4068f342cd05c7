-- ===== src/Update/Install/Save.antt =====
-- The administrative file behind `act_install` of src/update-binfmts.c.
use debian_binfmt_support.Prelude.{
  Bool, true, false, ◌≡◌, ◌≢◌, refl, ap, sym, subst, ◌∙◌, arith, some, Bytes, text, ◌++◌, length,
  length-append, if◌then◌else◌,
}
use debian_binfmt_support.Action.{Outcome, done, Action, pure, ◌>>=◌}
use debian_binfmt_support.Action.Inversion.{bind-Returned, bind_after}
use debian_binfmt_support.Os.{ReplacingWorks}
use debian_binfmt_support.Error.{system, warning_err}
use debian_binfmt_support.Format.{Binfmt}
use debian_binfmt_support.Format.Load.{binfmt_load}
use debian_binfmt_support.Format.Write.{file_text, binfmt_write}
use debian_binfmt_support.Format.RoundTrip.{
  IsOneLine, stored, binfmt_load-read, read-binfmt_write, read_fields-file_text,
}
use debian_binfmt_support.Update.Base.{Env, Config, State, program_name, rename_mv, runs}
use debian_binfmt_support.Update.Database.{admindir_name}
use debian_binfmt_support.Update.Install.{write_pointer, put_in_place, save}

module _ (E : Env) (c : Config) where
  abbrev pub tmp_name : Bytes → Bytes
  tmp_name name = admindir_name E c name ++ text ".tmp"

  -- They are two files.
  pub tmp_name-other : (name : Bytes) → tmp_name name ≢ admindir_name E c name
  unfolding text
  tmp_name-other name e =
      omega (arith, ap length e, length-append (admindir_name E c name) (text ".tmp"))

module _ (E : Env) (c : Config) (from to : Bytes) (W : ReplacingWorks E.os from to) where
  -- If the new file is moved, it is the old one now.
  rename_mv-moves :
      (t : Bytes) (m : State E)
      → E.os.read m.sys from ≡ some t
      → (rename_mv E from to m).0 ≡ done true
      → E.os.read (rename_mv E from to m).1.sys to ≡ some t
  unfolding rename_mv ◌>>=◌ runs system
  rename_mv-moves t m there h = ground (
    arith,
    W.rename-moves t m.sys there,
    W.rename-fails m.sys,
    W.mv-moves t (E.os.rename from to m.sys).1,
  )

  put_in_place-moves :
      (t : Bytes) (m : State E)
      → E.os.read m.sys from ≡ some t
      → (put_in_place E c from to m).0 ≡ done true
      → E.os.read (put_in_place E c from to m).1.sys to ≡ some t
  unfolding put_in_place ◌>>=◌ warning_err
  put_in_place-moves t m there h = ground (arith, rename_mv-moves t m there)

  binfmt_write-elsewhere :
      (b : Binfmt) (m : State E)
      → E.os.read (binfmt_write E.os program_name b from m).1.sys to ≡ E.os.read m.sys to
  unfolding binfmt_write ◌>>=◌ warning_err
  binfmt_write-elsewhere b m =
      ground (
        arith,
        W.unlink-elsewhere m.sys,
        W.write-elsewhere (file_text b) (E.os.unlink from m.sys).1,
      )

-- The administrative file of a name, and the one beside it.
abbrev pub DiskWorks : (E : Env) → Config → Bytes → Type 0
DiskWorks E c name = ReplacingWorks E.os (tmp_name E c name) (admindir_name E c name)

module _ (E : Env) (c : Config) (name : Bytes) (W : DiskWorks E c name) where
  abbrev place : Bool → Action (State E) Bool
  place wrote =
      if wrote then put_in_place E c (tmp_name E c name) (admindir_name E c name) else pure false

  -- The second half of `save`, behind a write that worked.
  place-moves :
      (b : Binfmt) (wrote : Bool) (m : State E)
      → (wrote ≡ true → E.os.read m.sys (tmp_name E c name) ≡ some (file_text b))
      → (place wrote m).0 ≡ done true
      → E.os.read (place wrote m).1.sys (admindir_name E c name) ≡ some (file_text b)
  unfolding pure
  place-moves b true m there h =
      put_in_place-moves E c (tmp_name E c name) (admindir_name E c name) W _ m (there refl) h
  place-moves b false m there h = cc

  pub save-moves :
      (b : Binfmt) (m : State E)
      → (save E c name (some b) m).0 ≡ done true
      → E.os.read (save E c name (some b) m).1.sys (admindir_name E c name) ≡ some (file_text b)
  unfolding save write_pointer
  save-moves b m h =
      let r = bind-Returned place (binfmt_write E.os program_name b (tmp_name E c name)) m h in
      let after = bind_after place (binfmt_write E.os program_name b (tmp_name E c name)) m r in
      let wrote : r.value ≡ true → E.os.read r.state.sys (tmp_name E c name) ≡ some (file_text b) =
        λ e.
          subst
            (λ (x : Outcome Bool × State E).
              E.os.read x.1.sys (tmp_name E c name) ≡ some (file_text b))
            r.ran
            (read-binfmt_write E.os program_name b (tmp_name E c name) m W.files
              (ap (λ (x : Outcome Bool × State E). x.0) r.ran ∙ ap (λ (w : Bool). done w) e)) in
      subst
        (λ (x : Outcome Bool × State E).
          E.os.read x.1.sys (admindir_name E c name) ≡ some (file_text b))
        (sym after)
        (place-moves b r.value r.state wrote
          (subst (λ (x : Outcome Bool × State E). x.0 ≡ done true) after h))

  -- With the administrative directory on a disk, if `act_install` has reported no failure of the write or the move of a description with no
  -- newline in a field, then `binfmt_load` of the administrative file gives that description,
  -- stored: whatever the file held before is replaced.
  pub binfmt_load-save :
      (b : Binfmt) (quiet : Bool) (m : State E)
      → IsOneLine b
      → (save E c name (some b) m).0 ≡ done true
      → binfmt_load E.os program_name name
          (admindir_name E c name)
          quiet
          (save E c name (some b) m).1
        ≡ (done (some (stored name b)), (save E c name (some b) m).1)
  binfmt_load-save b quiet m lines h =
      binfmt_load-read E.os program_name name (admindir_name E c name) (file_text b) quiet
        (stored name b) _ (save-moves b m h) (read_fields-file_text name b lines)

  -- With the administrative directory on a disk, if the new description cannot be written, `act_install` fails there, and the administrative
  -- file holds what it held before, or is still absent.
  pub save_write_fails :
      (b : Binfmt) (m m' : State E)
      → binfmt_write E.os program_name b (tmp_name E c name) m ≡ (done false, m')
      → (save E c name (some b) m ≡ (done false, m'))
        × (E.os.read m'.sys (admindir_name E c name) ≡ E.os.read m.sys (admindir_name E c name))
  unfolding save write_pointer ◌>>=◌
  save_write_fails b m m' failed = (
    rw failed refl,
    subst
        (λ (x : Outcome Bool × State E).
          E.os.read x.1.sys (admindir_name E c name) ≡ E.os.read m.sys (admindir_name E c name))
        failed (binfmt_write-elsewhere E c (tmp_name E c name) (admindir_name E c name) W b m),
  )
