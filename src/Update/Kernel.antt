-- ===== src/Update/Kernel.antt =====
-- Loading and unloading binfmt_misc, of src/update-binfmts.c.
pub mod Dry
pub mod Usable
pub mod Files
pub mod Style
use debian_binfmt_support.Prelude.{
  ℕ, ◌-◌, Bool, true, false, not, ◌&&◌, ◌||◌, Option, none, some, List, [], ◌∷◌, ◌++◌, Bytes, text,
  str_eq, c_string, isspace, length, drop, get_or, ◌==◌, leb, if◌then◌else◌,
}
use debian_binfmt_support.Action.{Action, pure, ◌>>=◌, ◌>>◌}
use debian_binfmt_support.Os.{Written, written, not_opened, not_closed}
use debian_binfmt_support.Error.{observe, system, print}
use debian_binfmt_support.Update.Base.{
  Env, Config, Act, path_register, path_status, warn, warn_err, is_file, is_directory, access_x,
  runs,
}
use debian_binfmt_support.Update.Packaged.{all_lines}

-- `enum binfmt_style`
pub data BinfmtStyle : Type 0 where
  binfmt_procfs binfmt_filesystem : BinfmtStyle

-- `if (len && line[len - 1] == '\n') line[--len] = 0;`
unfoldable pub chop_newline : Bytes → Bytes
chop_newline [] = []
chop_newline (c ∷ []) = if c == b'\n' then [] else c ∷ []
chop_newline (c ∷ d ∷ cs) = c ∷ chop_newline (d ∷ cs)

-- The line ends in white space and `binfmt_misc`; `sizeof "binfmt_misc"` is 12.
is_binfmt_misc : Bytes → Bool
is_binfmt_misc line =
    leb 12 (length line)
    && isspace (get_or line (length line - 12) 0)
    && str_eq (c_string (drop (length line - 11) line)) (text "binfmt_misc")

-- The loop over the lines.
style_of : List Bytes → BinfmtStyle
unfolding chop_newline is_binfmt_misc
style_of [] = binfmt_procfs
style_of (line ∷ lines) =
    let next = style_of lines in
    if is_binfmt_misc (chop_newline line) then binfmt_filesystem else next

abbrev is_procfs : BinfmtStyle → Bool
is_procfs binfmt_procfs = true
is_procfs binfmt_filesystem = false

module _ (E : Env) where
  style_in : Option Bytes → Act E BinfmtStyle
  unfolding style_of
  style_in none = warn_err E (text "unable to open /proc/filesystems") >> pure binfmt_procfs
  style_in (some file) = pure (style_of (all_lines file))

  unfoldable pub get_binfmt_style : Act E BinfmtStyle
  unfolding style_in
  get_binfmt_style = do file ← observe (λ s. E.os.read s (text "/proc/filesystems")); style_in file

  module_loads : Act E Bool
  module_loads = do
    usable ← access_x E (text "/sbin/modprobe")
    if usable
        then runs E (text "/sbin/modprobe" ∷ text "-q" ∷ text "binfmt_misc" ∷ [])
        else pure false

  module _ (c : Config) where
    -- `style == BINFMT_PROCFS && !is_file (path_register)`, or for the other style.
    lacks_register : Bool → Act E Bool
    lacks_register false = pure false
    lacks_register true = do there ← is_file E (path_register c); pure (not there)

    -- The first block; `false` if the function returns 0 there.
    load_module : BinfmtStyle → Act E Bool
    unfolding lacks_register module_loads
    load_module style = do
      absent ← lacks_register (is_procfs style)
      if absent
          then (do
            loaded ← module_loads
            if loaded
                then pure true
                else (warn E (text "Couldn't load the binfmt_misc module.") >> pure false))
          else pure true

    mount_misc : BinfmtStyle → Act E Bool
    unfolding lacks_register
    mount_misc style = do
      absent ← lacks_register (not (is_procfs style))
      if absent
          then (do
            mounted ← runs E (
                text "/bin/mount"
                ∷ text "-t"
                ∷ text "binfmt_misc"
                ∷ text "-o"
                ∷ text "nodev,noexec,nosuid"
                ∷ text "binfmt_misc"
                ∷ c.paths.procdir
                ∷ [])
            if mounted
                then pure true
                else (warn E (
                      text "Couldn't mount the binfmt_misc filesystem on "
                      ++ c.paths.procdir
                      ++ text ".")
                    >> pure false))
          else pure true

    status_written : Written → Act E (Unit {0})
    status_written not_opened =
        warn_err E (text "unable to open " ++ path_status c ++ text " for writing")
    status_written _ = pure tt

    -- The last block, which turns the module on.
    switch_on : Act E Bool
    unfolding status_written
    switch_on = do
      ready ← is_file E (path_register c)
      if ready
          then (do
            w ← system (E.os.write (path_status c) (text "1\n"))
            status_written w
            pure true)
          else (warn E (
                text "binfmt_misc initialised, but "
                ++ path_register c
                ++ text " missing!  Giving up.")
              >> pure false)

    mount_and_switch_on : Act E Bool
    unfolding mount_misc switch_on
    mount_and_switch_on = do
      directory ← is_directory E c.paths.procdir
      if directory
          then (do
            style ← get_binfmt_style
            mounted ← mount_misc style
            if mounted then switch_on else pure false)
          else (warn E (
                text "binfmt_misc module seemed to be loaded, but no "
                ++ c.paths.procdir
                ++ text " directory!  Giving up.")
              >> pure false)

    unfoldable pub load_binfmt_misc : Act E Bool
    unfolding load_module mount_and_switch_on
    load_binfmt_misc = if c.test then print (text "load binfmt_misc\n") >> pure true else (do
      style ← get_binfmt_style
      loaded ← load_module style
      if loaded then mount_and_switch_on else pure false)

    style_name : BinfmtStyle → Bytes
    style_name binfmt_procfs = text "procfs"
    style_name binfmt_filesystem = text "filesystem"

    umount_fails : Act E Bool
    umount_fails =
        warn E
          (text "Couldn't unmount the binfmt_misc filesystem from " ++ c.paths.procdir ++ text ".")
        >> pure false

    umount : Act E Bool
    unfolding umount_fails
    umount = do
      done' ← runs E (text "/bin/umount" ∷ c.paths.procdir ∷ [])
      if done' then pure true else umount_fails

    -- `fusermount` first, if a FUSE file system is mounted there.
    unmount_any : Act E Bool
    unfolding umount
    unmount_any = do
      fuse ← observe (λ s. E.os.on_fuse s c.paths.procdir)
      if fuse
          then (do
            done' ← runs E (text "fusermount" ∷ text "-u" ∷ c.paths.procdir ∷ [])
            if done' then pure true else umount)
          else umount

    unfoldable pub unload_binfmt_misc : Act E Bool
    unfolding unmount_any style_name
    unload_binfmt_misc = do
      style ← get_binfmt_style
      if c.test
          then print (text "unload binfmt_misc (" ++ style_name style ++ text ")\n") >> pure true
          else if is_procfs style
          then pure true
          else unmount_any
