-- ===== src/Tests.antt =====
-- The runs on fixed inputs: a system in memory, association lists, and two formats.
pub mod Formats
pub mod Matching
pub mod Actions
pub mod Registering
pub mod Saving
pub mod Runs
pub mod CommandLine
pub mod Crashes
pub mod Installing
pub mod Enabling
use debian_binfmt_support.Prelude.{
  ℕ, Bool, true, false, Option, none, some, List, [], ◌∷◌, ◌++◌, Bytes, text,
}
use debian_binfmt_support.Os.{Machine}
use debian_binfmt_support.Os.Memory.{Disk, memory}
use debian_binfmt_support.KvHash.{KvElem}
use debian_binfmt_support.KvHash.Assoc.{assoc_lib}
use debian_binfmt_support.Paths.{Paths}
use debian_binfmt_support.Format.{Binfmt}
use debian_binfmt_support.Format.Write.{file_text}
use debian_binfmt_support.Update.Base.{Env, Config, State}

abbrev pub env : Env
env = record { os = memory; formats = assoc_lib; args = assoc_lib }

abbrev pub paths : Paths
paths = record {
  admindir = text "/a";
  importdir = text "/i";
  procdir = text "/p";
  auxdir = text "/x";
}

abbrev pub config : Config
config = record { test = false; paths = paths }

abbrev pub dry_config : Config
dry_config = record { test = true; paths = paths }

-- A format by magic, of a package.
abbrev pub jar : Binfmt
jar = record {
  name = text "jar";
  pkg = some (text "java");
  type = some (text "magic");
  offset = some (text "0");
  magic = some (text "PK");
  mask = some [];
  interpreter = some (text "/j");
  detector = some [];
  credentials = some [];
  preserve = some [];
}

-- What the administrator installs by hand under the same name.
abbrev pub local_jar : Binfmt
local_jar = record jar { pkg = some (text ":"); interpreter = some (text "/k") }

abbrev pub machine : List (Bytes × Bytes) → List (Bytes × List Bytes) → List Bytes → State env
unfolding memory assoc_lib
machine files dirs passing = record {
  sys = record { files = files; dirs = dirs; passing = passing; ran = [] };
  table = [];
  out = [];
  err = [];
}

-- binfmt_misc is mounted, and empty but for the file that formats are written to.
abbrev pub mounted : List (Bytes × Bytes) → State env
mounted files =
    machine ((text "/p/register", []) ∷ files)
      ((text "/a", text "jar" ∷ []) ∷ (text "/p", text "register" ∷ []) ∷ []) (text "/j" ∷ [])

-- The format of the package is installed and not enabled.
abbrev pub installed : State env
installed = mounted ((text "/a/jar", file_text jar) ∷ [])

-- The table when its administrative file has been read.
abbrev pub known : State env
unfolding assoc_lib
known = record installed { table = record { key = text "jar"; value = some jar } ∷ [] }
