-- ===== src/Paths.antt =====
-- src/paths.c and src/paths.h: four directories. Their defaults come from the build, and the
-- command line may replace three of them, so they are one value that each operation is given.
use debian_binfmt_support.Prelude.{Bytes}

pub record Paths : Type 0 where
  pub admindir : Bytes
  pub importdir : Bytes
  pub procdir : Bytes
  pub auxdir : Bytes
