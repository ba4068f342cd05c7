-- ===== src/Format/New/Defaults.antt =====
-- The defaults that `binfmt_new` of src/format.c fills in, and newlines.
use debian_binfmt_support.Prelude.{◌≢◌, arith, Option, none, some, [], ◌∷◌, Bytes, text, NoByte}
use debian_binfmt_support.Format.{Binfmt}
use debian_binfmt_support.Format.New.{default_mask, default_offset, fill_defaults}
use debian_binfmt_support.Format.RoundTrip.{OneLine, IsOneLine}

pub default_mask-OneLine : (mask : Option Bytes) → OneLine mask → NoByte b'\n' (default_mask mask)
unfolding default_mask text
default_mask-OneLine none h = tt
default_mask-OneLine (some s) h = h

pub default_offset-OneLine :
    (offset : Option Bytes) → OneLine offset → NoByte b'\n' (default_offset offset)
unfolding default_offset text
default_offset-OneLine none h = omega arith
default_offset-OneLine (some []) h = omega arith
default_offset-OneLine (some (c ∷ s)) h = h

pub default_offset-ne-nil : (offset : Option Bytes) → default_offset offset ≢ []
unfolding default_offset text
default_offset-ne-nil none = λ e. cc
default_offset-ne-nil (some []) = λ e. cc
default_offset-ne-nil (some (c ∷ s)) = λ e. cc

pub default-lines : (b : Binfmt) → IsOneLine b → IsOneLine (fill_defaults b)
unfolding fill_defaults
default-lines b h = record {
  pkg_line = h.pkg_line;
  type_line = h.type_line;
  offset_line = default_offset-OneLine b.offset h.offset_line;
  magic_line = h.magic_line;
  mask_line = default_mask-OneLine b.mask h.mask_line;
  interpreter_line = h.interpreter_line;
  detector_line = h.detector_line;
  credentials_line = h.credentials_line;
  preserve_line = h.preserve_line;
}

pub retyped-lines :
    (b : Binfmt) (type magic : Option Bytes)
    → IsOneLine b
    → OneLine type
    → OneLine magic
    → IsOneLine (record b { type = type; magic = magic })
retyped-lines b type magic h t g = record {
  pkg_line = h.pkg_line;
  type_line = t;
  offset_line = h.offset_line;
  magic_line = g;
  mask_line = h.mask_line;
  interpreter_line = h.interpreter_line;
  detector_line = h.detector_line;
  credentials_line = h.credentials_line;
  preserve_line = h.preserve_line;
}
