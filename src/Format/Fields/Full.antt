-- ===== src/Format/Fields/Full.antt =====
-- The descriptions that the reads of `binfmt_load` in src/format.c give.
use debian_binfmt_support.Prelude.{◌≡◌, refl, ◌≢◌, none, some, Bytes}
use debian_binfmt_support.Format.{Binfmt}
use debian_binfmt_support.Format.Equality.{HasSpec}
use debian_binfmt_support.Format.Fields.{Read, got, missing_field, ◌>>=◌, read_fields}

-- What `act_install`, `act_remove` and `act_enable` read of a description in the table.
pub record IsUsable (b : Binfmt) : Type 0 where
  pub spec : HasSpec b
  pub pkg_set : b.pkg ≢ none

-- What find.c asserts of a description.
pub record IsFull (b : Binfmt) : Type 0 where
  pub usable : IsUsable b
  pub interpreter_set : b.interpreter ≢ none
  pub detector_set : b.detector ≢ none

abbrev pub Gets : {A : Type 0} → (A → Type 0) → Read A → Type 0
Gets Q (got a) = Q a
Gets Q (missing_field f) = Unit

Gets-bind :
    {A B : Type 0} (Q : B → Type 0) (r : Read A) (f : A → Read B)
    → ((a : A) → Gets Q (f a))
    → Gets Q (r >>= f)
Gets-bind Q (got a) f k = k a
Gets-bind Q (missing_field s) f k = tt

pub IsUsable-set :
    (b : Binfmt) (pkg type offset magic mask : Bytes)
    → b.pkg ≡ some pkg
    → b.type ≡ some type
    → b.offset ≡ some offset
    → b.magic ≡ some magic
    → b.mask ≡ some mask
    → IsUsable b
IsUsable-set b pkg type offset magic mask p t o m k = record {
  spec = record {
    type_set = λ e. cc;
    offset_set = λ e. cc;
    magic_set = λ e. cc;
    mask_set = λ e. cc;
  };
  pkg_set = λ e. cc;
}

got_all :
    (name pkg type offset magic mask interpreter detector credentials preserve : Bytes)
    → Gets IsFull (
        got (record {
          name = name;
          pkg = some pkg;
          type = some type;
          offset = some offset;
          magic = some magic;
          mask = some mask;
          interpreter = some interpreter;
          detector = some detector;
          credentials = some credentials;
          preserve = some preserve;
        }))
got_all name pkg type offset magic mask interpreter detector credentials preserve = record {
  usable = IsUsable-set _ pkg type offset magic mask refl refl refl refl refl;
  interpreter_set = λ e. cc;
  detector_set = λ e. cc;
}

pub read_fields-Full : (name file : Bytes) → Gets IsFull (read_fields name file)
unfolding read_fields
read_fields-Full name file = search (Gets-bind, got_all) depth 12
