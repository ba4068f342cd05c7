-- ===== src/Argp.antt =====
-- The tables of options that src/update-binfmts.c and src/run-detectors.c hand to `argp_parse`, and
-- what the documentation of argp says of a long option. No short names are used: each key is above
-- 255.
use debian_binfmt_support.Prelude.{
  ℕ, Bool, true, false, Option, none, some, List, [], ◌∷◌, Bytes, str_eq, if◌then◌else◌,
}

-- `struct argp_option`; `arg` is null where the option takes no argument; of the flags, `OPTION_HIDDEN` and `OPTION_ARG_OPTIONAL`.
pub record ArgpOption (K : Type 0) : Type 0 where
  pub name : Bytes
  pub key : K
  pub arg : Option Bytes
  pub hidden : Bool
  pub arg_optional : Bool
  pub doc : Bytes
  pub group : ℕ

unfoldable pub hidden_option : {K : Type 0} → Bytes → K → Option Bytes → Bool → Bytes → ArgpOption K
hidden_option name key arg arg_optional doc = record {
  name = name;
  key = key;
  arg = arg;
  hidden = true;
  arg_optional = arg_optional;
  doc = doc;
  group = 0;
}

unfoldable pub shown_option : {K : Type 0} → Bytes → K → Option Bytes → Bytes → ℕ → ArgpOption K
shown_option name key arg doc group = record {
  name = name;
  key = key;
  arg = arg;
  hidden = false;
  arg_optional = false;
  doc = doc;
  group = group;
}

-- The option that is spelled `--name`: the first of that name.
unfoldable pub find_long : {K : Type 0} → Bytes → List (ArgpOption K) → Option (ArgpOption K)
find_long name [] = none
find_long name (o ∷ os) = if str_eq o.name name then some o else find_long name os

-- The argument that `argp_parse` hands over: a null pointer if the option takes none.
abbrev pub handed : {K : Type 0} → ArgpOption K → Bytes → Option Bytes
handed o arg = elim (o.arg) [ none ↦ none | some label ↦ some arg ]
