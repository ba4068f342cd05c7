-- ===== src/Update/Options/Table/Handled.antt =====
-- The options of src/update-binfmts.c and the cases of its `parse_opt`.
use debian_binfmt_support.Prelude.{Option, none, some, List, ◌≡◌, refl, ◌≢◌, Bytes, text, str_eq}
use debian_binfmt_support.Action.Ensures.{Ensures, Ensures-pure, Ensures-if, Ensures-then}
use debian_binfmt_support.Paths.{Paths}
use debian_binfmt_support.Argp.{ArgpOption, find_long, handed}
use debian_binfmt_support.Update.Base.{Env}
use debian_binfmt_support.Update.Options.{
  install, remove, import, display, enable, disable, find, magic, extension, Opt, opt_mode,
  opt_type, opt_mask, opt_offset, opt_detector, opt_credentials, opt_preserve, opt_package,
  opt_admindir, opt_importdir, opt_procdir, opt_test, key_success, key_other, Options, Parsed,
  parse_opt,
}
use debian_binfmt_support.Update.Options.Modes.{argp_error-Ensures}
use debian_binfmt_support.Update.Options.Table.{
  Key, mode_key, type_key, mask, offset, detector, credentials, preserve, package_name, admindir,
  importdir, procdir, test, options, spelling, opt_of, call_of,
}

-- What `parse_opt` answers is not ARGP_ERR_UNKNOWN.
abbrev pub Handled : Option Parsed → Type 0
Handled p = p ≢ none

some-Handled : (p : Parsed) → Handled (some p)
some-Handled p e = cc

ruleset handled_rules = (Ensures-then, Ensures-if, Ensures-pure, some-Handled, argp_error-Ensures)

module _ (E : Env) where
  parse_opt-Handled :
      (c : Opt) (o : Options) (rest : List Bytes)
      → c ≢ key_other
      → Ensures Handled (parse_opt E c o rest)
  unfolding parse_opt
  parse_opt-Handled (opt_mode m) o rest h = search handled_rules
  parse_opt-Handled (opt_type t a) o rest h = search handled_rules
  parse_opt-Handled (opt_mask a) o rest h = search handled_rules
  parse_opt-Handled (opt_offset a) o rest h = search handled_rules
  parse_opt-Handled (opt_detector a) o rest h = search handled_rules
  parse_opt-Handled (opt_credentials a) o rest h = search handled_rules
  parse_opt-Handled (opt_preserve a) o rest h = search handled_rules
  parse_opt-Handled (opt_package a) o rest h = search handled_rules
  parse_opt-Handled (opt_admindir a) o rest h = search handled_rules
  parse_opt-Handled (opt_importdir a) o rest h = search handled_rules
  parse_opt-Handled (opt_procdir a) o rest h = search handled_rules
  parse_opt-Handled opt_test o rest h = search handled_rules
  parse_opt-Handled key_success o rest h = search handled_rules
  parse_opt-Handled key_other o rest h = absurd (h refl)

-- The option of a key is spelled so, and the argument that it takes is what the case keeps.
abbrev Listed : Paths → Key → Type 0
Listed build k =
    (row : ArgpOption Key) × (find_long (spelling k) (options build) ≡ some row)
    × (row.key ≡ k)
    × ((arg : Bytes) → call_of k (handed row arg) ≡ some (opt_of k arg))

options-Listed : (build : Paths) (k : Key) → Listed build k
unfolding options find_long opt_of spelling call_of str_eq text
options-Listed build (mode_key install) = (_, refl, refl, (λ arg. refl))
options-Listed build (mode_key remove) = (_, refl, refl, (λ arg. refl))
options-Listed build (mode_key import) = (_, refl, refl, (λ arg. refl))
options-Listed build (mode_key display) = (_, refl, refl, (λ arg. refl))
options-Listed build (mode_key enable) = (_, refl, refl, (λ arg. refl))
options-Listed build (mode_key disable) = (_, refl, refl, (λ arg. refl))
options-Listed build (mode_key find) = (_, refl, refl, (λ arg. refl))
options-Listed build (type_key magic) = (_, refl, refl, (λ arg. refl))
options-Listed build (type_key extension) = (_, refl, refl, (λ arg. refl))
options-Listed build mask = (_, refl, refl, (λ arg. refl))
options-Listed build offset = (_, refl, refl, (λ arg. refl))
options-Listed build detector = (_, refl, refl, (λ arg. refl))
options-Listed build credentials = (_, refl, refl, (λ arg. refl))
options-Listed build preserve = (_, refl, refl, (λ arg. refl))
options-Listed build package_name = (_, refl, refl, (λ arg. refl))
options-Listed build admindir = (_, refl, refl, (λ arg. refl))
options-Listed build importdir = (_, refl, refl, (λ arg. refl))
options-Listed build procdir = (_, refl, refl, (λ arg. refl))
options-Listed build test = (_, refl, refl, (λ arg. refl))

opt_of-known : (k : Key) (arg : Bytes) → opt_of k arg ≢ key_other
unfolding opt_of
opt_of-known (mode_key m) arg e = cc
opt_of-known (type_key t) arg e = cc
opt_of-known mask arg e = cc
opt_of-known offset arg e = cc
opt_of-known detector arg e = cc
opt_of-known credentials arg e = cc
opt_of-known preserve arg e = cc
opt_of-known package_name arg e = cc
opt_of-known admindir arg e = cc
opt_of-known importdir arg e = cc
opt_of-known procdir arg e = cc
opt_of-known test arg e = cc

-- For each key that the program defines, the option that argp finds under the key's spelling is
-- the one of that key; it takes an argument where the case of `parse_opt` keeps one, so that no
-- null pointer is kept; and `parse_opt` does not leave the key to argp, whatever was set
-- before and whatever follows.
pub options-Handled :
    (E : Env) (build : Paths) (k : Key) (arg : Bytes) (o : Options) (rest : List Bytes)
    → (row : ArgpOption Key) × (find_long (spelling k) (options build) ≡ some row)
      × (row.key ≡ k)
      × (call_of k (handed row arg) ≡ some (opt_of k arg))
      × Ensures Handled (parse_opt E (opt_of k arg) o rest)
options-Handled E build k arg o rest =
    let (row, found, own, called) = options-Listed build k in
    (row, found, own, called arg, parse_opt-Handled E (opt_of k arg) o rest (opt_of-known k arg))
