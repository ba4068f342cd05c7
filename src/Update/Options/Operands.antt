-- ===== src/Update/Options/Operands.antt =====
-- What the modes and the types of src/update-binfmts.c need of the command line.
use debian_binfmt_support.Prelude.{◌≡◌, sym, ◌∙◌, ◌≢◌, Option, none, some, List, [], ◌∷◌, Bytes}
use debian_binfmt_support.Update.Base.{Env}
use debian_binfmt_support.Update.Options.{
  install, remove, find, SpecType, magic, extension, Options, Parsed, take_name, type_argument,
}

-- Where the mode reads a name or a path, it is set, and a type has its argument.
pub record IsNamed (o : Options) : Type 0 where
  pub installing : o.mode ≡ some install → o.name ≢ none
  pub removing : o.mode ≡ some remove → o.name ≢ none
  pub finding : o.mode ≡ some find → o.executable ≢ none
  pub magic_given : o.type ≡ some magic → o.spec.magic ≢ none
  pub extension_given : o.type ≡ some extension → o.spec.extension ≢ none

-- The globals behind a call of `parse_opt` that leaves a key to argp, or does not.
abbrev pub NamedBehind : Options → Option Parsed → Type 0
NamedBehind o none = IsNamed o
NamedBehind o (some p) = IsNamed p.0

-- Only the mode, the name, the path, the type and its argument matter.
pub IsNamed-same :
    (o o' : Options)
    → IsNamed o
    → o'.mode ≡ o.mode
    → o'.name ≡ o.name
    → o'.executable ≡ o.executable
    → o'.type ≡ o.type
    → o'.spec.magic ≡ o.spec.magic
    → o'.spec.extension ≡ o.spec.extension
    → IsNamed o'
IsNamed-same o o' w m n x t g f = record {
  installing = λ e. rw n (w.installing (sym m ∙ e));
  removing = λ e. rw n (w.removing (sym m ∙ e));
  finding = λ e. rw x (w.finding (sym m ∙ e));
  magic_given = λ e. rw g (w.magic_given (sym t ∙ e));
  extension_given = λ e. rw f (w.extension_given (sym t ∙ e));
}

-- The types have their arguments; this does not depend on the mode.
pub record IsTyped (o : Options) : Type 0 where
  pub given_magic : o.type ≡ some magic → o.spec.magic ≢ none
  pub given_extension : o.type ≡ some extension → o.spec.extension ≢ none

module _ (E : Env) where
  -- The modes that take a name if there is one read none that is not there.
  pub take_name-IsNamed :
      (o : Options) (rest : List Bytes)
      → o.mode ≢ some install
      → o.mode ≢ some remove
      → o.mode ≢ some find
      → IsTyped o
      → IsNamed (take_name E o rest).0
  unfolding take_name
  take_name-IsNamed o [] hi hr hf w = record {
    installing = λ e. absurd (hi e);
    removing = λ e. absurd (hr e);
    finding = λ e. absurd (hf e);
    magic_given = w.given_magic;
    extension_given = w.given_extension;
  }
  take_name-IsNamed o (name ∷ rest) hi hr hf w = record {
    installing = λ e. absurd (hi e);
    removing = λ e. absurd (hr e);
    finding = λ e. absurd (hf e);
    magic_given = w.given_magic;
    extension_given = w.given_extension;
  }

  -- Where the type has just been set, its argument is what it lacks.
  pub type_argument-IsNamed :
      (t : SpecType) (arg : Bytes) (o o' : Options)
      → IsNamed o
      → o' ≡ record o { type = some t }
      → IsNamed (type_argument E t arg o')
  unfolding type_argument
  type_argument-IsNamed magic arg o o' w same = rw same (record {
    installing = w.installing;
    removing = w.removing;
    finding = w.finding;
    magic_given = λ _ e. cc;
    extension_given = λ other. cc;
  })
  type_argument-IsNamed extension arg o o' w same = rw same (record {
    installing = w.installing;
    removing = w.removing;
    finding = w.finding;
    magic_given = λ other. cc;
    extension_given = λ _ e. cc;
  })
