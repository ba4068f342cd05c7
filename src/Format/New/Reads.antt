-- ===== src/Format/New/Reads.antt =====
-- `binfmt_new` of src/format.c, and the state of the system.
use debian_binfmt_support.Prelude.{Bool, Option, none, some, Bytes, ◌≡◌, refl}
use debian_binfmt_support.Action.Keeps.{Keeps, keeps_rules, Keeps-pure, Keeps-bind}
use debian_binfmt_support.Os.{Os}
use debian_binfmt_support.Error.Laws.{SysIs, warning-SysIs, quit-SysIs}
use debian_binfmt_support.KvHash.{KvLib}
use debian_binfmt_support.Format.{Binfmt}
use debian_binfmt_support.Format.New.{
  no_newline, set_field, refuse, type_from, choose_type, extension_only, with_type, binfmt_new,
}

module _ (os : Os) (program_name : Bytes) (H : KvLib Bytes) {T : Type 0} {s : os.State} where
  no_newline-SysIs :
      (value : Option Bytes) → Keeps (SysIs {T = T} s) (no_newline os program_name H value)
  unfolding no_newline
  no_newline-SysIs none = Keeps-pure _
  no_newline-SysIs (some value) = search (keeps_rules, quit-SysIs)

  set_field-SysIs :
      (args : H.Table) (field : Bytes)
      → Keeps (SysIs {T = T} s) (set_field os program_name H args field)
  unfolding set_field
  set_field-SysIs args field = no_newline-SysIs _

  type_from-SysIs :
      (name : Bytes) (extension : Bool) (magic : Option Bytes)
      → Keeps (SysIs {T = T} s) (type_from os program_name H name extension magic)
  unfolding type_from
  type_from-SysIs name extension none = search (keeps_rules, warning-SysIs)
  type_from-SysIs name extension (some magic) = search (keeps_rules, warning-SysIs)

  choose_type-SysIs :
      (name : Bytes) (args : H.Table) (b : Binfmt) (type : Option Bytes)
      → b.type ≡ type
      → Keeps (SysIs {T = T} s) (choose_type os program_name H name args b)
  unfolding choose_type
  choose_type-SysIs name args b none e = rw (e, choose_type) (type_from-SysIs name _ b.magic)
  choose_type-SysIs name args b (some type) e = rw (e, choose_type) (Keeps-pure _)

  extension_only-SysIs :
      (name : Bytes) (mask offset : Option Bytes) (b : Binfmt)
      → Keeps (SysIs {T = T} s) (extension_only os program_name H name mask offset b)
  unfolding extension_only refuse
  extension_only-SysIs name (some mask) offset b = search (keeps_rules, warning-SysIs)
  extension_only-SysIs name none (some offset) b = search (keeps_rules, warning-SysIs)
  extension_only-SysIs name none none b = Keeps-pure _

  with_type-SysIs :
      (name : Bytes) (args : H.Table) (b : Binfmt) (type : Option Bytes)
      → Keeps (SysIs {T = T} s) (with_type os program_name H name args b type)
  unfolding with_type
  with_type-SysIs name args b none = Keeps-pure _
  with_type-SysIs name args b (some type) =
      search (keeps_rules, set_field-SysIs, extension_only-SysIs)

  pub binfmt_new-SysIs :
      (name : Bytes) (args : H.Table)
      → Keeps (SysIs {T = T} s) (binfmt_new os program_name H name args)
  unfolding binfmt_new
  binfmt_new-SysIs name args = Keeps-bind _ _ (set_field-SysIs args _) λ pkg.
      Keeps-bind _ _ (set_field-SysIs args _) λ type.
        Keeps-bind _ _ (set_field-SysIs args _) λ offset.
          Keeps-bind _ _ (set_field-SysIs args _) λ magic.
            Keeps-bind _ _ (set_field-SysIs args _) λ mask.
              Keeps-bind _ _ (set_field-SysIs args _) λ interpreter.
                Keeps-bind _ _ (set_field-SysIs args _) λ detector.
                  Keeps-bind _ _ (set_field-SysIs args _) λ credentials.
                    Keeps-bind _ _ (set_field-SysIs args _) λ preserve.
                      let b : Binfmt = record {
                        name = name;
                        pkg = pkg;
                        type = type;
                        offset = offset;
                        magic = magic;
                        mask = mask;
                        interpreter = interpreter;
                        detector = detector;
                        credentials = credentials;
                        preserve = preserve;
                      } in
                      Keeps-bind _ _ (choose_type-SysIs name args b type refl)
                        λ type'. with_type-SysIs name args b type'
