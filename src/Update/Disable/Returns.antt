-- ===== src/Update/Disable/Returns.antt =====
-- The calls of src/update-binfmts.c that return whatever the system answers.
use debian_binfmt_support.Prelude.{◌≡◌, Bool, Bytes}
use debian_binfmt_support.Action.{done}
use debian_binfmt_support.Action.Safe.{Safe, Never, Holds-done}
use debian_binfmt_support.Error.Tables.{Tabled}
use debian_binfmt_support.Update.Base.{Env, Config, State, Act}
use debian_binfmt_support.Update.Kernel.{load_binfmt_misc, unload_binfmt_misc}
use debian_binfmt_support.Update.Kernel.Usable.{load_binfmt_misc-Safe, unload_binfmt_misc-Safe}
use debian_binfmt_support.Update.Disable.{disable_name}
use debian_binfmt_support.Update.Disable.Usable.{disable_name-Safe}

-- Any table will do.
abbrev AnyTable : (E : Env) → State E → Type 0
AnyTable E = Tabled (λ t. Unit {0})

returned :
    (E : Env) {A : Type 0} (a : Act E A) (m : State E)
    → Safe Never (AnyTable E) a
    → (answer : A) × ((a m).0 ≡ done answer)
returned E a m safe = Holds-done (a m).0 (safe.at m (record { held = tt })).0

-- Whatever the system and the kernel answer, loading and unloading binfmt_misc and act_disable for
-- one name return an answer: none of them exits or reads a null pointer.
pub kernel_calls_return :
    (E : Env) (c : Config) (name : Bytes) (m : State E)
    → ((loaded : Bool) × ((load_binfmt_misc E c m).0 ≡ done loaded))
      × ((unloaded : Bool) × ((unload_binfmt_misc E c m).0 ≡ done unloaded))
      × ((disabled : Bool) × ((disable_name E c name m).0 ≡ done disabled))
kernel_calls_return E c name m = (
  returned E (load_binfmt_misc E c) m (load_binfmt_misc-Safe E c),
  returned E (unload_binfmt_misc E c) m (unload_binfmt_misc-Safe E c),
  returned E (disable_name E c name) m (disable_name-Safe E c name),
)
