-- ===== src/Update/Enable/Sends.antt =====
-- The write of `act_enable` of src/update-binfmts.c to the register file.
use debian_binfmt_support.Prelude.{
  Bool, true, false, ◌≡◌, refl, sym, ap, ◌∙◌, subst, Option, none, some, Bytes, str_eq,
  if◌then◌else◌,
}
use debian_binfmt_support.Action.{Outcome, done, ◌>>=◌}
use debian_binfmt_support.Action.Safe.{Fails, Safe}
use debian_binfmt_support.Action.Inversion.{bind-Returned}
use debian_binfmt_support.Os.{Written, written, not_opened, not_closed}
use debian_binfmt_support.Error.{system, observe, warning, warning_err, kind_exists}
use debian_binfmt_support.Error.Tables.{Tabled}
use debian_binfmt_support.Paths.{Paths}
use debian_binfmt_support.KvHash.{IsLawful}
use debian_binfmt_support.KvHash.Laws.{view, present, flat}
use debian_binfmt_support.Format.{Binfmt, percent_s}
use debian_binfmt_support.Format.Equality.{HasSpec}
use debian_binfmt_support.Update.Base.{
  Env, Config, State, path_register, run_detectors, exists, formats_exists, formats_lookup,
}
use debian_binfmt_support.Update.Base.Tables.{AllUsable, wet}
use debian_binfmt_support.Update.Kernel.{load_binfmt_misc}
use debian_binfmt_support.Update.Kernel.Usable.{load_binfmt_misc-Safe}
use debian_binfmt_support.Update.Database.{procdir_name, load_format}
use debian_binfmt_support.Update.Database.Directory.{Adds, load_format-Adds, known_of, loaded-known}
use debian_binfmt_support.Update.Database.Known.{formats_exists-view, formats_lookup-view}
use debian_binfmt_support.Update.Database.Usable.{
  Lookups, known, unknown, lookups, load_format-Usable,
}
use debian_binfmt_support.Update.Enable.{
  regstring, needs_detector, registered, send, with_type, register, enable_absent, enable_name,
}
use debian_binfmt_support.Update.Enable.Line.{IsLine, regstring-IsLine, Interprets}
use debian_binfmt_support.Update.Enable.Needs.{
  Compared, needs_detector-Needed, interpreter-Interprets,
}

-- Whether the write is reported as a success.
abbrev pub went : Written → Bool
went written = true
went not_opened = false
went not_closed = false

done-injective : {A : Type 0} {x y : A} → done x ≡ done y → x ≡ y
done-injective e = cc

some_value : (v : Option (Option Binfmt)) {b : Binfmt} → flat v ≡ some b → v ≡ some (some b)
some_value none e = cc
some_value (some w) e = ap some e

no_value : (v : Option (Option Binfmt)) → present v ≡ false → v ≡ none
no_value none e = refl
no_value (some w) e = cc

module _ (E : Env) (L : IsLawful E.formats) (paths : Paths) (name : Bytes) where
  abbrev c : Config
  c = wet paths

  -- What an `act_enable` that finds no entry has done, from `m` on, and what it answers.
  pub data Sent (m : State E) (r : Outcome Bool × State E) : Type 0 where
    not_known : known_of E c name m ≡ none → r.0 ≡ done false → r.1.sys ≡ m.sys → Sent m r
    wrote :
        (b : Binfmt) (type interpreter line : Bytes) (m1 m2 : State E)
        → known_of E c name m ≡ some (some b)
        → b.type ≡ some type
        → Adds E L c (λ key. str_eq key name) m m1
        → Compared E L c name b m1 m2
        → Interprets c name b (E.formats.entries m2.table) interpreter
        → IsLine name b type interpreter line
        → r.0 ≡ done (went (E.os.write (path_register c) line m.sys).0)
        → r.1.sys ≡ (E.os.write (path_register c) line m.sys).1
        → r.1.table ≡ m2.table
        → Sent m r

  registered-went :
      (w : Written) (m : State E)
      → ((registered E c w m).0 ≡ done (went w))
        × ((registered E c w m).1.sys ≡ m.sys)
        × ((registered E c w m).1.table ≡ m.table)
  unfolding registered ◌>>=◌ warning_err
  registered-went written m = (refl, refl, refl)
  registered-went not_opened m = (refl, refl, refl)
  registered-went not_closed m = (refl, refl, refl)

  send-went :
      (string : Bytes) (m : State E)
      → ((send E c name string m).0 ≡ done (went (E.os.write (path_register c) string m.sys).0))
        × ((send E c name string m).1.sys ≡ (E.os.write (path_register c) string m.sys).1)
        × ((send E c name string m).1.table ≡ m.table)
  unfolding send ◌>>=◌ system
  send-went string m = registered-went (E.os.write (path_register c) string m.sys).0 _

  with_type-Sent :
      (b : Binfmt) (type : Option Bytes) (m m1 : State E) {answer : Bool}
      → known_of E c name m ≡ some (some b)
      → b.type ≡ type
      → HasSpec b
      → Adds E L c (λ key. str_eq key name) m m1
      → Tabled (AllUsable E) m1
      → (with_type E c name b type m1).0 ≡ done answer
      → Sent m (with_type E c name b type m1)
  unfolding with_type ◌>>=◌
  with_type-Sent b none m m1 is et hb adds k h = absurd (hb.type_set et)
  with_type-Sent b (some type) m m1 is et hb adds k h =
      let r = bind-Returned _ (needs_detector E c name b) m1 h in
      let (need, needed) =
        needs_detector-Needed E L c name b m1 hb k
          (ap (λ (x : Outcome Bool × State E). x.0) r.ran) in
      let (m2, ran, n) = needed in
      let interpreter = if need then run_detectors c else percent_s b.interpreter in
      let line = regstring name b type interpreter in
      let (a, s, t) = send-went line m2 in
      let same : m2.sys ≡ m.sys = n.same_system ∙ adds.same_system in
      rw ran (
        wrote b type interpreter line m1 m2 is et adds n.compared
          (interpreter-Interprets E L c name b m1 m2 need n)
          (regstring-IsLine name b type interpreter)
          (a ∙ ap (λ (x : E.os.State). done (went (E.os.write (path_register c) line x).0)) same)
          (s ∙ ap (λ (x : E.os.State). (E.os.write (path_register c) line x).1) same) t)

  -- From the load of the format on.
  found-Sent :
      (m m1 : State E) {answer : Bool}
      → load_format E c name false m ≡ (done tt, m1)
      → Adds E L c (λ key. str_eq key name) m m1
      → Tabled (AllUsable E) m1
      → Lookups E name m1
      → (enable_absent E c name m).0 ≡ done answer
      → Sent m (enable_absent E c name m)
  unfolding enable_absent register ◌>>=◌ warning
  found-Sent m m1 ran adds k (known b u ex lk) h =
      rw (ran, ex, lk)
        (with_type-Sent b b.type m m1
          (sym (loaded-known E L c name m m1 adds) ∙ some_value _ (looked_up lk)) refl u.spec adds k
          (rw (ran, ex, lk) at h))
    where
      looked_up :
          {found : Option Binfmt}
          → formats_lookup E name m1 ≡ (done found, m1)
          → flat (view E.formats m1.table name) ≡ found
      looked_up lk = done-injective (
          ap (λ (x : Outcome (Option Binfmt) × State E). x.0)
            (sym (formats_lookup-view E L name m1) ∙ lk))
  found-Sent m m1 ran adds k (unknown ex lk) h =
      rw (ran, ex)
        (not_known (sym (loaded-known E L c name m m1 adds) ∙ no_value _ (tested ex)) refl
          adds.same_system)
    where
      tested :
          formats_exists E name m1 ≡ (done false, m1)
          → present (view E.formats m1.table name) ≡ false
      tested ex =
          done-injective
            (ap (λ (x : Outcome Bool × State E). x.0) (sym (formats_exists-view E L name m1) ∙ ex))

  enable_absent-Sent :
      (m : State E) {answer : Bool}
      → Tabled (AllUsable E) m
      → (enable_absent E c name m).0 ≡ done answer
      → Sent m (enable_absent E c name m)
  unfolding enable_absent
  enable_absent-Sent m k h =
      let r = bind-Returned _ (load_format E c name false) m h in
      let k1 : Tabled (AllUsable E) r.state =
        subst (λ (x : Outcome (Unit {0}) × State E). Tabled (AllUsable E) x.1) r.ran
          ((load_format-Usable E L c name false).at m k).1 in
      found-Sent m r.state r.ran
        (subst (λ (x : Outcome (Unit {0}) × State E). Adds E L c (λ key. str_eq key name) m x.1)
          r.ran
          (load_format-Adds E L c name false m
            (ap (λ (x : Outcome (Unit {0}) × State E). x.0) r.ran)))
        k1 (lookups E L name r.state k1.held) h

  -- Without `--test`, if binfmt_misc could be loaded, the kernel has no entry of the name, every
  -- format in the table has its fields set, and `act_enable` returns, then it has done one of two
  -- things. Either neither the table nor the administrative directory has a format of the name, the
  -- answer is 0, and the system is as it was. Or they have one, and the one thing done to the system
  -- is a write to the register file of the line of that format: a colon and the name, the letter of
  -- the type, the offset, the magic, the mask, the interpreter and the flags, with colons between
  -- them. The interpreter is run-detectors if the format has a detector or another that is known
  -- asks for the same files, and its own if not; known are, for a format with no detector, all of
  -- the administrative directory. The answer is whether that write is reported as a success.
  pub enable_name-Sent :
      (m m1 : State E) {answer : Bool}
      → AllUsable E m.table
      → load_binfmt_misc E c m ≡ (done true, m1)
      → kind_exists (E.os.stat m1.sys (procdir_name E c name)) ≡ false
      → (enable_name E c name m).0 ≡ done answer
      → Sent m1 (enable_name E c name m)
  unfolding enable_name exists observe ◌>>=◌
  enable_name-Sent m m1 all misc away h =
      let safe : Safe Fails (Tabled (AllUsable E)) (load_binfmt_misc E c) =
        load_binfmt_misc-Safe E c in
      let k1 : Tabled (AllUsable E) m1 =
        subst (λ (x : Outcome Bool × State E). Tabled (AllUsable E) x.1) misc
          (safe.at m (record { held = all })).1 in
      rw (misc, away) (enable_absent-Sent m1 k1 (rw (misc, away) at h))
