-- ===== src/Update/Enable/Needs.antt =====
-- `need_detector` in `act_enable` of src/update-binfmts.c, and the formats that are compared.
use mathlib.Core.Option.{some-injective}
use debian_binfmt_support.Prelude.{
  Any, Bool, true, false, ◌≡◌, ◌↔◌, ◌⊎◌, inl, inr, refl, sym, ap, ◌∙◌, subst, Option, none, some,
  [], ◌∷◌, Bytes, Bool-cases, if◌then◌else◌,
}
use debian_binfmt_support.Action.{Outcome, done, pure, ◌>>=◌}
use debian_binfmt_support.Action.Inversion.{bind-Returned}
use debian_binfmt_support.Error.Tables.{Tabled}
use debian_binfmt_support.KvHash.{IsLawful}
use debian_binfmt_support.Format.{Binfmt, percent_s}
use debian_binfmt_support.Format.Equality.{HasSpec}
use debian_binfmt_support.Update.Base.{Env, Config, State, run_detectors, formats_entries}
use debian_binfmt_support.Update.Base.Tables.{AllUsable}
use debian_binfmt_support.Update.Database.{load_all_formats}
use debian_binfmt_support.Update.Database.Listed.{AddsListed, load_all_formats-AddsListed}
use debian_binfmt_support.Update.Database.Usable.{load_all_formats-Usable}
use debian_binfmt_support.Update.Enable.{is_set, known_answer, needs_detector}
use debian_binfmt_support.Update.Enable.Shared.{Shares, same_spec_among-Any}
use debian_binfmt_support.Update.Enable.Usable.{All-HoldsSpec}
use debian_binfmt_support.Update.Enable.Line.{HasDetector, Interprets}

is_set-HasDetector :
    (b : Binfmt) (detector : Option Bytes)
    → b.detector ≡ detector
    → (is_set detector ≡ true) ↔ HasDetector b
is_set-HasDetector b none e = (λ h. cc, λ (d, is, ne). cc)
is_set-HasDetector b (some []) e =
    (λ h. cc, λ (d, is, ne). absurd (ne (some-injective _ _ (sym is ∙ e))))
is_set-HasDetector b (some (c ∷ s)) e = (λ h. (c ∷ s, e, λ k. cc), λ h. refl)

not_set : false ≡ true → ⊥
not_set e = cc

module _ (E : Env) (L : IsLawful E.formats) (c : Config) (name : Bytes) where
  -- The formats that are known as the line is made: for a format with no detector of its own, all
  -- of the administrative directory.
  abbrev pub Compared : Binfmt → State E → State E → Type 0
  Compared b m m' = (HasDetector b × (m' ≡ m)) ⊎ ((¬ HasDetector b) × AddsListed E L c m m')

  -- The answer of `needs_detector`, and the formats that it has compared.
  pub record Needed (b : Binfmt) (m : State E) (need : Bool) (m' : State E) : Type 0 where
    pub compared : Compared b m m'
    pub same_system : m'.sys ≡ m.sys
    pub right : (need ≡ true) ↔ (HasDetector b ⊎ Any (Shares name b) (E.formats.entries m'.table))

  listed-Needed :
      (b : Binfmt) (m m' : State E)
      → HasSpec b
      → Tabled (AllUsable E) m
      → is_set b.detector ≡ false
      → load_all_formats E c true m ≡ (done tt, m')
      → (answer : Bool) × (needs_detector E c name b m ≡ (done answer, m')) × Needed b m answer m'
  unfolding needs_detector formats_entries ◌>>=◌ known_answer pure
  listed-Needed b m m' hb k bare ran =
      let has_none : ¬ HasDetector b =
        λ has. not_set (sym bare ∙ (is_set-HasDetector b b.detector refl).1 has) in
      let k' : Tabled (AllUsable E) m' =
        subst (λ (x : Outcome (Unit {0}) × State E). Tabled (AllUsable E) x.1) ran
          ((load_all_formats-Usable E L c true).at m k).1 in
      let added : AddsListed E L c m m' =
        subst (λ (x : Outcome (Unit {0}) × State E). AddsListed E L c m x.1) ran
          (load_all_formats-AddsListed E L c true m
            (ap (λ (x : Outcome (Unit {0}) × State E). x.0) ran)) in
      let es = E.formats.entries m'.table in
      let (x, found, same) = same_spec_among-Any name b es hb (All-HoldsSpec es k'.held) in
      let (entries, dir, adds) = added in
      (
        x,
        rw (bare, ran, found) refl,
        record {
          compared = inr (has_none, added);
          same_system = adds.same_system;
          right = (
            λ e. inr (same.0 e),
            λ h. elim h [ inl has ↦ absurd (has_none has) | inr shared ↦ same.1 shared ],
          );
        },
      )

  pub needs_detector-Needed :
      (b : Binfmt) (m : State E) {need : Bool}
      → HasSpec b
      → Tabled (AllUsable E) m
      → (needs_detector E c name b m).0 ≡ done need
      → (answer : Bool) × ((m' : State E) × (needs_detector E c name b m ≡ (done answer, m'))
          × Needed b m answer m')
  unfolding needs_detector formats_entries ◌>>=◌
  needs_detector-Needed b m hb k h = elim (Bool-cases (is_set b.detector)) [
    | inl own ↦
        let has = (is_set-HasDetector b b.detector refl).0 own in
        (
          true,
          (
            m,
            rw own refl,
            record {
              compared = inl (has, refl);
              same_system = refl;
              right = (λ e. inl has, λ e. refl);
            },
          ),
        )
    | inr bare ↦
        let r = bind-Returned _ (load_all_formats E c true) m (rw bare at h) in
        let (x, e, n) = listed-Needed b m r.state hb k bare r.ran in (x, (r.state, e, n))
  ]

  pub interpreter-Interprets :
      (b : Binfmt) (m m' : State E) (need : Bool)
      → Needed b m need m'
      → Interprets c name b
          (E.formats.entries m'.table)
          (if need then run_detectors c else percent_s b.interpreter)
  interpreter-Interprets b m m' true n = inl (refl, n.right.0 refl)
  interpreter-Interprets b m m' false n = inr (refl, λ h. not_true (n.right.1 h))
    where
      not_true : false ≡ true → ⊥
      not_true e = cc
