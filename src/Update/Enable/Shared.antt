-- ===== src/Update/Enable/Shared.antt =====
-- The choice of run-detectors in `act_enable` of src/update-binfmts.c.
use debian_binfmt_support.Prelude.{
  Any, Bool, true, false, ◌≡◌, refl, ◌≢◌, ◌↔◌, ◌⊎◌, inl, inr, ap, sym, subst, ◌∙◌, arith, Option,
  none, some, List, [], ◌∷◌, Bytes, str_eq, str_eq_iff, All, Bool-cases,
}
use debian_binfmt_support.Action.{done, ◌>>=◌}
use debian_binfmt_support.KvHash.{KvElem}
use debian_binfmt_support.Format.{Binfmt}
use debian_binfmt_support.Format.Equality.{HasSpec, SameSpec, binfmt_equals-SameSpec}
use debian_binfmt_support.Update.Base.{Env, Config, State, formats_entries}
use debian_binfmt_support.Update.Database.{load_all_formats}
use debian_binfmt_support.Update.Enable.{is_set, same_spec_among, needs_detector}

-- The entry holds a format whose type, offset, magic and mask are set.
abbrev pub HoldsSpec : KvElem Binfmt → Type 0
HoldsSpec e = (b : Binfmt) × (e.value ≡ some b) × HasSpec b

-- The entry is of another name, and asks for the same files.
abbrev pub Shares : Bytes → Binfmt → KvElem Binfmt → Type 0
Shares name b e = (e.key ≢ name) × ((o : Binfmt) × (e.value ≡ some o) × SameSpec b o)

same_value : (o p : Binfmt) → ◌≡◌ {A = Option Binfmt} (some o) (some p) → o ≡ p
same_value o p e = ap (λ (x : Option Binfmt). elim x [ some y ↦ y | none ↦ o ]) e

pub same_spec_among-Any :
    (name : Bytes) (b : Binfmt) (es : List (KvElem Binfmt))
    → HasSpec b
    → All HoldsSpec es
    → (x : Bool) × (same_spec_among name b es ≡ some x) × ((x ≡ true) ↔ Any (Shares name b) es)
unfolding same_spec_among
same_spec_among-Any name b [] hb hs = (false, refl, (λ h. cc, λ h. elim h [ ]))
same_spec_among-Any name b (e ∷ es) hb ((o, held, ho), hs) =
    let (later, rest, same) = same_spec_among-Any name b es hb hs in
    let (here, equal, agrees) = binfmt_equals-SameSpec b o hb ho in
    elim (Bool-cases (str_eq e.key name)) [
      | inl own ↦ (
        later,
        rw own rest,
        (
          λ h. inr (same.0 h),
          λ h. elim h [ inl s ↦ absurd (s.0 ((str_eq_iff e.key name).0 own)) | inr s ↦ same.1 s ],
        ),
      )
      | inr other ↦
          let foreign : e.key ≢ name = λ k. absurd (ground (arith, (str_eq_iff e.key name).1 k)) in
          elim (Bool-cases here) [
            | inl yes' ↦ (
              true,
              rw (other, held, equal, yes') refl,
              (λ h. inl (foreign, (o, held, agrees.0 yes')), λ h. refl),
            )
            | inr no' ↦ (
              later,
              rw (other, held, equal, no', rest) refl,
              (
                λ h. inr (same.0 h),
                λ h. elim h [
                  | inl s ↦ absurd (
                      clash no' (
                        agrees.1
                          (subst (SameSpec b) (same_value (s.1).0 o (sym (s.1).1 ∙ held)) (s.1).2)))
                  | inr s ↦ same.1 s
                ],
              ),
            )
          ]
    ]
  where
    clash : {x : Bool} → x ≡ false → x ≡ true → ⊥
    clash f t = cc

-- Where `load_all_formats` returns, and every format in the table has its type, offset, magic and
-- mask set, `act_enable` has the answer whether a detector is needed: exactly if the format has a
-- detector of its own, or a format of another name in the table has the same four fields.
pub needs_detector-Any :
    (E : Env) (c : Config) (name : Bytes) (b : Binfmt) (m m' : State E)
    → HasSpec b
    → load_all_formats E c true m ≡ (done tt, m')
    → All HoldsSpec (E.formats.entries m'.table)
    → (x : Bool) × ((needs_detector E c name b m).0 ≡ done x)
      × ((x ≡ true)
          ↔ ((is_set b.detector ≡ true) ⊎ Any (Shares name b) (E.formats.entries m'.table)))
unfolding needs_detector ◌>>=◌ formats_entries
needs_detector-Any E c name b m m' hb loaded held =
    let (x, found, same) = same_spec_among-Any name b (E.formats.entries m'.table) hb held in
    elim (Bool-cases (is_set b.detector)) [
      | inl own ↦ (true, rw own refl, (λ h. inl own, λ h. refl))
      | inr none' ↦ (
        x,
        rw (none', loaded, found) refl,
        (
          λ h. inr (same.0 h),
          λ h. elim h [ inl own ↦ absurd (clash none' own) | inr s ↦ same.1 s ],
        ),
      )
    ]
  where
    clash : {y : Bool} → y ≡ false → y ≡ true → ⊥
    clash f t = cc
