-- ===== src/Update/Kernel/Style.antt =====
-- The style that `get_binfmt_style` of src/update-binfmts.c finds in /proc/filesystems.
use debian_binfmt_support.Prelude.{
  ℕ, zero, suc, ◌+◌, ◌-◌, ◌<◌, ◌≤◌, Bool, true, false, ◌≡◌, refl, sym, ap, ◌∙◌, subst, ◌↔◌, inl,
  inr, arith, some, List, [], ◌∷◌, ◌++◌, Bytes, text, str_eq_iff, str_eq_refl, c_string,
  c_string_lem, NoByte, isspace, length, length-append, length-drop, take, drop, get_or, leb, Any,
  if◌then◌else◌, Bool-cases,
}
use debian_binfmt_support.Action.{done, ◌>>=◌}
use debian_binfmt_support.Error.{observe}
use debian_binfmt_support.Update.Base.{Env, State}
use debian_binfmt_support.Update.Packaged.{all_lines}
use debian_binfmt_support.Update.Kernel.{
  BinfmtStyle, binfmt_filesystem, chop_newline, is_binfmt_misc, style_of, style_in,
  get_binfmt_style,
}

-- The line ends in a white space and the name, its newline aside.
pub record NamesMisc (line : Bytes) : Type 0 where
  pub before : Bytes
  pub space : ℕ
  pub reads : chop_newline line ≡ before ++ space ∷ text "binfmt_misc"
  pub is_space : isspace space ≡ true

split_at_index : (n : ℕ) (s : Bytes) → n < length s → s ≡ take n s ++ get_or s n 0 ∷ drop (suc n) s
split_at_index zero [] h = absurd (omega arith)
split_at_index zero (c ∷ s) h = refl
split_at_index (suc n) [] h = absurd (omega arith)
split_at_index (suc n) (c ∷ s) h = ap (◌∷◌ c) (split_at_index n s (omega arith))

get_or-append : (s t : Bytes) (c : ℕ) → get_or (s ++ c ∷ t) (length s) 0 ≡ c
get_or-append [] t c = refl
get_or-append (x ∷ s) t c = get_or-append s t c

drop-append : (s t : Bytes) (c : ℕ) → drop (suc (length s)) (s ++ c ∷ t) ≡ t
drop-append [] t c = refl
drop-append (x ∷ s) t c = drop-append s t c

length-c_string : (s : Bytes) → length (c_string s) ≤ length s
unfolding c_string
length-c_string [] = omega arith
length-c_string (c ∷ s) = ground (arith, length-c_string s)

-- A string as long as its storage is all of it.
c_string-full : (s : Bytes) → length (c_string s) ≡ length s → c_string s ≡ s
unfolding c_string
c_string-full [] h = refl
c_string-full (c ∷ s) h = ground (arith, c_string-full s, length-c_string s)

misc_length : length (text "binfmt_misc") ≡ 11
unfolding text
misc_length = refl

misc-NoByte : NoByte 0 (text "binfmt_misc")
unfolding text
misc-NoByte = ground arith

-- The test on a line, without its newline.
is_binfmt_misc-true :
    (line : Bytes)
    → is_binfmt_misc line ≡ true
    → (before : Bytes) × (space : ℕ) × (line ≡ before ++ space ∷ text "binfmt_misc")
      × (isspace space ≡ true)
unfolding is_binfmt_misc
is_binfmt_misc-true line h =
    let long : 12 ≤ length line = ground arith in
    let n : ℕ = length line - 12 in
    let rest : Bytes = drop (suc n) line in
    let behind : drop (length line - 11) line ≡ rest =
      ap (λ (k : ℕ). drop k line) {y = suc n} (omega arith) in
    let named : c_string rest ≡ text "binfmt_misc" =
      (str_eq_iff _ _).0 (rw (sym behind) (ground arith)) in
    let whole' : c_string rest ≡ rest =
      c_string-full rest (omega (arith, ap length named, misc_length, length-drop (suc n) line)) in
    (
      take n line,
      get_or line n 0,
      split_at_index n line (omega arith)
          ∙ ap (λ (s : Bytes). take n line ++ get_or line n 0 ∷ s) (sym whole' ∙ named),
      ground arith,
    )

is_binfmt_misc-line :
    (before : Bytes) (space : ℕ)
    → isspace space ≡ true
    → is_binfmt_misc (before ++ space ∷ text "binfmt_misc") ≡ true
unfolding is_binfmt_misc
is_binfmt_misc-line before space h =
    let line : Bytes = before ++ space ∷ text "binfmt_misc" in
    let long : length line ≡ length before + 12 =
      omega (arith, length-append before (space ∷ text "binfmt_misc"), misc_length) in
    let enough : leb 12 (length line) ≡ true = ground (arith, long) in
    let at : length line - 12 ≡ length before = omega (arith, long) in
    let behind : length line - 11 ≡ suc (length before) = omega (arith, long) in
    rw
      (
        enough,
        at,
        behind,
        get_or-append before (text "binfmt_misc") space,
        h,
        drop-append before (text "binfmt_misc") space,
        c_string_lem (text "binfmt_misc") misc-NoByte,
      )
      (str_eq_refl (text "binfmt_misc"))

style_of-Any : (lines : List Bytes) → (style_of lines ≡ binfmt_filesystem) ↔ Any NamesMisc lines
unfolding style_of
style_of-Any [] = (λ h. cc, λ h. elim h [ ])
style_of-Any (line ∷ lines) = elim (Bool-cases (is_binfmt_misc (chop_newline line))) [
  | inl misc ↦
      let (before, space, reads, spaced) = is_binfmt_misc-true (chop_newline line) misc in
      (
        λ h. inl (record { before = before; space = space; reads = reads; is_space = spaced }),
        λ h. rw misc refl,
      )
  | inr other ↦ (
    λ h. inr (
        (style_of-Any lines).0 (
          subst
            (λ (b : Bool). (if b then binfmt_filesystem else style_of lines) ≡ binfmt_filesystem)
            other h)),
    λ h. rw other (elim h [
      | inl names ↦ absurd (
          clash other (
            subst (λ (s : Bytes). is_binfmt_misc s ≡ true) (sym names.reads)
              (is_binfmt_misc-line names.before names.space names.is_space)))
      | inr later ↦ (style_of-Any lines).1 later
    ]),
  )
]
  where
    clash : {b : Bool} → b ≡ false → b ≡ true → ⊥
    clash f t = cc

-- If /proc/filesystems opens, `get_binfmt_style` changes nothing and finds a style; it is that of
-- a file system of its own exactly if some line ends in a white space and `binfmt_misc`.
pub get_binfmt_style-Any :
    (E : Env) (m : State E) (file : Bytes)
    → E.os.read m.sys (text "/proc/filesystems") ≡ some file
    → (style : BinfmtStyle) × (get_binfmt_style E m ≡ (done style, m))
      × ((style ≡ binfmt_filesystem) ↔ Any NamesMisc (all_lines file))
unfolding get_binfmt_style ◌>>=◌ observe style_in
get_binfmt_style-Any E m file opened =
    (style_of (all_lines file), rw opened refl, style_of-Any (all_lines file))
