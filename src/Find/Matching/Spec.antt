-- ===== src/Find/Matching/Spec.antt =====
-- The match of the kernel, byte by byte, and that of `find_interpreters` in src/find.c.
mod Bytewise
use Prim.Native.Nat.{bit_and}
use debian_binfmt_support.Prelude.{
  ℕ, zero, suc, ◌+◌, ◌-◌, ◌%◌, ◌^◌, ◌≤◌, ◌<◌, Bool, true, false, ◌&&◌, ◌≡◌, refl, ◌≢◌, ◌↔◌, ◌⊎◌,
  inl, inr, sym, ap, ◌∙◌, arith, Option, none, some, List, [], ◌∷◌, Bytes, str_eq, str_eq_iff,
  c_string, length, get_or, All, ◌==◌, ltb, leb, if◌then◌else◌, Bool-cases,
}
use debian_binfmt_support.Find.Candidates.{Candidate}
use debian_binfmt_support.Find.Number.{atoi}
use debian_binfmt_support.Find.Matching.{
  is_magic, to_read, needed, buffer, memcpy_from, and_mask, masked, is_candidate, same_extension,
  same_segment, ok_formats,
}
use Bytewise.{
  length-buffer, get_or-buffer, memcpy_from-some, length-masked, get_or-masked, str_eq-get_or,
  mask_byte,
}

-- A byte of the file, 0 behind its end.
abbrev byte_at : Bytes → ℕ → ℕ
byte_at file i = get_or file i 0

-- Each byte of the magic is that of the file at the offset, under the mask if there is one.
abbrev pub MagicMatches : Bytes → Candidate → Type 0
MagicMatches file c =
    (i : ℕ)
    → i < length c.magic
    → mask_byte c.mask i (byte_at file (atoi c.offset + i)) ≡ get_or c.magic i 0

-- A format of type magic matches by its bytes, any other by the extension.
abbrev MatchesAs : Bool → Bytes → Option Bytes → Candidate → Type 0
MatchesAs true file extension c = MagicMatches file c
MatchesAs false file extension c = extension ≡ some (c_string c.magic)

abbrev pub Matches : Bytes → Option Bytes → Candidate → Type 0
Matches file extension c = MatchesAs (is_magic c) file extension c

-- The offset is not negative, and the sizes are those that an `int` holds.
-- The mask is empty, or as long as the magic with a first byte other than NUL.
pub record IsUsual (c : Candidate) : Type 0 where
  pub forward : atoi c.offset < 2 ^ 31
  pub short : length c.magic < 2 ^ 31
  pub mask_counts : (c.mask ≡ []) ⊎ ((length c.mask ≡ length c.magic) × (get_or c.mask 0 0 ≢ 0))

-- `ys` are the elements of `xs` at which `P` holds, in order.
pub data Selected {A : Type 0} (P : A → Type 0) : List A → List A → Type 0 where
  nil : Selected P [] []
  pick : {x : A} {xs ys : List A} → P x → Selected P xs ys → Selected P (x ∷ xs) (x ∷ ys)
  skip : {x : A} {xs ys : List A} → ¬ P x → Selected P xs ys → Selected P (x ∷ xs) ys

-- A copy of the right length, under the mask, against the magic.
same_segment-MagicMatches :
    (toread : ℕ) (file segment : Bytes) (c : Candidate)
    → IsUsual c
    → atoi c.offset + length c.magic ≤ toread
    → length segment ≡ length c.magic
    → ((i : ℕ)
        → i < length c.magic
        → get_or segment i 0 ≡ get_or (buffer toread file) (atoi c.offset + i) 0)
    → (str_eq (masked toread segment c.mask) c.magic ≡ true) ↔ MagicMatches file c
same_segment-MagicMatches toread file segment c u fits len at =
    let compare =
      str_eq-get_or (masked toread segment c.mask) c.magic
        (length-masked toread segment c.mask ∙ len) in
    let byte : (i : ℕ)
        → i < length c.magic
        → get_or (masked toread segment c.mask) i 0
          ≡ mask_byte c.mask i (byte_at file (atoi c.offset + i)) =
      λ i lt.
        get_or-masked toread segment c.mask i (omega arith) (rw len u.mask_counts) (rw len lt)
        ∙ ap (mask_byte c.mask i)
            (at i lt ∙ get_or-buffer toread file (atoi c.offset + i) (omega arith)) in
    (λ h i lt. sym (byte i lt) ∙ compare.0 h i lt, λ h. compare.1 (λ i lt. byte i lt ∙ h i lt))

same_extension_iff :
    (extension : Option Bytes) (magic : Bytes)
    → (same_extension extension magic ≡ true) ↔ (extension ≡ some (c_string magic))
unfolding same_extension
same_extension_iff none magic = ground arith
same_extension_iff (some e) magic = ground (arith, str_eq_iff e (c_string magic))

-- One check, on a buffer that holds all that the magic asks for.
is_candidate-Matches :
    (toread : ℕ) (file : Bytes) (extension : Option Bytes) (c : Candidate)
    → IsUsual c
    → (is_magic c ≡ true → atoi c.offset + length c.magic ≤ toread)
    → (x : Bool) × (is_candidate toread (buffer toread file) extension c ≡ some x)
      × ((x ≡ true) ↔ Matches file extension c)
unfolding is_candidate
is_candidate-Matches toread file extension c u fits = elim (Bool-cases (is_magic c)) [
  | inl magic ↦
      let (segment, copied, len, at) =
        memcpy_from-some (buffer toread file) (atoi c.offset) (length c.magic)
          (rw (length-buffer toread file) (fits magic)) in
      let same = same_segment-MagicMatches toread file segment c u (fits magic) len at in
      (
        str_eq (masked toread segment c.mask) c.magic,
        rw magic (rw (copied, same_segment)),
        rw magic same,
      )
  | inr other ↦
      (same_extension extension c.magic, rw other, rw other (same_extension_iff extension c.magic))
]

le-needed : (acc : ℕ) (c : Candidate) → acc ≤ needed acc c
unfolding needed
le-needed acc c = ground arith

fits-needed :
    (acc : ℕ) (c : Candidate)
    → IsUsual c
    → is_magic c ≡ true
    → atoi c.offset + length c.magic ≤ needed acc c
unfolding needed
fits-needed acc c u magic =
    let whole : (atoi c.offset + length c.magic) % 2 ^ 64 ≡ atoi c.offset + length c.magic =
      omega (arith, u.forward, u.short) in
    rw (magic, whole) (ground arith)

le-to_read : (acc : ℕ) (cs : List Candidate) → acc ≤ to_read acc cs
unfolding to_read
le-to_read acc [] = omega arith
le-to_read acc (c ∷ cs) = omega (arith, le-needed acc c, le-to_read (needed acc c) cs)

abbrev FitsIn : ℕ → Candidate → Type 0
FitsIn n c = is_magic c ≡ true → atoi c.offset + length c.magic ≤ n

fits-to_read : (acc : ℕ) (cs : List Candidate) → All IsUsual cs → All (FitsIn (to_read acc cs)) cs
unfolding to_read
fits-to_read acc [] us = tt
fits-to_read acc (c ∷ cs) us = (
  λ magic. omega (arith, fits-needed acc c us.0 magic, le-to_read (needed acc c) cs),
  fits-to_read (needed acc c) cs us.1,
)

ok_formats-Selected_in :
    (toread : ℕ) (file : Bytes) (extension : Option Bytes) (cs : List Candidate)
    → All IsUsual cs
    → All (FitsIn toread) cs
    → (ok : List Candidate) × (ok_formats toread (buffer toread file) extension cs ≡ some ok)
      × Selected (Matches file extension) cs ok
unfolding ok_formats
ok_formats-Selected_in toread file extension [] us fs = ([], refl, nil)
ok_formats-Selected_in toread file extension (c ∷ cs) us fs =
    let (ok, rest, selected) = ok_formats-Selected_in toread file extension cs us.1 fs.1 in
    let (x, found, same) = is_candidate-Matches toread file extension c us.0 fs.0 in
    elim (Bool-cases x) [
      | inl yes' ↦ (c ∷ ok, rw (found, rest, yes'), pick (same.0 yes') selected)
      | inr no' ↦
          (ok, rw (found, rest, no'), skip (λ h. absurd (ground (arith, same.1 h))) selected)
    ]

-- Where no offset is negative, no size is beyond an `int`, and every mask is empty or fits its
-- magic and does not begin with a NUL, the buffer that `find_interpreters` sizes and fills is
-- never read out of bounds, and its candidates are exactly the formats that match the file as the
-- kernel does: byte by byte under the mask, with zeros behind the end of the file, or by the
-- extension; they keep their order.
pub ok_formats-Selected :
    (file : Bytes) (extension : Option Bytes) (cs : List Candidate)
    → All IsUsual cs
    → (ok : List Candidate) × (ok_formats (to_read 0 cs) (buffer (to_read 0 cs) file) extension cs
        ≡ some ok)
      × Selected (Matches file extension) cs ok
ok_formats-Selected file extension cs us =
    ok_formats-Selected_in (to_read 0 cs) file extension cs us (fits-to_read 0 cs us)
