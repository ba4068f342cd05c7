-- ===== src/Format/Equality.antt =====
-- `binfmt_equals` of src/format.c, and the fields that the kernel matches by.
use debian_binfmt_support.Prelude.{
  Bool, true, ◌≡◌, refl, ◌≢◌, ◌↔◌, arith, Option, none, some, Bytes, str_eq, str_eq_iff, ◌&&◌,
}
use debian_binfmt_support.Format.{Binfmt, binfmt_equals, compare_fields}

-- The four fields that `binfmt_equals` reads are not null.
pub record HasSpec (b : Binfmt) : Type 0 where
  pub type_set : b.type ≢ none
  pub offset_set : b.offset ≢ none
  pub magic_set : b.magic ≢ none
  pub mask_set : b.mask ≢ none

-- Both ask the kernel to match the same files.
pub record SameSpec (left right : Binfmt) : Type 0 where
  pub same_type : left.type ≡ right.type
  pub same_offset : left.offset ≡ right.offset
  pub same_magic : left.magic ≡ right.magic
  pub same_mask : left.mask ≡ right.mask

compare_fields-some :
    (a b : Option Bytes)
    → a ≢ none
    → b ≢ none
    → (x : Bool) × (compare_fields a b ≡ some x) × ((x ≡ true) ↔ (a ≡ b))
compare_fields-some (some a) (some b) ha hb = (str_eq a b, refl, ground (arith, str_eq_iff a b))
compare_fields-some none b ha hb = absurd (ha refl)
compare_fields-some (some a) none ha hb = absurd (hb refl)

-- On descriptions whose type, offset, magic and mask are set, `binfmt_equals` answers without a
-- crash, and it answers yes exactly when those four fields agree, whatever the others hold.
pub binfmt_equals-SameSpec :
    (left right : Binfmt)
    → HasSpec left
    → HasSpec right
    → (x : Bool) × (binfmt_equals left right ≡ some x) × ((x ≡ true) ↔ SameSpec left right)
unfolding binfmt_equals
binfmt_equals-SameSpec left right l r =
    let (t, te, ti) = compare_fields-some left.type right.type l.type_set r.type_set in
    let (o, oe, oi) = compare_fields-some left.offset right.offset l.offset_set r.offset_set in
    let (m, me, mi) = compare_fields-some left.magic right.magic l.magic_set r.magic_set in
    let (k, ke, ki) = compare_fields-some left.mask right.mask l.mask_set r.mask_set in
    (
      t && o && m && k,
      ground arith,
      (
        λ h. record {
          same_type = ti.0 (ground arith);
          same_offset = oi.0 (ground arith);
          same_magic = mi.0 (ground arith);
          same_mask = ki.0 (ground arith);
        },
        λ s.
            ground
              (arith, ti.1 s.same_type, oi.1 s.same_offset, mi.1 s.same_magic, ki.1 s.same_mask),
      ),
    )
