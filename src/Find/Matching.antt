-- ===== src/Find/Matching.antt =====
-- The checks of `find_interpreters` in src/find.c that redo the kernel's work.
pub mod Spec
pub mod NulMask
use Prim.Native.Nat.{bit_and}
use debian_binfmt_support.Prelude.{
  ℕ, zero, suc, ◌+◌, ◌-◌, ◌%◌, ◌^◌, Bool, true, false, not, ◌&&◌, Option, none, some, List, [], ◌∷◌,
  ◌++◌, Bytes, text, str_eq, c_string, length, take, drop, replicate, ◌==◌, ltb, leb, if◌then◌else◌,
}
use debian_binfmt_support.Find.Candidates.{Candidate}
use debian_binfmt_support.Find.Number.{atoi}

-- `!strcmp (binfmt->type, "magic")`
unfoldable pub is_magic : Candidate → Bool
is_magic c = str_eq c.type (text "magic")

-- One round of the loop that finds how much of the file to read. `size` is a `size_t`.
needed : ℕ → Candidate → ℕ
unfolding is_magic
needed toread c =
    let size = (atoi c.offset + length c.magic) % 2 ^ 64 in
    if is_magic c && ltb toread size then size else toread

unfoldable pub to_read : ℕ → List Candidate → ℕ
unfolding needed
to_read toread [] = toread
to_read toread (c ∷ cs) = to_read (needed toread c) cs

-- `buf = xzalloc (toread)`, and `fread (buf, 1, toread, target_file)`.
unfoldable pub buffer : ℕ → Bytes → Bytes
buffer toread file = take toread file ++ replicate (toread - length file) 0

-- `memcpy (segment, buf + start, size)`; `none` if it would read behind the buffer. A negative
-- offset, at 2 ^ 64 less something, is behind it too.
unfoldable pub memcpy_from : Bytes → ℕ → ℕ → Option Bytes
memcpy_from buf start size =
    if leb (start + size) (length buf) then some (take size (drop start buf)) else none

-- `for (i = 0; i < toread && i < magic_size; ++i) segment[i] &= mask[i];`
unfoldable pub and_mask : ℕ → Bytes → Bytes → Bytes
and_mask (suc n) (x ∷ xs) (m ∷ ms) = bit_and x m ∷ and_mask n xs ms
and_mask n xs ms = xs

-- `if (*binfmt->mask)`, where the loop runs. A mask whose first byte is NUL does not count.
unfoldable pub masked : ℕ → Bytes → Bytes → Bytes
masked toread segment [] = segment
masked toread segment (m ∷ ms) = if m == 0 then segment else and_mask toread segment (m ∷ ms)

-- `extension && !strcmp (extension, binfmt->magic)`
same_extension : Option Bytes → Bytes → Bool
same_extension none magic = false
same_extension (some extension) magic = str_eq extension (c_string magic)

-- `!memcmp (segment, binfmt->magic, binfmt->magic_size)` on what was copied.
same_segment : ℕ → Candidate → Option Bytes → Option Bool
same_segment toread c none = none
same_segment toread c (some segment) = some (str_eq (masked toread segment c.mask) c.magic)

-- Whether the loop adds the format to `ok_formats`; `none` where it reads out of bounds.
unfoldable pub is_candidate : ℕ → Bytes → Option Bytes → Candidate → Option Bool
unfolding same_extension same_segment memcpy_from
is_candidate toread buf extension c =
    if is_magic c
    then same_segment toread c (memcpy_from buf (atoi c.offset) (length c.magic))
    else some (same_extension extension c.magic)

abbrev add_if : Option Bool → Candidate → Option (List Candidate) → Option (List Candidate)
add_if (some true) c (some rest) = some (c ∷ rest)
add_if (some false) c (some rest) = some rest
add_if _ c _ = none

-- `ok_formats`
unfoldable pub ok_formats : ℕ → Bytes → Option Bytes → List Candidate → Option (List Candidate)
ok_formats toread buf extension [] = some []
ok_formats toread buf extension (c ∷ cs) =
    add_if (is_candidate toread buf extension c) c (ok_formats toread buf extension cs)
