-- ===== src/Find/Matching/Spec/Bytewise.antt =====
-- The buffers of `find_interpreters` in src/find.c, one byte at a time.
use Prim.Native.Nat.{bit_and}
use native.Mathlib.Nat.{suc-sub-suc, zero-add, suc-add}
use debian_binfmt_support.Prelude.{
  ℕ, zero, suc, ◌+◌, ◌-◌, ◌≤◌, ◌<◌, true, ◌≡◌, refl, ◌≢◌, ◌↔◌, ◌⊎◌, inl, inr, ap, ◌∙◌, arith, some,
  [], ◌∷◌, Bytes, str_eq, length, take, drop, replicate, get_or, length-take, length-drop,
  length-append, length-replicate,
}
use debian_binfmt_support.Find.Matching.{buffer, memcpy_from, and_mask, masked}

abbrev pub mask_byte : Bytes → ℕ → ℕ → ℕ
mask_byte [] i x = x
mask_byte (m ∷ ms) i x = bit_and x (get_or (m ∷ ms) i 255)

pub length-buffer : (n : ℕ) (file : Bytes) → length (buffer n file) ≡ n
unfolding buffer
length-buffer n file = omega (
  arith,
  length-append (take n file) (replicate (n - length file) 0),
  length-take n file,
  length-replicate (n - length file) (let z : ℕ = 0 in z),
)

get_or-replicate : (n i : ℕ) → get_or {A = ℕ} (replicate n 0) i 0 ≡ 0
get_or-replicate zero i = refl
get_or-replicate (suc n) zero = refl
get_or-replicate (suc n) (suc i) = get_or-replicate n i

pub get_or-buffer :
    (n : ℕ) (file : Bytes) (i : ℕ) → i < n → get_or (buffer n file) i 0 ≡ get_or file i 0
unfolding buffer
get_or-buffer zero file i h = elim h [ ]
get_or-buffer (suc n) [] i h = get_or-replicate (suc n - 0) i
get_or-buffer (suc n) (x ∷ file) zero h = refl
get_or-buffer (suc n) (x ∷ file) (suc i) h = rw suc-sub-suc (get_or-buffer n file i (omega arith))

get_or-drop : (s : ℕ) (xs : Bytes) (i : ℕ) → get_or (drop s xs) i 0 ≡ get_or xs (s + i) 0
get_or-drop zero xs i = rw zero-add
get_or-drop (suc s) [] i = refl
get_or-drop (suc s) (x ∷ xs) i = rw suc-add (get_or-drop s xs i)

get_or-take : (n : ℕ) (xs : Bytes) (i : ℕ) → i < n → get_or (take n xs) i 0 ≡ get_or xs i 0
get_or-take zero xs i h = elim h [ ]
get_or-take (suc n) [] i h = refl
get_or-take (suc n) (x ∷ xs) zero h = refl
get_or-take (suc n) (x ∷ xs) (suc i) h = get_or-take n xs i (omega arith)

-- A copy that stays inside the buffer.
pub memcpy_from-some :
    (buf : Bytes) (start size : ℕ)
    → start + size ≤ length buf
    → (segment : Bytes) × (memcpy_from buf start size ≡ some segment)
      × (length segment ≡ size)
      × ((i : ℕ) → i < size → get_or segment i 0 ≡ get_or buf (start + i) 0)
unfolding memcpy_from
memcpy_from-some buf start size h = (
  take size (drop start buf),
  ground arith,
  omega (arith, length-take size (drop start buf), length-drop start buf),
  λ i lt. get_or-take size (drop start buf) i lt ∙ get_or-drop start buf i,
)

length-and_mask : (n : ℕ) (xs ms : Bytes) → length (and_mask n xs ms) ≡ length xs
unfolding and_mask
length-and_mask (suc n) (x ∷ xs) (m ∷ ms) = ap suc (length-and_mask n xs ms)
length-and_mask zero xs ms = refl
length-and_mask (suc n) [] ms = refl
length-and_mask (suc n) (x ∷ xs) [] = refl

get_or-and_mask :
    (n : ℕ) (xs ms : Bytes) (i : ℕ)
    → length xs ≤ n
    → length ms ≡ length xs
    → i < length xs
    → get_or (and_mask n xs ms) i 0 ≡ bit_and (get_or xs i 0) (get_or ms i 255)
unfolding and_mask
get_or-and_mask n [] ms i h e lt = elim lt [ ]
get_or-and_mask zero (x ∷ xs) ms i h e lt = elim h [ ]
get_or-and_mask (suc n) (x ∷ xs) [] i h e lt = absurd (omega arith)
get_or-and_mask (suc n) (x ∷ xs) (m ∷ ms) zero h e lt = refl
get_or-and_mask (suc n) (x ∷ xs) (m ∷ ms) (suc i) h e lt =
    get_or-and_mask n xs ms i (omega arith) (omega arith) (omega arith)

pub length-masked : (n : ℕ) (xs ms : Bytes) → length (masked n xs ms) ≡ length xs
unfolding masked
length-masked n xs [] = refl
length-masked n xs (m ∷ ms) = ground (arith, length-and_mask n xs (m ∷ ms))

-- Where the mask counts, it is applied to every byte.
pub get_or-masked :
    (n : ℕ) (xs ms : Bytes) (i : ℕ)
    → length xs ≤ n
    → (ms ≡ []) ⊎ ((length ms ≡ length xs) × (get_or ms 0 0 ≢ 0))
    → i < length xs
    → get_or (masked n xs ms) i 0 ≡ mask_byte ms i (get_or xs i 0)
unfolding masked
get_or-masked n xs [] i h k lt = refl
get_or-masked n xs (m ∷ ms) i h (inl e) lt = cc
get_or-masked n xs (m ∷ ms) i h (inr (e, ne)) lt =
    ground (arith, get_or-and_mask n xs (m ∷ ms) i h e lt)

pub str_eq-get_or :
    (xs ys : Bytes)
    → length xs ≡ length ys
    → (str_eq xs ys ≡ true) ↔ ((i : ℕ) → i < length ys → get_or xs i 0 ≡ get_or ys i 0)
unfolding str_eq
str_eq-get_or [] [] e = (λ h i lt. elim lt [ ], λ h. refl)
str_eq-get_or [] (y ∷ ys) e = absurd (omega arith)
str_eq-get_or (x ∷ xs) [] e = absurd (omega arith)
str_eq-get_or (x ∷ xs) (y ∷ ys) e =
    let tails = str_eq-get_or xs ys (omega arith) in
    (
      λ h. elim [
        | zero ↦ λ lt. ground arith
        | suc i ↦ λ lt. tails.0 (ground arith) i (omega arith)
      ],
      λ h. ground (arith, h 0, tails.1 (λ i lt. h (suc i) (omega arith))),
    )
