-- ===== src/Padding/Sizes.antt =====
-- The size of a padded response (padResponse, getSizeClass).
use native.Mathlib.Nat.{pow-suc, pow-zero}
use zk_api.Common.{
  ℕ, zero, suc, ◌+◌, ◌-◌, ◌*◌, ◌^◌, ◌<◌, ◌≤◌, ◌≡◌, ◌⊎◌, inl, inr, refl, List, [], ◌∷◌, ◌++◌, leb,
  or_else, find, replicate, arith, Bool-cases,
}
use zk_api.Common.Text.{Text}
use zk_api.Padding.{
  padding_marker, byte_length, ceil_log2_from, ceil_log2, get_size_class, pad_response,
}

byte_length-append : (s t : Text) → byte_length (s ++ t) ≡ byte_length s + byte_length t
unfolding byte_length
byte_length-append [] t = omega arith
byte_length-append (c ∷ s) t = omega (arith, byte_length-append s t)

byte_length-replicate : (n : ℕ) → byte_length (replicate n padding_marker) ≡ n
unfolding byte_length
byte_length-replicate zero = refl
byte_length-replicate (suc n) = omega (arith, byte_length-replicate n)

pow_grows : (n : ℕ) → n < 2 ^ n
pow_grows zero = rw (pow-zero 2) (omega arith)
pow_grows (suc n) = rw (pow-suc 2 n) (omega (arith, pow_grows n))

shifted : (r k n : ℕ) → 2 ^ k < n → (r ≡ k + 1) ⊎ (2 ^ (r - 1) < n) → (r ≡ k) ⊎ (2 ^ (r - 1) < n)
shifted r k n low (inl e) = let e' : k + 1 - 1 ≡ k = omega arith in inr (rw (e, e') low)
shifted r k n low (inr l) = inr l

-- With fuel for it, the search ends at a power that is large enough, and no smaller power is.
ceil_log2_from_least :
    (fuel k n : ℕ)
    → n ≤ 2 ^ (k + fuel)
    → (n ≤ 2 ^ ceil_log2_from fuel k n)
      × ((ceil_log2_from fuel k n ≡ k) ⊎ (2 ^ (ceil_log2_from fuel k n - 1) < n))
unfolding ceil_log2_from
ceil_log2_from_least zero k n h = let e : k + 0 ≡ k = omega arith in (rw e at h, inl refl)
ceil_log2_from_least (suc fuel) k n h = elim (Bool-cases (leb n (2 ^ k))) [
  | inl fits ↦ rw fits (ground arith, inl refl)
  | inr larger ↦
      let e : k + suc fuel ≡ k + 1 + fuel = omega arith in
      let (enough, least) = ceil_log2_from_least fuel (k + 1) n (rw e at h) in
      rw larger (enough, shifted (ceil_log2_from fuel (k + 1) n) k n (ground arith) least)
]

-- The exact logarithm: the least power of two that is at least n.
ceil_log2_least :
    (n : ℕ) → (n ≤ 2 ^ ceil_log2 n) × ((ceil_log2 n ≡ 0) ⊎ (2 ^ (ceil_log2 n - 1) < n))
unfolding ceil_log2
ceil_log2_least n =
    ceil_log2_from_least n 0 n
      (let e : 0 + n ≡ n = omega arith in rw e (omega (arith, pow_grows n)))

halved : (k n : ℕ) → (k ≡ 0) ⊎ (2 ^ (k - 1) < n) → 0 < n → 2 ^ k < 2 * n
halved zero n h pos_n = omega (arith, pow-zero 2)
halved (suc k) n (inl e) pos_n = absurd (omega arith)
halved (suc k) n (inr l) pos_n =
    let e : suc k - 1 ≡ k = omega arith in
    let l' : 2 ^ k < n = rw e at l in rw (pow-suc 2 k) (omega arith)

-- What a size class is: a power of two with room for the content and, past the smallest class, less
-- than twice its size.
abbrev pub IsClassOf : ℕ → ℕ → Type 0
IsClassOf n size = ((k : ℕ) × (size ≡ 2 ^ k)) × (n ≤ size) × ((size ≡ 512) ⊎ (size < 2 * n))

abbrev IsDoubling : ℕ → List ℕ → Type 0
IsDoubling size [] = Unit
IsDoubling size (c ∷ cs) = (c ≡ 2 * size) × IsDoubling c cs

-- Past a class that is too small, the next one that fits is a class of the content.
find-IsClassOf :
    (cs : List ℕ) (j size n large : ℕ)
    → size ≡ 2 ^ j
    → size < n
    → IsDoubling size cs
    → IsClassOf n large
    → IsClassOf n (or_else (find (λ c. leb n c) cs) large)
find-IsClassOf [] j size n large e low doubling l = l
find-IsClassOf (c ∷ cs) j size n large e low doubling l =
    let next : c ≡ 2 ^ suc j = rw (pow-suc 2 j, doubling.0, e) (omega arith) in
    elim (Bool-cases (leb n c)) [
      | inl fits ↦ rw fits ((suc j, next), ground arith, inr (omega (arith, doubling.0)))
      | inr larger ↦
          rw larger (find-IsClassOf cs (suc j) c n large next (ground arith) doubling.1 l)
    ]

get_size_class-IsClassOf : (n : ℕ) → IsClassOf n (get_size_class n)
unfolding get_size_class
get_size_class-IsClassOf n = elim (Bool-cases (leb n 512)) [
  | inl fits ↦ rw fits ((9, refl), ground arith, inl refl)
  | inr larger ↦
      let (enough, least) = ceil_log2_least n in
      let over : 512 < n = ground arith in
      rw larger (
        find-IsClassOf (1024 ∷ 2048 ∷ 4096 ∷ 8192 ∷ 16384 ∷ 32768 ∷ 65536 ∷ 131072 ∷ 262144 ∷ []) 9
          512 n (2 ^ ceil_log2 n) refl over (omega arith)
          ((ceil_log2 n, refl), enough, inr (halved (ceil_log2 n) n least (omega arith))))
]

padded_size : (s : Text) → byte_length (pad_response s) ≡ get_size_class (byte_length s)
unfolding pad_response
padded_size s =
    let n = byte_length s in
    let size = get_size_class n in
    let room = (get_size_class-IsClassOf n).1 in
    elim (Bool-cases (leb size n)) [
      | inl full ↦ rw full (ground arith)
      | inr short ↦
          rw (short, byte_length-append s (replicate (size - n) padding_marker))
            (omega (arith, byte_length-replicate (size - n)))
    ]

-- Whatever the content, the padded response has the size of the class of the content's size, and
-- that class is a power of two with room for it: 512 bytes, or less than twice the content.
pub pad_response_size :
    (content : Text)
    → (byte_length (pad_response content) ≡ get_size_class (byte_length content))
      × IsClassOf (byte_length content) (byte_length (pad_response content))
pad_response_size content =
    let e = padded_size content in (e, rw e (get_size_class-IsClassOf (byte_length content)))
