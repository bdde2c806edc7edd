-- ===== src/Base/Chunks.antt =====
-- A list cut into pages of one size.
use Prim.Native.Nat.{ℕ, zero, suc, ◌+◌, ◌-◌, ◌*◌, ◌/◌, ◌%◌, ◌^◌, ◌≤◌, ◌<◌, min}
use mathlib.Core.Path.{◌≡◌, refl, ap, sym, ◌∙◌}
use mathlib.Core.List.{List, [], ◌∷◌, ◌++◌}
use native.Mathlib.Omega.{arith}
use native.Mathlib.Nat.{div-add-mod, suc-add, mul-le-mul_left}
use native.Mathlib.Decide.{dec_lt}
use slavetat_ui.Base.Tests.{if◌then◌else◌, ◌==◌, u64}
use slavetat_ui.Base.Lists.{length, take, drop, length-drop}

module _ {ℓ} {A : Type ℓ} where
  -- The pages 0, 1, ..., k - 1 one after the other.
  abbrev pub concat_pages : ℕ → (ℕ → List A) → List A
  concat_pages zero page = []
  concat_pages (suc k) page = concat_pages k page ++ page k

  pub concat_pages-congr :
      (k : ℕ) (f g : ℕ → List A)
      → ((i : ℕ) → i < k → f i ≡ g i)
      → concat_pages k f ≡ concat_pages k g
  concat_pages-congr zero f g h = refl
  concat_pages-congr (suc k) f g h =
      rw (h k (omega arith), concat_pages-congr k f g (λ i l. h i (omega arith)))

  take-nil : (n : ℕ) → take {A = A} n [] ≡ []
  take-nil zero = refl
  take-nil (suc n) = refl

  drop-nil : (n : ℕ) → drop {A = A} n [] ≡ []
  drop-nil zero = refl
  drop-nil (suc n) = refl

  take-add : (m n : ℕ) (xs : List A) → take (m + n) xs ≡ take m xs ++ take n (drop m xs)
  take-add zero n xs = ap (λ k. take k xs) (omega arith)
  take-add (suc m) n [] = rw (take-nil (suc m + n), take-nil n) refl
  take-add (suc m) n (x ∷ xs) =
      ap (λ k. take k (x ∷ xs)) (suc-add m n) ∙ ap (◌∷◌ x) (take-add m n xs)

  pub take_all : (n : ℕ) (xs : List A) → length xs ≤ n → take n xs ≡ xs
  take_all zero [] h = refl
  take_all zero (x ∷ xs) h = absurd (omega arith)
  take_all (suc n) [] h = refl
  take_all (suc n) (x ∷ xs) h = ap (◌∷◌ x) (take_all n xs (omega arith))

  pub take-min : (n : ℕ) (xs : List A) → take (min n (length xs)) xs ≡ take n xs
  take-min zero xs = let e : min zero (length xs) ≡ zero = omega arith in rw e
  take-min (suc n) [] = take-nil (min (suc n) 0)
  take-min (suc n) (x ∷ xs) =
      let e : min (suc n) (suc (length xs)) ≡ suc (min n (length xs)) = omega arith in
      rw e (ap (◌∷◌ x) (take-min n xs))

  concat_chunks :
      (k size : ℕ) (xs : List A)
      → concat_pages k (λ i. take size (drop (i * size) xs)) ≡ take (k * size) xs
  concat_chunks zero size xs = let e : zero * size ≡ zero = omega arith in rw e
  concat_chunks (suc k) size xs =
      let e : suc k * size ≡ k * size + size = omega arith in
      rw (concat_chunks k size xs, e) (sym (take-add (k * size) size xs))

-- How many pages of `size` hold `n` entries.
abbrev pub count_pages : ℕ → ℕ → ℕ
count_pages n size = n / size + (if n % size == 0 then 0 else 1)

pub count_pages-enough : (n size : ℕ) → 0 < size → n ≤ count_pages n size * size
count_pages-enough n size h = grind (arith, div-add-mod n size)

pub count_pages-le : (n size : ℕ) → 0 < size → count_pages n size ≤ n
count_pages-le n zero h = absurd (omega arith)
count_pages-le n (suc k) h = ground (arith, div-add-mod n (suc k))

-- Each page but the last is full.
pub count_pages-begin : (n size i : ℕ) → 0 < size → i < count_pages n size → i * size < n
count_pages-begin n size i h k = elim (dec_lt i (n / size)) [
  | yes l ↦ omega (arith, mul-le-mul_left {m = suc i} {n = n / size} size l, div-add-mod n size)
  | no m ↦
      let last : (i ≡ n / size) × (0 < n % size) = ground arith in
      omega (arith, ap (λ t. size * t) last.0, last.1, div-add-mod n size)
]

module _ {ℓ} {A : Type ℓ} where
  -- All pages together are the list.
  pub concat_chunks_all :
      (size : ℕ) (xs : List A)
      → 0 < size
      → concat_pages (count_pages (length xs) size) (λ i. take size (drop (i * size) xs)) ≡ xs
  concat_chunks_all size xs h =
      concat_chunks (count_pages (length xs) size) size xs
      ∙ take_all _ xs (count_pages-enough (length xs) size h)

module _ {ℓ} {A : Type ℓ} where
  -- The elements from `begin` up to `end`, by 64-bit arithmetic.
  abbrev pub slice_from : ℕ → ℕ → List A → List A
  slice_from begin size xs =
      let start = u64 begin in
      let end = u64 (start + min size (length xs - start)) in take (end - start) (drop start xs)

  -- It is the plain slice where the list is one that fits in memory.
  pub slice_from_lem :
      (begin size : ℕ) (xs : List A)
      → begin ≤ length xs
      → length xs < 2 ^ 64
      → slice_from begin size xs ≡ take size (drop begin xs)
  slice_from_lem begin size xs h b =
      let e : u64 begin ≡ begin = omega arith in
      let f : u64 (begin + min size (length xs - begin)) - begin
          ≡ min size (length (drop begin xs)) =
        omega (arith, length-drop begin xs) in
      rw e (rw f (take-min size (drop begin xs)))
