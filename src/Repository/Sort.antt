-- ===== src/Repository/Sort.antt =====
-- Folding and ordering, as src/repository/TattooRepository.cpp uses them. `std::ranges::sort` is
-- an insertion sort here; the keys that it is called with leave ties only between equal keys.
use slavetat_ui.Base.{
  ℕ, ◌+◌, Bool, true, false, ◌&&◌, leb, if◌then◌else◌, Text, lt_text, List, [], ◌∷◌, map,
}

-- `character + ('a' - 'A')` for an upper case ASCII letter.
abbrev pub fold_char : ℕ → ℕ
fold_char c = if leb b'A' c && leb c b'Z' then c + 32 else c

unfoldable pub fold_ascii : Text → Text
fold_ascii = map fold_char

-- `std::tie(...) < std::tie(...)`, with the verdict on the components that are no strings.
abbrev pub lt_keys : List Text → List Text → Bool → Bool
lt_keys (x ∷ xs) (y ∷ ys) last =
    if lt_text x y then true else if lt_text y x then false else lt_keys xs ys last
lt_keys xs ys last = last

module _ {ℓ} {A : Type ℓ} (lt : A → A → Bool) where
  unfoldable pub insert_sorted : A → List A → List A
  insert_sorted x [] = x ∷ []
  insert_sorted x (y ∷ ys) = if lt y x then y ∷ insert_sorted x ys else x ∷ y ∷ ys

  unfoldable pub sort : List A → List A
  unfolding insert_sorted
  sort [] = []
  sort (x ∷ xs) = insert_sorted x (sort xs)
