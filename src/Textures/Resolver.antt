-- ===== src/Textures/Resolver.antt =====
-- src/textures/TextureResolver.{h,cpp}: `TextureResolver::normalize`.
use slavetat_ui.Base.{
  ℕ, Bool, false, ◌||◌, ◌==◌, if◌then◌else◌, Text, codes, eq_text, is_empty, any_of, [], ◌∷◌, ◌++◌,
  Option, none, some,
}
pub mod Normal
pub mod Segments

pub data TextureResolveError : Type 0 where
  invalid_path not_found read_failed : TextureResolveError

pub data Resolved {ℓ} (A : Type ℓ) : Type ℓ where
  ok : A → Resolved A
  unexpected : TextureResolveError → Resolved A

abbrev pub is_separator : ℕ → Bool
is_separator c = c == b'/' || c == b'\\'

abbrev pub begins_at_root : Text → Bool
begins_at_root [] = false
begins_at_root (c ∷ cs) = is_separator c

-- `appendSegment`: the normalized text with the segment, or none if the segment is the parent's.
unfoldable pub append_segment : Text → Text → Option Text
append_segment normalized segment =
    if is_empty segment || eq_text segment (codes ".")
    then some normalized
    else if eq_text segment (codes "..")
    then none
    else some ((if is_empty normalized then normalized else normalized ++ (b'\\' ∷ [])) ++ segment)

-- The loop over the characters, and the segment that is left at the end.
unfoldable pub normalize_loop : Text → Text → Text → Option Text
unfolding append_segment
normalize_loop normalized segment [] = append_segment normalized segment
normalize_loop normalized segment (c ∷ cs) =
    let longer = normalize_loop normalized (segment ++ (c ∷ [])) cs in
    let next : Option Text = elim (append_segment normalized segment) [
      | none ↦ none
      | some appended ↦ normalize_loop appended [] cs
    ] in
    if is_separator c then next else longer

abbrev pub path_or_invalid : Option Text → Resolved Text
path_or_invalid none = unexpected invalid_path
path_or_invalid (some []) = unexpected invalid_path
path_or_invalid (some (c ∷ cs)) = ok (c ∷ cs)

unfoldable pub normalize : Text → Resolved Text
unfolding normalize_loop
normalize path =
    if is_empty path || begins_at_root path || any_of (λ c. c == b':') path
    then unexpected invalid_path
    else path_or_invalid (normalize_loop [] [] path)
