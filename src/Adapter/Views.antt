-- ===== src/Adapter/Views.antt =====
-- Every card of a page of the catalog finds its thumbnail.
use mathlib.Core.Path.{subst}
use slavetat_ui.Base.{
  if◌then◌else◌, ℕ, ◌+◌, ◌≤◌, zero, suc, ◌≡◌, refl, arith, sym, ap, ◌∙◌, inl, inr, true, false,
  Bool-cases, ◌==◌, Text, eq_text, eq_text_iff, eq_text_refl, eq_text_sym, contains, contains-snoc,
  length, length-append, List, [], ◌∷◌, ◌++◌, Option, none, some, All,
}
use slavetat_ui.Thumbnails.State.{NativeThumbnailView, canonical_char, canonicalize_texture_path}
use slavetat_ui.Thumbnails.Controller.{collect_paths}
use slavetat_ui.Thumbnails.Page.{paths_of}
use slavetat_ui.Adapter.Cards.{
  canonical_thumbnail_path_character, equal_canonical, equivalent_thumbnail_paths,
  find_catalog_thumbnail_view_index,
}

same_character : (c : ℕ) → canonical_thumbnail_path_character c ≡ canonical_char c
same_character c = ground arith

equal_canonical-eq_text :
    (a b : Text)
    → equal_canonical a b ≡ eq_text (canonicalize_texture_path a) (canonicalize_texture_path b)
unfolding equal_canonical canonicalize_texture_path
equal_canonical-eq_text [] [] = refl
equal_canonical-eq_text [] (y ∷ ys) = refl
equal_canonical-eq_text (x ∷ xs) [] = refl
equal_canonical-eq_text (x ∷ xs) (y ∷ ys) =
    ground (arith, equal_canonical-eq_text xs ys, same_character x, same_character y)

equal_canonical-length : (a b : Text) → equal_canonical a b ≡ true → length a ≡ length b
unfolding equal_canonical
equal_canonical-length [] [] h = refl
equal_canonical-length [] (y ∷ ys) h = cc
equal_canonical-length (x ∷ xs) [] h = cc
equal_canonical-length (x ∷ xs) (y ∷ ys) h = ground (arith, h, equal_canonical-length xs ys)

equivalent-eq_text :
    (a b : Text)
    → equivalent_thumbnail_paths a b
      ≡ eq_text (canonicalize_texture_path a) (canonicalize_texture_path b)
unfolding equivalent_thumbnail_paths
equivalent-eq_text a b = elim (Bool-cases (equal_canonical a b)) [
  | inl e ↦ ground (arith, e, equal_canonical-length a b e, equal_canonical-eq_text a b)
  | inr e ↦ ground (arith, e, equal_canonical-eq_text a b)
]

equivalent-hit :
    (path q : Text)
    → canonicalize_texture_path q ≡ q
    → equivalent_thumbnail_paths path q ≡ true
    → canonicalize_texture_path path ≡ q
equivalent-hit path q h e =
    (eq_text_iff (canonicalize_texture_path path) (canonicalize_texture_path q)).0
      (sym (equivalent-eq_text path q) ∙ e)
    ∙ h

equivalent-miss :
    (path q : Text)
    → canonicalize_texture_path q ≡ q
    → equivalent_thumbnail_paths path q ≡ false
    → eq_text q (canonicalize_texture_path path) ≡ false
equivalent-miss path q h e =
    eq_text_sym q (canonicalize_texture_path path)
    ∙ ap (λ t. eq_text (canonicalize_texture_path path) t) (sym h)
    ∙ sym (equivalent-eq_text path q)
    ∙ e

-- The path at an index.
abbrev pub path_at : ℕ → List Text → Option Text
path_at i [] = none
path_at zero (p ∷ ps) = some p
path_at (suc i) (p ∷ ps) = path_at i ps

module _ {R : Type 0} where
  pub find-path_at :
      (path : Text) (views : List (NativeThumbnailView R))
      → All (λ p. canonicalize_texture_path p ≡ p) (paths_of views)
      → contains (canonicalize_texture_path path) (paths_of views) ≡ true
      → (i : ℕ) × (find_catalog_thumbnail_view_index path views ≡ some i)
        × (path_at i (paths_of views) ≡ some (canonicalize_texture_path path))
  unfolding find_catalog_thumbnail_view_index
  find-path_at path [] h k = cc
  find-path_at path (v ∷ views) h k =
      elim (Bool-cases (equivalent_thumbnail_paths path v.texture_path)) [
        | inl e ↦ (0, rw e refl, ap some (sym (equivalent-hit path v.texture_path h.0 e)))
        | inr e ↦
            let later =
              find-path_at path views h.1
                (ground (arith, k, equivalent-miss path v.texture_path h.0 e)) in
            (suc later.0, rw (e, later.1) refl, later.2)
      ]

-- What is collected stays.
collects :
    (paths rest : List Text) (q : Text)
    → contains q paths ≡ true
    → contains q (collect_paths paths rest) ≡ true
unfolding collect_paths
collects paths [] q h = h
collects paths (p ∷ ps) q h =
    let canonical = canonicalize_texture_path p in
    elim (Bool-cases (length paths == 6)) [
      | inl e ↦ rw (e, collect_paths) h
      | inr e ↦ elim (Bool-cases (contains canonical paths)) [
        | inl k ↦ rw (e, k, collect_paths) (collects paths ps q h)
        | inr k ↦
            rw (e, k, collect_paths)
              (collects (paths ++ (canonical ∷ [])) ps q
                (contains-snoc q canonical paths ∙ ground (arith, h)))
      ]
    ]

abbrev added : Text → List Text → List Text
added path paths = if contains path paths then paths else paths ++ (path ∷ [])

collect_paths-cons :
    (paths ps : List Text) (p : Text)
    → (length paths == 6) ≡ false
    → collect_paths paths (p ∷ ps) ≡ collect_paths (added (canonicalize_texture_path p) paths) ps
unfolding collect_paths
collect_paths-cons paths ps p room = rw (room, collect_paths) refl

added-contains : (path : Text) (paths : List Text) → contains path (added path paths) ≡ true
added-contains path paths = ground (arith, contains-snoc path path paths, eq_text_refl path)

added-length : (path : Text) (paths : List Text) → length (added path paths) ≤ length paths + 1
added-length path paths = ground (arith, length-append paths (path ∷ []))

-- Each of at most six paths is collected.
pub collects_each :
    (paths rest : List Text)
    → length paths + length rest ≤ 6
    → All (λ p. contains (canonicalize_texture_path p) (collect_paths paths rest) ≡ true) rest
collects_each paths [] b = tt
collects_each paths (p ∷ ps) b =
    let canonical = canonicalize_texture_path p in
    subst (λ t. All (λ q. contains (canonicalize_texture_path q) t ≡ true) (p ∷ ps))
      (sym (collect_paths-cons paths ps p (ground (arith, b))))
      (
        collects (added canonical paths) ps canonical (added-contains canonical paths),
        collects_each (added canonical paths) ps (omega (arith, b, added-length canonical paths)),
      )
