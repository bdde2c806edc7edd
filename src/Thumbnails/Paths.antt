-- ===== src/Thumbnails/Paths.antt =====
-- Lemmas on paths, views and the queue.
use slavetat_ui.Base.{
  contains, ℕ, ◌≡◌, refl, arith, ap, true, if◌then◌else◌, Text, eq_text, eq_text_iff, contains,
  List, [], ◌∷◌, ◌++◌, map, none, some, is_some,
}
use slavetat_ui.Thumbnails.State.{
  NativeThumbnailStatus, NativeThumbnailView, canonical_char, canonicalize_texture_path, status_at,
  set_view,
}

canonical_char_idem : (c : ℕ) → canonical_char (canonical_char c) ≡ canonical_char c
canonical_char_idem c = ground arith

pub canonicalize_idem :
    (path : Text)
    → canonicalize_texture_path (canonicalize_texture_path path) ≡ canonicalize_texture_path path
unfolding canonicalize_texture_path
canonicalize_idem [] = refl
canonicalize_idem (c ∷ cs) =
    rw (canonical_char_idem c) (ap (◌∷◌ (canonical_char c)) (canonicalize_idem cs))

module _ {R : Type 0} where
  pub status_at-snoc :
      (path : Text) (v : NativeThumbnailView R) (vs : List (NativeThumbnailView R))
      → status_at path (vs ++ (v ∷ [])) ≡ (
          if is_some (status_at path vs)
          then status_at path vs
          else if eq_text v.texture_path path
          then some v.status
          else none)
  unfolding status_at
  status_at-snoc path v [] = ground arith
  status_at-snoc path v (w ∷ vs) = ground (arith, status_at-snoc path v vs)

  -- Writing a status to the view of a path changes that path's status only.
  pub status_at-set_view :
      (path q : Text) (write : NativeThumbnailView R → NativeThumbnailView R)
      (status : NativeThumbnailStatus) (vs : List (NativeThumbnailView R))
      → ((v : NativeThumbnailView R) → (write v).texture_path ≡ v.texture_path)
      → ((v : NativeThumbnailView R) → (write v).status ≡ status)
      → status_at path (set_view q write vs) ≡ (
          if eq_text q path
          then (if is_some (status_at path vs) then some status else none)
          else status_at path vs)
  unfolding status_at set_view
  status_at-set_view path q write status [] keep set = ground arith
  status_at-set_view path q write status (v ∷ vs) keep set = ground (
    arith,
    status_at-set_view path q write status vs keep set,
    keep v,
    set v,
    eq_text_iff q path,
    eq_text_iff v.texture_path q,
    eq_text_iff v.texture_path path,
  )

  -- A path that has a status is that of a view.
  pub contains_of_status :
      (path : Text) (vs : List (NativeThumbnailView R))
      → is_some (status_at path vs) ≡ true
      → contains path (map (λ v. v.texture_path) vs) ≡ true
  unfolding status_at
  contains_of_status path [] h = cc
  contains_of_status path (v ∷ vs) h = ground (arith, contains_of_status path vs)
