-- ===== src/Thumbnails/Retry.antt =====
-- Retrying the paths whose device was not there.
use slavetat_ui.Base.{
  contains, IsDistinct, ◌≡◌, inl, inr, ◌∙◌, refl, arith, Bool-cases, true, if◌then◌else◌, Text,
  eq_text_iff, eq_text_refl, List, [], ◌∷◌, map, is_some, All, ◌&&◌,
}
use slavetat_ui.Thumbnails.State.{
  NativeThumbnailView, NativeThumbnailController, canonicalize_texture_path, status_at, failure_at,
  is_flying, queue_if_eligible,
}
use slavetat_ui.Thumbnails.Controller.{retry_paths, retry_device_unavailable}
use slavetat_ui.Thumbnails.Paths.{contains_of_status}
use slavetat_ui.Thumbnails.Served.{
  Agrees, is_loading, IsRemembered, IsCanonical, IsPast, IsServed, IsSound,
  queue_if_eligible-IsDistinct, queue-Agrees, queue-fields,
}

module _ {R : Type 0} where
  -- Retrying a path serves it again, if it waits for the device.
  retry_paths-IsServed :
      (unavailable : List Text) (vs : List (NativeThumbnailView R))
      (c : NativeThumbnailController R) (path : Text)
      → IsCanonical (status_at path c.views) path
      → IsRemembered (failure_at path c.negative_failures)
      → All (λ v. canonicalize_texture_path v.texture_path ≡ v.texture_path) vs
      → Agrees
          (status_at path c.views)
          (contains path c.queued_paths)
          (is_flying path c.in_flight)
          (is_loading c.generation path c.in_flight)
          (if contains path unavailable && contains path (map (λ v. v.texture_path) vs)
            then true
            else contains path c.device_unavailable_paths)
          (failure_at path c.negative_failures)
      → IsServed (retry_paths unavailable vs c) path
  unfolding retry_paths
  retry_paths-IsServed unavailable [] c path a b k h = ground arith
  retry_paths-IsServed unavailable (v ∷ vs) c path a b k h =
      elim (Bool-cases (contains v.texture_path unavailable)) [
        | inr e ↦
            rw (e, retry_paths)
              (retry_paths-IsServed unavailable vs c path a b k.1
                (ground (arith, eq_text_iff v.texture_path path)))
        | inl e ↦
            let q = v.texture_path in
            let u =
              if contains path unavailable
                && contains path (map (λ (w : NativeThumbnailView R). w.texture_path) vs)
              then true
              else contains path c.device_unavailable_paths in
            let later =
              queue-Agrees q c path u k.0 (ground arith) (ground (arith, eq_text_iff q path)) in
            rw (e, retry_paths)
              (retry_paths-IsServed unavailable vs (queue_if_eligible q c) path
                (rw (queue-fields q c) a) (rw (queue-fields q c) b) k.1
                (rw (queue-fields q c) later))
      ]

  -- Each view of a controller has a status.
  views-status :
      (vs ws : List (NativeThumbnailView R))
      → ((path : Text) → is_some (status_at path vs) ≡ true → is_some (status_at path ws) ≡ true)
      → All (λ v. is_some (status_at v.texture_path ws) ≡ true) vs
  unfolding status_at
  views-status [] ws h = tt
  views-status (v ∷ vs) ws h = (
    h v.texture_path (rw (status_at, eq_text_refl v.texture_path) refl),
    views-status vs ws (λ path e. h path (ground (arith, e))),
  )

  canonical_views :
      (ws vs : List (NativeThumbnailView R))
      → ((path : Text) → IsCanonical (status_at path ws) path)
      → All (λ v. is_some (status_at v.texture_path ws) ≡ true) vs
      → All (λ v. canonicalize_texture_path v.texture_path ≡ v.texture_path) vs
  canonical_views ws [] h k = tt
  canonical_views ws (v ∷ vs) h k =
      let canonical = h v.texture_path in (ground arith, canonical_views ws vs h k.1)

  retry_paths-IsDistinct :
      (unavailable : List Text) (vs : List (NativeThumbnailView R))
      (c : NativeThumbnailController R)
      → IsDistinct c.queued_paths
      → IsDistinct (retry_paths unavailable vs c).queued_paths
  unfolding retry_paths
  retry_paths-IsDistinct unavailable [] c d = d
  retry_paths-IsDistinct unavailable (v ∷ vs) c d =
      retry_paths-IsDistinct unavailable vs _
        (ground (arith, queue_if_eligible-IsDistinct v.texture_path c d))

  retry_paths-IsPast :
      (unavailable : List Text) (vs : List (NativeThumbnailView R))
      (c : NativeThumbnailController R)
      → IsPast c.generation c.in_flight
      → IsPast (retry_paths unavailable vs c).generation (retry_paths unavailable vs c).in_flight
  unfolding retry_paths
  retry_paths-IsPast unavailable [] c h = h
  retry_paths-IsPast unavailable (v ∷ vs) c h =
      retry_paths-IsPast unavailable vs _ (ground (arith, queue-fields v.texture_path c))

  pub retry-IsSound :
      (c : NativeThumbnailController R) → IsSound c → IsSound (retry_device_unavailable c)
  unfolding retry_device_unavailable
  retry-IsSound c h =
      let cleared = record c { device_unavailable_paths = [] } in
      let canonical =
        canonical_views c.views c.views (λ path. (h.paths path).canonical)
          (views-status c.views c.views (λ path e. e)) in
      record {
        paths = λ path.
            let p = h.paths path in
            retry_paths-IsServed c.device_unavailable_paths c.views cleared path p.canonical
              p.remembered canonical (ground (arith, p.agrees, contains_of_status path c.views));
        distinct = retry_paths-IsDistinct c.device_unavailable_paths c.views cleared h.distinct;
        past = retry_paths-IsPast c.device_unavailable_paths c.views cleared h.past;
      }

  retry_paths-generation :
      (unavailable : List Text) (vs : List (NativeThumbnailView R))
      (c : NativeThumbnailController R)
      → (retry_paths unavailable vs c).generation ≡ c.generation
  unfolding retry_paths
  retry_paths-generation unavailable [] c = refl
  retry_paths-generation unavailable (v ∷ vs) c =
      retry_paths-generation unavailable vs _ ∙ (ground (arith, queue-fields v.texture_path c))

  pub retry-generation :
      (c : NativeThumbnailController R) → (retry_device_unavailable c).generation ≡ c.generation
  unfolding retry_device_unavailable
  retry-generation c = retry_paths-generation c.device_unavailable_paths c.views _
