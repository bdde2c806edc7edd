-- ===== src/Thumbnails/Page.antt =====
-- The paths of the page that is shown.
use slavetat_ui.Base.{
  contains, IsDistinct, IsDistinct-snoc, ◌≤◌, ◌≡◌, ap, sym, ◌∙◌, length-append, length, inl, inr,
  Option-cases, List-cases, refl, arith, Bool-cases, ◌==◌, Text, List, [], ◌∷◌, ◌++◌, map, Option,
  none, some, All,
}
use slavetat_ui.Thumbnails.State.{
  NativeThumbnailStatus, placeholder, loading, ready, missing, broken, is_missing, is_broken,
  device_unavailable, cancelled, NativeThumbnailRequest, NativeThumbnailView,
  NativeThumbnailController, canonicalize_texture_path, set_view, failure_at, queue_if_eligible,
}
use slavetat_ui.Thumbnails.Controller.{
  Lookup, place_view, place_views, finish_synchronize, take_next_request, Loaded, loaded, failed,
  receive, complete_taken, complete, fail_view, canonical_request, retry_paths,
  retry_device_unavailable,
}
use slavetat_ui.Thumbnails.Paths.{canonicalize_idem}
use slavetat_ui.Thumbnails.Controller.{collect_paths, push_view}
use slavetat_ui.Thumbnails.Served.{queue-fields}
use mathlib.Core.List.{append-nil, append_assoc, map-append}

-- At most six paths, distinct, and canonical.
pub record IsPage (paths : List Text) : Type 0 where
  pub few : length paths ≤ 6
  pub distinct : IsDistinct paths
  pub canonical : All (λ path. canonicalize_texture_path path ≡ path) paths

All-snoc : (P : Text → Type 0) (xs : List Text) (x : Text) → All P xs → P x → All P (xs ++ (x ∷ []))
All-snoc P [] x h k = (k, tt)
All-snoc P (y ∷ ys) x h k = (h.0, All-snoc P ys x h.1 k)

pub collect_paths-IsPage :
    (paths rest : List Text) → IsPage paths → IsPage (collect_paths paths rest)
unfolding collect_paths
collect_paths-IsPage paths [] h = h
collect_paths-IsPage paths (p ∷ ps) h =
    let q = canonicalize_texture_path p in
    elim (Bool-cases (length paths == 6)) [
      | inl e ↦ rw (e, collect_paths) h
      | inr e ↦ elim (Bool-cases (contains q paths)) [
        | inl k ↦ rw (e, k, collect_paths) (collect_paths-IsPage paths ps h)
        | inr k ↦
            let few : length (paths ++ (q ∷ [])) ≤ 6 =
              ground (arith, h.few, length-append paths (q ∷ [])) in
            rw (e, k, collect_paths)
              (collect_paths-IsPage (paths ++ (q ∷ [])) ps (record {
                few = few;
                distinct = IsDistinct-snoc q paths h.distinct k;
                canonical = All-snoc _ paths q h.canonical (canonicalize_idem p);
              }))
      ]
    ]

abbrev pub paths_of : {R : Type 0} → List (NativeThumbnailView R) → List Text
paths_of vs = map (λ v. v.texture_path) vs

abbrev pub view_paths : {R : Type 0} → NativeThumbnailController R → List Text
view_paths c = paths_of c.views

module _ {R : Type 0} where
  paths_of-set_view :
      (q : Text) (write : NativeThumbnailView R → NativeThumbnailView R)
      (vs : List (NativeThumbnailView R))
      → ((v : NativeThumbnailView R) → (write v).texture_path ≡ v.texture_path)
      → paths_of (set_view q write vs) ≡ paths_of vs
  unfolding set_view
  paths_of-set_view q write [] k = refl
  paths_of-set_view q write (v ∷ vs) k = ground (arith, paths_of-set_view q write vs k, k v)

  pub take-view_paths :
      (c : NativeThumbnailController R) → view_paths (take_next_request c).1 ≡ view_paths c
  unfolding take_next_request
  take-view_paths c = elim (List-cases c.queued_paths) [
    | inl e ↦ ground arith
    | inr (q, rest, e) ↦ ground (
      arith,
      paths_of-set_view q (λ (v : NativeThumbnailView R). record v { status = loading }) c.views
          (λ v. refl),
    )
  ]

  fail_view-view_paths :
      (status : NativeThumbnailStatus) (q : Text) (c : NativeThumbnailController R)
      → view_paths (fail_view status q c) ≡ view_paths c
  unfolding set_view
  fail_view-view_paths status q c =
      paths_of-set_view q (λ v. record v { status = status; texture = none }) c.views (λ v. refl)

  queue-view_paths :
      (q : Text) (c : NativeThumbnailController R)
      → view_paths (queue_if_eligible q c) ≡ view_paths c
  queue-view_paths q c = ap (λ d. view_paths d) (queue-fields q c)

  receive-view_paths :
      (q : Text) (result : Loaded R) (c : NativeThumbnailController R)
      → view_paths (receive q result c) ≡ view_paths c
  unfolding receive
  receive-view_paths q (loaded t) c =
      paths_of-set_view q (λ v. record v { status = ready; texture = some t }) c.views (λ v. refl)
  receive-view_paths q (failed is_missing) c = fail_view-view_paths missing q c
  receive-view_paths q (failed is_broken) c = fail_view-view_paths broken q c
  receive-view_paths q (failed device_unavailable) c = fail_view-view_paths placeholder q c
  receive-view_paths q (failed cancelled) c =
      queue-view_paths q (fail_view placeholder q c) ∙ fail_view-view_paths placeholder q c

  completed-view_paths :
      (r : NativeThumbnailRequest) (result : Loaded R) (c : NativeThumbnailController R)
      → view_paths (complete_taken r result c) ≡ view_paths c
  unfolding complete_taken
  completed-view_paths r result c =
      ground (arith, queue-view_paths r.texture_path c, receive-view_paths r.texture_path result c)

  pub complete-view_paths :
      (request : NativeThumbnailRequest) (result : Loaded R) (c : NativeThumbnailController R)
      → view_paths (complete request result c) ≡ view_paths c
  unfolding complete
  complete-view_paths request result c = ground (
    arith,
    completed-view_paths (canonical_request request) result (record c { in_flight = none }),
  )

  retry_paths-view_paths :
      (unavailable : List Text) (vs : List (NativeThumbnailView R))
      (c : NativeThumbnailController R)
      → view_paths (retry_paths unavailable vs c) ≡ view_paths c
  unfolding retry_paths
  retry_paths-view_paths unavailable [] c = refl
  retry_paths-view_paths unavailable (v ∷ vs) c =
      retry_paths-view_paths unavailable vs _ ∙ ground (arith, queue-view_paths v.texture_path c)

  pub retry-view_paths :
      (c : NativeThumbnailController R) → view_paths (retry_device_unavailable c) ≡ view_paths c
  unfolding retry_device_unavailable
  retry-view_paths c = retry_paths-view_paths c.device_unavailable_paths c.views _

  push_view-view_paths :
      (v : NativeThumbnailView R) (c : NativeThumbnailController R)
      → view_paths (push_view v c) ≡ view_paths c ++ (v.texture_path ∷ [])
  push_view-view_paths v c = map-append (λ w. w.texture_path) c.views (v ∷ [])

  place_view-view_paths :
      (q : Text) (cached : Option R) (c : NativeThumbnailController R)
      → view_paths (place_view q cached c) ≡ view_paths c ++ (q ∷ [])
  unfolding place_view
  place_view-view_paths q cached c = elim (Option-cases (failure_at q c.negative_failures)) [
    | inr (f, e) ↦ rw (e, place_view) (push_view-view_paths _ c)
    | inl e ↦ elim (Option-cases cached) [
      | inr (t, g) ↦ rw (e, g, place_view) (push_view-view_paths _ c)
      | inl g ↦
          let v : NativeThumbnailView R = record {
            texture_path = q;
            status = placeholder;
            texture = none;
          } in
          rw (e, g, place_view) (queue-view_paths q (push_view v c) ∙ push_view-view_paths v c)
    ]
  ]

  pub place_views-view_paths :
      (lookup : Text → Option R) (paths : List Text) (c : NativeThumbnailController R)
      → view_paths (place_views (map (λ path. (path, lookup path)) paths) c) ≡ view_paths c ++ paths
  unfolding place_views
  place_views-view_paths lookup [] c = sym (append-nil (view_paths c))
  place_views-view_paths lookup (p ∷ ps) c =
      place_views-view_paths lookup ps (place_view p (lookup p) c)
      ∙ rw (place_view-view_paths p (lookup p) c) (append_assoc (view_paths c) (p ∷ []) ps)

  pub finish-IsPage :
      (l : Lookup) (lookup : Text → Option R) (c : NativeThumbnailController R)
      → IsPage l.paths
      → IsPage (view_paths c)
      → IsPage (view_paths (finish_synchronize l lookup c))
  unfolding finish_synchronize
  finish-IsPage l lookup c k h = elim (Bool-cases (l.revision == c.synchronization_revision)) [
    | inr e ↦ rw (e, finish_synchronize) h
    | inl e ↦ rw (e, finish_synchronize, place_views-view_paths lookup l.paths _) k
  ]
