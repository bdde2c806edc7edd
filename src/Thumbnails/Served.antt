-- ===== src/Thumbnails/Served.antt =====
-- What the status of a path says of the queue, of the request in flight and of the failures.
use slavetat_ui.Base.{
  contains, contains-snoc, IsDistinct, IsDistinct-snoc, ℕ, ◌≤◌, ◌≡◌, ◌⊎◌, inl, inr, Option-cases,
  List-cases, refl, arith, Bool, Bool-cases, true, false, ◌==◌, if◌then◌else◌, Text, eq_text,
  eq_text_iff, List, ◌∷◌, Option, none, some, is_some,
}
use slavetat_ui.Thumbnails.State.{
  NativeThumbnailStatus, placeholder, loading, ready, missing, broken, NativeThumbnailFailure,
  is_missing, is_broken, device_unavailable, cancelled, NativeThumbnailRequest, NativeThumbnailView,
  NativeThumbnailController, canonicalize_texture_path, status_at, set_view, failure_at, is_flying,
  is_eligible, queue_if_eligible,
}
use slavetat_ui.Thumbnails.Controller.{
  take_next_request, Loaded, loaded, failed, receive, complete_taken, complete, fail_view,
  canonical_request, is_in_flight,
}
use slavetat_ui.Thumbnails.Paths.{canonicalize_idem, status_at-set_view}

-- The request in flight is the one for this path that was taken since the views were made.
abbrev pub is_loading : ℕ → Text → Option NativeThumbnailRequest → Bool
is_loading generation path none = false
is_loading generation path (some r) =
    if r.generation == generation then eq_text r.texture_path path else false

abbrev pub IsRemembered : Option NativeThumbnailFailure → Type 0
IsRemembered none = Unit
IsRemembered (some is_missing) = Unit
IsRemembered (some is_broken) = Unit
IsRemembered (some device_unavailable) = ⊥
IsRemembered (some cancelled) = ⊥

-- What the status of a path says of the queue, of the request in flight (for this path, and current),
-- of the paths without a device and of the failures.
abbrev pub Agrees :
    Option NativeThumbnailStatus
    → Bool
    → Bool
    → Bool
    → Bool
    → Option NativeThumbnailFailure
    → Type 0
Agrees none queued flying current unavailable failure = (queued ≡ false) × (current ≡ false)
Agrees (some placeholder) queued flying current unavailable failure =
    (failure ≡ none)
    × (current ≡ false)
    × ((queued ≡ true) ⊎ (flying ≡ true) ⊎ (unavailable ≡ true))
Agrees (some loading) queued flying current unavailable failure =
    (failure ≡ none) × (queued ≡ false) × (current ≡ true)
Agrees (some ready) queued flying current unavailable failure =
    (failure ≡ none) × (queued ≡ false) × (current ≡ false)
Agrees (some missing) queued flying current unavailable failure =
    (failure ≡ some is_missing) × (queued ≡ false) × (current ≡ false)
Agrees (some broken) queued flying current unavailable failure =
    (failure ≡ some is_broken) × (queued ≡ false) × (current ≡ false)

abbrev pub IsCanonical : Option NativeThumbnailStatus → Text → Type 0
IsCanonical none path = Unit
IsCanonical (some status) path = canonicalize_texture_path path ≡ path

abbrev pub IsPast : ℕ → Option NativeThumbnailRequest → Type 0
IsPast generation none = Unit
IsPast generation (some r) = r.generation ≤ generation

in_flight_of :
    (q : NativeThumbnailRequest) (o : Option NativeThumbnailRequest)
    → is_in_flight q o ≡ true
    → o ≡ some q
in_flight_of q none h = cc
in_flight_of q (some r) h = ground (arith, eq_text_iff r.texture_path q.texture_path)

module _ {R : Type 0} where
  -- What holds of each path.
  pub record IsServed (c : NativeThumbnailController R) (path : Text) : Type 0 where
    pub agrees :
        Agrees
          (status_at path c.views)
          (contains path c.queued_paths)
          (is_flying path c.in_flight)
          (is_loading c.generation path c.in_flight)
          (contains path c.device_unavailable_paths)
          (failure_at path c.negative_failures)
    pub canonical : IsCanonical (status_at path c.views) path
    pub remembered : IsRemembered (failure_at path c.negative_failures)

  -- What holds of the controller.
  pub record IsSound (c : NativeThumbnailController R) : Type 0 where
    pub paths : (path : Text) → IsServed c path
    pub distinct : IsDistinct c.queued_paths
    pub past : IsPast c.generation c.in_flight

  pub queue_if_eligible-IsDistinct :
      (path : Text) (c : NativeThumbnailController R)
      → IsDistinct c.queued_paths
      → IsDistinct (queue_if_eligible path c).queued_paths
  unfolding queue_if_eligible is_eligible
  queue_if_eligible-IsDistinct path c d =
      ground (arith, IsDistinct-snoc (canonicalize_texture_path path) c.queued_paths d)

  -- Queueing a path serves it, if it waits and is not served yet.
  pub queue-Agrees :
      (q : Text) (c : NativeThumbnailController R) (path : Text) (unavailable : Bool)
      → canonicalize_texture_path q ≡ q
      → (contains path c.device_unavailable_paths ≡ true → unavailable ≡ true)
      → Agrees
          (status_at path c.views)
          (contains path c.queued_paths)
          (is_flying path c.in_flight)
          (is_loading c.generation path c.in_flight)
          (if eq_text q path then true else unavailable)
          (failure_at path c.negative_failures)
      → let c' = queue_if_eligible q c in
        Agrees
          (status_at path c.views)
          (contains path c'.queued_paths)
          (is_flying path c.in_flight)
          (is_loading c.generation path c.in_flight)
          unavailable
          (failure_at path c.negative_failures)
  unfolding queue_if_eligible is_eligible
  queue-Agrees q c path unavailable canonical u h =
      rw canonical (ground (arith, contains-snoc path q c.queued_paths, eq_text_iff q path))

  -- Queueing changes nothing else.
  pub queue-fields :
      (q : Text) (c : NativeThumbnailController R)
      → queue_if_eligible q c ≡ record c { queued_paths = (queue_if_eligible q c).queued_paths }
  unfolding queue_if_eligible is_eligible
  queue-fields q c = ground arith

  pub queue-IsServed :
      (q : Text) (c : NativeThumbnailController R) (path : Text)
      → canonicalize_texture_path q ≡ q
      → IsCanonical (status_at path c.views) path
      → IsRemembered (failure_at path c.negative_failures)
      → Agrees
          (status_at path c.views)
          (contains path c.queued_paths)
          (is_flying path c.in_flight)
          (is_loading c.generation path c.in_flight)
          (if eq_text q path then true else contains path c.device_unavailable_paths)
          (failure_at path c.negative_failures)
      → IsServed (queue_if_eligible q c) path
  queue-IsServed q c path canonical a b h = rw (queue-fields q c) (record {
    agrees = queue-Agrees q c path (contains path c.device_unavailable_paths) canonical (λ e. e) h;
    canonical = a;
    remembered = b;
  })

  taken-IsServed :
      (c : NativeThumbnailController R) (q : Text) (rest : List Text) (path : Text)
      → c.in_flight ≡ none
      → c.queued_paths ≡ q ∷ rest
      → IsDistinct c.queued_paths
      → IsServed c path
      → IsServed (take_next_request c).1 path
  unfolding take_next_request
  taken-IsServed c q rest path e f d h =
      rw (e, f, take_next_request)
        (ground (
          arith,
          status_at-set_view path q (λ (v : NativeThumbnailView R). record v { status = loading })
              loading c.views (λ v. refl) (λ v. refl),
          eq_text_iff q path,
        ))

  pub take-IsSound : (c : NativeThumbnailController R) → IsSound c → IsSound (take_next_request c).1
  unfolding take_next_request
  take-IsSound c h = elim (Option-cases c.in_flight) [
    | inr (r, e) ↦ rw (e, take_next_request) h
    | inl e ↦ elim (List-cases c.queued_paths) [
      | inl f ↦ rw (e, f, take_next_request) h
      | inr (q, rest, f) ↦ record {
        paths = λ path. taken-IsServed c q rest path e f h.distinct (h.paths path);
        distinct = rw (e, f, take_next_request) (rw f at h.distinct).1;
        past = rw (e, f, take_next_request) (omega arith);
      }
    ]
  ]

  status_at-fail_view :
      (status : NativeThumbnailStatus) (q path : Text) (c : NativeThumbnailController R)
      → status_at path (fail_view status q c).views ≡ (
          if eq_text q path
          then (if is_some (status_at path c.views) then some status else none)
          else status_at path c.views)
  unfolding set_view
  status_at-fail_view status q path c =
      status_at-set_view path q (λ v. record v { status = status; texture = none }) status c.views
        (λ v. refl) (λ v. refl)

  received-IsServed :
      (c : NativeThumbnailController R) (r : NativeThumbnailRequest) (result : Loaded R)
      (path : Text)
      → c.in_flight ≡ some r
      → (r.generation == c.generation) ≡ true
      → is_some (status_at r.texture_path c.views) ≡ true
      → canonicalize_texture_path r.texture_path ≡ r.texture_path
      → IsServed c path
      → IsServed (receive r.texture_path result (record c { in_flight = none })) path
  unfolding receive failure_at
  received-IsServed c r (loaded t) path e g v k h = ground (
    arith,
    status_at-set_view path r.texture_path
        (λ (v : NativeThumbnailView R). record v { status = ready; texture = some t }) ready c.views
        (λ v. refl) (λ v. refl),
    eq_text_iff r.texture_path path,
  )
  received-IsServed c r (failed is_missing) path e g v k h =
      ground
        (arith, status_at-fail_view missing r.texture_path path c, eq_text_iff r.texture_path path)
  received-IsServed c r (failed is_broken) path e g v k h =
      ground
        (arith, status_at-fail_view broken r.texture_path path c, eq_text_iff r.texture_path path)
  received-IsServed c r (failed device_unavailable) path e g v k h = ground (
    arith,
    status_at-fail_view placeholder r.texture_path path c,
    eq_text_iff r.texture_path path,
  )
  received-IsServed c r (failed cancelled) path e g v k h =
      let write = status_at-fail_view placeholder r.texture_path path c in
      queue-IsServed r.texture_path
        (fail_view placeholder r.texture_path (record c { in_flight = none })) path k
        (ground (arith, write, eq_text_iff r.texture_path path)) h.remembered
        (ground (arith, write, eq_text_iff r.texture_path path))

  completed-IsServed :
      (c : NativeThumbnailController R) (r : NativeThumbnailRequest) (result : Loaded R)
      (path : Text)
      → c.in_flight ≡ some r
      → canonicalize_texture_path r.texture_path ≡ r.texture_path
      → IsServed c path
      → IsServed (complete_taken r result (record c { in_flight = none })) path
  unfolding complete_taken
  completed-IsServed c r result path e k h =
      elim (Bool-cases (is_some (status_at r.texture_path c.views))) [
        | inr v ↦ rw (v, complete_taken) (ground (arith, eq_text_iff r.texture_path path))
        | inl v ↦ elim (Bool-cases (r.generation == c.generation)) [
          | inr g ↦
              rw (v, g, complete_taken)
                (queue-IsServed r.texture_path (record c { in_flight = none }) path k h.canonical
                  h.remembered (ground (arith, eq_text_iff r.texture_path path)))
          | inl g ↦ rw (v, g, complete_taken) (received-IsServed c r result path e g v k h)
        ]
      ]

  completed-IsDistinct :
      (r : NativeThumbnailRequest) (result : Loaded R) (c : NativeThumbnailController R)
      → IsDistinct c.queued_paths
      → IsDistinct (complete_taken r result c).queued_paths
  unfolding complete_taken receive
  completed-IsDistinct r result c d = ground (
    arith,
    queue_if_eligible-IsDistinct r.texture_path c d,
    queue_if_eligible-IsDistinct r.texture_path (fail_view placeholder r.texture_path c) d,
  )

  completed-IsPast :
      (r : NativeThumbnailRequest) (result : Loaded R) (c : NativeThumbnailController R)
      → c.in_flight ≡ none
      → IsPast (complete_taken r result c).generation (complete_taken r result c).in_flight
  unfolding complete_taken receive queue_if_eligible
  completed-IsPast r result c e = ground arith

  pub complete-IsSound :
      (request : NativeThumbnailRequest) (result : Loaded R) (c : NativeThumbnailController R)
      → IsSound c
      → IsSound (complete request result c)
  unfolding complete
  complete-IsSound request result c h =
      elim (Bool-cases (is_in_flight (canonical_request request) c.in_flight)) [
        | inr e ↦ rw (e, complete) h
        | inl e ↦
            let q = canonical_request request in
            let f = in_flight_of q c.in_flight e in
            rw (e, complete)
              (record {
                paths = λ path.
                    completed-IsServed c q result path f (canonicalize_idem request.texture_path)
                      (h.paths path);
                distinct = completed-IsDistinct q result (record c { in_flight = none }) h.distinct;
                past = completed-IsPast q result (record c { in_flight = none }) refl;
              })
      ]

  completed-generation :
      (r : NativeThumbnailRequest) (result : Loaded R) (c : NativeThumbnailController R)
      → (complete_taken r result c).generation ≡ c.generation
  unfolding complete_taken receive queue_if_eligible
  completed-generation r result c = ground arith

  pub complete-generation :
      (request : NativeThumbnailRequest) (result : Loaded R) (c : NativeThumbnailController R)
      → (complete request result c).generation ≡ c.generation
  unfolding complete
  complete-generation request result c = ground (
    arith,
    completed-generation (canonical_request request) result (record c { in_flight = none }),
  )
