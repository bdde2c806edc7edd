-- ===== src/Thumbnails/Places.antt =====
-- Making the views again, when the page or the epoch changes.
use slavetat_ui.Base.{
  contains, ℕ, ◌+◌, ◌^◌, ◌≤◌, ◌<◌, ◌≡◌, length, inl, inr, ◌∙◌, Option-cases, refl, arith,
  Bool-cases, ◌==◌, if◌then◌else◌, Text, eq_text, eq_text_iff, List, [], ◌∷◌, ◌++◌, map, Option,
  none, some, is_some, All,
}
use slavetat_ui.Thumbnails.State.{
  placeholder, ready, NativeThumbnailView, NativeThumbnailController, canonicalize_texture_path,
  status_at, negative_status, failure_at,
}
use slavetat_ui.Thumbnails.Controller.{Lookup, place_view, place_views, finish_synchronize, clear}
use slavetat_ui.Thumbnails.Paths.{canonicalize_idem, status_at-snoc}
use slavetat_ui.Thumbnails.Controller.{
  collect_paths, push_view, status_or_placeholder, drop_lookup, enter_epoch, next_generation,
}
use slavetat_ui.Thumbnails.Served.{
  IsRemembered, IsPast, IsServed, IsSound, queue_if_eligible-IsDistinct, queue-fields,
  queue-IsServed,
}

abbrev pub IsCanonicalPath : Text → Type 0
IsCanonicalPath path = canonicalize_texture_path path ≡ path

All-snoc : (P : Text → Type 0) (xs : List Text) (x : Text) → All P xs → P x → All P (xs ++ (x ∷ []))
All-snoc P [] x h k = (k, tt)
All-snoc P (y ∷ ys) x h k = (h.0, All-snoc P ys x h.1 k)

pub collect_paths-canonical :
    (paths rest : List Text)
    → All IsCanonicalPath paths
    → All IsCanonicalPath (collect_paths paths rest)
unfolding collect_paths
collect_paths-canonical paths [] h = h
collect_paths-canonical paths (p ∷ ps) h =
    let q = canonicalize_texture_path p in
    let more = All-snoc IsCanonicalPath paths q h (canonicalize_idem p) in
    elim (Bool-cases (length paths == 6)) [
      | inl e ↦ rw (e, collect_paths) h
      | inr e ↦ elim (Bool-cases (contains q paths)) [
        | inl k ↦ rw (e, k, collect_paths) (collect_paths-canonical paths ps h)
        | inr k ↦ rw (e, k, collect_paths) (collect_paths-canonical (paths ++ (q ∷ [])) ps more)
      ]
    ]

module _ {R : Type 0} where
  push_view-status :
      (path : Text) (v : NativeThumbnailView R) (c : NativeThumbnailController R)
      → status_at path (push_view v c).views ≡ (
          if is_some (status_at path c.views)
          then status_at path c.views
          else if eq_text v.texture_path path
          then some v.status
          else none)
  push_view-status path v c = status_at-snoc path v c.views

  place_view-IsServed :
      (q : Text) (cached : Option R) (c : NativeThumbnailController R) (path : Text)
      → IsCanonicalPath q
      → IsServed c path
      → IsServed (place_view q cached c) path
  unfolding place_view
  place_view-IsServed q cached c path k h = elim (Option-cases (failure_at q c.negative_failures)) [
    | inr (f, e) ↦
        rw (e, place_view)
          (ground (
            arith,
            push_view-status path
                (record {
                  texture_path = q;
                  status = status_or_placeholder (negative_status f);
                  texture = none;
                })
                c,
            eq_text_iff q path,
          ))
    | inl e ↦ elim (Option-cases cached) [
      | inr (t, g) ↦
          rw (e, g, place_view)
            (ground (
              arith,
              push_view-status path (record { texture_path = q; status = ready; texture = some t })
                  c,
              eq_text_iff q path,
            ))
      | inl g ↦
          let v : NativeThumbnailView R = record {
            texture_path = q;
            status = placeholder;
            texture = none;
          } in
          let s = push_view-status path v c in
          rw (e, g, place_view)
            (queue-IsServed q (push_view v c) path k (ground (arith, s, eq_text_iff q path))
              h.remembered (ground (arith, s, eq_text_iff q path)))
    ]
  ]

  place_view-IsSound :
      (q : Text) (cached : Option R) (c : NativeThumbnailController R)
      → IsCanonicalPath q
      → IsSound c
      → IsSound (place_view q cached c)
  unfolding place_view
  place_view-IsSound q cached c k h = record {
    paths = λ path. place_view-IsServed q cached c path k (h.paths path);
    distinct = ground (
      arith,
      h.distinct,
      queue_if_eligible-IsDistinct q
          (push_view (record { texture_path = q; status = placeholder; texture = none }) c)
          h.distinct,
    );
    past = ground (
      arith,
      h.past,
      queue-fields q
          (push_view (record { texture_path = q; status = placeholder; texture = none }) c),
    );
  }

  place_views-IsSound :
      (lookup : Text → Option R) (paths : List Text) (c : NativeThumbnailController R)
      → All IsCanonicalPath paths
      → IsSound c
      → IsSound (place_views (map (λ path. (path, lookup path)) paths) c)
  unfolding place_views
  place_views-IsSound lookup [] c k h = h
  place_views-IsSound lookup (p ∷ ps) c k h =
      place_views-IsSound lookup ps (place_view p (lookup p) c) k.1
        (place_view-IsSound p (lookup p) c k.0 h)

  -- Without views and a queue, and in a new generation, all is sound.
  next_generation-IsSound :
      (c : NativeThumbnailController R)
      → c.generation + 1 < 2 ^ 64
      → ((path : Text) → IsRemembered (failure_at path c.negative_failures))
      → IsPast c.generation c.in_flight
      → IsSound (next_generation c)
  unfolding status_at
  next_generation-IsSound c b r h = record {
    paths = λ path. record { agrees = ground arith; canonical = tt; remembered = r path };
    distinct = tt;
    past = ground arith;
  }

  enter_epoch-IsRemembered :
      (epoch : ℕ) (c : NativeThumbnailController R) (path : Text)
      → IsRemembered (failure_at path c.negative_failures)
      → IsRemembered (failure_at path (enter_epoch epoch c).negative_failures)
  unfolding failure_at
  enter_epoch-IsRemembered epoch c path h = ground arith

  pub finish-IsSound :
      (l : Lookup) (lookup : Text → Option R) (c : NativeThumbnailController R)
      → c.generation + 1 < 2 ^ 64
      → All IsCanonicalPath l.paths
      → IsSound c
      → IsSound (finish_synchronize l lookup c)
  unfolding finish_synchronize
  finish-IsSound l lookup c b k h = elim (Bool-cases (l.revision == c.synchronization_revision)) [
    | inr e ↦ rw (e, finish_synchronize) h
    | inl e ↦
        rw (e, finish_synchronize)
          (place_views-IsSound lookup l.paths _ k (
            next_generation-IsSound (enter_epoch l.epoch (drop_lookup c)) (ground (arith, b))
              (λ path.
                enter_epoch-IsRemembered l.epoch (drop_lookup c) path (h.paths path).remembered)
              (ground (arith, h.past))))
  ]

  pub clear-IsSound :
      (c : NativeThumbnailController R) → c.generation + 1 < 2 ^ 64 → IsSound c → IsSound (clear c)
  unfolding clear failure_at status_at
  clear-IsSound c b h = record {
    paths = λ path. record { agrees = ground (arith, h.past); canonical = tt; remembered = tt };
    distinct = tt;
    past = ground (arith, h.past);
  }

  place_view-generation :
      (q : Text) (cached : Option R) (c : NativeThumbnailController R)
      → (place_view q cached c).generation ≡ c.generation
  unfolding place_view
  place_view-generation q cached c = ground (
    arith,
    queue-fields q
        (push_view (record { texture_path = q; status = placeholder; texture = none }) c),
  )

  place_views-generation :
      (lookup : Text → Option R) (paths : List Text) (c : NativeThumbnailController R)
      → (place_views (map (λ path. (path, lookup path)) paths) c).generation ≡ c.generation
  unfolding place_views
  place_views-generation lookup [] c = refl
  place_views-generation lookup (p ∷ ps) c =
      place_views-generation lookup ps (place_view p (lookup p) c)
      ∙ place_view-generation p (lookup p) c

  pub finish-generation :
      (l : Lookup) (lookup : Text → Option R) (c : NativeThumbnailController R)
      → (finish_synchronize l lookup c).generation ≤ c.generation + 1
  unfolding finish_synchronize
  finish-generation l lookup c = ground (
    arith,
    place_views-generation lookup l.paths (next_generation (enter_epoch l.epoch (drop_lookup c))),
  )
