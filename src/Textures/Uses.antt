-- ===== src/Textures/Uses.antt =====
-- Uses of the cache, and of the bounded list by recency.
use slavetat_ui.Base.{
  ℕ, ◌≡◌, ◌≤◌, refl, arith, ◌∙◌, inl, inr, Option-cases, Text, Map, find_key, List, [], ◌∷◌, Option,
  none, some,
}
use slavetat_ui.Textures.Cache.{
  Entry, TextureCache, new_cache, get, evict, insert_new, get_or_load, prune_expired, clear, size,
}
use slavetat_ui.Textures.Recency.{
  Refines, spec_get, spec_insert, spec_prune, get-Refines, insert-Refines, same_length,
}
use slavetat_ui.Textures.Pruning.{prune-Refines}

module _ {R : Type 0} where
  abbrev pub resource_of : Option (Entry R) → Option R
  resource_of none = none
  resource_of (some e) = some e.resource

  -- The results and the worlds agree, and the cache still holds the list.
  pub record Agrees (capacity : ℕ) (idle_ttl : Option ℕ) (c : TextureCache R) (l : Map (Entry R))
      : Type 0 where
    pub refines : Refines c l
    pub limit : c.capacity ≡ capacity
    pub idle : c.idle_ttl ≡ idle_ttl

  pub get-Agrees :
      (capacity : ℕ) (idle_ttl : Option ℕ) (path : Text) (now : ℕ) (c : TextureCache R)
      (l : Map (Entry R))
      → Agrees capacity idle_ttl c l
      → ((get path now c).0 ≡ resource_of (find_key path l))
        × Agrees capacity idle_ttl (get path now c).1 (spec_get path now l)
  unfolding get
  get-Agrees capacity idle_ttl path now c l h = (
    ground (arith, h.refines.same path),
    record {
      refines = get-Refines path now c l h.refines;
      limit = ground (arith, h.limit);
      idle = ground (arith, h.idle);
    },
  )

  insert-Agrees :
      (capacity : ℕ) (idle_ttl : Option ℕ) (path : Text) (resource : R) (now : ℕ)
      (c : TextureCache R) (l : Map (Entry R))
      → find_key path c.entries ≡ none
      → Agrees capacity idle_ttl c l
      → Agrees capacity idle_ttl
          (insert_new path resource now c)
          (spec_insert capacity path resource now l)
  unfolding insert_new evict
  insert-Agrees capacity idle_ttl path resource now c l e h = record {
    refines = rw (← h.limit) (insert-Refines path resource now c l e h.refines);
    limit = ground (arith, h.limit);
    idle = ground (arith, h.idle);
  }

  pub prune-Agrees :
      (capacity : ℕ) (idle_ttl : Option ℕ) (now : ℕ) (c : TextureCache R) (l : Map (Entry R))
      → Agrees capacity idle_ttl c l
      → Agrees capacity idle_ttl (prune_expired now c) (spec_prune idle_ttl now l)
  unfolding prune_expired
  prune-Agrees capacity idle_ttl now c l h = record {
    refines = rw (← h.idle) (prune-Refines now c l h.refines);
    limit = ground (arith, h.limit);
    idle = ground (arith, h.idle);
  }

  pub clear-Agrees :
      (capacity : ℕ) (idle_ttl : Option ℕ) (c : TextureCache R) (l : Map (Entry R))
      → Agrees capacity idle_ttl c l
      → Agrees capacity idle_ttl (clear c) []
  unfolding clear
  clear-Agrees capacity idle_ttl c l h = record {
    refines = record {
      order = refl;
      distinct = tt;
      once = tt;
      same = λ path. refl;
      bounded = omega arith;
    };
    limit = h.limit;
    idle = h.idle;
  }

  pub new_cache-Agrees :
      (capacity : ℕ) (idle_ttl : Option ℕ)
      → Agrees capacity idle_ttl (new_cache capacity idle_ttl) []
  new_cache-Agrees capacity idle_ttl = record {
    refines = record {
      order = refl;
      distinct = tt;
      once = tt;
      same = λ path. refl;
      bounded = omega arith;
    };
    limit = refl;
    idle = refl;
  }

-- A use of the cache, with a loader that acts on a world `W`.
pub data Use (R W : Type 0) : Type 0 where
  gets : Text → ℕ → Use R W
  loads : Text → (W → Option R × W) → ℕ → Use R W
  prunes : ℕ → Use R W
  clears : Use R W

module _ {R W : Type 0} where
  unfoldable pub use_cache : Use R W → TextureCache R × W → Option R × (TextureCache R × W)
  unfolding get get_or_load prune_expired clear
  use_cache (gets path now) (c, w) = let (found, c') = get path now c in (found, (c', w))
  use_cache (loads path loader now) (c, w) = get_or_load path loader now (c, w)
  use_cache (prunes now) (c, w) = (none, (prune_expired now c, w))
  use_cache clears (c, w) = (none, (clear c, w))

  abbrev pub spec_load :
      ℕ → Text → (W → Option R × W) → ℕ → Map (Entry R) × W → Option R × (Map (Entry R) × W)
  spec_load capacity path loader now (l, w) = elim (find_key path l) [
    | some found ↦ (some found.resource, (spec_get path now l, w))
    | none ↦ elim (loader w).0 [
      | none ↦ (none, (l, (loader w).1))
      | some resource ↦ (some resource, (spec_insert capacity path resource now l, (loader w).1))
    ]
  ]

  -- What the list by recency does, of at most `capacity` entries.
  abbrev pub spec_use : ℕ → Option ℕ → Use R W → Map (Entry R) × W → Option R × (Map (Entry R) × W)
  spec_use capacity idle_ttl (gets path now) (l, w) =
      (resource_of (find_key path l), (spec_get path now l, w))
  spec_use capacity idle_ttl (loads path loader now) (l, w) =
      spec_load capacity path loader now (l, w)
  spec_use capacity idle_ttl (prunes now) (l, w) = (none, (spec_prune idle_ttl now l, w))
  spec_use capacity idle_ttl clears (l, w) = (none, ([], w))

  unfoldable pub use_all :
      List (Use R W) → TextureCache R × W → List (Option R) × (TextureCache R × W)
  unfolding use_cache
  use_all [] s = ([], s)
  use_all (u ∷ us) s =
      let (result, s') = use_cache u s in
      let (results, s'') = use_all us s' in (result ∷ results, s'')

  abbrev pub spec_all :
      ℕ → Option ℕ → List (Use R W) → Map (Entry R) × W → List (Option R) × (Map (Entry R) × W)
  spec_all capacity idle_ttl [] s = ([], s)
  spec_all capacity idle_ttl (u ∷ us) s =
      let (result, s') = spec_use capacity idle_ttl u s in
      let (results, s'') = spec_all capacity idle_ttl us s' in (result ∷ results, s'')

  module _ (capacity : ℕ) (idle_ttl : Option ℕ) where
    pub load-Agrees :
        (path : Text) (loader : W → Option R × W) (now : ℕ) (w : W) (c : TextureCache R)
        (l : Map (Entry R))
        → Agrees capacity idle_ttl c l
        → ((get_or_load path loader now (c, w)).0 ≡ (spec_load capacity path loader now (l, w)).0)
          × ((get_or_load path loader now (c, w)).1.1
              ≡ (spec_load capacity path loader now (l, w)).1.1)
          × Agrees capacity idle_ttl
              (get_or_load path loader now (c, w)).1.0
              (spec_load capacity path loader now (l, w)).1.0
    unfolding get_or_load
    load-Agrees path loader now w c l h =
        let (result, agrees) = get-Agrees capacity idle_ttl path now c l h in
        let same = h.refines.same path in
        elim (Option-cases (find_key path l)) [
          | inr (found, e) ↦ simp (get_or_load, spec_load, result, e) (refl, refl, agrees)
          | inl e ↦ elim (Option-cases (loader w).0) [
            | inl f ↦ simp (get_or_load, spec_load, result, e, f) (refl, refl, h)
            | inr (resource, f) ↦
                simp (get_or_load, spec_load, result, e, f)
                  (refl, refl, insert-Agrees capacity idle_ttl path resource now c l (same ∙ e) h)
          ]
        ]

    use-Agrees :
        (u : Use R W) (w : W) (c : TextureCache R) (l : Map (Entry R))
        → Agrees capacity idle_ttl c l
        → ((use_cache u (c, w)).0 ≡ (spec_use capacity idle_ttl u (l, w)).0)
          × ((use_cache u (c, w)).1.1 ≡ (spec_use capacity idle_ttl u (l, w)).1.1)
          × Agrees capacity idle_ttl
              (use_cache u (c, w)).1.0
              (spec_use capacity idle_ttl u (l, w)).1.0
    unfolding use_cache
    use-Agrees (gets path now) w c l h =
        let (result, agrees) = get-Agrees capacity idle_ttl path now c l h in (result, refl, agrees)
    use-Agrees (loads path loader now) w c l h = load-Agrees path loader now w c l h
    use-Agrees (prunes now) w c l h = (refl, refl, prune-Agrees capacity idle_ttl now c l h)
    use-Agrees clears w c l h = (refl, refl, clear-Agrees capacity idle_ttl c l h)

    use_both :
        (u : Use R W) (s : TextureCache R × W) (t : Map (Entry R) × W)
        → s.1 ≡ t.1
        → Agrees capacity idle_ttl s.0 t.0
        → ((use_cache u s).0 ≡ (spec_use capacity idle_ttl u t).0)
          × ((use_cache u s).1.1 ≡ (spec_use capacity idle_ttl u t).1.1)
          × Agrees capacity idle_ttl (use_cache u s).1.0 (spec_use capacity idle_ttl u t).1.0
    use_both u (c, w) (l, v) e h = rw (← e) (use-Agrees u w c l h)

    use_all-Agrees :
        (us : List (Use R W)) (s : TextureCache R × W) (t : Map (Entry R) × W)
        → s.1 ≡ t.1
        → Agrees capacity idle_ttl s.0 t.0
        → ((use_all us s).0 ≡ (spec_all capacity idle_ttl us t).0)
          × ((use_all us s).1.1 ≡ (spec_all capacity idle_ttl us t).1.1)
          × Agrees capacity idle_ttl (use_all us s).1.0 (spec_all capacity idle_ttl us t).1.0
    unfolding use_all
    use_all-Agrees [] s t e h = (refl, e, h)
    use_all-Agrees (u ∷ us) s t e h =
        let (result, world, agrees) = use_both u s t e h in
        let (results, worlds, after) =
          use_all-Agrees us (use_cache u s).1 (spec_use capacity idle_ttl u t).1 world agrees in
        (rw (result, results) refl, worlds, after)

    pub use_all-new-Agrees :
        (us : List (Use R W)) (w : W)
        → let (results, (c, world)) = use_all us (new_cache capacity idle_ttl, w) in
          let (listed, (l, listed_world)) = spec_all capacity idle_ttl us ([], w) in
          (results ≡ listed) × (world ≡ listed_world) × Agrees capacity idle_ttl c l
    use_all-new-Agrees us w =
        use_all-Agrees us (new_cache capacity idle_ttl, w) ([], w) refl
          (new_cache-Agrees capacity idle_ttl)

    -- Any use of a new cache gives the results, and acts on the world of its loaders, as a list by
    -- recency does that is cut at the capacity; the recency list has the order of that list, each
    -- path finds what it finds there, and there are never more entries than the capacity.
    pub use_all-Refines :
        (us : List (Use R W)) (w : W)
        → let (results, (c, world)) = use_all us (new_cache capacity idle_ttl, w) in
          let (listed, (l, listed_world)) = spec_all capacity idle_ttl us ([], w) in
          (results ≡ listed) × (world ≡ listed_world) × Refines c l × (size c ≤ capacity)
    use_all-Refines us w =
        let (results, worlds, after) = use_all-new-Agrees us w in
        let r = after.refines in
        (
          results,
          worlds,
          r,
          omega (arith, same_length _ _ r.once r.distinct r.same, r.bounded, after.limit),
        )
