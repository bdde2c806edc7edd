-- ===== src/Textures/Manager/Shared.antt =====
-- Uploading a texture and asking for it again, under another spelling of its path.
use slavetat_ui.Base.{
  ℕ, ◌≡◌, ◌≤◌, refl, arith, ap, sym, ◌∙◌, inl, inr, ◌⊎◌, Option-cases, Text, Map, eq_text_refl,
  find_key, find_key-set_key, take, zero, suc, List, ◌∷◌, Option, none, some,
}
use slavetat_ui.Textures.Cache.{Entry, TextureCache, new_cache, get, get_or_load, insert_new}
use slavetat_ui.Textures.Recency.{Refines, insert-Refines}
use slavetat_ui.Textures.Uses.{Use, use_all, use_all-new-Agrees}
use slavetat_ui.Textures.Manager.{
  TextureManagerError, Managed, given, refused, uploaded, normalize_path, find_or_upload, find,
}

pub Managed-cases :
    {A : Type 0} (m : Managed A)
    → ((e : TextureManagerError) × (m ≡ refused e)) ⊎ ((a : A) × (m ≡ given a))
Managed-cases (refused e) = inl (e, refl)
Managed-cases (given a) = inr (a, refl)

module _ {R : Type 0} where
  pub get-found :
      (path : Text) (now : ℕ) (c : TextureCache R) (e : Entry R)
      → find_key path c.entries ≡ some e
      → ((get path now c).0 ≡ some e.resource)
        × (find_key path (get path now c).1.entries ≡ some (record e { last_access = now }))
  unfolding get
  get-found path now c e h = (
    ground (arith, h),
    ground (
      arith,
      h,
      find_key-set_key path path (record e { last_access = now }) c.entries,
      eq_text_refl path,
    ),
  )

  take-found :
      (n : ℕ) (path : Text) (e : Entry R) (l : Map (Entry R))
      → 1 ≤ n
      → find_key path (take n ((path, e) ∷ l)) ≡ some e
  take-found zero path e l b = ground (arith, b)
  take-found (suc n) path e l b = ground (arith, eq_text_refl path)

  -- What is put in front is found, if there is room for one.
  insert_new-found :
      (path : Text) (resource : R) (now : ℕ) (c : TextureCache R) (l : Map (Entry R))
      → Refines c l
      → 1 ≤ c.capacity
      → find_key path c.entries ≡ none
      → find_key path (insert_new path resource now c).entries
        ≡ some (record { resource = resource; last_access = now })
  insert_new-found path resource now c l r b h =
      (insert-Refines path resource now c l h r).same path
      ∙ take-found c.capacity path (record { resource = resource; last_access = now }) l b

  uploaded_inv : (o : Option R) (r : R) → uploaded o ≡ given r → o ≡ some r
  uploaded_inv none r h = cc
  uploaded_inv (some s) r h = ground (arith, h)

  pub find-hit :
      (path key : Text) (now : ℕ) (c : TextureCache R) (e : Entry R)
      → normalize_path path ≡ given key
      → find_key key c.entries ≡ some e
      → (find path now c).0 ≡ some e.resource
  unfolding find
  find-hit path key now c e h k = rw (h, find) (get-found key now c e k).0

  find-given :
      (path key : Text) (now : ℕ) (c : TextureCache R)
      → normalize_path path ≡ given key
      → find path now c ≡ get key now c
  unfolding find
  find-given path key now c h = rw (h, find) refl

  -- What was found is found again, under each path that is normalized to the same text.
  pub find-again :
      (path other : Text) (now later : ℕ) (c : TextureCache R) (resource : R)
      → normalize_path other ≡ normalize_path path
      → (find path now c).0 ≡ some resource
      → (find other later (find path now c).1).0 ≡ some resource
  unfolding find get
  find-again path other now later c resource same h = elim (Managed-cases (normalize_path path)) [
    | inl (e, f) ↦ ground (arith, h, f)
    | inr (key, f) ↦ elim (Option-cases (find_key key c.entries)) [
      | inl e ↦ ground (arith, h, find-given path key now c f, e)
      | inr (found, e) ↦
          let hit = get-found key now c found e in
          let first = find-given path key now c f in
          let there : find_key key (find path now c).1.entries
              ≡ some (record found { last_access = now }) =
            ap (λ x. find_key key x.1.entries) first ∙ hit.1 in
          find-hit other key later (find path now c).1 (record found { last_access = now })
            (same ∙ f) there
          ∙ sym hit.0
          ∙ sym (ap (λ x. x.0) first)
          ∙ h
    ]
  ]

module _ {R W : Type 0} where
  load-hit :
      (path : Text) (loader : W → Option R × W) (now : ℕ) (c : TextureCache R) (w : W) (e : Entry R)
      → find_key path c.entries ≡ some e
      → get_or_load path loader now (c, w) ≡ (some e.resource, ((get path now c).1, w))
  unfolding get_or_load
  load-hit path loader now c w e h = rw ((get-found path now c e h).0, get_or_load) refl

  load-miss :
      (path : Text) (loader : W → Option R × W) (now : ℕ) (c : TextureCache R) (w : W) (made : R)
      → find_key path c.entries ≡ none
      → (get_or_load path loader now (c, w)).0 ≡ some made
      → (get_or_load path loader now (c, w)).1.0 ≡ insert_new path made now c
  unfolding get get_or_load
  load-miss path loader now c w made h k = elim (Option-cases (loader w).0) [
    | inl g ↦ ground (arith, k, h, g)
    | inr (r, g) ↦
        let same : r ≡ made = ground (arith, k, h, g) in rw (h, get_or_load, get, g, same) refl
  ]

  -- After it is loaded, the path has its resource.
  load-found :
      (path : Text) (loader : W → Option R × W) (now : ℕ) (c : TextureCache R) (w : W)
      (l : Map (Entry R)) (resource : R)
      → Refines c l
      → 1 ≤ c.capacity
      → (get_or_load path loader now (c, w)).0 ≡ some resource
      → (e : Entry R) × (find_key path (get_or_load path loader now (c, w)).1.0.entries ≡ some e)
        × (e.resource ≡ resource)
  load-found path loader now c w l resource r b h = elim (Option-cases (find_key path c.entries)) [
    | inr (found, f) ↦
        let hit = load-hit path loader now c w found f in
        (
          record found { last_access = now },
          ap (λ x. find_key path x.1.0.entries) hit ∙ (get-found path now c found f).1,
          ground (arith, h, hit),
        )
    | inl f ↦ (
      record { resource = resource; last_access = now },
      ap (λ x. find_key path x.entries) (load-miss path loader now c w resource f h)
          ∙ insert_new-found path resource now c l r b f,
      refl,
    )
  ]

  upload-hit :
      (path key : Text) (dds_bytes : List ℕ) (uploader : List ℕ → W → Option R × W) (now : ℕ)
      (c : TextureCache R) (w : W) (e : Entry R)
      → normalize_path path ≡ given key
      → find_key key c.entries ≡ some e
      → find_or_upload path dds_bytes uploader now (c, w)
        ≡ (given e.resource, ((get key now c).1, w))
  unfolding find_or_upload
  upload-hit path key dds_bytes uploader now c w e h k =
      rw (h, find_or_upload, load-hit key (uploader dds_bytes) now c w e k) refl

  upload-given :
      (path key : Text) (dds_bytes : List ℕ) (uploader : List ℕ → W → Option R × W) (now : ℕ)
      (c : TextureCache R) (w : W)
      → normalize_path path ≡ given key
      → find_or_upload path dds_bytes uploader now (c, w) ≡ (
          let (resource, s) = get_or_load key (uploader dds_bytes) now (c, w) in
          (uploaded resource, s))
  unfolding find_or_upload
  upload-given path key dds_bytes uploader now c w h = rw (h, find_or_upload) refl

  pub shared_from :
      (c : TextureCache R) (w : W) (l : Map (Entry R)) (path other : Text)
      (bytes other_bytes : List ℕ) (uploader other_uploader : List ℕ → W → Option R × W)
      (now later : ℕ) (resource : R)
      → Refines c l
      → 1 ≤ c.capacity
      → normalize_path other ≡ normalize_path path
      → (find_or_upload path bytes uploader now (c, w)).0 ≡ given resource
      → let after = (find_or_upload path bytes uploader now (c, w)).1 in
        let again = find_or_upload other other_bytes other_uploader later after in
        ((find other later after.0).0 ≡ some resource)
        × (again.0 ≡ given resource)
        × (again.1.1 ≡ after.1)
  unfolding find_or_upload
  shared_from c w l path other bytes other_bytes uploader other_uploader now later resource r b same
        h =
      elim (Managed-cases (normalize_path path)) [
        | inl (e, f) ↦ ground (arith, h, f)
        | inr (key, f) ↦
            let up = upload-given path key bytes uploader now c w f in
            let loaded = uploaded_inv _ resource (sym (ap (λ x. x.0) up) ∙ h) in
            let (e, found, held) = load-found key (uploader bytes) now c w l resource r b loaded in
            let after = (find_or_upload path bytes uploader now (c, w)).1 in
            let there : find_key key after.0.entries ≡ some e =
              ap (λ x. find_key key x.1.0.entries) up ∙ found in
            let again =
              upload-hit other key other_bytes other_uploader later after.0 after.1 e (same ∙ f)
                there in
            (
              find-hit other key later after.0 e (same ∙ f) there ∙ ap some held,
              ap (λ x. x.0) again ∙ ap given held,
              ap (λ x. x.1.1) again,
            )
      ]

  -- After any use of a new cache with room for one texture or more, a texture that was found or
  -- uploaded is found under each path that is normalized to the same text up to case, and asking
  -- for it again gives it without the uploader being called.
  uploaded_shared :
      (capacity : ℕ) (idle_ttl : Option ℕ) (us : List (Use R W)) (w : W) (path other : Text)
      (bytes other_bytes : List ℕ) (uploader other_uploader : List ℕ → W → Option R × W)
      (now later : ℕ) (resource : R)
      → 1 ≤ capacity
      → normalize_path other ≡ normalize_path path
      → (find_or_upload path bytes uploader now (use_all us (new_cache capacity idle_ttl, w)).1).0
        ≡ given resource
      → let after =
          (find_or_upload path bytes uploader now
            (use_all us (new_cache capacity idle_ttl, w)).1).1 in
        let again = find_or_upload other other_bytes other_uploader later after in
        ((find other later after.0).0 ≡ some resource)
        × (again.0 ≡ given resource)
        × (again.1.1 ≡ after.1)
  uploaded_shared capacity idle_ttl us w path other bytes other_bytes uploader other_uploader now
        later resource b same h =
      let (results, worlds, agrees) = use_all-new-Agrees capacity idle_ttl us w in
      let (c, v) = (use_all us (new_cache capacity idle_ttl, w)).1 in
      shared_from c v _ path other bytes other_bytes uploader other_uploader now later resource
        agrees.refines (omega (arith, b, agrees.limit)) same h
