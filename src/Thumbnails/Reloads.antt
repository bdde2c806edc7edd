-- ===== src/Thumbnails/Reloads.antt =====
-- What a texture that was loaded leaves: the source finds it again.
use mathlib.Core.Path.{subst}
use slavetat_ui.Base.{
  ℕ, ◌≡◌, ◌≤◌, refl, arith, sym, ap, ◌∙◌, inl, inr, Bool, true, false, Bool-cases, Option-cases,
  Text, Map, Option, none, some,
}
use slavetat_ui.Textures.Resolver.{Resolved, ok, unexpected, normalize}
use slavetat_ui.Textures.Loading.{ResolvedTexture}
use slavetat_ui.Textures.Loading.Named.{resolve-named, same_key}
use slavetat_ui.Textures.Cache.{Entry, TextureCache, get}
use slavetat_ui.Textures.Recency.{Refines, spec_get, get-Refines}
use slavetat_ui.Textures.Manager.{Managed, given, refused, normalize_path, find, find_or_upload}
use slavetat_ui.Textures.Manager.Shared.{Managed-cases, find-again, shared_from}
use slavetat_ui.Thumbnails.Controller.{loaded}
use slavetat_ui.Thumbnails.Source.{
  Surroundings, D3D11NativeThumbnailSource, CancellationCheck, is_cancelled, find_texture, caught,
  after_upload, upload_texture, try_resolve, after_try_resolve, after_find, load_texture,
}

find-Refines :
    {R : Type 0} (path : Text) (now : ℕ) (c : TextureCache R) (l : Map (Entry R))
    → Refines c l
    → (l' : Map (Entry R)) × Refines (find path now c).1 l'
      × ((find path now c).1.capacity ≡ c.capacity)
unfolding find get
find-Refines path now c l r = elim (Managed-cases (normalize_path path)) [
  | inl (e, f) ↦ (l, rw (f, find) r, ground (arith, f))
  | inr (key, f) ↦ (spec_get key now l, rw (f, find) (get-Refines key now c l r), ground (arith, f))
]

module _ {R P W : Type 0} where
  -- What the source is, once a texture is looked up in it.
  abbrev pub looked : Text → ℕ → D3D11NativeThumbnailSource R P W → D3D11NativeThumbnailSource R P W
  looked path now s = record s { m_manager = (find path now s.m_manager).1 }

  -- The source has the texture under a path, however it is spelled.
  pub record Finds (path : Text) (resource : R) (s : D3D11NativeThumbnailSource R P W)
      : Type 0 where
    pub live : s.m_available ≡ true
    pub found :
        (other : Text) (later : ℕ)
        → normalize_path other ≡ normalize_path path
        → (find other later s.m_manager).0 ≡ some resource

  pub find_texture-hit :
      (path other : Text) (later : ℕ) (s : D3D11NativeThumbnailSource R P W) (resource : R)
      → Finds path resource s
      → normalize_path other ≡ normalize_path path
      → (find_texture other later s).0 ≡ some resource
  unfolding find_texture
  find_texture-hit path other later s resource f same = rw f.live (f.found other later same)

  module _ (around : Surroundings R P W) where
    after_upload-loaded :
        (path : Text) (s : D3D11NativeThumbnailSource R P W)
        (u : Managed R × (TextureCache R × (Bool × W))) (resource : R)
        → (after_upload around path s u).0 ≡ loaded resource
        → (u.0 ≡ given resource)
          × ((after_upload around path s u).1.0 ≡ record s { m_manager = u.1.0 })
    after_upload-loaded path s (given made, (cache, (flag, w))) resource h =
        (ground (arith, h), refl)
    after_upload-loaded path s (refused e, (cache, (true, w))) resource h = cc
    after_upload-loaded path s (refused e, (cache, (false, w))) resource h = cc

    upload-Finds :
        (path : Text) (t : ResolvedTexture) (now : ℕ) (s : D3D11NativeThumbnailSource R P W) (w : W)
        (l : Map (Entry R)) (resource : R)
        → s.m_available ≡ true
        → Refines s.m_manager l
        → 1 ≤ s.m_manager.capacity
        → normalize path ≡ ok t.normalized_path
        → (upload_texture around path t now (s, w)).0 ≡ loaded resource
        → Finds path resource (upload_texture around path t now (s, w)).1.0
    unfolding upload_texture
    upload-Finds path t now s w l resource live r b named h =
        let result =
          find_or_upload t.normalized_path t.bytes (caught around) now (s.m_manager, (false, w)) in
        let (taken, kept) = after_upload-loaded path s result resource h in
        record {
          live = rw kept live;
          found = λ other later same. rw kept (
              (shared_from s.m_manager (false, w) l t.normalized_path other t.bytes t.bytes
                (caught around) (caught around) now later resource r b
                (same ∙ sym (same_key path t.normalized_path named)) taken).0);
        }

    resolve-Finds :
        (path : Text) (check : CancellationCheck) (now : ℕ) (s : D3D11NativeThumbnailSource R P W)
        (l : Map (Entry R)) (resource : R) (o : Option (Resolved ResolvedTexture) × W)
        → s.m_available ≡ true
        → Refines s.m_manager l
        → 1 ≤ s.m_manager.capacity
        → ((t : ResolvedTexture) → o.0 ≡ some (ok t) → normalize path ≡ ok t.normalized_path)
        → (after_try_resolve around path check now s o).0 ≡ loaded resource
        → Finds path resource (after_try_resolve around path check now s o).1.0
    unfolding after_try_resolve
    resolve-Finds path check now s l resource (none, w) live r b named h = cc
    resolve-Finds path check now s l resource (some (unexpected e), w) live r b named h = cc
    resolve-Finds path check now s l resource (some (ok t), w) live r b named h =
        elim (Bool-cases (is_cancelled check 1)) [
          | inl e ↦ ground (arith, h, e)
          | inr e ↦ elim (Bool-cases (is_cancelled check 2)) [
            | inl e' ↦ ground (arith, h, e, e')
            | inr e' ↦
                rw (e, e')
                  (upload-Finds path t now s w l resource live r b (named t refl) (rw (e, e') at h))
          ]
        ]

    try_resolve-named :
        (path : Text) (s : D3D11NativeThumbnailSource R P W) (w : W) (t : ResolvedTexture)
        → (try_resolve around path (s, w)).0 ≡ some (ok t)
        → normalize path ≡ ok t.normalized_path
    unfolding try_resolve
    try_resolve-named path s w t h = elim (Option-cases (around.resolve_throws path w)) [
      | inr (left, e) ↦ ground (arith, h, e)
      | inl e ↦
          resolve-named around.files s.loose_root path s.m_archive_reader w t (ground (arith, h, e))
    ]

    after_find-Finds :
        (path : Text) (check : CancellationCheck) (now : ℕ) (w : W)
        (o : Option R × D3D11NativeThumbnailSource R P W) (l : Map (Entry R)) (resource : R)
        → o.1.m_available ≡ true
        → Refines o.1.m_manager l
        → 1 ≤ o.1.m_manager.capacity
        → ((cached : R) → o.0 ≡ some cached → Finds path cached o.1)
        → (after_find around path check now w o).0 ≡ loaded resource
        → Finds path resource (after_find around path check now w o).1.0
    after_find-Finds path check now w (some cached, s) l resource live r b hit h =
        let same : cached ≡ resource = ground (arith, h) in
        subst (λ x. Finds path x s) same (hit cached refl)
    after_find-Finds path check now w (none, s) l resource live r b hit h =
        resolve-Finds path check now s l resource (try_resolve around path (s, w)) live r b
          (try_resolve-named path s w) h

    pub load-live :
        (path : Text) (check : CancellationCheck) (now : ℕ) (s : D3D11NativeThumbnailSource R P W)
        (w : W)
        → s.m_available ≡ true
        → is_cancelled check 0 ≡ false
        → load_texture around path check now (s, w)
          ≡ after_find around path check now w ((find path now s.m_manager).0, looked path now s)
    unfolding load_texture find_texture
    load-live path check now s w e e' = rw (e, e') refl

    pub load-Finds :
        (path : Text) (check : CancellationCheck) (now : ℕ) (s : D3D11NativeThumbnailSource R P W)
        (w : W) (l : Map (Entry R)) (resource : R)
        → Refines s.m_manager l
        → 1 ≤ s.m_manager.capacity
        → (load_texture around path check now (s, w)).0 ≡ loaded resource
        → Finds path resource (load_texture around path check now (s, w)).1.0
    unfolding load_texture
    load-Finds path check now s w l resource r b h = elim (Bool-cases s.m_available) [
      | inr e ↦ ground (arith, h, e)
      | inl e ↦ elim (Bool-cases (is_cancelled check 0)) [
        | inl e' ↦ ground (arith, h, e, e')
        | inr e' ↦
            let live = load-live path check now s w e e' in
            let (kept, refines, room) = find-Refines path now s.m_manager l r in
            subst (λ x. Finds path resource x.1.0) (sym live)
              (after_find-Finds path check now w ((find path now s.m_manager).0, looked path now s)
                kept resource e refines (rw room b)
                (λ cached f. record {
                  live = e;
                  found =
                      λ other later same. find-again path other now later s.m_manager cached same f;
                })
                (sym (ap (λ x. x.0) live) ∙ h))
      ]
    ]

    -- A texture that the source has is given without a call.
    pub load-hit :
        (path other : Text) (check : CancellationCheck) (now : ℕ)
        (s : D3D11NativeThumbnailSource R P W) (w : W) (resource : R)
        → Finds path resource s
        → normalize_path other ≡ normalize_path path
        → is_cancelled check 0 ≡ false
        → load_texture around other check now (s, w) ≡ (loaded resource, (looked other now s, w))
    load-hit path other check now s w resource f same e =
        load-live other check now s w f.live e
        ∙ ap (λ o. after_find around other check now w (o, looked other now s))
            (f.found other now same)
