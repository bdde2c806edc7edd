-- ===== src/Thumbnails/Reloading.antt =====
-- Uses of the textures' source, and a texture that is loaded after them.
use mathlib.Core.Path.{subst}
use slavetat_ui.Base.{
  ℕ, ◌≡◌, ◌≤◌, arith, sym, ap, inl, inr, Bool, true, false, Bool-cases, Text, Map, List, [], ◌∷◌,
  Option, none, some,
}
use slavetat_ui.Textures.Resolver.{Resolved, ok, unexpected}
use slavetat_ui.Textures.Loading.{ResolvedTexture, TextureArchiveReader}
use slavetat_ui.Textures.Cache.{Entry, TextureCache}
use slavetat_ui.Textures.Uses.{
  Agrees, get-Agrees, prune-Agrees, clear-Agrees, load-Agrees, new_cache-Agrees,
}
use slavetat_ui.Textures.Manager.{Managed, given, refused, normalize_path, find, find_or_upload}
use slavetat_ui.Textures.Manager.Shared.{Managed-cases}
use slavetat_ui.Thumbnails.Controller.{loaded}
use slavetat_ui.Thumbnails.Source.{
  Surroundings, D3D11NativeThumbnailSource, new_source, CancellationCheck, is_cancelled, SourceCall,
  find_texture, caught, after_upload, upload_texture, try_resolve, after_try_resolve, after_find,
  load_texture, texture_source,
}
use slavetat_ui.Thumbnails.Reloads.{looked, load-live, load-Finds, load-hit, find_texture-hit}

pub data SourceUse : Type 0 where
  finds : Text → ℕ → SourceUse
  loads : Text → CancellationCheck → ℕ → SourceUse
  prunes : ℕ → SourceUse
  clears : SourceUse

module _ {R P W : Type 0} (around : Surroundings R P W) where
  unfoldable pub use_source : SourceUse → SourceCall R P W → SourceCall R P W
  unfolding find_texture load_texture
  use_source (finds path now) (s, w) = ((find_texture path now s).1, w)
  use_source (loads path check now) s = (load_texture around path check now s).1
  use_source (prunes now) s = (texture_source around).prune_expired now s
  use_source clears s = (texture_source around).clear s

  unfoldable pub use_source_all : List SourceUse → SourceCall R P W → SourceCall R P W
  unfolding use_source
  use_source_all [] s = s
  use_source_all (u ∷ us) s = use_source_all us (use_source u s)

module _ {R : Type 0} (capacity : ℕ) (idle_ttl : Option ℕ) where
  -- The cache holds some list by recency.
  abbrev IsKept : TextureCache R → Type 0
  IsKept c = (l : Map (Entry R)) × Agrees capacity idle_ttl c l

  find-IsKept : (path : Text) (now : ℕ) (c : TextureCache R) → IsKept c → IsKept (find path now c).1
  unfolding find
  find-IsKept path now c (l, a) = elim (Managed-cases (normalize_path path)) [
    | inl (e, f) ↦ rw (f, find) (l, a)
    | inr (key, f) ↦ rw (f, find) (_, (get-Agrees capacity idle_ttl key now c l a).1)
  ]

  find_or_upload-IsKept :
      {W : Type 0} (path : Text) (bytes : List ℕ) (uploader : List ℕ → W → Option R × W) (now : ℕ)
      (c : TextureCache R) (w : W)
      → IsKept c
      → IsKept (find_or_upload path bytes uploader now (c, w)).1.0
  unfolding find_or_upload
  find_or_upload-IsKept path bytes uploader now c w (l, a) =
      elim (Managed-cases (normalize_path path)) [
        | inl (e, f) ↦ rw (f, find_or_upload) (l, a)
        | inr (key, f) ↦
            let (result, world, after) =
              load-Agrees capacity idle_ttl key (uploader bytes) now w c l a in
            rw (f, find_or_upload) (_, after)
      ]

  module _ {P W : Type 0} (around : Surroundings R P W) where
    abbrev KeepsSource : SourceCall R P W → Type 0
    KeepsSource s = IsKept s.0.m_manager

    after_upload-Keeps :
        (path : Text) (s : D3D11NativeThumbnailSource R P W)
        (u : Managed R × (TextureCache R × (Bool × W)))
        → IsKept u.1.0
        → KeepsSource (after_upload around path s u).1
    after_upload-Keeps path s (given r, (cache, (flag, w))) k = k
    after_upload-Keeps path s (refused e, (cache, (true, w))) k = k
    after_upload-Keeps path s (refused e, (cache, (false, w))) k = k

    after_try_resolve-Keeps :
        (path : Text) (check : CancellationCheck) (now : ℕ) (s : D3D11NativeThumbnailSource R P W)
        (o : Option (Resolved ResolvedTexture) × W)
        → IsKept s.m_manager
        → KeepsSource (after_try_resolve around path check now s o).1
    unfolding after_try_resolve upload_texture
    after_try_resolve-Keeps path check now s (none, w) k = k
    after_try_resolve-Keeps path check now s (some (unexpected e), w) k = k
    after_try_resolve-Keeps path check now s (some (ok t), w) k =
        elim (Bool-cases (is_cancelled check 1)) [
          | inl e ↦ rw e k
          | inr e ↦ elim (Bool-cases (is_cancelled check 2)) [
            | inl e' ↦ rw (e, e') k
            | inr e' ↦
                rw (e, e')
                  (after_upload-Keeps path s
                    (find_or_upload t.normalized_path t.bytes (caught around) now
                      (s.m_manager, (false, w)))
                    (find_or_upload-IsKept t.normalized_path t.bytes (caught around) now s.m_manager
                      (false, w) k))
          ]
        ]

    after_find-Keeps :
        (path : Text) (check : CancellationCheck) (now : ℕ) (w : W)
        (o : Option R × D3D11NativeThumbnailSource R P W)
        → IsKept o.1.m_manager
        → KeepsSource (after_find around path check now w o).1
    after_find-Keeps path check now w (some cached, s) k = k
    after_find-Keeps path check now w (none, s) k =
        after_try_resolve-Keeps path check now s (try_resolve around path (s, w)) k

    load-Keeps :
        (path : Text) (check : CancellationCheck) (now : ℕ) (s : SourceCall R P W)
        → KeepsSource s
        → KeepsSource (load_texture around path check now s).1
    unfolding load_texture find_texture
    load-Keeps path check now (s, w) k = elim (Bool-cases s.m_available) [
      | inr e ↦ rw e k
      | inl e ↦ elim (Bool-cases (is_cancelled check 0)) [
        | inl e' ↦ rw (e, e') k
        | inr e' ↦
            subst (λ r. KeepsSource r.1) (sym (load-live around path check now s w e e'))
              (after_find-Keeps path check now w ((find path now s.m_manager).0, looked path now s)
                (find-IsKept path now s.m_manager k))
      ]
    ]

    use-Keeps :
        (u : SourceUse) (s : SourceCall R P W) → KeepsSource s → KeepsSource (use_source around u s)
    unfolding use_source find_texture
    use-Keeps (finds path now) (s, w) k = elim (Bool-cases s.m_available) [
      | inr e ↦ rw e k
      | inl e ↦ rw e (find-IsKept path now s.m_manager k)
    ]
    use-Keeps (loads path check now) s k = load-Keeps path check now s k
    use-Keeps (prunes now) (s, w) (l, a) = (_, prune-Agrees capacity idle_ttl now s.m_manager l a)
    use-Keeps clears (s, w) (l, a) = (_, clear-Agrees capacity idle_ttl s.m_manager l a)

    use_all-Keeps :
        (us : List SourceUse) (s : SourceCall R P W)
        → KeepsSource s
        → KeepsSource (use_source_all around us s)
    unfolding use_source_all
    use_all-Keeps [] s k = k
    use_all-Keeps (u ∷ us) s k = use_all-Keeps us (use_source around u s) (use-Keeps u s k)

-- After any use of a new source with room for one texture or more, a texture that a load gives is
-- found under each path that is normalized to the same text up to case, and a later load under such
-- a path that is current when it starts gives it and acts on nothing: no file is read, nothing is
-- uploaded.
pub load_texture-again :
    {R P W : Type 0} (around : Surroundings R P W) (root : P) (device : Bool) (capacity : ℕ)
    (idle_ttl : Option ℕ) (reader : Option (TextureArchiveReader W)) (us : List SourceUse) (w : W)
    (path other : Text) (check again : CancellationCheck) (now later : ℕ) (resource : R)
    → 1 ≤ capacity
    → normalize_path other ≡ normalize_path path
    → is_cancelled again 0 ≡ false
    → let before = use_source_all around us (new_source root device capacity idle_ttl reader, w) in
      let first = load_texture around path check now before in
      let second = load_texture around other again later first.1 in
      first.0 ≡ loaded resource
      → ((find_texture other later first.1.0).0 ≡ some resource)
        × (second.0 ≡ loaded resource)
        × (second.1.1 ≡ first.1.1)
load_texture-again around root device capacity idle_ttl reader us w path other check again now later
      resource room same current h =
    let (s, v) = use_source_all around us (new_source root device capacity idle_ttl reader, w) in
    let (l, a) =
      use_all-Keeps capacity idle_ttl around us (new_source root device capacity idle_ttl reader, w)
        ([], new_cache-Agrees capacity idle_ttl) in
    let held =
      load-Finds around path check now s v l resource a.refines (omega (arith, room, a.limit)) h in
    let (t, u) = (load_texture around path check now (s, v)).1 in
    let hit = load-hit around path other again later t u resource held same current in
    (find_texture-hit path other later t resource held same, ap (λ r. r.0) hit, ap (λ r. r.1.1) hit)
