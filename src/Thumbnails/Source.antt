-- ===== src/Thumbnails/Source.antt =====
-- src/native/D3D11NativeThumbnailSource.{h,cpp}, with the methods of src/textures/D3D11TextureManager.cpp. The
-- device, the observer of failures and what makes the resolver throw are parameters that act on a world `W`,
-- as the file system and the reader of the archives do.
use slavetat_ui.Base.{ℕ, Bool, true, false, not, if◌then◌else◌, Text, List, Option, none, some}
use slavetat_ui.Textures.Resolver.{
  TextureResolveError, invalid_path, not_found, read_failed, Resolved, ok, unexpected,
}
use slavetat_ui.Textures.Loading.{FileSystem, ResolvedTexture, TextureArchiveReader, resolve}
use slavetat_ui.Textures.Cache.{TextureCache, new_cache, prune_expired, clear}
use slavetat_ui.Textures.Manager.{Managed, given, refused, find, find_or_upload}
use slavetat_ui.Thumbnails.State.{
  NativeThumbnailFailure, is_missing, is_broken, device_unavailable, cancelled,
}
use slavetat_ui.Thumbnails.Controller.{Loaded, loaded, failed}
use slavetat_ui.Thumbnails.Runtime.{NativeThumbnailTextureSource}

pub data NativeThumbnailFailureStage : Type 0 where
  at_resolve at_upload at_exception : NativeThumbnailFailureStage

-- The uploader gives a texture or a null pointer, or it throws.
pub data Upload (R : Type 0) : Type 0 where
  made : R → Upload R
  null : Upload R
  threw : Upload R

-- What the source calls. `resolve_throws` gives the world that is left if the resolver throws; an observer of
-- `none` is an empty `std::function`.
pub record Surroundings (R P W : Type 0) : Type 0 where
  pub files : FileSystem P W
  pub resolve_throws : Text → W → Option W
  pub upload : List ℕ → W → Upload R × W
  pub failure_observer : Option (Text → NativeThumbnailFailureStage → W → W)

pub record D3D11NativeThumbnailSource (R P W : Type 0) : Type 0 where
  pub m_available : Bool
  pub loose_root : P
  pub m_manager : TextureCache R
  pub m_archive_reader : Option (TextureArchiveReader W)

abbrev pub new_source :
    {R P W : Type 0}
    → P
    → Bool
    → ℕ
    → Option ℕ
    → Option (TextureArchiveReader W)
    → D3D11NativeThumbnailSource R P W
new_source loose_root device capacity idle_ttl archive_reader = record {
  m_available = device;
  loose_root = loose_root;
  m_manager = new_cache capacity idle_ttl;
  m_archive_reader = archive_reader;
}

abbrev pub map_resolve_error : TextureResolveError → NativeThumbnailFailure
map_resolve_error not_found = is_missing
map_resolve_error invalid_path = is_broken
map_resolve_error read_failed = is_broken

-- The answers of the check for cancellation, by the number of calls before; `none` is an empty one.
abbrev pub CancellationCheck : Type 0
CancellationCheck = Option (ℕ → Bool)

abbrev pub is_cancelled : CancellationCheck → ℕ → Bool
is_cancelled none n = false
is_cancelled (some is_current) n = not (is_current n)

abbrev pub observed :
    {W : Type 0}
    → Option (Text → NativeThumbnailFailureStage → W → W)
    → Text
    → NativeThumbnailFailureStage
    → W
    → W
observed none path stage w = w
observed (some observer) path stage w = observer path stage w

abbrev pub SourceCall : Type 0 → Type 0 → Type 0 → Type 0
SourceCall R P W = D3D11NativeThumbnailSource R P W × W

module _ {R P W : Type 0} where
  unfoldable pub find_texture :
      Text → ℕ → D3D11NativeThumbnailSource R P W → Option R × D3D11NativeThumbnailSource R P W
  find_texture path now s =
      if not s.m_available
      then (none, s)
      else let (found, cache) = find path now s.m_manager in (found, record s { m_manager = cache })

  module _ (around : Surroundings R P W) where
    -- The uploader as the cache calls it. One that throws leaves the cache as one that gives null does, and
    -- the flag tells the two apart.
    abbrev pub caught : List ℕ → Bool × W → Option R × (Bool × W)
    caught bytes (flag, w) = elim (around.upload bytes w).0 [
      | made resource ↦ (some resource, (flag, (around.upload bytes w).1))
      | null ↦ (none, (flag, (around.upload bytes w).1))
      | threw ↦ (none, (true, (around.upload bytes w).1))
    ]

    abbrev pub after_upload :
        Text
        → D3D11NativeThumbnailSource R P W
        → Managed R × (TextureCache R × (Bool × W))
        → Loaded R × SourceCall R P W
    after_upload path s (given resource, (cache, (flag, w))) =
        (loaded resource, (record s { m_manager = cache }, w))
    after_upload path s (refused e, (cache, (true, w))) = (
      failed is_broken,
      (record s { m_manager = cache }, observed around.failure_observer path at_exception w),
    )
    after_upload path s (refused e, (cache, (false, w))) = (
      failed is_broken,
      (record s { m_manager = cache }, observed around.failure_observer path at_upload w),
    )

    unfoldable pub upload_texture :
        Text → ResolvedTexture → ℕ → SourceCall R P W → Loaded R × SourceCall R P W
    unfolding find_or_upload
    upload_texture path texture now (s, w) =
        after_upload path s (
          find_or_upload texture.normalized_path texture.bytes caught now (s.m_manager, (false, w)))

    -- What the `try` block of the resolver leaves; `none` if it throws.
    unfoldable pub try_resolve : Text → SourceCall R P W → Option (Resolved ResolvedTexture) × W
    unfolding resolve
    try_resolve path (s, w) = elim (around.resolve_throws path w) [
      | some left ↦ (none, left)
      | none ↦
          let (resolved, w') = resolve around.files s.loose_root path s.m_archive_reader w in
          (some resolved, w')
    ]

    unfoldable pub after_try_resolve :
        Text
        → CancellationCheck
        → ℕ
        → D3D11NativeThumbnailSource R P W
        → Option (Resolved ResolvedTexture) × W
        → Loaded R × SourceCall R P W
    unfolding upload_texture
    after_try_resolve path check now s (none, w) =
        (failed is_broken, (s, observed around.failure_observer path at_exception w))
    after_try_resolve path check now s (some (unexpected e), w) =
        (failed (map_resolve_error e), (s, observed around.failure_observer path at_resolve w))
    after_try_resolve path check now s (some (ok texture), w) =
        if is_cancelled check 1
        then (failed cancelled, (s, w))
        else if is_cancelled check 2
        then (failed cancelled, (s, w))
        else upload_texture path texture now (s, w)

    abbrev pub after_find :
        Text
        → CancellationCheck
        → ℕ
        → W
        → Option R × D3D11NativeThumbnailSource R P W
        → Loaded R × SourceCall R P W
    after_find path check now w (some cached, s) = (loaded cached, (s, w))
    after_find path check now w (none, s) =
        after_try_resolve path check now s (try_resolve path (s, w))

    unfoldable pub load_texture :
        Text → CancellationCheck → ℕ → SourceCall R P W → Loaded R × SourceCall R P W
    unfolding find_texture try_resolve after_try_resolve
    load_texture path check now (s, w) =
        if not s.m_available
        then (failed device_unavailable, (s, w))
        else if is_cancelled check 0
        then (failed cancelled, (s, w))
        else after_find path check now w (find_texture path now s)

    -- The overrides of `NativeThumbnailTextureSource`, for a request that stays current, or not, while it is
    -- loaded. What throws is caught in `load`.
    abbrev pub texture_source : NativeThumbnailTextureSource R (SourceCall R P W)
    texture_source = record {
      find = λ path now s.
          let (found, source) = find_texture path now s.0 in (some found, (source, s.1));
      load = λ path is_current now s.
          let (result, after) = load_texture path (some (λ n. is_current)) now s in
          (some result, after);
      prune_expired = λ now s. (record (s.0) { m_manager = prune_expired now s.0.m_manager }, s.1);
      clear = λ s. (record (s.0) { m_manager = clear s.0.m_manager }, s.1);
      available = λ s. s.0.m_available;
    }
