-- ===== src/Thumbnails/Drained.antt =====
-- The Direct3D source ends every load that stays current, so that frames empty the queue.
use mathlib.Core.Path.{subst}
use slavetat_ui.Base.{
  ℕ, ◌≡◌, ◌≢◌, ◌≤◌, refl, sym, ◌∙◌, inl, inr, Bool, true, false, Bool-cases, Text, List, [], length,
  Option, none, some, All,
}
use slavetat_ui.Textures.Resolver.{
  TextureResolveError, invalid_path, not_found, read_failed, Resolved, ok, unexpected,
}
use slavetat_ui.Textures.Loading.{ResolvedTexture}
use slavetat_ui.Textures.Cache.{TextureCache}
use slavetat_ui.Textures.Manager.{Managed, given, refused, find, find_or_upload}
use slavetat_ui.Thumbnails.State.{canonicalize_texture_path, cancelled}
use slavetat_ui.Thumbnails.Controller.{Loaded, failed}
use slavetat_ui.Thumbnails.Runtime.{NativeThumbnailRuntime}
use slavetat_ui.Thumbnails.Source.{
  Surroundings, D3D11NativeThumbnailSource, SourceCall, map_resolve_error, find_texture, caught,
  after_upload, upload_texture, try_resolve, after_try_resolve, after_find, load_texture,
  texture_source,
}
use slavetat_ui.Thumbnails.Reloads.{looked, load-live}
use slavetat_ui.Thumbnails.Tasks.{Serves}
use slavetat_ui.Thumbnails.Draining.{pump_each, pump_each-Drained}

module _ {R P W : Type 0} (around : Surroundings R P W) where
  -- The load was not cancelled, and the device is there as it was.
  abbrev Ends : D3D11NativeThumbnailSource R P W → Loaded R × SourceCall R P W → Type 0
  Ends s r = (r.0 ≢ failed cancelled) × (r.1.0.m_available ≡ s.m_available)

  after_upload-Ends :
      (path : Text) (s : D3D11NativeThumbnailSource R P W)
      (u : Managed R × (TextureCache R × (Bool × W)))
      → Ends s (after_upload around path s u)
  after_upload-Ends path s (given made, (cache, (flag, w))) = (λ e. cc, refl)
  after_upload-Ends path s (refused e, (cache, (true, w))) = (λ e. cc, refl)
  after_upload-Ends path s (refused e, (cache, (false, w))) = (λ e. cc, refl)

  resolve_error-kept :
      (e : TextureResolveError) (r : Loaded R)
      → r ≡ failed (map_resolve_error e)
      → r ≢ failed cancelled
  resolve_error-kept invalid_path r h f = cc
  resolve_error-kept not_found r h f = cc
  resolve_error-kept read_failed r h f = cc

  after_try_resolve-Ends :
      (path : Text) (now : ℕ) (s : D3D11NativeThumbnailSource R P W)
      (o : Option (Resolved ResolvedTexture) × W)
      → Ends s (after_try_resolve around path (some (λ n. true)) now s o)
  unfolding after_try_resolve upload_texture
  after_try_resolve-Ends path now s (none, w) = (λ e. cc, refl)
  after_try_resolve-Ends path now s (some (unexpected e), w) = (resolve_error-kept e _ refl, refl)
  after_try_resolve-Ends path now s (some (ok t), w) =
      after_upload-Ends path s
        (find_or_upload t.normalized_path t.bytes (caught around) now (s.m_manager, (false, w)))

  after_find-Ends :
      (path : Text) (now : ℕ) (w : W) (o : Option R × D3D11NativeThumbnailSource R P W)
      → Ends o.1 (after_find around path (some (λ n. true)) now w o)
  after_find-Ends path now w (some cached, s) = (λ e. cc, refl)
  after_find-Ends path now w (none, s) =
      after_try_resolve-Ends path now s (try_resolve around path (s, w))

  load-Ends :
      (path : Text) (now : ℕ) (s : D3D11NativeThumbnailSource R P W) (w : W)
      → Ends s (load_texture around path (some (λ n. true)) now (s, w))
  unfolding load_texture find_texture
  load-Ends path now s w = elim (Bool-cases s.m_available) [
    | inr e ↦ rw e (λ f. cc, refl)
    | inl e ↦
        subst (λ r. Ends s r) (sym (load-live around path (some (λ n. true)) now s w e refl))
          (after_find-Ends path now w ((find path now s.m_manager).0, looked path now s))
  ]

  texture_source-Serves : Serves (texture_source around) (λ s. s.0.m_available ≡ true)
  texture_source-Serves = record {
    answers = λ w live. live;
    prunes = λ now w live. live;
    loads = λ path now w live. (load-Ends path now w.0 w.1).1 ∙ live;
    keeps = λ path now w live e. (load-Ends path now w.0 w.1).0 cc;
  }

  -- With the Direct3D source and its device, when no request is in flight and the queued paths are
  -- canonical, as many frames as there are queued paths, or more, at whatever times and each with a
  -- scheduler that runs its task at once, leave no path queued and no request in flight, whatever
  -- the files, the archives and the uploader give or throw.
  pub frames-drain :
      (times : List ℕ) (s : NativeThumbnailRuntime R) (source : D3D11NativeThumbnailSource R P W)
      (w : W)
      → source.m_available ≡ true
      → All (λ path. canonicalize_texture_path path ≡ path) s.controller.queued_paths
      → length s.controller.queued_paths ≤ length times
      → s.controller.in_flight ≡ none
      → let after = pump_each (texture_source around) times (s, (source, w)) in
        (after.0.controller.queued_paths ≡ []) × (after.0.controller.in_flight ≡ none)
  frames-drain times s source w live canonical enough idle =
      let (queued, ended, alive) =
        pump_each-Drained (texture_source around) (λ v. v.0.m_available ≡ true)
          texture_source-Serves times _ s (source, w) refl canonical enough idle live in
      (queued, ended)
