-- ===== src/Textures/Loading/Named.antt =====
-- The path of a texture that is resolved.
use slavetat_ui.Base.{ℕ, ◌≡◌, refl, arith, sym, ap, ◌∙◌, inl, inr, Text, List, Option, none, some}
use slavetat_ui.Textures.Resolver.{Resolved, ok, unexpected, normalize}
use slavetat_ui.Textures.Resolver.Normal.{normalize-IsNormal}
use slavetat_ui.Textures.Loading.{
  TextureSource, FileSystem, ResolvedTexture, TextureArchiveReader, textured, resolve,
  resolve_loose, resolve_archive, resolve_archive_bytes,
}
use slavetat_ui.Textures.Loading.Fallback.{Resolved-cases, or_else, resolve-or_else}
use slavetat_ui.Textures.Loading.Contained.{resolve_loose-IsRead}
use slavetat_ui.Textures.Manager.{normalize_path}

textured-named :
    (path : Text) (source : TextureSource) (r : Resolved (List ℕ)) (t : ResolvedTexture)
    → textured path source r ≡ ok t
    → path ≡ t.normalized_path
textured-named path source (unexpected e) t h = cc
textured-named path source (ok bytes) t h = ground (arith, h)

archive-named :
    {W : Type 0} (path : Text) (reader : Option (TextureArchiveReader W)) (w : W)
    (t : ResolvedTexture)
    → (resolve_archive_bytes path reader w).0 ≡ ok t
    → path ≡ t.normalized_path
unfolding resolve_archive_bytes
archive-named path none w t h = cc
archive-named path (some reader) w t h = textured-named path _ _ t h

resolve_archive-named :
    {W : Type 0} (path : Text) (reader : Option (TextureArchiveReader W)) (w : W)
    (t : ResolvedTexture)
    → (resolve_archive path reader w).0 ≡ ok t
    → normalize path ≡ ok t.normalized_path
unfolding resolve_archive
resolve_archive-named path reader w t h = elim (Resolved-cases (normalize path)) [
  | inl (e, f) ↦ ground (arith, h, f)
  | inr (normalized, f) ↦
      f ∙ ap ok (archive-named normalized reader w t (rw (f, resolve_archive) at h))
]

or_else-named :
    {W : Type 0} (path : Text) (reader : Option (TextureArchiveReader W))
    (r : Resolved ResolvedTexture × W) (t : ResolvedTexture)
    → (r.0 ≡ ok t → normalize path ≡ ok t.normalized_path)
    → (or_else r (resolve_archive path reader)).0 ≡ ok t
    → normalize path ≡ ok t.normalized_path
or_else-named path reader (ok found, w) t loose h = loose h
or_else-named path reader (unexpected e, w) t loose h = resolve_archive-named path reader w t h

-- A texture that is resolved has the normalized path of the request.
pub resolve-named :
    {P W : Type 0} (fs : FileSystem P W) (root : P) (path : Text)
    (reader : Option (TextureArchiveReader W)) (w : W) (t : ResolvedTexture)
    → (resolve fs root path reader w).0 ≡ ok t
    → normalize path ≡ ok t.normalized_path
resolve-named fs root path reader w t h =
    or_else-named path reader (resolve_loose fs root path w) t
      (λ e. (resolve_loose-IsRead fs root path w t e).1)
      (sym (ap (λ r. r.0) (resolve-or_else fs root reader path w)) ∙ h)

-- Under the normalized path a texture has the key that it has under the path of the request.
pub same_key :
    (path normalized : Text)
    → normalize path ≡ ok normalized
    → normalize_path normalized ≡ normalize_path path
unfolding normalize_path
same_key path normalized h = rw (h, (normalize-IsNormal path normalized h).1, normalize_path) refl
