-- ===== src/Textures/Loading/Fallback.antt =====
-- What `resolve` is, of the two places that it looks in.
use slavetat_ui.Base.{◌≡◌, refl, inl, inr, ◌⊎◌, Text, Option, ap, sym, ◌∙◌}
use slavetat_ui.Textures.Resolver.{Resolved, ok, unexpected, TextureResolveError, normalize}
use slavetat_ui.Textures.Resolver.Normal.{normalize-IsNormal}
use slavetat_ui.Textures.Loading.{
  FileSystem, TextureArchiveReader, ResolvedTexture, resolve, resolve_loose, resolve_archive,
  resolve_archive_bytes, loose_or_archive, after_contained, contained_loose_path,
}

pub Resolved-cases :
    {A : Type 0} (r : Resolved A)
    → ((e : TextureResolveError) × (r ≡ unexpected e)) ⊎ ((a : A) × (r ≡ ok a))
Resolved-cases (unexpected e) = inl (e, refl)
Resolved-cases (ok a) = inr (a, refl)

-- The first result, or if it is an error, that of the second attempt, in the world after the first.
abbrev pub or_else : {A W : Type 0} → Resolved A × W → (W → Resolved A × W) → Resolved A × W
or_else (ok a, w) second = (ok a, w)
or_else (unexpected e, w) second = second w

module _ {P W : Type 0} (fs : FileSystem P W) (root : P) where
  pub loose-ok :
      (path normalized : Text) (w : W)
      → normalize path ≡ ok normalized
      → resolve_loose fs root path w
        ≡ after_contained fs normalized (contained_loose_path fs root normalized w)
  unfolding resolve_loose
  loose-ok path normalized w h = rw (h, resolve_loose) refl

module _ {W : Type 0} (reader : Option (TextureArchiveReader W)) where
  archive-ok :
      (path normalized : Text) (w : W)
      → normalize path ≡ ok normalized
      → resolve_archive path reader w ≡ resolve_archive_bytes normalized reader w
  unfolding resolve_archive
  archive-ok path normalized w h = rw (h, resolve_archive) refl

  loose_or_archive-or_else :
      (path normalized : Text) (r : Resolved ResolvedTexture × W)
      → normalize path ≡ ok normalized
      → loose_or_archive normalized reader r ≡ or_else r (resolve_archive path reader)
  unfolding loose_or_archive
  loose_or_archive-or_else path normalized (ok t, w) h = refl
  loose_or_archive-or_else path normalized (unexpected e, w) h =
      sym (archive-ok path normalized w h)

module _ {P W : Type 0} (fs : FileSystem P W) (root : P)
    (reader : Option (TextureArchiveReader W)) where
  -- For every path, resolving gives what resolving it as a loose file gives, or if that fails in
  -- whatever way, what resolving it in the archives gives then, with the worlds threaded in that
  -- order.
  pub resolve-or_else :
      (path : Text) (w : W)
      → resolve fs root path reader w
        ≡ or_else (resolve_loose fs root path w) (resolve_archive path reader)
  unfolding resolve resolve_loose resolve_archive
  resolve-or_else path w = elim (Resolved-cases (normalize path)) [
    | inl (e, h) ↦ rw (h, resolve, resolve_loose, resolve_archive) refl
    | inr (normalized, h) ↦
        let again = (normalize-IsNormal path normalized h).1 in
        let opened : resolve fs root path reader w
            ≡ loose_or_archive normalized reader (resolve_loose fs root normalized w) =
          rw (h, resolve) refl in
        let same =
          loose-ok fs root normalized normalized w again
          ∙ sym (loose-ok fs root path normalized w h) in
        opened
        ∙ ap (loose_or_archive normalized reader) same
        ∙ loose_or_archive-or_else reader path normalized (resolve_loose fs root path w) h
  ]
