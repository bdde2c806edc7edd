-- ===== src/Textures/Loading/Contained.antt =====
-- Where a loose texture is read from.
use slavetat_ui.Base.{
  ◌≡◌, refl, arith, ap, sym, ◌∙◌, inl, inr, Option-cases, Bool-cases, false, ◌||◌, Text, some,
}
use slavetat_ui.Textures.Resolver.{Resolved, ok, unexpected, normalize}
use slavetat_ui.Textures.Loading.Fallback.{Resolved-cases, loose-ok}
use slavetat_ui.Textures.Loading.{
  FileSystem, ResolvedTexture, loose, FileStatus, regular, irregular, no_such_file, other_error,
  resolve_loose, after_contained, after_status, contained_loose_path, read_loose_bytes, climbs,
}

module _ {P W : Type 0} (fs : FileSystem P W) (root : P) where
  -- A path that lies under the root: what leads to it from there does not climb.
  pub record IsContained (candidate : P) : Type 0 where
    pub canonical_root : P
    pub way : P
    pub before : W
    pub world : W
    pub rooted : (fs.weakly_canonical root before).0 ≡ some canonical_root
    pub leads : (fs.relative candidate canonical_root world).0 ≡ some way
    pub local : fs.is_absolute way ≡ false
    pub inside : climbs fs way ≡ false

  contained_loose_path-IsContained :
      (path : Text) (w : W) (candidate : P)
      → (contained_loose_path fs root path w).0 ≡ ok candidate
      → IsContained candidate
  unfolding contained_loose_path
  contained_loose_path-IsContained path w candidate h =
      let w1 = (fs.weakly_canonical root w).1 in
      let w2 = (fs.weakly_canonical (fs.child root path) w1).1 in
      elim (Option-cases (fs.weakly_canonical root w).0) [
        | inl e ↦ ground (arith, h, e)
        | inr (root', e) ↦ elim (Option-cases (fs.weakly_canonical (fs.child root path) w1).0) [
          | inl f ↦ ground (arith, h, e, f)
          | inr (c, f) ↦ elim (Option-cases (fs.relative c root' w2).0) [
            | inl g ↦ ground (arith, h, e, f, g)
            | inr (r, g) ↦ elim (Bool-cases (fs.is_absolute r || climbs fs r)) [
              | inl k ↦ ground (arith, h, e, f, g, k)
              | inr k ↦
                  let same : c ≡ candidate = ground (arith, h, e, f, g, k) in
                  record {
                    canonical_root = root';
                    way = r;
                    before = w;
                    world = w2;
                    rooted = e;
                    leads = rw (← same) g;
                    local = ground (arith, k);
                    inside = ground (arith, k);
                  }
            ]
          ]
        ]
      ]

  -- The texture's bytes were read from a file under the root.
  pub record IsRead (texture : ResolvedTexture) : Type 0 where
    pub candidate : P
    pub contained : IsContained candidate
    pub when : W
    pub bytes_read : (fs.read_bytes candidate when).0 ≡ some texture.bytes

  status-IsRead :
      (candidate : P) (path : Text) (status : FileStatus × W) (t : ResolvedTexture)
      → IsContained candidate
      → (after_status fs candidate path status).0 ≡ ok t
      → IsRead t × (path ≡ t.normalized_path) × (t.source ≡ loose)
  unfolding after_status read_loose_bytes
  status-IsRead candidate path (regular, w) t c h =
      elim (Option-cases (fs.read_bytes candidate w).0) [
        | inl e ↦ ground (arith, h, e)
        | inr (bytes, e) ↦
            let same : record { normalized_path = path; bytes = bytes; source = loose } ≡ t =
              ground (arith, h, e) in
            (
              record {
                candidate = candidate;
                contained = c;
                when = w;
                bytes_read = e ∙ ap (λ x. some x.bytes) same;
              },
              ap (λ x. x.normalized_path) same,
              sym (ap (λ x. x.source) same),
            )
      ]
  status-IsRead candidate path (irregular, w) t c h = cc
  status-IsRead candidate path (no_such_file, w) t c h = cc
  status-IsRead candidate path (other_error, w) t c h = cc

  after_contained-IsRead :
      (path : Text) (r : Resolved P × W) (t : ResolvedTexture)
      → ((candidate : P) → r.0 ≡ ok candidate → IsContained candidate)
      → (after_contained fs path r).0 ≡ ok t
      → IsRead t × (path ≡ t.normalized_path) × (t.source ≡ loose)
  unfolding after_contained
  after_contained-IsRead path (unexpected e, w) t c h = cc
  after_contained-IsRead path (ok candidate, w) t c h =
      status-IsRead candidate path (fs.is_regular_file candidate w) t (c candidate refl) h

  -- The bytes of a texture that is resolved as a loose file were read from a path whose relative
  -- path from the canonical root, as the file system gave it, is not absolute and has no component
  -- of two dots; the texture has the normalized path of the request, and is marked as loose.
  pub resolve_loose-IsRead :
      (path : Text) (w : W) (t : ResolvedTexture)
      → (resolve_loose fs root path w).0 ≡ ok t
      → IsRead t × (normalize path ≡ ok t.normalized_path) × (t.source ≡ loose)
  unfolding resolve_loose
  resolve_loose-IsRead path w t h = elim (Resolved-cases (normalize path)) [
    | inl (e, f) ↦ ground (arith, h, f)
    | inr (normalized, f) ↦
        let reached : (after_contained fs normalized (contained_loose_path fs root normalized w)).0
            ≡ ok t =
          sym (ap (λ r. r.0) (loose-ok fs root path normalized w f)) ∙ h in
        let (read, named, source) =
          after_contained-IsRead normalized (contained_loose_path fs root normalized w) t
            (λ candidate e. contained_loose_path-IsContained normalized w candidate e) reached in
        (read, f ∙ ap ok named, source)
  ]
