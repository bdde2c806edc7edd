-- ===== src/Textures/Loading.antt =====
-- src/textures/TextureResolver.{h,cpp}: `resolve`, `resolveLoose` and `resolveArchive`. The file system and
-- the reader of archives are parameters: they act on a world `W`, and `P` is the type of the file system's
-- paths. A reader of `none` is an empty `std::function`.
use slavetat_ui.Base.{
  ℕ, Bool, true, false, ◌||◌, if◌then◌else◌, Text, codes, eq_text, any_of, List, ◌++◌, Option, none,
  some,
}
use slavetat_ui.Textures.Resolver.{
  invalid_path, not_found, read_failed, Resolved, ok, unexpected, normalize,
}
pub mod Fallback
pub mod Contained
pub mod Named

pub data TextureSource : Type 0 where
  loose archive : TextureSource

pub record ResolvedTexture : Type 0 where
  pub normalized_path : Text
  pub bytes : List ℕ
  pub source : TextureSource

-- What `is_regular_file` gives: an answer, or an error.
pub data FileStatus : Type 0 where
  regular irregular no_such_file other_error : FileStatus

-- The calls of `std::filesystem` and `std::ifstream`; `none` is an error code that is set, or a stream that
-- does not open or goes bad.
pub record FileSystem (P W : Type 0) : Type 0 where
  pub child : P → Text → P
  pub weakly_canonical : P → W → Option P × W
  pub relative : P → P → W → Option P × W
  pub is_absolute : P → Bool
  pub components : P → List Text
  pub is_regular_file : P → W → FileStatus × W
  pub read_bytes : P → W → Option (List ℕ) × W

abbrev pub TextureArchiveReader : Type 0 → Type 0
TextureArchiveReader W = Text → W → Resolved (List ℕ) × W

abbrev pub texture_resource_root : Text
texture_resource_root = codes "textures\\actors\\character\\slavetats\\"

abbrev pub textured : Text → TextureSource → Resolved (List ℕ) → Resolved ResolvedTexture
textured path source (unexpected e) = unexpected e
textured path source (ok bytes) =
    ok (record { normalized_path = path; bytes = bytes; source = source })

module _ {W : Type 0} where
  unfoldable pub resolve_archive_bytes :
      Text → Option (TextureArchiveReader W) → W → Resolved ResolvedTexture × W
  resolve_archive_bytes path none w = (unexpected read_failed, w)
  resolve_archive_bytes path (some reader) w =
      let (bytes, w') = reader (texture_resource_root ++ path) w in
      (textured path archive bytes, w')

  unfoldable pub resolve_archive :
      Text → Option (TextureArchiveReader W) → W → Resolved ResolvedTexture × W
  unfolding resolve_archive_bytes
  resolve_archive path reader w = elim (normalize path) [
    | unexpected e ↦ (unexpected e, w)
    | ok normalized ↦ resolve_archive_bytes normalized reader w
  ]

  -- The loose texture, if there is one, or else the one of the archives.
  unfoldable pub loose_or_archive :
      Text
      → Option (TextureArchiveReader W)
      → Resolved ResolvedTexture × W
      → Resolved ResolvedTexture × W
  unfolding resolve_archive_bytes
  loose_or_archive normalized reader (ok texture, w) = (ok texture, w)
  loose_or_archive normalized reader (unexpected e, w) = resolve_archive_bytes normalized reader w

module _ {P W : Type 0} where
  unfoldable pub read_loose_bytes : FileSystem P W → P → W → Resolved (List ℕ) × W
  read_loose_bytes fs path w = elim (fs.read_bytes path w).0 [
    | none ↦ (unexpected read_failed, (fs.read_bytes path w).1)
    | some bytes ↦ (ok bytes, (fs.read_bytes path w).1)
  ]

  abbrev pub climbs : FileSystem P W → P → Bool
  climbs fs path = any_of (λ component. eq_text component (codes "..")) (fs.components path)

  unfoldable pub contained_loose_path : FileSystem P W → P → Text → W → Resolved P × W
  contained_loose_path fs root path w =
      let (canonical_root, w1) = fs.weakly_canonical root w in
      let (candidate, w2) = fs.weakly_canonical (fs.child root path) w1 in
      elim canonical_root [
        | none ↦ (unexpected read_failed, w1)
        | some root' ↦ elim candidate [
          | none ↦ (unexpected read_failed, w2)
          | some c ↦ elim (fs.relative c root' w2).0 [
            | none ↦ (unexpected invalid_path, (fs.relative c root' w2).1)
            | some r ↦ (
              if fs.is_absolute r || climbs fs r then unexpected invalid_path else ok c,
              (fs.relative c root' w2).1,
            )
          ]
        ]
      ]

  -- The end of `resolveLoose`, once `is_regular_file` has answered.
  unfoldable pub after_status :
      FileSystem P W → P → Text → FileStatus × W → Resolved ResolvedTexture × W
  unfolding read_loose_bytes
  after_status fs candidate path (regular, w) =
      let (bytes, w') = read_loose_bytes fs candidate w in (textured path loose bytes, w')
  after_status fs candidate path (irregular, w) = (unexpected not_found, w)
  after_status fs candidate path (no_such_file, w) = (unexpected not_found, w)
  after_status fs candidate path (other_error, w) = (unexpected read_failed, w)

  unfoldable pub after_contained :
      FileSystem P W → Text → Resolved P × W → Resolved ResolvedTexture × W
  unfolding after_status
  after_contained fs path (unexpected e, w) = (unexpected e, w)
  after_contained fs path (ok candidate, w) =
      after_status fs candidate path (fs.is_regular_file candidate w)

  unfoldable pub resolve_loose : FileSystem P W → P → Text → W → Resolved ResolvedTexture × W
  unfolding contained_loose_path after_contained
  resolve_loose fs root path w = elim (normalize path) [
    | unexpected e ↦ (unexpected e, w)
    | ok normalized ↦ after_contained fs normalized (contained_loose_path fs root normalized w)
  ]

  unfoldable pub resolve :
      FileSystem P W → P → Text → Option (TextureArchiveReader W) → W → Resolved ResolvedTexture × W
  unfolding resolve_loose loose_or_archive
  resolve fs root path reader w = elim (normalize path) [
    | unexpected e ↦ (unexpected e, w)
    | ok normalized ↦ loose_or_archive normalized reader (resolve_loose fs root normalized w)
  ]
