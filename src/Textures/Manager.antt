-- ===== src/Textures/Manager.antt =====
-- src/textures/TextureManager.h: the cache of textures, behind the normalization of their paths.
use slavetat_ui.Base.{ℕ, Text, map, List, Option, none, some}
use slavetat_ui.Repository.Sort.{fold_ascii}
use slavetat_ui.Textures.Resolver.{ok, unexpected, normalize}
use slavetat_ui.Textures.Cache.{TextureCache, get, get_or_load}
pub mod Shared

pub data TextureManagerError : Type 0 where
  path_invalid upload_failed : TextureManagerError

pub data Managed {ℓ} (A : Type ℓ) : Type ℓ where
  given : A → Managed A
  refused : TextureManagerError → Managed A

unfoldable pub normalize_path : Text → Managed Text
unfolding fold_ascii
normalize_path path = elim (normalize path) [
  | unexpected e ↦ refused path_invalid
  | ok normalized ↦ given (fold_ascii normalized)
]

unfoldable pub find : {R : Type 0} → Text → ℕ → TextureCache R → Option R × TextureCache R
unfolding normalize_path
find path now c = elim (normalize_path path) [
  | refused e ↦ (none, c)
  | given normalized ↦ get normalized now c
]

abbrev pub uploaded : {R : Type 0} → Option R → Managed R
uploaded none = refused upload_failed
uploaded (some resource) = given resource

-- `getOrLoad`, with an uploader that acts on a world `W`.
unfoldable pub find_or_upload :
    {R W : Type 0}
    → Text
    → List ℕ
    → (List ℕ → W → Option R × W)
    → ℕ
    → TextureCache R × W
    → Managed R × (TextureCache R × W)
unfolding normalize_path
find_or_upload path dds_bytes uploader now (c, w) = elim (normalize_path path) [
  | refused e ↦ (refused path_invalid, (c, w))
  | given normalized ↦
      let (resource, s) = get_or_load normalized (uploader dds_bytes) now (c, w) in
      (uploaded resource, s)
]
