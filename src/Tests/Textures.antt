-- ===== src/Tests/Textures.antt =====
-- The theorems of the textures.
use slavetat_ui.Base.{
  ◌++◌, Bool, true, false, if◌then◌else◌, ℕ, ◌+◌, ◌≡◌, ◌≤◌, refl, Text, codes, List, [], ◌∷◌,
  Option, none, some,
}
use slavetat_ui.Textures.Resolver.{ok, unexpected, invalid_path, normalize}
use slavetat_ui.Textures.Resolver.Segments.{IsNormal}
use slavetat_ui.Textures.Resolver.Normal.{normalize-IsNormal}
use slavetat_ui.Textures.Loading.{
  FileSystem, ResolvedTexture, TextureArchiveReader, loose, archive, regular, no_such_file, resolve,
  resolve_loose, resolve_archive,
}
use slavetat_ui.Textures.Loading.Fallback.{or_else, resolve-or_else}
use slavetat_ui.Textures.Loading.Contained.{IsRead, resolve_loose-IsRead}
use slavetat_ui.Textures.Cache.{new_cache, size}
use slavetat_ui.Textures.Recency.{Refines}
use slavetat_ui.Textures.Uses.{Use, gets, loads, prunes, use_all, spec_all, use_all-Refines}

abbrev a : Text
a = codes "a"

abbrev b : Text
b = codes "b"

-- The loader counts its calls, and gives that count.
abbrev load_number : ℕ → Option ℕ × ℕ
load_number w = (some w, w + 1)

-- A cache of one texture, for ten ticks: `b` puts `a` out, and is put out by its age.
abbrev swaps : List (Use ℕ ℕ)
swaps =
    loads a load_number 1
    ∷ (loads b load_number 2
        ∷ (gets a 3 ∷ (loads b load_number 4 ∷ (prunes 14 ∷ (loads b load_number 15 ∷ [])))))

swaps_results :
    (use_all swaps (new_cache 1 (some 10), 0)).0
    ≡ some 0 ∷ (some 1 ∷ (none ∷ (some 1 ∷ (none ∷ (some 2 ∷ [])))))
unfolding use_all
swaps_results = refl

use_all-Refines_example :
    let (results, (c, world)) = use_all swaps (new_cache 1 (some 10), 0) in
    let (listed, (l, listed_world)) = spec_all 1 (some 10) swaps ([], 0) in
    (results ≡ listed) × (world ≡ listed_world) × Refines c l × (size c ≤ 1)
use_all-Refines_example = use_all-Refines 1 (some 10) swaps 0

-- A path of the actor's tattoos, spelled as a user may spell it, and as it is looked up.
abbrev pub spelled : Text
spelled = codes ".//Rose//.\\a.dds"

abbrev plain : Text
plain = codes "Rose\\a.dds"

spelled-plain : normalize spelled ≡ ok plain
unfolding normalize
spelled-plain = refl

climbing : normalize (codes "rose/../../a.dds") ≡ unexpected invalid_path
unfolding normalize
climbing = refl

normalize-IsNormal_example : IsNormal plain × (normalize plain ≡ ok plain)
unfolding normalize
normalize-IsNormal_example = normalize-IsNormal spelled plain refl

-- A file system whose paths are texts, in which a root holds `plain` only; the world counts the calls.
abbrev pub disk : Bool → FileSystem Text ℕ
disk there = record {
  child = λ root path. root ++ path;
  weakly_canonical = λ path w. (some path, w + 1);
  relative = λ path root w. (some path, w + 1);
  is_absolute = λ path. false;
  components = λ path. path ∷ [];
  is_regular_file = λ path w. (if there then regular else no_such_file, w + 1);
  read_bytes = λ path w. (some (1 ∷ []), w + 1);
}

abbrev pub archives : TextureArchiveReader ℕ
archives path w = (ok (2 ∷ []), w + 10)

resolve-or_else_example :
    resolve (disk false) [] spelled (some archives) 0
    ≡ or_else (resolve_loose (disk false) [] spelled 0) (resolve_archive spelled (some archives))
resolve-or_else_example = resolve-or_else (disk false) [] (some archives) spelled 0

from_archives :
    resolve (disk false) [] spelled (some archives) 0
    ≡ (ok (record { normalized_path = plain; bytes = 2 ∷ []; source = archive }), 14)
unfolding resolve normalize
from_archives = refl

abbrev on_disk : ResolvedTexture
on_disk = record { normalized_path = plain; bytes = 1 ∷ []; source = loose }

resolve_loose-IsRead_example :
    IsRead (disk true) [] on_disk × (normalize spelled ≡ ok plain) × (loose ≡ loose)
unfolding resolve_loose normalize
resolve_loose-IsRead_example = resolve_loose-IsRead (disk true) [] spelled 0 on_disk refl

abbrev upload : List ℕ → ℕ → Option ℕ × ℕ
upload bytes w = (some w, w + 1)
