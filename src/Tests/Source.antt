-- ===== src/Tests/Source.antt =====
-- The theorem of the textures' source.
use slavetat_ui.Base.{ℕ, ◌+◌, ◌≡◌, refl, arith, Text, codes, true, false, List, [], ◌∷◌, none, some}
use slavetat_ui.Thumbnails.Controller.{loaded, failed}
use slavetat_ui.Thumbnails.State.{is_broken, canonicalize_texture_path}
use slavetat_ui.Textures.Loading.{resolve}
use slavetat_ui.Textures.Manager.{normalize_path, find}
use slavetat_ui.Textures.Cache.{get, get_or_load, prune_expired}
use slavetat_ui.Textures.Resolver.{normalize}
use slavetat_ui.Thumbnails.Source.{
  Surroundings, new_source, made, find_texture, load_texture, SourceCall, texture_source,
}
use slavetat_ui.Thumbnails.Runtime.{NativeThumbnailRuntime, new_runtime, synchronize}
use slavetat_ui.Thumbnails.Draining.{pump_each}
use slavetat_ui.Thumbnails.Drained.{frames-drain}
use slavetat_ui.Thumbnails.Reloading.{
  SourceUse, finds, loads, prunes, use_source_all, load_texture-again,
}
use slavetat_ui.Tests.Textures.{disk, archives, spelled}

-- The world counts the calls; the texture that is made is the count.
abbrev around : Surroundings ℕ Text ℕ
around = record {
  files = disk true;
  resolve_throws = λ path w. none;
  upload = λ bytes w. (made w, w + 100);
  failure_observer = some (λ path stage w. w + 1000);
}

abbrev without_files : Surroundings ℕ Text ℕ
without_files = record around { files = disk false }

abbrev uses : List SourceUse
uses = loads (codes "wolf.dds") none 1 ∷ (finds spelled 2 ∷ (prunes 3 ∷ []))

unreadable :
    load_texture without_files spelled none 4 (new_source [] true 2 none none, 0)
    ≡ (failed is_broken, (new_source [] true 2 none none, 1004))
unfolding load_texture resolve normalize find get
unreadable = refl

load_texture-again_example :
    let before = use_source_all around uses (new_source [] true 2 none (some archives), 0) in
    let first = load_texture around spelled none 5 before in
    let second = load_texture around (codes "rose/A.DDS") (some (λ n. true)) 9 first.1 in
    ((find_texture (codes "rose/A.DDS") 9 first.1.0).0 ≡ some 110)
    × (second.0 ≡ loaded 110)
    × (second.1.1 ≡ first.1.1)
unfolding use_source_all load_texture resolve normalize_path normalize find get get_or_load
    prune_expired
load_texture-again_example =
    load_texture-again around [] true 2 none (some archives) uses 0 spelled (codes "rose/A.DDS")
      none (some (λ n. true)) 5 9 110 (omega arith) refl refl refl

-- Two textures are queued, and two frames load them.
abbrev synchronized : NativeThumbnailRuntime ℕ × SourceCall ℕ Text ℕ
synchronized =
    (synchronize (texture_source around) 4 7 (codes "Rose\\A.dds" ∷ (codes "wolf.dds" ∷ []))
      (new_runtime, (new_source [] true 2 none none, 0))).1

queued : synchronized.0.controller.queued_paths ≡ codes "rose/a.dds" ∷ (codes "wolf.dds" ∷ [])
unfolding synchronize find_texture find get normalize_path normalize
queued = refl

frames-drain_example :
    let (s, (source, w)) = synchronized in
    let after = pump_each (texture_source around) (5 ∷ (6 ∷ [])) (s, (source, w)) in
    (after.0.controller.queued_paths ≡ []) × (after.0.controller.in_flight ≡ none)
unfolding synchronize find_texture find get normalize_path normalize canonicalize_texture_path
frames-drain_example =
    frames-drain around (5 ∷ (6 ∷ [])) synchronized.0 synchronized.1.0 synchronized.1.1 refl
      (refl, (refl, tt)) (omega arith) refl
