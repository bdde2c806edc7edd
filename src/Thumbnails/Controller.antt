-- ===== src/Thumbnails/Controller.antt =====
-- The operations of `NativeThumbnailController`. `synchronize` gives up its lock while it looks up the
-- cache, so it is two steps, between which anything can happen.
use slavetat_ui.Base.{
  contains, ℕ, ◌+◌, Bool, true, false, not, ◌&&◌, ◌==◌, if◌then◌else◌, u64, Text, eq_text, length,
  List, [], ◌∷◌, ◌++◌, map, Option, none, some, is_some,
}
use slavetat_ui.Repository.Models.{TattooDefinition}
use slavetat_ui.Thumbnails.State.{
  NativeThumbnailStatus, placeholder, loading, ready, missing, broken, NativeThumbnailFailure,
  is_missing, is_broken, device_unavailable, cancelled, NativeThumbnailRequest, NativeThumbnailView,
  NativeThumbnailController, maximum_visible_paths, canonicalize_texture_path, status_at, set_view,
  failure_at, same_request, negative_status, queue_if_eligible,
}

-- The loop that collects the paths: canonical, each once, and at most six.
unfoldable pub collect_paths : List Text → List Text → List Text
unfolding canonicalize_texture_path
collect_paths texture_paths [] = texture_paths
collect_paths texture_paths (path ∷ rest) =
    let canonical = canonicalize_texture_path path in
    let later =
      collect_paths
        (if contains canonical texture_paths
          then texture_paths
          else texture_paths ++ (canonical ∷ []))
        rest in
    if length texture_paths == maximum_visible_paths then texture_paths else later

abbrev pub eq_texts : List Text → List Text → Bool
eq_texts [] [] = true
eq_texts (x ∷ xs) (y ∷ ys) = if eq_text x y then eq_texts xs ys else false
eq_texts xs ys = false

-- What `synchronize` remembers while it looks up the cache.
pub record Lookup : Type 0 where
  pub revision : ℕ
  pub epoch : ℕ
  pub paths : List Text

abbrev pub drop_lookup : {R : Type 0} → NativeThumbnailController R → NativeThumbnailController R
drop_lookup c = record c { lookup_pending = false; pending_epoch = 0; pending_paths = [] }

-- The part of `synchronize` before the lookup: none if it returns early.
unfoldable pub begin_synchronize :
    {R : Type 0}
    → ℕ
    → List Text
    → NativeThumbnailController R
    → Option Lookup × NativeThumbnailController R
unfolding collect_paths
begin_synchronize epoch visible c =
    let paths = collect_paths [] visible in
    let pending = c.pending_epoch == epoch && eq_texts c.pending_paths paths in
    let revision = u64 (c.synchronization_revision + 1) in
    if c.epoch == epoch && eq_texts (map (λ v. v.texture_path) c.views) paths
    then (
      none,
      if c.lookup_pending && not pending
          then record (drop_lookup c) { synchronization_revision = revision }
          else c,
    )
    else if c.lookup_pending && pending
    then (none, c)
    else (
      some (record { revision = revision; epoch = epoch; paths = paths }),
      record c {
        synchronization_revision = revision;
        lookup_pending = true;
        pending_epoch = epoch;
        pending_paths = paths;
      },
    )

-- The other overload, which collects the paths of the catalog's entries first.
unfoldable pub begin_synchronize_entries :
    {R : Type 0}
    → ℕ
    → List TattooDefinition
    → NativeThumbnailController R
    → Option Lookup × NativeThumbnailController R
unfolding collect_paths begin_synchronize
begin_synchronize_entries snapshot entries c =
    begin_synchronize snapshot (collect_paths [] (map (λ e. e.texture_path) entries)) c

-- The handler of a lookup that throws.
unfoldable pub abandon_synchronize :
    {R : Type 0} → ℕ → NativeThumbnailController R → NativeThumbnailController R
abandon_synchronize revision c = if revision == c.synchronization_revision then drop_lookup c else c

abbrev pub status_or_placeholder : Option NativeThumbnailStatus → NativeThumbnailStatus
status_or_placeholder none = placeholder
status_or_placeholder (some status) = status

abbrev pub push_view :
    {R : Type 0} → NativeThumbnailView R → NativeThumbnailController R → NativeThumbnailController R
push_view view c = record c { views = c.views ++ (view ∷ []) }

-- One round of the loop that makes the views. `negativeStatus` has a value for every failure that is
-- remembered.
unfoldable pub place_view :
    {R : Type 0} → Text → Option R → NativeThumbnailController R → NativeThumbnailController R
unfolding failure_at queue_if_eligible
place_view path cached c = elim (failure_at path c.negative_failures) [
  | some failure ↦
      push_view
        (record {
          texture_path = path;
          status = status_or_placeholder (negative_status failure);
          texture = none;
        })
        c
  | none ↦ elim cached [
    | some texture ↦
        push_view (record { texture_path = path; status = ready; texture = some texture }) c
    | none ↦
        queue_if_eligible path
          (push_view (record { texture_path = path; status = placeholder; texture = none }) c)
  ]
]

-- The loop, over the paths with the textures that the cache has for them.
unfoldable pub place_views :
    {R : Type 0}
    → List (Text × Option R)
    → NativeThumbnailController R
    → NativeThumbnailController R
unfolding place_view
place_views [] c = c
place_views ((path, cached) ∷ rest) c = place_views rest (place_view path cached c)

abbrev pub enter_epoch :
    {R : Type 0} → ℕ → NativeThumbnailController R → NativeThumbnailController R
enter_epoch epoch c =
    if c.epoch == epoch
    then c
    else record c { epoch = epoch; negative_failures = []; device_unavailable_paths = [] }

abbrev pub next_generation :
    {R : Type 0} → NativeThumbnailController R → NativeThumbnailController R
next_generation c = record c { generation = u64 (c.generation + 1); views = []; queued_paths = [] }

-- The part of `synchronize` after the lookup, which has found `lookup path` for each path.
unfoldable pub finish_synchronize :
    {R : Type 0}
    → Lookup
    → (Text → Option R)
    → NativeThumbnailController R
    → NativeThumbnailController R
unfolding place_views
finish_synchronize l lookup c =
    if l.revision == c.synchronization_revision
    then place_views (map (λ path. (path, lookup path)) l.paths)
        (next_generation (enter_epoch l.epoch (drop_lookup c)))
    else c

unfoldable pub take_next_request :
    {R : Type 0}
    → NativeThumbnailController R
    → Option NativeThumbnailRequest × NativeThumbnailController R
unfolding set_view
take_next_request c = elim c.in_flight [
  | some r ↦ (none, c)
  | none ↦ elim c.queued_paths [
    | [] ↦ (none, c)
    | path ∷ rest ↦
        let request : NativeThumbnailRequest = record {
          generation = c.generation;
          texture_path = path;
        } in
        (
          some request,
          record c {
            queued_paths = rest;
            in_flight = some request;
            views = set_view path (λ v. record v { status = loading }) c.views;
          },
        )
  ]
]

abbrev pub is_in_flight : NativeThumbnailRequest → Option NativeThumbnailRequest → Bool
is_in_flight request none = false
is_in_flight request (some r) = same_request r request

abbrev pub canonical_request : NativeThumbnailRequest → NativeThumbnailRequest
canonical_request r = record r { texture_path = canonicalize_texture_path r.texture_path }

unfoldable pub is_current :
    {R : Type 0} → NativeThumbnailRequest → NativeThumbnailController R → Bool
is_current request c =
    is_in_flight (canonical_request request) c.in_flight && request.generation == c.generation

-- The result of a load: a texture, or why there is none.
pub data Loaded (R : Type 0) : Type 0 where
  loaded : R → Loaded R
  failed : NativeThumbnailFailure → Loaded R

abbrev pub fail_view :
    {R : Type 0}
    → NativeThumbnailStatus
    → Text
    → NativeThumbnailController R
    → NativeThumbnailController R
unfolding set_view
fail_view status path c = record c {
  views = set_view path (λ v. record v { status = status; texture = none }) c.views;
}

-- What a result does to the view of its path.
unfoldable pub receive :
    {R : Type 0} → Text → Loaded R → NativeThumbnailController R → NativeThumbnailController R
unfolding queue_if_eligible set_view
receive path (loaded texture) c = record c {
  views = set_view path (λ v. record v { status = ready; texture = some texture }) c.views;
}
receive path (failed is_missing) c =
    fail_view missing path
      (record c { negative_failures = (path, is_missing) ∷ c.negative_failures })
receive path (failed is_broken) c =
    fail_view broken path (record c { negative_failures = (path, is_broken) ∷ c.negative_failures })
receive path (failed device_unavailable) c =
    fail_view placeholder path
      (record c { device_unavailable_paths = path ∷ c.device_unavailable_paths })
receive path (failed cancelled) c = queue_if_eligible path (fail_view placeholder path c)

-- `complete`, once the request in flight is taken off.
unfoldable pub complete_taken :
    {R : Type 0}
    → NativeThumbnailRequest
    → Loaded R
    → NativeThumbnailController R
    → NativeThumbnailController R
unfolding status_at queue_if_eligible receive
complete_taken request result c =
    if not (is_some (status_at request.texture_path c.views))
    then c
    else if not (request.generation == c.generation)
    then queue_if_eligible request.texture_path c
    else receive request.texture_path result c

unfoldable pub complete :
    {R : Type 0}
    → NativeThumbnailRequest
    → Loaded R
    → NativeThumbnailController R
    → NativeThumbnailController R
unfolding complete_taken
complete request result c =
    if is_in_flight (canonical_request request) c.in_flight
    then complete_taken (canonical_request request) result (record c { in_flight = none })
    else c

-- The loop of `retryDeviceUnavailable`, over the views.
unfoldable pub retry_paths :
    {R : Type 0}
    → List Text
    → List (NativeThumbnailView R)
    → NativeThumbnailController R
    → NativeThumbnailController R
unfolding queue_if_eligible
retry_paths unavailable [] c = c
retry_paths unavailable (v ∷ vs) c =
    retry_paths unavailable vs
      (if contains v.texture_path unavailable then queue_if_eligible v.texture_path c else c)

unfoldable pub retry_device_unavailable :
    {R : Type 0} → NativeThumbnailController R → NativeThumbnailController R
unfolding retry_paths
retry_device_unavailable c =
    retry_paths c.device_unavailable_paths c.views (record c { device_unavailable_paths = [] })

unfoldable pub clear : {R : Type 0} → NativeThumbnailController R → NativeThumbnailController R
clear c = record (drop_lookup c) {
  epoch = 0;
  generation = u64 (c.generation + 1);
  synchronization_revision = u64 (c.synchronization_revision + 1);
  views = [];
  queued_paths = [];
  negative_failures = [];
  device_unavailable_paths = [];
}
