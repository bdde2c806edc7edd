-- ===== src/Thumbnails/State.antt =====
-- The state of `NativeThumbnailController`, and the helpers that run with its lock held.
use slavetat_ui.Base.{
  ℕ, Bool, true, false, not, ◌&&◌, ◌==◌, if◌then◌else◌, ltb, ◌+◌, ◌-◌, Text, eq_text, contains,
  List, [], ◌∷◌, ◌++◌, map, Option, none, some, is_some,
}

pub data NativeThumbnailStatus : Type 0 where
  placeholder loading ready missing broken : NativeThumbnailStatus

pub data NativeThumbnailFailure : Type 0 where
  is_missing is_broken device_unavailable cancelled : NativeThumbnailFailure

pub record NativeThumbnailRequest : Type 0 where
  pub generation : ℕ
  pub texture_path : Text

-- `R` is what a shared pointer to a texture can hold; `none` is the null pointer.
pub record NativeThumbnailView (R : Type 0) : Type 0 where
  pub texture_path : Text
  pub status : NativeThumbnailStatus
  pub texture : Option R

-- An epoch is the address that its shared pointer holds, 0 for null.
pub record NativeThumbnailController (R : Type 0) : Type 0 where
  pub epoch : ℕ
  pub generation : ℕ
  pub synchronization_revision : ℕ
  pub pending_epoch : ℕ
  pub pending_paths : List Text
  pub lookup_pending : Bool
  pub views : List (NativeThumbnailView R)
  pub queued_paths : List Text
  pub in_flight : Option NativeThumbnailRequest
  pub negative_failures : List (Text × NativeThumbnailFailure)
  pub device_unavailable_paths : List Text

abbrev pub new_controller : {R : Type 0} → NativeThumbnailController R
new_controller = record {
  epoch = 0;
  generation = 0;
  synchronization_revision = 0;
  pending_epoch = 0;
  pending_paths = [];
  lookup_pending = false;
  views = [];
  queued_paths = [];
  in_flight = none;
  negative_failures = [];
  device_unavailable_paths = [];
}

abbrev pub maximum_visible_paths : ℕ
maximum_visible_paths = 6

abbrev pub canonical_char : ℕ → ℕ
canonical_char c = if c == b'\\' then b'/' else if ltb 64 c && ltb c 91 then c - b'A' + b'a' else c

unfoldable pub canonicalize_texture_path : Text → Text
canonicalize_texture_path path = map canonical_char path

-- The status of the first view of the path, as `std::ranges::find` finds it.
unfoldable pub status_at :
    {R : Type 0} → Text → List (NativeThumbnailView R) → Option NativeThumbnailStatus
status_at path [] = none
status_at path (v ∷ vs) = if eq_text v.texture_path path then some v.status else status_at path vs

-- Writes to the first view of the path.
unfoldable pub set_view :
    {R : Type 0}
    → Text
    → (NativeThumbnailView R → NativeThumbnailView R)
    → List (NativeThumbnailView R)
    → List (NativeThumbnailView R)
set_view path write [] = []
set_view path write (v ∷ vs) =
    if eq_text v.texture_path path then write v ∷ vs else v ∷ set_view path write vs

unfoldable pub failure_at :
    Text → List (Text × NativeThumbnailFailure) → Option NativeThumbnailFailure
failure_at path [] = none
failure_at path ((key, failure) ∷ rest) =
    if eq_text key path then some failure else failure_at path rest

abbrev pub same_request : NativeThumbnailRequest → NativeThumbnailRequest → Bool
same_request left right =
    left.generation == right.generation && eq_text left.texture_path right.texture_path

abbrev pub negative_status : NativeThumbnailFailure → Option NativeThumbnailStatus
negative_status is_missing = some missing
negative_status is_broken = some broken
negative_status device_unavailable = none
negative_status cancelled = none

abbrev pub is_placeholder : Option NativeThumbnailStatus → Bool
is_placeholder (some placeholder) = true
is_placeholder o = false

abbrev pub is_queued : {R : Type 0} → Text → NativeThumbnailController R → Bool
is_queued path c = contains path c.queued_paths

-- Is the request in flight one for this path?
abbrev pub is_flying : Text → Option NativeThumbnailRequest → Bool
is_flying path none = false
is_flying path (some r) = eq_text r.texture_path path

-- The test of `queueIfEligibleLocked`, at a canonical path.
unfoldable pub is_eligible : {R : Type 0} → Text → NativeThumbnailController R → Bool
unfolding status_at failure_at
is_eligible path c =
    is_placeholder (status_at path c.views)
    && not (is_some (failure_at path c.negative_failures))
    && not (contains path c.device_unavailable_paths)
    && not (is_queued path c)
    && not (is_flying path c.in_flight)

unfoldable pub queue_if_eligible :
    {R : Type 0} → Text → NativeThumbnailController R → NativeThumbnailController R
unfolding is_eligible canonicalize_texture_path
queue_if_eligible path c =
    let canonical = canonicalize_texture_path path in
    if is_eligible canonical c
    then record c { queued_paths = c.queued_paths ++ (canonical ∷ []) }
    else c
