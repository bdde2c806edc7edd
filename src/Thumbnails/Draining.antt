-- ===== src/Thumbnails/Draining.antt =====
-- Frames that empty the queue.
use mathlib.Core.Path.{subst}
use slavetat_ui.Base.{
  ℕ, ◌≡◌, ◌≤◌, refl, arith, sym, ap, ◌∙◌, inl, inr, Bool-cases, Text, List, [], ◌∷◌, length, Option,
  none, some, All,
}
use slavetat_ui.Thumbnails.State.{
  NativeThumbnailRequest, NativeThumbnailController, canonicalize_texture_path, set_view, loading,
}
use slavetat_ui.Thumbnails.Controller.{take_next_request}
use slavetat_ui.Thumbnails.Tasks.{Serves, at_once, schedule-queued}
use slavetat_ui.Thumbnails.Runtime.{
  NativeThumbnailTextureSource, NativeThumbnailRuntime, Call, prune, schedule, pump_available, pump,
  is_due,
}

module _ {R W : Type 0} (source : NativeThumbnailTextureSource R W) where
  -- Frames at these times, each with a scheduler that runs the task at once.
  unfoldable pub pump_each : List ℕ → Call R W → Call R W
  unfolding pump
  pump_each [] s = s
  pump_each (now ∷ times) s = pump_each times (pump source now (at_once now) s)

  prune-kept :
      (Live : W → Type 0)
      → Serves source Live
      → (now : ℕ) (s : NativeThumbnailRuntime R) (w : W) → Live w
      → ((prune source now (s, w)).0.controller ≡ s.controller) × Live (prune source now (s, w)).1
  unfolding prune
  prune-kept Live serves now s w live = elim (Bool-cases (is_due now s.last_prune)) [
    | inl e ↦ rw e (refl, serves.prunes now w live)
    | inr e ↦ rw e (refl, live)
  ]

  -- The controller once the first path of its queue is taken.
  abbrev taken : Text → List Text → NativeThumbnailController R → NativeThumbnailController R
  taken path rest c = record c {
    queued_paths = rest;
    in_flight = some (record { generation = c.generation; texture_path = path });
    views = set_view path (λ v. record v { status = loading }) c.views;
  }

  take-first :
      (path : Text) (rest : List Text) (c : NativeThumbnailController R)
      → c.queued_paths ≡ path ∷ rest
      → c.in_flight ≡ none
      → take_next_request c
        ≡ (some (record { generation = c.generation; texture_path = path }), taken path rest c)
  unfolding take_next_request
  take-first path rest c queued idle = simp (idle, queued, take_next_request) refl

  abbrev Drained : (W → Type 0) → List Text → Call R W → Type 0
  Drained Live rest after =
      (after.0.controller.queued_paths ≡ rest)
      × (after.0.controller.in_flight ≡ none)
      × Live after.1

  -- `pump_available`, once a request was taken or not.
  abbrev handed :
      ℕ
      → NativeThumbnailRuntime R
      → W
      → Option NativeThumbnailRequest × NativeThumbnailController R
      → Call R W
  handed now s w t = elim t.0 [
    | none ↦ (record s { controller = t.1 }, w)
    | some request ↦ schedule source (at_once now) request (record s { controller = t.1 }, w)
  ]

  available-queued :
      (Live : W → Type 0)
      → Serves source Live
      → (path : Text) (rest : List Text) (now : ℕ) (s : NativeThumbnailRuntime R) (w : W)
      → canonicalize_texture_path path ≡ path
      → s.controller.queued_paths ≡ path ∷ rest
      → s.controller.in_flight ≡ none
      → Live w
      → Drained Live rest (pump_available source (at_once now) (s, w))
  unfolding pump_available
  available-queued Live serves path rest now s w canonical queued idle live =
      subst (λ t. Drained Live rest (handed now s w t))
        (sym (take-first path rest s.controller queued idle))
        (schedule-queued source Live serves path now
          (record s { controller = taken path rest s.controller }) w canonical refl live)

  -- A frame takes the first path off the queue and ends its load.
  pump-queued :
      (Live : W → Type 0)
      → Serves source Live
      → (path : Text) (rest : List Text) (now : ℕ) (s : NativeThumbnailRuntime R) (w : W)
      → canonicalize_texture_path path ≡ path
      → s.controller.queued_paths ≡ path ∷ rest
      → s.controller.in_flight ≡ none
      → Live w
      → Drained Live rest (pump source now (at_once now) (s, w))
  unfolding pump
  pump-queued Live serves path rest now s w canonical queued idle live =
      let (s1, w1) = prune source now (s, w) in
      let (same, alive) = prune-kept Live serves now s w live in
      rw (serves.answers w1 alive) (
        available-queued Live serves path rest now s1 w1 canonical
          (ap (λ c. c.queued_paths) same ∙ queued) (ap (λ c. c.in_flight) same ∙ idle) alive)

  pump-empty :
      (Live : W → Type 0)
      → Serves source Live
      → (now : ℕ) (s : NativeThumbnailRuntime R) (w : W) → s.controller.queued_paths ≡ []
      → s.controller.in_flight ≡ none
      → Live w
      → Drained Live [] (pump source now (at_once now) (s, w))
  unfolding pump pump_available take_next_request
  pump-empty Live serves now s w queued idle live =
      let (s1, w1) = prune source now (s, w) in
      let (same, alive) = prune-kept Live serves now s w live in
      let queued' = ap (λ c. c.queued_paths) same ∙ queued in
      let idle' = ap (λ c. c.in_flight) same ∙ idle in
      let nothing : take_next_request s1.controller ≡ (none, s1.controller) =
        simp (idle', queued', take_next_request) refl in
      rw (serves.answers w1 alive)
        (subst (λ t. Drained Live [] (handed now s1 w1 t)) (sym nothing) (queued', idle', alive))

  -- As many frames as paths that are queued empty the queue, and so do more.
  pub pump_each-Drained :
      (Live : W → Type 0)
      → Serves source Live
      → (times : List ℕ) (paths : List Text) (s : NativeThumbnailRuntime R) (w : W)
      → s.controller.queued_paths ≡ paths
      → All (λ path. canonicalize_texture_path path ≡ path) paths
      → length paths ≤ length times
      → s.controller.in_flight ≡ none
      → Live w
      → Drained Live [] (pump_each times (s, w))
  unfolding pump_each
  pump_each-Drained Live serves [] [] s w queued canonical enough idle live = (queued, idle, live)
  pump_each-Drained Live serves [] (p ∷ ps) s w queued canonical enough idle live =
      absurd (omega (arith, enough))
  pump_each-Drained Live serves (now ∷ times) [] s w queued canonical enough idle live =
      let (queued', idle', live') = pump-empty Live serves now s w queued idle live in
      pump_each-Drained Live serves times [] _ _ queued' tt (omega arith) idle' live'
  pump_each-Drained Live serves (now ∷ times) (p ∷ ps) s w queued canonical enough idle live =
      let (queued', idle', live') =
        pump-queued Live serves p ps now s w canonical.0 queued idle live in
      pump_each-Drained Live serves times ps _ _ queued' canonical.1 (omega (arith, enough)) idle'
        live'
