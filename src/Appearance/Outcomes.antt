-- ===== src/Appearance/Outcomes.antt =====
-- What has happened to the game when an update of an appearance returns.
use slavetat_ui.Base.{
  ◌≡◌, ap, ◌≢◌, Bool-cases, inl, inr, arith, refl, Bool, true, false, ℤ, pos, ◌==ℤ◌, ==ℤ_iff,
  any_of_iff, Memᴰ, List, Option, none, some,
}
use slavetat_ui.Core.Models.{
  UpdateTattooAppearanceMode, UpdateTattooAppearanceRequest, UpdateTattooAppearanceSuccess,
  ServiceError, synchronize_failed, Expected, ok, unexpected,
}
use slavetat_ui.Appearance.{
  IUpdateTattooAppearanceBackend, contains_applied_tattoo_handle, finish, after_mark, after_write,
  after_query, after_actor, after_resolve, update_tattoo_appearance,
}

contains_applied_tattoo_handle-Mem :
    (handles : List ℤ) (candidate : ℤ)
    → contains_applied_tattoo_handle handles candidate ≡ true
    → (candidate ≢ pos 0) × Memᴰ candidate handles
unfolding contains_applied_tattoo_handle
contains_applied_tattoo_handle-Mem handles candidate h = elim (Bool-cases (candidate ==ℤ pos 0)) [
  | inl e ↦ absurd (ground (arith, h, e))
  | inr e ↦ (
    λ z. ground (arith, e, (==ℤ_iff candidate (pos 0)).1 z),
    (any_of_iff handles candidate).0 (rw e at h),
  )
]

module _ {W A : Type 0} (backend : IUpdateTattooAppearanceBackend W A)
    (request : UpdateTattooAppearanceRequest) where
  -- The request's values were written, to a tattoo that the actor was reported to have: the looked-up
  -- handles came first, and the write took the game from there.
  pub record Wrote (actor : A) (before after : W) : Type 0 where
    pub handles : List ℤ
    pub looked_up : W
    pub reported : backend.query_applied_tattoo_handles actor before ≡ (ok handles, looked_up)
    pub is_handle : request.runtime_handle ≢ pos 0
    pub listed : Memᴰ request.runtime_handle handles
    pub written : backend.write_appearance request.runtime_handle request looked_up ≡ (true, after)

  -- What comes before the mark, from the call's start: the actor is the request's, and either there
  -- is nothing to write or it was written.
  pub data Changed (start : W) (actor : A) (after : W) : Type 0 where
    only_synchronizes :
        request.mode ≡ UpdateTattooAppearanceMode.synchronize_only
        → backend.resolve_actor request.actor_form_id start ≡ (some actor, after)
        → Changed start actor after
    writes :
        (found : W)
        → request.mode ≡ UpdateTattooAppearanceMode.update_and_synchronize
        → backend.resolve_actor request.actor_form_id start ≡ (some actor, found)
        → Wrote actor found after
        → Changed start actor after

  -- The whole run of an update up to the synchronization, which returned `succeeded`.
  pub record Ran (start : W) (succeeded : Bool) (result : W) : Type 0 where
    pub actor : A
    pub changed_world : W
    pub changed : Changed start actor changed_world
    pub marked_world : W
    pub marked : backend.mark_actor_updated actor changed_world ≡ (true, marked_world)
    pub synchronized : backend.synchronize actor marked_world ≡ (succeeded, result)

  -- Looking up the applied tattoos fails with other errors than that of a failed synchronization.
  abbrev QueryFailsOtherwise : Type 0
  QueryFailsOtherwise =
      (actor : A) (w : W) (e : ServiceError)
      → (backend.query_applied_tattoo_handles actor w).0 ≡ unexpected e
      → e.code ≢ synchronize_failed

  -- What a result tells: of a success everything, and of a failed synchronization all before it.
  abbrev Tells : W → Expected UpdateTattooAppearanceSuccess × W → Type 0
  Tells start (ok x, w) =
      Ran start true w
      × (x ≡ record {
        actor_form_id = request.actor_form_id;
        runtime_handle = request.runtime_handle;
      })
  Tells start (unexpected e, w) =
      e.code ≡ synchronize_failed → QueryFailsOtherwise → Ran start false w

  ran :
      {start changed marked result : W} {actor : A} {succeeded : Bool}
      → Changed start actor changed
      → backend.mark_actor_updated actor changed ≡ (true, marked)
      → backend.synchronize actor marked ≡ (succeeded, result)
      → Ran start succeeded result
  ran h m e = record {
    actor = _;
    changed_world = _;
    changed = h;
    marked_world = _;
    marked = m;
    synchronized = e;
  }

  finish-Tells :
      (start changed marked : W) (actor : A)
      → Changed start actor changed
      → backend.mark_actor_updated actor changed ≡ (true, marked)
      → (p : Bool × W) → backend.synchronize actor marked ≡ p
      → Tells start (finish backend request p)
  unfolding finish
  finish-Tells start changed marked actor h m (true, w) e = (ran h m e, refl)
  finish-Tells start changed marked actor h m (false, w) e = λ _ _. ran h m e

  after_mark-Tells :
      (start changed : W) (actor : A)
      → Changed start actor changed
      → (p : Bool × W) → backend.mark_actor_updated actor changed ≡ p
      → Tells start (after_mark backend request actor p)
  unfolding after_mark
  after_mark-Tells start changed actor h (true, w) e = finish-Tells start changed w actor h e _ refl
  after_mark-Tells start changed actor h (false, w) e = λ c o. ground arith

  after_write-Tells :
      (start found looked_up : W) (actor : A) (handles : List ℤ)
      → request.mode ≡ UpdateTattooAppearanceMode.update_and_synchronize
      → backend.resolve_actor request.actor_form_id start ≡ (some actor, found)
      → backend.query_applied_tattoo_handles actor found ≡ (ok handles, looked_up)
      → contains_applied_tattoo_handle handles request.runtime_handle ≡ true
      → (p : Bool × W) → backend.write_appearance request.runtime_handle request looked_up ≡ p
      → Tells start (after_write backend request actor p)
  unfolding after_write
  after_write-Tells start found looked_up actor handles m r q c (true, w) e =
      let (is_handle, listed) =
        contains_applied_tattoo_handle-Mem handles request.runtime_handle c in
      after_mark-Tells start w actor
        (Changed.writes found m r (record {
          handles = handles;
          looked_up = looked_up;
          reported = q;
          is_handle = is_handle;
          listed = listed;
          written = e;
        }))
        _ refl
  after_write-Tells start found looked_up actor handles m r q c (false, w) e = λ x o. ground arith

  after_query-Tells :
      (start found : W) (actor : A)
      → request.mode ≡ UpdateTattooAppearanceMode.update_and_synchronize
      → backend.resolve_actor request.actor_form_id start ≡ (some actor, found)
      → (p : Expected (List ℤ) × W) → backend.query_applied_tattoo_handles actor found ≡ p
      → Tells start (after_query backend request actor p)
  unfolding after_query
  after_query-Tells start found actor m r (unexpected e, w) q =
      λ c other. absurd (other actor found e (ap (λ x. x.0) q) c)
  after_query-Tells start found actor m r (ok handles, w) q =
      elim (Bool-cases (contains_applied_tattoo_handle handles request.runtime_handle)) [
        | inl c ↦ rw (after_query, c) (after_write-Tells start found w actor handles m r q c _ refl)
        | inr c ↦ rw (after_query, c) (λ x o. ground arith)
      ]

  after_actor-Tells :
      (start found : W) (actor : A) (m : UpdateTattooAppearanceMode)
      → request.mode ≡ m
      → backend.resolve_actor request.actor_form_id start ≡ (some actor, found)
      → Tells start (after_actor backend request actor m found)
  unfolding after_actor
  after_actor-Tells start found actor UpdateTattooAppearanceMode.synchronize_only m r =
      after_mark-Tells start found actor (Changed.only_synchronizes m r) _ refl
  after_actor-Tells start found actor UpdateTattooAppearanceMode.update_and_synchronize m r =
      after_query-Tells start found actor m r _ refl

  after_resolve-Tells :
      (start : W) (p : Option A × W)
      → backend.resolve_actor request.actor_form_id start ≡ p
      → Tells start (after_resolve backend request p)
  unfolding after_resolve
  after_resolve-Tells start (none, w) r = λ c o. ground arith
  after_resolve-Tells start (some actor, w) r = after_actor-Tells start w actor request.mode refl r

  -- A success names the request's actor and handle, and then everything has happened, in one run of
  -- calls each of which takes the game as the one before it left it: the request's form was
  -- resolved to an actor; unless the request only synchronizes, the tattoos of that actor were
  -- looked up, they have the request's handle, which is not 0, and the request's values were
  -- written to it; that actor was marked; and its overlays were synchronized last, which left the
  -- game that is returned.
  pub success_did_all :
      (w w' : W) (x : UpdateTattooAppearanceSuccess)
      → update_tattoo_appearance backend request w ≡ (ok x, w')
      → Ran w true w'
        × (x ≡ record {
          actor_form_id = request.actor_form_id;
          runtime_handle = request.runtime_handle;
        })
  unfolding update_tattoo_appearance
  success_did_all w w' x e = rw e at (after_resolve-Tells w _ refl)

  -- When the error is that of a failed synchronization, the same calls have been made as for a
  -- success, each on the game as the one before it left it: the request's form was resolved to an
  -- actor, the request's values were written to the handle, which that actor was reported to have,
  -- unless the request only synchronizes, that actor was marked, and only the synchronization
  -- failed, whose game is returned, with nothing undone; provided that the look-up of the applied
  -- tattoos does not itself fail with that error.
  pub synchronize_failed_wrote :
      (w w' : W) (e : ServiceError)
      → update_tattoo_appearance backend request w ≡ (unexpected e, w')
      → e.code ≡ synchronize_failed
      → ((actor : A) (v : W) (f : ServiceError)
          → (backend.query_applied_tattoo_handles actor v).0 ≡ unexpected f
          → f.code ≢ synchronize_failed)
      → Ran w false w'
  unfolding update_tattoo_appearance
  synchronize_failed_wrote w w' e r c other = (rw r at (after_resolve-Tells w _ refl)) c other

  -- A request that only synchronizes neither looks up the applied tattoos nor writes: it returns
  -- and does the same whatever those two calls would do.
  pub synchronize_only_never_writes :
      (query : A → W → Expected (List ℤ) × W)
      (write : ℤ → UpdateTattooAppearanceRequest → W → Bool × W) (w : W)
      → request.mode ≡ UpdateTattooAppearanceMode.synchronize_only
      → update_tattoo_appearance
          (record backend { query_applied_tattoo_handles = query; write_appearance = write })
          request
          w
        ≡ update_tattoo_appearance backend request w
  unfolding update_tattoo_appearance after_resolve after_actor after_mark finish
  synchronize_only_never_writes query write w m = rw m refl
