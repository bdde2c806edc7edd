-- ===== src/Thumbnails/Flights.antt =====
-- The tasks that load thumbnails, over every use of the runtime.
use slavetat_ui.Base.{
  ℕ, ◌≤◌, ◌≡◌, ◌≢◌, ◌∙◌, ap, sym, refl, arith, Bool, true, false, Bool-cases, eq_text_refl,
  contains, ◌⊎◌, inl, inr, Text, List, [], ◌∷◌, ◌++◌, length, Option, none, some, Option-cases,
  List-cases, ◌==◌, zero, suc,
}
use slavetat_ui.Thumbnails.State.{
  NativeThumbnailRequest, NativeThumbnailController, canonicalize_texture_path, is_missing,
  is_broken, device_unavailable, cancelled, NativeThumbnailStatus, NativeThumbnailFailure,
  queue_if_eligible,
}
use slavetat_ui.Thumbnails.Controller.{
  take_next_request, Loaded, loaded, failed, canonical_request, is_in_flight, complete,
  complete_taken, receive,
}
use slavetat_ui.Thumbnails.Served.{
  Agrees, IsCanonical, IsServed, IsSound, complete-IsSound, complete-generation,
}
use slavetat_ui.Thumbnails.Runtime.{
  Flight, NativeThumbnailRuntime, flight_at, claim_at, complete_once,
}

-- A task of the request that was not claimed.
abbrev pub Waits : NativeThumbnailRequest → List Flight → Type 0
Waits r fs = (i : ℕ) × (flight_at i fs ≡ some (record { request = r; completion_claimed = false }))

-- The request in flight has a task.
abbrev pub IsCarried : Option NativeThumbnailRequest → List Flight → Type 0
IsCarried none fs = Unit
IsCarried (some r) fs = (canonicalize_texture_path r.texture_path ≡ r.texture_path) × Waits r fs

-- The controller of a runtime, whose generation has a bound, and its tasks.
pub record IsRun {R : Type 0} (bound : ℕ) (s : NativeThumbnailRuntime R) : Type 0 where
  pub sound : IsSound s.controller
  pub carried : IsCarried s.controller.in_flight s.flights
  pub bounded : s.controller.generation ≤ bound

pub IsCarried-none :
    (o : Option NativeThumbnailRequest) (fs : List Flight) → o ≡ none → IsCarried o fs
IsCarried-none none fs e = tt
IsCarried-none (some r) fs e = ground arith

pub IsCarried-some :
    (o : Option NativeThumbnailRequest) (r : NativeThumbnailRequest) (fs : List Flight)
    → o ≡ some r
    → canonicalize_texture_path r.texture_path ≡ r.texture_path
    → Waits r fs
    → IsCarried o fs
IsCarried-some o r fs e k w = rw e (k, w)

flight_at-claim_at :
    (i j : ℕ) (fs : List Flight) → i ≢ j → flight_at i (claim_at j fs) ≡ flight_at i fs
unfolding flight_at claim_at
flight_at-claim_at i j [] n = refl
flight_at-claim_at zero zero (f ∷ fs) n = absurd (n refl)
flight_at-claim_at zero (suc j) (f ∷ fs) n = refl
flight_at-claim_at (suc i) zero (f ∷ fs) n = refl
flight_at-claim_at (suc i) (suc j) (f ∷ fs) n = flight_at-claim_at i j fs (λ e. n (ap suc e))

pub flight_at-snoc :
    (i : ℕ) (fs : List Flight) (f g : Flight)
    → flight_at i fs ≡ some f
    → flight_at i (fs ++ (g ∷ [])) ≡ some f
unfolding flight_at
flight_at-snoc i [] f g h = ground arith
flight_at-snoc zero (x ∷ fs) f g h = h
flight_at-snoc (suc i) (x ∷ fs) f g h = flight_at-snoc i fs f g h

pub flight_at-length :
    (fs : List Flight) (g : Flight) → flight_at (length fs) (fs ++ (g ∷ [])) ≡ some g
unfolding flight_at
flight_at-length [] g = refl
flight_at-length (x ∷ fs) g = flight_at-length fs g

status_canonical :
    (o : Option NativeThumbnailStatus) (q : Text) (queued flying current unavailable : Bool)
    (failure : Option NativeThumbnailFailure)
    → Agrees o queued flying current unavailable failure
    → IsCanonical o q
    → queued ≡ true
    → canonicalize_texture_path q ≡ q
status_canonical none q queued flying current unavailable failure a k e = ground arith
status_canonical (some status) q queued flying current unavailable failure a k e = k

module _ {R : Type 0} where
  queue-in_flight :
      (path : Text) (c : NativeThumbnailController R)
      → (queue_if_eligible path c).in_flight ≡ c.in_flight
  unfolding queue_if_eligible
  queue-in_flight path c = ground arith

  receive-in_flight :
      (path : Text) (result : Loaded R) (c : NativeThumbnailController R)
      → (receive path result c).in_flight ≡ c.in_flight
  unfolding receive
  receive-in_flight path (loaded texture) c = refl
  receive-in_flight path (failed is_missing) c = refl
  receive-in_flight path (failed is_broken) c = refl
  receive-in_flight path (failed device_unavailable) c = refl
  receive-in_flight path (failed cancelled) c = queue-in_flight path _

  complete_taken-in_flight :
      (r : NativeThumbnailRequest) (result : Loaded R) (c : NativeThumbnailController R)
      → (complete_taken r result c).in_flight ≡ c.in_flight
  unfolding complete_taken
  complete_taken-in_flight r result c =
      ground (arith, queue-in_flight r.texture_path c, receive-in_flight r.texture_path result c)

  pub complete-in_flight :
      (r : NativeThumbnailRequest) (result : Loaded R) (c : NativeThumbnailController R)
      → ((complete r result c).in_flight ≡ none) ⊎ ((complete r result c).in_flight ≡ c.in_flight)
  unfolding complete
  complete-in_flight r result c =
      elim (Bool-cases (is_in_flight (canonical_request r) c.in_flight)) [
        | inl e ↦ inl (rw e (complete_taken-in_flight (canonical_request r) result _))
        | inr e ↦ inr (rw e refl)
      ]

  pub complete-same :
      (r : NativeThumbnailRequest) (result : Loaded R) (c : NativeThumbnailController R)
      → canonicalize_texture_path r.texture_path ≡ r.texture_path
      → c.in_flight ≡ some r
      → (complete r result c).in_flight ≡ none
  unfolding complete
  complete-same r result c k e =
      let same : is_in_flight (canonical_request r) c.in_flight ≡ true =
        rw (e, k) (ground (arith, eq_text_refl r.texture_path)) in
      rw same (complete_taken-in_flight (canonical_request r) result _)

  -- The claimed task's request is not in flight any more.
  IsCarried-complete :
      (i : ℕ) (f : Flight) (result : Loaded R) (c : NativeThumbnailController R) (fs : List Flight)
      → flight_at i fs ≡ some f
      → IsCarried c.in_flight fs
      → IsCarried (complete f.request result c).in_flight (claim_at i fs)
  IsCarried-complete i f result c fs e h = elim (Option-cases c.in_flight) [
    | inl n ↦ IsCarried-none _ _ (ground (arith, complete-in_flight f.request result c))
    | inr (r, n) ↦
        let (k, (j, w)) : IsCarried (some r) fs = rw n at h in
        elim (Bool-cases (i == j)) [
          | inl same ↦
              let taken : f.request ≡ r = ground (arith, e, w) in
              IsCarried-none _ _
                (complete-same f.request result c (rw taken k) (n ∙ ap some (sym taken)))
          | inr apart ↦ elim (complete-in_flight f.request result c) [
            | inl landed ↦ IsCarried-none _ _ landed
            | inr flying ↦
                IsCarried-some _ r _ (flying ∙ n) k
                  (j, flight_at-claim_at j i fs (ground arith) ∙ w)
          ]
        ]
  ]

  pub complete_once-IsRun :
      (i : ℕ) (result : Loaded R) (bound : ℕ) (s : NativeThumbnailRuntime R)
      → IsRun bound s
      → IsRun bound (complete_once i result s)
  unfolding complete_once
  complete_once-IsRun i result bound s h = elim (Option-cases (flight_at i s.flights)) [
    | inl e ↦ rw (e, complete_once) h
    | inr (f, e) ↦ elim (Bool-cases f.completion_claimed) [
      | inl k ↦ rw (e, k, complete_once) h
      | inr k ↦
          rw (e, k, complete_once)
            (record {
              sound = complete-IsSound f.request result s.controller h.sound;
              carried = IsCarried-complete i f result s.controller s.flights e h.carried;
              bounded = omega (arith, complete-generation f.request result s.controller, h.bounded);
            })
    ]
  ]

  queued_canonical :
      (q : Text) (c : NativeThumbnailController R)
      → IsServed c q
      → contains q c.queued_paths ≡ true
      → canonicalize_texture_path q ≡ q
  queued_canonical q c h e = status_canonical _ q _ _ _ _ _ h.agrees h.canonical e

  pub take-generation :
      (c : NativeThumbnailController R) → (take_next_request c).1.generation ≡ c.generation
  unfolding take_next_request
  take-generation c = ground arith

  -- What is taken is in flight then.
  pub take_cases :
      (c : NativeThumbnailController R)
      → IsSound c
      → (((take_next_request c).0 ≡ none) × ((take_next_request c).1.in_flight ≡ c.in_flight))
        ⊎ ((r : NativeThumbnailRequest) × ((take_next_request c).0 ≡ some r)
            × ((take_next_request c).1.in_flight ≡ some r)
            × (canonicalize_texture_path r.texture_path ≡ r.texture_path))
  unfolding take_next_request
  take_cases c h = elim (Option-cases c.in_flight) [
    | inr (r, e) ↦ inl (rw (e, take_next_request) refl, rw (e, take_next_request) e)
    | inl e ↦ elim (List-cases c.queued_paths) [
      | inl f ↦ inl (rw (e, f, take_next_request) refl, rw (e, f, take_next_request) e)
      | inr (q, rest, f) ↦ inr (
        record { generation = c.generation; texture_path = q },
        rw (e, f, take_next_request) refl,
        rw (e, f, take_next_request) refl,
        queued_canonical q c (h.paths q) (rw f (ground (arith, eq_text_refl q))),
      )
    ]
  ]
