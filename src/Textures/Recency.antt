-- ===== src/Textures/Recency.antt =====
-- The cache as one list, the most recently used first.
use slavetat_ui.Base.{
  ℕ, ◌≤◌, ◌≡◌, refl, arith, ap, sym, ◌∙◌, inl, inr, Bool-cases, Option-cases, true, false, not, ltb,
  Text, eq_text, eq_text_iff, eq_text_refl, contains, IsDistinct, Map, keys, find_key, erase_key,
  contains-keys, keys-erase_key, keys-set_key, find_key-set_key, find_key-erase_key,
  find_key_absent, contains_eq, length-erase_key, contains-erase_text, erase_text-IsDistinct,
  keep_if, take, take_all, length, [], ◌∷◌, Option, none, some, is_some,
}
use slavetat_ui.Textures.Cache.{Entry, TextureCache, get, pop_back, evict, insert_new, is_expired}

-- What a cache promises: the entries by recency, as many as it holds.
module _ {R : Type 0} where
  abbrev pub spec_get : Text → ℕ → Map (Entry R) → Map (Entry R)
  spec_get path now l = elim (find_key path l) [
    | none ↦ l
    | some found ↦ (path, record found { last_access = now }) ∷ erase_key path l
  ]

  abbrev pub spec_insert : ℕ → Text → R → ℕ → Map (Entry R) → Map (Entry R)
  spec_insert capacity path resource now l =
      take capacity ((path, record { resource = resource; last_access = now }) ∷ l)

  abbrev pub spec_prune : Option ℕ → ℕ → Map (Entry R) → Map (Entry R)
  spec_prune none now l = l
  spec_prune (some ttl) now l = keep_if (λ e. not (is_expired ttl now e.1)) l

  -- The cache holds the entries of the list, in its order.
  pub record Refines (c : TextureCache R) (l : Map (Entry R)) : Type 0 where
    pub order : c.recency ≡ keys l
    pub distinct : IsDistinct (keys l)
    pub once : IsDistinct (keys c.entries)
    pub same : (path : Text) → find_key path c.entries ≡ find_key path l
    pub bounded : length l ≤ c.capacity

  absent-empty : (m : Map (Entry R)) → ((path : Text) → find_key path m ≡ none) → m ≡ []
  absent-empty [] h = refl
  absent-empty ((k, e) ∷ m) h = ground (arith, h k, eq_text_refl k)

  -- Maps that find the same are equally long.
  pub same_length :
      (m l : Map (Entry R))
      → IsDistinct (keys m)
      → IsDistinct (keys l)
      → ((path : Text) → find_key path m ≡ find_key path l)
      → length m ≡ length l
  same_length m [] d e h = ap length (absent-empty m h)
  same_length m ((k, a) ∷ l) d e h =
      let there : is_some (find_key k m) ≡ true = ground (arith, h k, eq_text_refl k) in
      let shorter =
        same_length (erase_key k m) l (rw (keys-erase_key k m) (erase_text-IsDistinct k (keys m) d))
          e.1
          (λ path. ground (
            arith,
            find_key-erase_key path k m d,
            h path,
            find_key_absent path k l,
            eq_text_iff k path,
            e.0,
          )) in
      omega (arith, shorter, length-erase_key k m there)

  IsDistinct-front :
      (path : Text) (l : Map (Entry R))
      → IsDistinct (keys l)
      → IsDistinct (path ∷ keys (erase_key path l))
  IsDistinct-front path l d = rw (keys-erase_key path l) (
    ground (arith, contains-erase_text path path (keys l) d, eq_text_refl path),
    erase_text-IsDistinct path (keys l) d,
  )

  -- A use of a path that is there moves it to the front.
  hit-Refines :
      (path : Text) (now : ℕ) (c : TextureCache R) (l : Map (Entry R)) (found : Entry R)
      → find_key path c.entries ≡ some found
      → Refines c l
      → Refines (get path now c).1 ((path, record found { last_access = now }) ∷ erase_key path l)
  unfolding get
  hit-Refines path now c l found e h =
      let there : find_key path l ≡ some found = sym (h.same path) ∙ e in
      rw (e, get)
        (record {
          order = ap (◌∷◌ path) (rw (h.order, keys-erase_key path l) refl);
          distinct = IsDistinct-front path l h.distinct;
          once = rw (keys-set_key path (record found { last_access = now }) c.entries) h.once;
          same = λ j. ground (
            arith,
            find_key-set_key j path (record found { last_access = now }) c.entries,
            find_key-erase_key j path l h.distinct,
            h.same j,
            e,
            eq_text_iff path j,
          );
          bounded = omega (arith, length-erase_key path l (ground (arith, there)), h.bounded);
        })

  pub get-Refines :
      (path : Text) (now : ℕ) (c : TextureCache R) (l : Map (Entry R))
      → Refines c l
      → Refines (get path now c).1 (spec_get path now l)
  unfolding get
  get-Refines path now c l h = elim (Option-cases (find_key path c.entries)) [
    | inl e ↦ let absent = sym (h.same path) ∙ e in rw (e, get) (rw (absent, spec_get) h)
    | inr (found, e) ↦
        let there = sym (h.same path) ∙ e in
        rw (there, spec_get) (hit-Refines path now c l found e h)
  ]

  -- The last of a list is the one that the list without it lacks.
  pop_back_lem :
      (k : Text) (e : Entry R) (l : Map (Entry R))
      → IsDistinct (keys ((k, e) ∷ l))
      → (last : Text) × (pop_back (keys ((k, e) ∷ l))
          ≡ (some last, keys (take (length l) ((k, e) ∷ l))))
        × (erase_key last ((k, e) ∷ l) ≡ take (length l) ((k, e) ∷ l))
        × (contains last (keys ((k, e) ∷ l)) ≡ true)
  unfolding pop_back
  pop_back_lem k e [] d = (k, refl, ground (arith, eq_text_refl k), ground (arith, eq_text_refl k))
  pop_back_lem k e ((k', e') ∷ l) d =
      let (last, popped, erased, there) = pop_back_lem k' e' l d.1 in
      let apart : eq_text k last ≡ false =
        ground (arith, eq_text_iff k last, d.0, there, contains_eq last k (k' ∷ keys l)) in
      (last, rw popped refl, rw (apart, erased) refl, rw there (ground (arith, apart)))

  -- When the list is full, what is put in front takes the place of the last.
  evict-Refines :
      (k : Text) (e : Entry R) (c : TextureCache R) (l : Map (Entry R))
      → length l ≡ c.capacity
      → c.recency ≡ keys ((k, e) ∷ l)
      → IsDistinct (keys ((k, e) ∷ l))
      → IsDistinct (keys c.entries)
      → ((path : Text) → find_key path c.entries ≡ find_key path ((k, e) ∷ l))
      → Refines (evict c) (take c.capacity ((k, e) ∷ l))
  unfolding evict
  evict-Refines k e c l full order distinct once same =
      let (last, popped, erased, there) = pop_back_lem k e l distinct in
      rw (order, evict, popped, ← full, ← erased)
        (record {
          order = rw (order, popped, erased) refl;
          distinct =
              rw (keys-erase_key last ((k, e) ∷ l))
                (erase_text-IsDistinct last (k ∷ keys l) distinct);
          once =
              rw (keys-erase_key last c.entries) (erase_text-IsDistinct last (keys c.entries) once);
          same = λ path. ground (
            arith,
            find_key-erase_key path last c.entries once,
            find_key-erase_key path last ((k, e) ∷ l) distinct,
            same path,
          );
          bounded = omega (
            arith,
            length-erase_key last ((k, e) ∷ l) (sym (contains-keys last ((k, e) ∷ l)) ∙ there),
          );
        })

  -- A path that is not there is put in front, and the list is cut to the capacity.
  pub insert-Refines :
      (path : Text) (resource : R) (now : ℕ) (c : TextureCache R) (l : Map (Entry R))
      → find_key path c.entries ≡ none
      → Refines c l
      → Refines (insert_new path resource now c) (spec_insert c.capacity path resource now l)
  unfolding insert_new
  insert-Refines path resource now c l absent h =
      let e : Entry R = record { resource = resource; last_access = now } in
      let all = (path, e) ∷ l in
      let lengths = same_length c.entries l h.once h.distinct h.same in
      let distinct : IsDistinct (keys all) =
        (contains-keys path l ∙ ground (arith, h.same path, absent), h.distinct) in
      let once : IsDistinct (keys ((path, e) ∷ c.entries)) =
        (contains-keys path c.entries ∙ ground (arith, absent), h.once) in
      let same : (j : Text) → find_key j ((path, e) ∷ c.entries) ≡ find_key j all =
        λ j. ground (arith, h.same j) in
      elim (Bool-cases (ltb c.capacity (length ((path, e) ∷ c.entries)))) [
        | inl full ↦
            rw (full, insert_new)
              (evict-Refines path e
                (record c { recency = path ∷ c.recency; entries = (path, e) ∷ c.entries }) l
                (ground (arith, lengths, h.bounded)) (rw h.order refl) distinct once same)
        | inr room ↦
            rw (room, insert_new, take_all c.capacity all (ground (arith, lengths)))
              (record {
                order = ap (◌∷◌ path) h.order;
                distinct = distinct;
                once = once;
                same = same;
                bounded = ground (arith, lengths);
              })
      ]
