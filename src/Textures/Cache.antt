-- ===== src/Textures/Cache.antt =====
-- src/textures/TextureCache.h. Time points are ticks of the steady clock, which never runs backwards; an
-- idle time of `none` is `TextureCacheDuration::max()`, which never ends.
use slavetat_ui.Base.{
  ℕ, ◌+◌, Bool, leb, ltb, if◌then◌else◌, Text, Map, find_key, erase_key, set_key, erase_text,
  length, List, [], ◌∷◌, Option, none, some,
}

-- The node of the recency list that an entry points to holds the entry's key.
pub record Entry (R : Type 0) : Type 0 where
  pub resource : R
  pub last_access : ℕ

pub record TextureCache (R : Type 0) : Type 0 where
  pub capacity : ℕ
  pub idle_ttl : Option ℕ
  pub recency : List Text
  pub entries : Map (Entry R)

abbrev pub new_cache : {R : Type 0} → ℕ → Option ℕ → TextureCache R
new_cache capacity idle_ttl = record {
  capacity = capacity;
  idle_ttl = idle_ttl;
  recency = [];
  entries = [];
}

unfoldable pub get : {R : Type 0} → Text → ℕ → TextureCache R → Option R × TextureCache R
get path now c = elim (find_key path c.entries) [
  | none ↦ (none, c)
  | some found ↦ (
    some found.resource,
    record c {
      recency = path ∷ erase_text path c.recency;
      entries = set_key path (record found { last_access = now }) c.entries;
    },
  )
]

-- The last text of a list, if there is one, and the list without it.
unfoldable pub pop_back : List Text → Option Text × List Text
pop_back [] = (none, [])
pop_back (k ∷ []) = (some k, [])
pop_back (k ∷ (l ∷ ks)) = let (last, rest) = pop_back (l ∷ ks) in (last, k ∷ rest)

unfoldable pub evict : {R : Type 0} → TextureCache R → TextureCache R
unfolding pop_back
evict c = elim (pop_back c.recency).0 [
  | none ↦ c
  | some last ↦ record c { recency = (pop_back c.recency).1; entries = erase_key last c.entries }
]

-- A path that is not there is put in front.
unfoldable pub insert_new : {R : Type 0} → Text → R → ℕ → TextureCache R → TextureCache R
unfolding evict
insert_new path resource now c =
    let inserted = record c {
      recency = path ∷ c.recency;
      entries = (path, record { resource = resource; last_access = now }) ∷ c.entries;
    } in
    if ltb c.capacity (length inserted.entries) then evict inserted else inserted

-- `getOrLoad`, with a loader that acts on a world `W`; `none` is a null pointer.
unfoldable pub get_or_load :
    {R W : Type 0}
    → Text
    → (W → Option R × W)
    → ℕ
    → TextureCache R × W
    → Option R × (TextureCache R × W)
unfolding get insert_new
get_or_load path loader now (c, w) = elim (get path now c).0 [
  | some cached ↦ (some cached, ((get path now c).1, w))
  | none ↦ elim (loader w).0 [
    | none ↦ (none, (c, (loader w).1))
    | some resource ↦ (some resource, (insert_new path resource now c, (loader w).1))
  ]
]

abbrev pub is_expired : {R : Type 0} → ℕ → ℕ → Entry R → Bool
is_expired ttl now entry = leb (entry.last_access + ttl) now

-- The loop of `pruneExpired`, over the entries: the recency list, and the entries that stay.
unfoldable pub prune_loop :
    {R : Type 0} → ℕ → ℕ → Map (Entry R) → List Text → List Text × Map (Entry R)
prune_loop ttl now [] recency = (recency, [])
prune_loop ttl now ((key, entry) ∷ rest) recency =
    let (recency', kept) =
      prune_loop ttl now rest
        (if is_expired ttl now entry then erase_text key recency else recency) in
    (recency', if is_expired ttl now entry then kept else (key, entry) ∷ kept)

unfoldable pub prune_expired : {R : Type 0} → ℕ → TextureCache R → TextureCache R
unfolding prune_loop
prune_expired now c = elim c.idle_ttl [
  | none ↦ c
  | some ttl ↦
      let (recency, entries) = prune_loop ttl now c.entries c.recency in
      record c { recency = recency; entries = entries }
]

unfoldable pub clear : {R : Type 0} → TextureCache R → TextureCache R
clear c = record c { recency = []; entries = [] }

abbrev pub size : {R : Type 0} → TextureCache R → ℕ
size c = length c.entries
