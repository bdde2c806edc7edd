-- ===== src/Textures/Pruning.antt =====
-- Pruning takes the idle entries out of the map and out of the recency list.
use slavetat_ui.Base.{
  ℕ, ◌≡◌, refl, arith, ap, sym, ◌∙◌, inl, inr, Bool, Bool-cases, Option-cases, true, false, not,
  if◌then◌else◌, Text, eq_text_iff, eq_text_refl, contains, IsDistinct, Map, keys, find_key,
  erase_text, find_key_absent, contains-erase_text, erase_text-IsDistinct, keep_if, length-keep_if,
  List, [], ◌∷◌, Option, none, some, is_some,
}
use slavetat_ui.Textures.Cache.{Entry, TextureCache, is_expired, prune_loop, prune_expired}
use slavetat_ui.Textures.Recency.{Refines, spec_prune}

abbrev keeps : {R : Type 0} → ℕ → ℕ → Text × Entry R → Bool
keeps ttl now e = not (is_expired ttl now e.1)

abbrev is_kept : {R : Type 0} → ℕ → ℕ → Option (Entry R) → Bool
is_kept ttl now none = true
is_kept ttl now (some e) = not (is_expired ttl now e)

test_eq : (p : Text → Bool) (j k : Text) → j ≡ k → p j ≡ p k
test_eq p j k e = ap p e

keep_if-erase_text :
    (p : Text → Bool) (k : Text) (ks : List Text)
    → p k ≡ false
    → keep_if p (erase_text k ks) ≡ keep_if p ks
keep_if-erase_text p k [] h = refl
keep_if-erase_text p k (x ∷ ks) h =
    ground (arith, keep_if-erase_text p k ks h, eq_text_iff x k, test_eq p x k)

keep_if-congr :
    (p q : Text → Bool) (ks : List Text)
    → ((j : Text) → contains j ks ≡ true → p j ≡ q j)
    → keep_if p ks ≡ keep_if q ks
keep_if-congr p q [] h = refl
keep_if-congr p q (k ∷ ks) h =
    let rest = keep_if-congr p q ks (λ j c. h j (ground (arith, c))) in
    ground (arith, rest, h k (ground (arith, eq_text_refl k)))

keep_if-all : (ks : List Text) → keep_if (λ j. true) ks ≡ ks
keep_if-all [] = refl
keep_if-all (k ∷ ks) = ap (◌∷◌ k) (keep_if-all ks)

module _ {R : Type 0} (ttl now : ℕ) where
  prune_loop-entries :
      (m : Map (Entry R)) (recency : List Text)
      → (prune_loop ttl now m recency).1 ≡ keep_if (keeps ttl now) m
  unfolding prune_loop
  prune_loop-entries [] recency = refl
  prune_loop-entries ((k, e) ∷ m) recency =
      ground (arith, prune_loop-entries m (erase_text k recency), prune_loop-entries m recency)

  -- A key is found among the kept entries if its entry is kept.
  find_key-keep_if :
      (path : Text) (m : Map (Entry R))
      → IsDistinct (keys m)
      → find_key path (keep_if (keeps ttl now) m)
        ≡ (if is_kept ttl now (find_key path m) then find_key path m else none)
  find_key-keep_if path [] d = refl
  find_key-keep_if path ((k, e) ∷ m) d =
      ground (arith, find_key-keep_if path m d.1, find_key_absent path k m, eq_text_iff k path, d.0)

  contains-keep_if :
      (path : Text) (m : Map (Entry R))
      → contains path (keys m) ≡ false
      → contains path (keys (keep_if (keeps ttl now) m)) ≡ false
  contains-keep_if path [] h = refl
  contains-keep_if path ((k, e) ∷ m) h = ground (arith, contains-keep_if path m)

  keep_if-IsDistinct :
      (m : Map (Entry R)) → IsDistinct (keys m) → IsDistinct (keys (keep_if (keeps ttl now) m))
  keep_if-IsDistinct [] d = tt
  keep_if-IsDistinct ((k, e) ∷ m) d =
      ground (arith, keep_if-IsDistinct m d.1, contains-keep_if k m d.0)

  abbrev stays : Map (Entry R) → Text → Bool
  stays m j = is_kept ttl now (find_key j m)

  -- The recency list loses the keys of the entries that go.
  prune_loop-recency :
      (m : Map (Entry R)) (recency : List Text)
      → IsDistinct (keys m)
      → IsDistinct recency
      → (prune_loop ttl now m recency).0 ≡ keep_if (stays m) recency
  unfolding prune_loop
  prune_loop-recency [] recency d r = sym (keep_if-all recency)
  prune_loop-recency ((k, e) ∷ m) recency d r = elim (Bool-cases (is_expired ttl now e)) [
    | inl gone ↦
        rw (gone, prune_loop)
          (prune_loop-recency m (erase_text k recency) d.1 (erase_text-IsDistinct k recency r)
            ∙ keep_if-congr (stays m) (stays ((k, e) ∷ m)) (erase_text k recency)
                (λ j c. ground (arith, contains-erase_text j k recency r, c))
            ∙ keep_if-erase_text (stays ((k, e) ∷ m)) k recency
                (ground (arith, eq_text_refl k, gone)))
    | inr there ↦
        rw (there, prune_loop)
          (prune_loop-recency m recency d.1 r
            ∙ keep_if-congr (stays m) (stays ((k, e) ∷ m)) recency
                (λ j c. ground (arith, find_key_absent j k m, eq_text_iff k j, d.0, there)))
  ]

  keys_kept :
      (p : Text → Bool) (l : Map (Entry R))
      → IsDistinct (keys l)
      → ((j : Text) → is_some (find_key j l) ≡ true → p j ≡ stays l j)
      → keep_if p (keys l) ≡ keys (keep_if (keeps ttl now) l)
  keys_kept p [] d h = refl
  keys_kept p ((k, e) ∷ l) d h =
      let rest = keys_kept p l d.1 (λ j c.
        h j (ground (arith, c)) ∙ ground (arith, c, find_key_absent j k l, eq_text_iff k j, d.0)) in
      ground (arith, rest, h k (ground (arith, eq_text_refl k)), eq_text_refl k)

  pruned-Refines :
      (c : TextureCache R) (l : Map (Entry R))
      → c.idle_ttl ≡ some ttl
      → Refines c l
      → Refines (prune_expired now c) (keep_if (keeps ttl now) l)
  unfolding prune_expired
  pruned-Refines c l e h =
      rw (e, prune_expired)
        (record {
          order =
              prune_loop-recency c.entries c.recency h.once (rw h.order h.distinct)
              ∙ rw h.order (
                  keys_kept (stays c.entries) l h.distinct
                    (λ j _. ap (λ o. is_kept ttl now o) (h.same j)));
          distinct = keep_if-IsDistinct l h.distinct;
          once = rw (prune_loop-entries c.entries c.recency) (keep_if-IsDistinct c.entries h.once);
          same = λ path. rw (prune_loop-entries c.entries c.recency) (
              find_key-keep_if path c.entries h.once
              ∙ rw (h.same path) (sym (find_key-keep_if path l h.distinct)));
          bounded = omega (arith, length-keep_if (keeps ttl now) l, h.bounded);
        })

module _ {R : Type 0} where
  -- Pruning keeps exactly the entries that are not idle too long, in their order.
  pub prune-Refines :
      (now : ℕ) (c : TextureCache R) (l : Map (Entry R))
      → Refines c l
      → Refines (prune_expired now c) (spec_prune c.idle_ttl now l)
  unfolding prune_expired
  prune-Refines now c l h = elim (Option-cases c.idle_ttl) [
    | inl e ↦ rw (e, prune_expired, spec_prune) h
    | inr (ttl, e) ↦ simp (e, spec_prune) (pruned-Refines ttl now c l e h)
  ]
