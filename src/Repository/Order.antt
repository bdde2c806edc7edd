-- ===== src/Repository/Order.antt =====
-- The order of the catalog: the constructor of `TattooRepository` loses and adds nothing.
use mathlib.Core.List.{Perm}
use mathlib.Core.List.Perm
use slavetat_ui.Base.{
  ◌≡◌, refl, arith, ap, Bool, true, false, Bool-cases, inl, inr, Text, lt_text, List, [], ◌∷◌, map,
}
use slavetat_ui.Repository.Models.{TattooDefinition}
use slavetat_ui.Repository.Sort.{lt_keys, insert_sorted, sort}
use slavetat_ui.Repository.Query.{new_repository, index_definition, lt_entry, entry_keys}

-- No element is less than the one before it.
abbrev pub Ordered {ℓ} : {A : Type ℓ} → (A → A → Bool) → List A → Type 0
Ordered lt [] = Unit {0}
Ordered lt (x ∷ []) = Unit {0}
Ordered lt (x ∷ y ∷ ys) = (lt y x ≡ false) × Ordered lt (y ∷ ys)

abbrev Asymmetric {ℓ} : {A : Type ℓ} → (A → A → Bool) → Type ℓ
Asymmetric {A} lt = (a b : A) → lt a b ≡ true → lt b a ≡ false

module _ {ℓ} {A : Type ℓ} (lt : A → A → Bool) where
  insert_sorted-perm : (x : A) (ys : List A) → Perm (insert_sorted lt x ys) (x ∷ ys)
  unfolding insert_sorted
  insert_sorted-perm x [] = Perm.refl _
  insert_sorted-perm x (y ∷ ys) = elim (Bool-cases (lt y x)) [
    | inl e ↦ rw e (Perm.trans (Perm.cons y (insert_sorted-perm x ys)) (Perm.swap x y ys))
    | inr e ↦ rw e (Perm.refl _)
  ]

  pub sort-perm : (xs : List A) → Perm (sort lt xs) xs
  unfolding sort
  sort-perm [] = Perm.refl _
  sort-perm (x ∷ xs) = Perm.trans (insert_sorted-perm x (sort lt xs)) (Perm.cons x (sort-perm xs))

  insert_sorted-Ordered :
      (x : A) (ys : List A) → Asymmetric lt → Ordered lt ys → Ordered lt (insert_sorted lt x ys)
  unfolding insert_sorted
  insert_sorted-Ordered x [] asym h = tt
  insert_sorted-Ordered x (y ∷ []) asym h = ground (arith, asym y x)
  insert_sorted-Ordered x (y ∷ z ∷ zs) asym h =
      ground (arith, asym y x, insert_sorted-Ordered x (z ∷ zs) asym h.1)

  pub sort-Ordered : (xs : List A) → Asymmetric lt → Ordered lt (sort lt xs)
  unfolding sort
  sort-Ordered [] asym = tt
  sort-Ordered (x ∷ xs) asym = insert_sorted-Ordered x (sort lt xs) asym (sort-Ordered xs asym)

pub lt_text_asym : (a b : Text) → lt_text a b ≡ true → lt_text b a ≡ false
lt_text_asym [] [] h = refl
lt_text_asym [] (y ∷ ys) h = refl
lt_text_asym (x ∷ xs) [] h = cc
lt_text_asym (x ∷ xs) (y ∷ ys) h = ground (arith, lt_text_asym xs ys)

lt_keys_asym :
    (ks ls : List Text) (last last' : Bool)
    → (last ≡ true → last' ≡ false)
    → lt_keys ks ls last ≡ true
    → lt_keys ls ks last' ≡ false
lt_keys_asym [] [] last last' h e = h e
lt_keys_asym [] (b ∷ ls) last last' h e = h e
lt_keys_asym (a ∷ ks) [] last last' h e = h e
lt_keys_asym (a ∷ ks) (b ∷ ls) last last' h e =
    ground (arith, lt_text_asym a b, lt_text_asym b a, lt_keys_asym ks ls last last' h)

lt_entry_asym : Asymmetric lt_entry
lt_entry_asym a b = lt_keys_asym (entry_keys a) (entry_keys b) _ _ (λ h. ground arith)

definitions-index :
    (ds : List TattooDefinition) → map (λ e. e.definition) (map index_definition ds) ≡ ds
unfolding index_definition
definitions-index [] = refl
definitions-index (d ∷ ds) = ap (◌∷◌ d) (definitions-index ds)

-- The catalog holds the definitions that it was given, each as often as it was given, and in order:
-- by pack, section, area, name and texture, all folded, then by source and place in the source.
pub new_repository-Ordered :
    (ds : List TattooDefinition)
    → Perm (map (λ e. e.definition) (new_repository ds).entries) ds
      × Ordered lt_entry (new_repository ds).entries
unfolding new_repository
new_repository-Ordered ds = (
  rw (definitions-index ds) at
      (Perm.map (λ e. e.definition) (sort-perm lt_entry (map index_definition ds))),
  sort-Ordered lt_entry (map index_definition ds) lt_entry_asym,
)
