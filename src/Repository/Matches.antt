-- ===== src/Repository/Matches.antt =====
-- What the filter of a query asks for.
use slavetat_ui.Base.{
  ◌≡◌, ◌↔◌, ◌⊎◌, inl, inr, refl, arith, ap, Bool, true, ◌&&◌, Bool-cases, Text, eq_text_iff, [],
  ◌∷◌, ◌++◌,
}
use slavetat_ui.Repository.Models.{TattooDefinition, TattooFilter}
use slavetat_ui.Repository.Sort.{fold_ascii}
use slavetat_ui.Repository.Facets.{passes_key}
use slavetat_ui.Repository.Query.{
  starts_with, contains_text, passes_search, passes_filter, build_folded_search, index_definition,
}

-- `needle` stands somewhere in `hay`.
pub Occurs : Text → Text → Type 0
Occurs needle hay = (before : Text) × (after : Text) × (hay ≡ before ++ (needle ++ after))

starts_with_sound : (xs ys : Text) → starts_with xs ys ≡ true → (after : Text) × (ys ≡ xs ++ after)
starts_with_sound [] ys h = (ys, refl)
starts_with_sound (x ∷ xs) [] h = cc
starts_with_sound (x ∷ xs) (y ∷ ys) h =
    let parts : (x ≡ y) × (starts_with xs ys ≡ true) = ground arith in
    let (after, e) = starts_with_sound xs ys parts.1 in (after, cc (parts.0, e))

starts_with_complete : (xs after : Text) → starts_with xs (xs ++ after) ≡ true
starts_with_complete [] after = refl
starts_with_complete (x ∷ xs) after = ground (arith, starts_with_complete xs after)

contains_text_sound : (needle hay : Text) → contains_text needle hay ≡ true → Occurs needle hay
unfolding Occurs
contains_text_sound needle [] h = let (after, e) = starts_with_sound needle [] h in ([], after, e)
contains_text_sound needle (y ∷ ys) h = elim (Bool-cases (starts_with needle (y ∷ ys))) [
  | inl here ↦ let (after, e) = starts_with_sound needle (y ∷ ys) here in ([], after, e)
  | inr there ↦
      let (before, after, e) = contains_text_sound needle ys (ground arith) in
      (y ∷ before, after, ap (◌∷◌ y) e)
]

contains_text_here :
    (needle hay : Text) → starts_with needle hay ≡ true → contains_text needle hay ≡ true
contains_text_here needle [] h = h
contains_text_here needle (y ∷ ys) h = rw h

contains_text_complete :
    (needle before after : Text) → contains_text needle (before ++ (needle ++ after)) ≡ true
contains_text_complete needle [] after =
    contains_text_here needle (needle ++ after) (starts_with_complete needle after)
contains_text_complete needle (b ∷ before) after =
    ground (arith, contains_text_complete needle before after)

-- What a filter asks of a definition, all but for the case of letters: its search text stands in
-- the searched text, and each key that is not empty is the definition's.
pub record IsMatch (f : TattooFilter) (d : TattooDefinition) : Type 0 where
  pub search : (fold_ascii f.search ≡ []) ⊎ Occurs (fold_ascii f.search) (build_folded_search d)
  pub source : (fold_ascii f.source_id ≡ []) ⊎ (fold_ascii d.source_id ≡ fold_ascii f.source_id)
  pub section : (fold_ascii f.section ≡ []) ⊎ (fold_ascii d.section ≡ fold_ascii f.section)
  pub area : (fold_ascii f.area ≡ []) ⊎ (fold_ascii d.area ≡ fold_ascii f.area)

passes_key_sound : (w k : Text) → passes_key w k ≡ true → (w ≡ []) ⊎ (k ≡ w)
passes_key_sound [] k h = inl refl
passes_key_sound (x ∷ w) k h = inr ((eq_text_iff k (x ∷ w)).0 h)

passes_key_complete : (w k : Text) → (w ≡ []) ⊎ (k ≡ w) → passes_key w k ≡ true
passes_key_complete w k (inl e) = rw e
passes_key_complete w k (inr e) = ground (arith, eq_text_iff k w)

passes_search_sound : (w s : Text) → passes_search w s ≡ true → (w ≡ []) ⊎ Occurs w s
passes_search_sound [] s h = inl refl
passes_search_sound (x ∷ w) s h = inr (contains_text_sound (x ∷ w) s h)

passes_search_complete : (w s : Text) → (w ≡ []) ⊎ Occurs w s → passes_search w s ≡ true
unfolding Occurs
passes_search_complete w s (inl e) = rw e
passes_search_complete w s (inr (before, after, e)) =
    ground (arith, contains_text_complete w before after)

and4 :
    (a b c d : Bool)
    → ((a && b && c && d) ≡ true) ↔ ((a ≡ true) × (b ≡ true) × (c ≡ true) × (d ≡ true))
and4 a b c d = (λ h. ground arith, λ h. ground arith)

-- A definition's index passes the filter of a query exactly if, but for the case of ASCII letters,
-- the search text is empty or stands in the searched text, and each key of the filter is empty or
-- the definition's.
pub passes_filter_iff :
    (f : TattooFilter) (d : TattooDefinition)
    → (passes_filter f (index_definition d) ≡ true) ↔ IsMatch f d
unfolding passes_filter index_definition
passes_filter_iff f d = (
  λ h.
      let p = (and4 _ _ _ _).0 h in
      record {
        search = passes_search_sound _ _ p.0;
        source = passes_key_sound _ _ p.1;
        section = passes_key_sound _ _ p.2;
        area = passes_key_sound _ _ p.3;
      },
  λ m. (and4 _ _ _ _).1 (
    passes_search_complete _ _ m.search,
    passes_key_complete _ _ m.source,
    passes_key_complete _ _ m.section,
    passes_key_complete _ _ m.area,
  ),
)
