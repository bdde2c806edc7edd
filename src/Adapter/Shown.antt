-- ===== src/Adapter/Shown.antt =====
-- Every card of a page of the catalog finds its thumbnail, once the thumbnails are synchronized.
use slavetat_ui.Base.{
  ◌-◌, ◌+◌, take, drop, ℕ, ◌+◌, ◌≤◌, min, ◌≡◌, refl, arith, sym, ap, ◌∙◌, inl, inr, ◌⊎◌, true,
  false, Bool-cases, Option-cases, ◌==◌, ◌&&◌, u64, Text, eq_text_iff, contains, is_empty, length,
  length-take, List, [], ◌∷◌, Option, none, some, All,
}
use mathlib.Core.Path.{subst}
use slavetat_ui.Repository.Models.{TattooDefinition, TattooPage}
use slavetat_ui.Thumbnails.State.{
  NativeThumbnailView, NativeThumbnailController, canonicalize_texture_path,
}
use slavetat_ui.Thumbnails.Controller.{
  Lookup, collect_paths, eq_texts, begin_synchronize, finish_synchronize,
}
use slavetat_ui.Thumbnails.Runtime.{
  NativeThumbnailTextureSource, NativeThumbnailRuntime, synchronize, find_all, found_all,
}
use slavetat_ui.Thumbnails.Page.{paths_of, view_paths, collect_paths-IsPage, place_views-view_paths}
use slavetat_ui.Core.Models.{TattooSlot, TattooSlots}
use slavetat_ui.Adapter.{calculate_slot_page}
use slavetat_ui.Adapter.Cards.{
  slot_paths, collect_visible_slot_texture_paths, card_paths, visible_cards,
  collect_picker_texture_paths, find_catalog_thumbnail_view_index,
}
use slavetat_ui.Adapter.Views.{path_at, find-path_at, collects_each}

eq_texts_lem : (xs ys : List Text) → eq_texts xs ys ≡ true → xs ≡ ys
eq_texts_lem [] [] h = refl
eq_texts_lem [] (y ∷ ys) h = cc
eq_texts_lem (x ∷ xs) [] h = cc
eq_texts_lem (x ∷ xs) (y ∷ ys) h = ground (arith, h, eq_text_iff x y, eq_texts_lem xs ys)

begins :
    {R : Type 0} (epoch : ℕ) (paths : List Text) (c : NativeThumbnailController R)
    → c.lookup_pending ≡ false
    → (((begin_synchronize epoch paths c).0 ≡ none)
        × (view_paths (begin_synchronize epoch paths c).1 ≡ collect_paths [] paths))
      ⊎ ((l : Lookup) × ((begin_synchronize epoch paths c).0 ≡ some l)
          × (l.paths ≡ collect_paths [] paths)
          × (l.revision ≡ (begin_synchronize epoch paths c).1.synchronization_revision))
unfolding begin_synchronize
begins epoch paths c idle =
    elim (Bool-cases (c.epoch == epoch && eq_texts (view_paths c) (collect_paths [] paths))) [
      | inl e ↦ inl (
        rw (e, begin_synchronize) refl,
        ground (arith, e, idle, eq_texts_lem (view_paths c) (collect_paths [] paths)),
      )
      | inr e ↦ inr (
        record {
          revision = u64 (c.synchronization_revision + 1);
          epoch = epoch;
          paths = collect_paths [] paths;
        },
        ground (arith, e, idle),
        refl,
        ground (arith, e, idle),
      )
    ]

finish-view_paths :
    {R : Type 0} (l : Lookup) (lookup : Text → Option R) (c : NativeThumbnailController R)
    → l.revision ≡ c.synchronization_revision
    → view_paths (finish_synchronize l lookup c) ≡ l.paths
unfolding finish_synchronize
finish-view_paths l lookup c e =
    let same : (l.revision == c.synchronization_revision) ≡ true = ground (arith, e) in
    rw (same, finish_synchronize) (place_views-view_paths lookup l.paths _)

module _ {R W : Type 0} (source : NativeThumbnailTextureSource R W) where
  -- The views of a page that was synchronized are those of its paths.
  synchronize-view_paths :
      (now epoch : ℕ) (paths : List Text) (s : NativeThumbnailRuntime R) (w : W)
      → s.controller.lookup_pending ≡ false
      → (synchronize source now epoch paths (s, w)).0 ≡ true
      → view_paths (synchronize source now epoch paths (s, w)).1.0.controller
        ≡ collect_paths [] paths
  unfolding synchronize found_all
  synchronize-view_paths now epoch paths s w idle h = elim (begins epoch paths s.controller idle) [
    | inl (e, v) ↦ rw (e, synchronize) v
    | inr (l, e, p, r) ↦
        elim (Option-cases (find_all source now (source.available w) l.paths w).0) [
          | inl f ↦ ground (arith, h, e, f)
          | inr (textures, f) ↦ rw (e, synchronize, f, found_all) (finish-view_paths l _ _ r ∙ p)
        ]
  ]

All-map : {P Q : Text → Type 0} (xs : List Text) → ((x : Text) → P x → Q x) → All P xs → All Q xs
All-map [] f h = tt
All-map (x ∷ xs) f h = (f x h.0, All-map xs f h.1)

length-card_paths : (cards : List TattooDefinition) → length (card_paths cards) ≤ length cards
unfolding card_paths
length-card_paths [] = omega arith
length-card_paths (card ∷ cards) = ground (arith, length-card_paths cards)

All-card_paths :
    (P : Text → Type 0) (cards : List TattooDefinition)
    → All P (card_paths cards)
    → All (λ card. (is_empty card.texture_path ≡ true) ⊎ P card.texture_path) cards
unfolding card_paths
All-card_paths P [] h = tt
All-card_paths P (card ∷ cards) h = elim (Bool-cases (is_empty card.texture_path)) [
  | inl e ↦ (inl e, All-card_paths P cards (rw e at h))
  | inr e ↦
      let both : All P (card.texture_path ∷ card_paths cards) = rw e at h in
      (inr both.0, All-card_paths P cards both.1)
]

-- The view at the index that is found for a path is the path's.
abbrev pub FindsView : {R : Type 0} → List (NativeThumbnailView R) → Text → Type 0
FindsView views path =
    (i : ℕ) × (find_catalog_thumbnail_view_index path views ≡ some i)
    × (path_at i (paths_of views) ≡ some (canonicalize_texture_path path))

-- Each of at most six paths that are synchronized finds a view.
paths-FindsView :
    {R W : Type 0} (source : NativeThumbnailTextureSource R W) (now epoch : ℕ) (paths : List Text)
    (s : NativeThumbnailRuntime R) (w : W)
    → length paths ≤ 6
    → s.controller.lookup_pending ≡ false
    → (synchronize source now epoch paths (s, w)).0 ≡ true
    → All (FindsView (synchronize source now epoch paths (s, w)).1.0.controller.views) paths
paths-FindsView source now epoch paths s w few idle returned =
    let shown = synchronize-view_paths source now epoch paths s w idle returned in
    let canonical =
      (collect_paths-IsPage [] paths
        (record { few = omega arith; distinct = tt; canonical = tt })).canonical in
    All-map paths
      (λ path h.
        find-path_at path _
          (subst (λ ps. All (λ p. canonicalize_texture_path p ≡ p) ps) (sym shown) canonical)
          (ap (λ ps. contains (canonicalize_texture_path path) ps) shown ∙ h))
      (collects_each [] paths (omega (arith, few)))

length-slot_paths : (slots : List TattooSlot) → length (slot_paths slots) ≤ length slots
unfolding slot_paths
length-slot_paths [] = omega arith
length-slot_paths (slot ∷ slots) = elim (Option-cases slot.tattoo) [
  | inl e ↦ ground (arith, e, length-slot_paths slots)
  | inr (tattoo, e) ↦ ground (arith, e, length-slot_paths slots)
]

-- A page of slots has no more paths than slots.
few-slots :
    (slots : TattooSlots) (page_index page_size : ℕ)
    → length (collect_visible_slot_texture_paths slots page_index page_size) ≤ page_size
unfolding collect_visible_slot_texture_paths calculate_slot_page
few-slots slots page_index page_size =
    let page = calculate_slot_page (length slots.slots) page_index page_size in
    let drawn = take (page.end - page.begin) (drop page.begin slots.slots) in
    let cut : page.end ≤ page.begin + page_size = ground arith in
    omega (
      arith,
      length-slot_paths drawn,
      length-take (page.end - page.begin) (drop page.begin slots.slots),
      cut,
    )

-- Each texture of a page of at most six slots finds its view too, under the same conditions.
slots-FindsView :
    {R W : Type 0} (source : NativeThumbnailTextureSource R W) (now epoch : ℕ) (slots : TattooSlots)
    (page_index page_size : ℕ) (s : NativeThumbnailRuntime R) (w : W)
    → page_size ≤ 6
    → s.controller.lookup_pending ≡ false
    → let paths = collect_visible_slot_texture_paths slots page_index page_size in
      (synchronize source now epoch paths (s, w)).0 ≡ true
      → All (FindsView (synchronize source now epoch paths (s, w)).1.0.controller.views) paths
slots-FindsView source now epoch slots page_index page_size s w small idle returned =
    paths-FindsView source now epoch (collect_visible_slot_texture_paths slots page_index page_size)
      s w (omega (arith, small, few-slots slots page_index page_size)) idle returned

-- When the thumbnails are synchronized with the paths of a page of the catalog, no look-up being
-- under way, and no look-up throws, each card of the page that has a texture finds a view, and that
-- view's path is the canonical form of the card's path.
pub cards-FindsView :
    {R W : Type 0} (source : NativeThumbnailTextureSource R W) (now epoch : ℕ) (page : TattooPage)
    (s : NativeThumbnailRuntime R) (w : W)
    → s.controller.lookup_pending ≡ false
    → (synchronize source now epoch (collect_picker_texture_paths page) (s, w)).0 ≡ true
    → let after = (synchronize source now epoch (collect_picker_texture_paths page) (s, w)).1.0 in
      All
        (λ card.
          (is_empty card.texture_path ≡ true) ⊎ FindsView after.controller.views card.texture_path)
        (visible_cards page)
unfolding collect_picker_texture_paths
cards-FindsView source now epoch page s w idle returned =
    let cards = visible_cards page in
    let few : length (card_paths cards) ≤ 6 =
      omega
        (arith, length-card_paths cards, length-take (min (length page.entries) 6) page.entries) in
    All-card_paths _ cards
      (paths-FindsView source now epoch (card_paths cards) s w few idle returned)
