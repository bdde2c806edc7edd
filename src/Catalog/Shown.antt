-- ===== src/Catalog/Shown.antt =====
-- From the files of a directory to the page of the browser: the store and the browser together.
use mathlib.Core.List.{Perm, Permᴰ}
use mathlib.Core.Logic.{∥∥₁_elim}
use native.Mathlib.Nat.{ℕ_set}
use slavetat_ui.Base.{
  true, ℕ, suc, ◌≡◌, refl, sym, ap, ◌∙◌, arith, ◌==◌, false, Text, Option, none, some, List, [],
  ◌∷◌, map, length,
}
use slavetat_ui.Repository.Query.{query}
use slavetat_ui.Sources.Json.{JsonLibrary, Content}
use slavetat_ui.Sources.Parser.{TattooSourceFile}
use slavetat_ui.Sources.Scanner.{
  ErrorCode, ScanLibrary, Scanned, yields, fails, scan_tattoo_sources,
}
use slavetat_ui.Catalog.{
  NativeCatalogBrowserModel, Snapshot, empty_filter, refresh, eq_snapshot, run_query,
}
use slavetat_ui.Catalog.Loader.{TattooCatalog}
use slavetat_ui.Catalog.Loaded.{
  concat_map, definitions_of, IsCatalog, IsLoad, loads, stops, load_tattoo_catalog-IsLoad,
}
use slavetat_ui.Catalog.Store.{
  TattooCatalogSnapshot, TattooCatalogStore, shared_repository, snapshot, refresh_store, publish,
}

module _ {ℓ} {A : Type ℓ} where
  length-permᴰ : {xs ys : List A} → Permᴰ xs ys → length xs ≡ length ys
  length-permᴰ Permᴰ.nil = refl
  length-permᴰ (Permᴰ.cons _ p) = ap suc (length-permᴰ p)
  length-permᴰ (Permᴰ.swap _ _) = refl
  length-permᴰ (Permᴰ.trans p q) = length-permᴰ p ∙ length-permᴰ q

  length-perm : {xs ys : List A} → Perm xs ys → length xs ≡ length ys
  length-perm p = ∥∥₁_elim p (ℕ_set _ _) length-permᴰ

length-map {ℓ κ} :
    {A : Type ℓ} {B : Type κ} (f : A → B) (xs : List A) → length (map f xs) ≡ length xs
length-map f [] = refl
length-map f (x ∷ xs) = ap suc (length-map f xs)

-- The object at `address` is not the one that is shown.
abbrev pub IsFresh : ℕ → Option Snapshot → Type 0
IsFresh address none = Unit
IsFresh address (some shown) = (address == shown.address) ≡ false

module _ {J : Type 0} (json : JsonLibrary J) (content : Text → Content J) where
  -- What the store and the browser are after a refresh of both, by what the scan gives.
  pub data IsShown (address : ℕ) (store : TattooCatalogStore) (m : NativeCatalogBrowserModel)
      : Scanned (List TattooSourceFile)
        → Scanned TattooCatalogSnapshot × TattooCatalogStore
        → NativeCatalogBrowserModel
        → Type 0 where
    keeps : (code : ErrorCode) → IsShown address store m (fails code) (fails code, store) m
    shows :
        (sources : List TattooSourceFile) (catalog : TattooCatalog) (m' : NativeCatalogBrowserModel)
        → IsCatalog json content sources catalog
        → m'.snapshot ≡ some (record { address = address; repository = catalog.repository })
        → m'.page ≡ query catalog.repository empty_filter
        → m'.page.total_entries ≡ length (concat_map (definitions_of json content) sources)
        → IsShown address store m
            (yields sources)
            (
              yields (record { address = address; catalog = catalog }),
              record { m_snapshot = some (record { address = address; catalog = catalog }) },
            )
            m'

eq_snapshot_refl : (s : Option Snapshot) → eq_snapshot s s ≡ true
eq_snapshot_refl none = refl
eq_snapshot_refl (some s) = ground arith

eq_snapshot-fresh :
    (next : Snapshot) (shown : Option Snapshot)
    → IsFresh next.address shown
    → eq_snapshot (some next) shown ≡ false
eq_snapshot-fresh next none fresh = refl
eq_snapshot-fresh next (some shown) fresh = fresh

refresh-same :
    (m : NativeCatalogBrowserModel) (s : Option Snapshot) → m.snapshot ≡ s → refresh s m ≡ m
unfolding refresh
refresh-same m s e = rw (e, eq_snapshot_refl s) refl

refresh-other :
    (m : NativeCatalogBrowserModel) (next : Snapshot)
    → IsFresh next.address m.snapshot
    → ((refresh (some next) m).snapshot ≡ some next)
      × ((refresh (some next) m).page ≡ query next.repository empty_filter)
unfolding refresh run_query
refresh-other m next fresh = rw (eq_snapshot-fresh next m.snapshot fresh) (refl, refl)

total_entries-IsCatalog :
    {J : Type 0} (json : JsonLibrary J) (content : Text → Content J)
    (sources : List TattooSourceFile) (catalog : TattooCatalog)
    → IsCatalog json content sources catalog
    → (query catalog.repository empty_filter).total_entries
      ≡ length (concat_map (definitions_of json content) sources)
unfolding query
total_entries-IsCatalog json content sources catalog h =
    sym (length-map (λ e. e.definition) catalog.repository.entries) ∙ length-perm h.holds

-- When the store is refreshed from a folder and the browser, which shows the store's snapshot, is
-- refreshed after it: if the scan fails, the store is as it was and so is the browser; else the
-- store holds a catalog that has the definitions of the sorted files, and the browser has its
-- repository, shows the first page of all of it, and counts as many definitions as the files hold;
-- provided that the new object has another address than the one that is shown.
pub refresh_store-IsShown :
    {J : Type 0} (json : JsonLibrary J) (content : Text → Content J) (library : ScanLibrary)
    (directory : Text) (address : ℕ) (store : TattooCatalogStore) (m : NativeCatalogBrowserModel)
    → m.snapshot ≡ shared_repository (snapshot store)
    → IsFresh address m.snapshot
    → IsShown json content address store m
        (scan_tattoo_sources library directory)
        (refresh_store json content library directory address store)
        (refresh
          (shared_repository
            (snapshot (refresh_store json content library directory address store).1))
          m)
unfolding refresh_store publish
refresh_store-IsShown json content library directory address store m same fresh =
    published (load_tattoo_catalog-IsLoad json content library directory)
  where
    published :
        {r : Scanned (List TattooSourceFile)} {l : Scanned TattooCatalog}
        → IsLoad json content r l
        → IsShown json content address store m r
            (publish address l store)
            (refresh (shared_repository (snapshot (publish address l store).1)) m)
    published (stops code) = rw (refresh-same m _ same) (keeps code)
    published (loads sources catalog h) =
        let next : Snapshot = record { address = address; repository = catalog.repository } in
        let replaced = refresh-other m next fresh in
        shows sources catalog (refresh (some next) m) h (replaced.0) (replaced.1) (
          ap (λ p. p.total_entries) replaced.1
          ∙ total_entries-IsCatalog json content sources catalog h)
