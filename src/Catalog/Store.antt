-- ===== src/Catalog/Store.antt =====
-- src/repository/TattooCatalogStore.{h,cpp}. The catalog that was loaded last is shared; the address of the
-- object that `make_shared` makes is a parameter.
use slavetat_ui.Base.{ℕ, Text, Option, none, some}
use slavetat_ui.Sources.Json.{JsonLibrary, Content}
use slavetat_ui.Sources.Scanner.{ScanLibrary, Scanned, yields, fails}
use slavetat_ui.Catalog.{Snapshot}
use slavetat_ui.Catalog.Loader.{TattooCatalog, load_tattoo_catalog}

pub record TattooCatalogSnapshot : Type 0 where
  pub address : ℕ
  pub catalog : TattooCatalog

pub record TattooCatalogStore : Type 0 where
  pub m_snapshot : Option TattooCatalogSnapshot

abbrev pub new_store : TattooCatalogStore
new_store = record { m_snapshot = none }

-- What the catalog browser sees of a snapshot.
abbrev pub shared_repository : Option TattooCatalogSnapshot → Option Snapshot
shared_repository none = none
shared_repository (some s) =
    some (record { address = s.address; repository = s.catalog.repository })

abbrev pub snapshot : TattooCatalogStore → Option TattooCatalogSnapshot
snapshot store = store.m_snapshot

-- `refresh`, once the catalog was loaded or not.
unfoldable pub publish :
    ℕ
    → Scanned TattooCatalog
    → TattooCatalogStore
    → Scanned TattooCatalogSnapshot × TattooCatalogStore
publish address (fails code) store = (fails code, store)
publish address (yields catalog) store =
    let next : TattooCatalogSnapshot = record { address = address; catalog = catalog } in
    (yields next, record store { m_snapshot = some next })

unfoldable pub refresh_store :
    {J : Type 0}
    → JsonLibrary J
    → (Text → Content J)
    → ScanLibrary
    → Text
    → ℕ
    → TattooCatalogStore
    → Scanned TattooCatalogSnapshot × TattooCatalogStore
unfolding load_tattoo_catalog publish
refresh_store json content library directory address store =
    publish address (load_tattoo_catalog json content library directory) store
