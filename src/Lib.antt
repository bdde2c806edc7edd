-- ===== src/Lib.antt =====
-- SlaveTats UI: the logic of the plugin's menu, from the catalog of tattoos to the calls that reach
-- the tattoo runtime.
--
-- The plugin shows the tattoos of the player, slot by slot, and lets the user apply, replace, edit and
-- remove them. Its parts, in the order in which a call passes them:
--
-- - Repository (src/repository/TattooRepository.{h,cpp}) indexes the tattoo definitions: `new_repository`
--   is the constructor, `query` and `contextual_facets` are the methods. Sort orders by the folded keys,
--   Facets has the lists of sources, sections and areas, Query the filter and the page. Paging, Order and
--   Matches prove what they promise.
-- - Sources (src/repository/TattooSourceParser.{h,cpp}) reads the definitions of one source file. Json has
--   what it uses of the JSON library, Parser the reading; Fields, Accepted and Bounds have its theorems.
--   Scanner (src/repository/TattooSourceScanner.{h,cpp}) finds the files of a folder; Scanned has its
--   theorem.
-- - Catalog (src/native/NativeCatalogBrowserModel.{h,cpp}) holds the user's filter and the page that is
--   shown. The snapshot that the provider gives is an argument of `refresh`; its address stands for the
--   identity that the source compares. Catalog/Laws has the theorems. Loader and Store
--   (src/repository/TattooCatalogLoader.cpp, TattooCatalogStore.cpp) load the files of a folder into a
--   catalog and share it; Loaded has what a catalog holds, Shown what the browser shows of it.
-- - Workflow (src/native/NativeSlotWorkflowModel.{h,cpp}) is the state machine behind the window. State has
--   the record and the private members, Actions and Edits the operations of the user, Completions the
--   takes and the answers. Commands makes each of them one command, so that a history is a list. The
--   theorems are in Tickets and Results (generations), Window and Progress (the screens, when they are
--   driven through the controls of src/native/OfficialMenuFrameworkAdapter.cpp), Pages, Ranges and
--   Requests (what is sent) and Retry (what a failure leaves).
-- - Driver (src/native/NativeSlotWorkflowRuntime.{h,cpp}) takes the workflow's tickets, one at a time, and
--   gives them to the scheduler as tasks. Served and Liveness show that no call is lost.
-- - Appearance (src/runtime/UpdateTattooAppearanceOrchestration.{h,cpp}) is the sequence of calls by which
--   the runtime changes an applied tattoo; Outcomes shows what a result tells of the game.
-- - Adapter (src/native/OfficialMenuFrameworkAdapter.{h,cpp}) has the arithmetic of the pages that the
--   window draws (`calculate_slot_page`), the tests that enable its buttons (`is_preview_apply_enabled`
--   and its like), the cards and their thumbnails (Cards), the field with the number of the page
--   (PageInput), and the port that Menu uses, over the functions of the framework (Port). Pages, Buttons,
--   Views, Shown, PageShown and Opening have the theorems.
-- - Thumbnails (src/native/NativeThumbnailController.{h,cpp}) keeps the textures of the page that is shown.
--   `synchronize` gives up its lock while it looks up the cache, so it is `begin_synchronize`, then
--   `finish_synchronize` or, if the look-up throws, `abandon_synchronize`, and anything can happen in
--   between; History has such histories. An epoch is the address that its pointer holds. Runtime
--   (src/native/NativeThumbnailRuntime.{h,cpp}) hands the requests to the scheduler; Landing has its uses.
--   Source (src/native/D3D11NativeThumbnailSource.{h,cpp}) is where the textures come from; Reloading
--   and Drained have its theorems.
-- - Textures has the cache of textures (src/textures/TextureCache.h) in Cache, the list by recency that it
--   stands for in Recency, TextureManager.h in Manager, the normalization of paths
--   (src/textures/TextureResolver.cpp) in Resolver, and the rest of that file in Loading.
-- - Hotkey (src/runtime/HotkeyBinding.{h,cpp}) loads and saves the key that opens the menu; Saved has the
--   round trip.
-- - Menu (src/native/NativeMenu.{h,cpp}) registers the window and opens it; Laws has its uses. The port of
--   the framework is `MenuFrameworkPort W`, and the window's drawing a function that may throw.
-- - SlaveTats (src/runtime/SlaveTatsRuntime.{h,cpp}, OverlaySlotConfiguration.{h,cpp} and
--   include/jcontainers_mini.h) is the runtime: Slots reads an actor's slots, Available the tattoos that
--   there are, Operations applies and removes, and Backend is behind Appearance. Calls has what they
--   share, JContainers the wrapper of that plugin, Configuration the numbers of slots. Runtime puts them
--   behind ITattooRuntime. Shown, Sane, Untouched, Restores and Written have the theorems, Found and
--   Entries what Shown says of the actor and of one slot, Maps what they assume of a map.
-- - Core (src/core) has the data that the parts exchange, the service that checks every call
--   (SlaveTatsService.cpp) and the interface of the runtime behind it (ITattooRuntime.h).
--
-- Correspondence. Methods become functions from state to state that keep the source's names in snake
-- case; a method that returns bool returns the state and a Bool. Early returns are the branches of the
-- model. `std::expected` is `Expected`, `std::optional` is `Option`. A cast can give an enumeration any
-- value, so `TattooArea` has one more constructor for those.
--
-- Numbers. Sizes and generations are natural numbers, reduced by `u64` where the source can wrap; a
-- history of 2^64 commands is excluded where it matters. `int32_t` is an integer. A `float` is NaN, an
-- infinity, or an integer multiple of 2^-149, which every finite float is; only comparison, `isfinite`
-- and `clamp` are used of it. Strings are lists of bytes. `std::ranges::sort` is insertion sort for
-- the catalog, whose keys end with the source and the place in it, so that ties are only between equal
-- keys; for the files of a folder, where ties may be between two files, it is a parameter.
--
-- Loops are recursion on lists and on counts; nothing needs fuel.
--
-- Parameters. `ScanLibrary` is the directory iterator, the conversions of Windows and the sort of the
-- scanner; `SortsSources` is what is assumed of the sort. `Surroundings R P W` is what the Direct3D
-- source calls, with what may throw there, and `MenuFrameworkBindings W` the functions of the menu
-- framework, each of which may be missing. The runtime (`ITattooRuntime W`) is the game with the
-- SlaveTatsNG and JContainers plugins: it acts on a world `W` of which nothing is assumed. So is the
-- backend of an appearance update in Appearance, the file system (`FileSystem P W`) and the reader of
-- the archives.
-- `JsonLibrary J` and `ConfigLibrary J W` are the JSON library and the files; `IsDocumented` is what
-- is assumed of the latter. `Game A W` is what the runtime calls: the functions of SlaveTatsNG, those
-- of JContainers (each may be missing), the look-up of forms and `1.0F - x`, which rounds; what reads
-- the game changes nothing. The number of elements of an array is taken for 0 if it is negative, as
-- the loops of the source take it; `queryAvailable` and `queryAppliedTattooHandles` reserve room for
-- that many first, which would throw, so there JContainers is taken to give no negative count. The
-- driver's calls are `Operations W`, which may throw; its scheduler may accept a task or throw, and
-- runs what it accepted when it likes, but only after it has returned and only once. The scheduler of the thumbnails may also run a task at once, and more than once.
--
-- Not modelled: drawing, with its layout in floats and its labels, the decoding and upload of textures,
-- the loading of the plugins and the registration with SKSE, the label of a hotkey, logging, and the
-- interleaving of threads inside one method, but for the look-ups of the thumbnail controller.
pub mod Base
pub mod Core
pub mod Repository
pub mod Sources
pub mod Catalog
pub mod Workflow
pub mod Driver
pub mod Appearance
pub mod Adapter
pub mod Thumbnails
pub mod Textures
pub mod Hotkey
pub mod Menu
pub mod SlaveTats
pub mod Tests
