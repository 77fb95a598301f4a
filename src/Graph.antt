-- ===== src/Graph.antt =====
-- The Graph view: shared/graphWindow.ts, graphDecimate.ts, graphKeys.ts, graphCatalog.ts and
-- graphStore.ts.
pub mod Window
pub mod Decimate
pub mod Buffer
pub mod Catalog
pub mod Store
pub mod Ingest
pub mod Calls
pub mod View
mod Tests
