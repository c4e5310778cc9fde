-- ===== src/Web.antt =====
-- The dashboard's backend: web/queries.py, web/pages.py, web/cache.py, web/cluster.py and web/app.py.
pub mod Queries
pub mod Feeds
pub mod Pages
pub mod Cache
pub mod Cluster
pub mod App
