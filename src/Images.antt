-- ===== src/Images.antt =====
-- internal/images: image references, the image finder, the cache, the cron scheduler and watcher.
pub mod ImageRef
pub mod Cache
pub mod Registry
pub mod Finder
pub mod Scheduler
pub mod Watcher
pub mod Wiring
