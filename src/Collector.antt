-- ===== src/Collector.antt =====
-- internal/collector: the metrics of a scrape, and the cache of filesystem capacity.
pub mod Descs
pub mod Series
pub mod Recorder
pub mod Targets
pub mod Reported
pub mod Scrape
pub mod Filesystem
