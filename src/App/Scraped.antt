-- ===== src/App/Scraped.antt =====
-- A scrape of the running program: cmd/directory-size-exporter/main.go with internal/collector.
use directory_size_exporter.Base.{str_eq}
use directory_size_exporter.Collector.Series.{series_eq}
use directory_size_exporter.Collector.Targets
