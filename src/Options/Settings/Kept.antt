-- ===== src/Options/Settings/Kept.antt =====
-- options.go: every option that holds one value is kept.
use grocksdb.Types.{Options}
