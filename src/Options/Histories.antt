-- ===== src/Options/Histories.antt =====
-- The life of options: they are made, any objects are set in any order, and they are destroyed.
use grocksdb.Base.{List, [], ◌∷◌}
use grocksdb.Cgo.{Cmd, ◌>>=◌, pure, malloc}
use grocksdb.Cgo.Returns.{Returns}
use grocksdb.Types.{Options}
use grocksdb.Options.{
  OptionsApi, native, set_native_comparator, set_merge_operator, set_prefix_extractor,
  set_compaction_filter, set_env,
}

-- A call that makes a native object and sets it.
pub data Op : Type 0 where
  comparator merge_operator prefix_extractor compaction_filter environment : Op

module _ {S : Type 0} (api : OptionsApi S) where
  pub apply : Op → (opts : Options) → Cmd S Options
  apply comparator opts = malloc [] >>= λ q. set_native_comparator api opts q
  apply merge_operator opts =
      malloc [] >>= λ q. set_merge_operator api [] opts (native q) >>= λ r. pure r.1
  apply prefix_extractor opts =
      malloc [] >>= λ q. set_prefix_extractor api [] opts (native q) >>= λ r. pure r.1
  apply compaction_filter opts =
      malloc [] >>= λ q. set_compaction_filter api [] opts (native q) >>= λ r. pure r.1
  apply environment opts = malloc [] >>= λ q. set_env api opts (record { c = q }) >>= λ r. pure r.0

  pub apply_all : List Op → (opts : Options) → Cmd S Options
  apply_all [] opts = pure opts
  apply_all (op ∷ ops) opts = do opts' ← apply op opts; apply_all ops opts'
