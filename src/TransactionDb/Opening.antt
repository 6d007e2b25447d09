-- ===== src/TransactionDb/Opening.antt =====
-- transactiondb.go, optimistic_transaction_db.go: opening a database with transactions.
mod Tests
use grocksdb.Base.{ℕ, Option, List, Bytes, length, ◌==◌}
use grocksdb.Cgo.{
  Ptr, Cmd, World, Reply, ◌>>=◌, ◌>>◌, pure, call_handle, until_nul, c_string, c_string_of,
  go_string, free,
}
use grocksdb.Cgo.Returns.{IsValid}
use grocksdb.Cgo.Laws.{after_malloc, after_malloc-IsValid}
use grocksdb.Util.{from_c_error, unless}
use grocksdb.Util.Opens.{Opens, opens}
use grocksdb.Util.Names.{with_name}
use grocksdb.Types.{
  ColumnFamilyHandle, OptimisticTransactionDb, Options, TransactionDb, TransactionDbOptions,
}
use grocksdb.Db.Families.{Families, Opened, c_opts, open_families}
use grocksdb.Db.Families.Opens.{OpensFamilies, open_if-OpensFamilies}

-- The C functions that are called here, on the name, the names of the column families and their options.
pub record TransactionOpenApi (S : Type 0) : Type 0 where
  pub rocksdb_transactiondb_open : Ptr → Ptr → Bytes → S → Reply Ptr × S
  pub rocksdb_transactiondb_open_column_families :
      Ptr → Ptr → Bytes → List Bytes → List Ptr → S → Reply Families × S
  pub rocksdb_optimistictransactiondb_open : Ptr → Bytes → S → Reply Ptr × S
  pub rocksdb_optimistictransactiondb_open_column_families :
      Ptr → Bytes → List Bytes → List Ptr → S → Reply Families × S

abbrev pub new_transaction_db : Ptr → TransactionDb
new_transaction_db c = record { c = c }

abbrev pub new_optimistic_db : Ptr → OptimisticTransactionDb
new_optimistic_db c = record { c = c }

module _ {S : Type 0} (api : TransactionOpenApi S) where
  open api use {
    rocksdb_transactiondb_open, rocksdb_transactiondb_open_column_families,
    rocksdb_optimistictransactiondb_open, rocksdb_optimistictransactiondb_open_column_families,
  }

  unfoldable pub open_transaction_db :
      (opts : Options) (transaction_db_opts : TransactionDbOptions) (name : Bytes)
      → Cmd S (Option TransactionDb × Option Bytes)
  open_transaction_db opts transaction_db_opts name = do
    c_name ← c_string_of name
    t ← go_string c_name
    r ←
        (call_handle (rocksdb_transactiondb_open opts.c transaction_db_opts.c t) >>= λ (db, c_err).
        from_c_error c_err >>= λ err. pure (unless err (new_transaction_db db), err))
    free c_name
    pure r

  unfoldable pub open_optimistic_transaction_db :
      (opts : Options) (name : Bytes) → Cmd S (Option OptimisticTransactionDb × Option Bytes)
  open_optimistic_transaction_db opts name = do
    c_name ← c_string_of name
    t ← go_string c_name
    r ←
        (call_handle (rocksdb_optimistictransactiondb_open opts.c t) >>= λ (db, c_err).
        from_c_error c_err >>= λ err. pure (unless err (new_optimistic_db db), err))
    free c_name
    pure r

  unfoldable pub open_transaction_db_column_families :
      (opts : Options) (transaction_db_opts : TransactionDbOptions) (name : Bytes)
      (cf_names : List Bytes) (cf_opts : List Options)
      → Cmd S (Opened TransactionDb)
  unfolding open_families
  open_transaction_db_column_families opts transaction_db_opts name cf_names cf_opts =
      open_families new_transaction_db name cf_names cf_opts (λ t ts.
        rocksdb_transactiondb_open_column_families opts.c transaction_db_opts.c t ts
          (c_opts cf_opts))

  unfoldable pub open_optimistic_transaction_db_column_families :
      (opts : Options) (name : Bytes) (cf_names : List Bytes) (cf_opts : List Options)
      → Cmd S (Opened OptimisticTransactionDb)
  unfolding open_families
  open_optimistic_transaction_db_column_families opts name cf_names cf_opts =
      open_families new_optimistic_db name cf_names cf_opts
        (λ t ts. rocksdb_optimistictransactiondb_open_column_families opts.c t ts (c_opts cf_opts))

  module _ (opts : Options) (transaction_db_opts : TransactionDbOptions) (name : Bytes)
      (cf_names : List Bytes) (cf_opts : List Options) where
    abbrev pub OpensTransactions : (w : World S) → Type 0
    OpensTransactions w =
        let same_number = length cf_names == length cf_opts in
        Opens new_transaction_db w (open_transaction_db opts transaction_db_opts name)
          (rocksdb_transactiondb_open opts.c transaction_db_opts.c (until_nul name))
        × Opens new_optimistic_db w (open_optimistic_transaction_db opts name)
            (rocksdb_optimistictransactiondb_open opts.c (until_nul name))
        × OpensFamilies same_number w new_transaction_db name cf_names
            (open_transaction_db_column_families opts transaction_db_opts name cf_names cf_opts)
            (λ t ts.
              rocksdb_transactiondb_open_column_families opts.c transaction_db_opts.c t ts
                (c_opts cf_opts))
        × OpensFamilies same_number w new_optimistic_db name cf_names
            (open_optimistic_transaction_db_column_families opts name cf_names cf_opts)
            (λ t ts.
              rocksdb_optimistictransactiondb_open_column_families opts.c t ts (c_opts cf_opts))

    -- Opening a database with transactions, optimistic ones or not, gives RocksDB the name up to its
    -- first zero byte, returns its database, or its failure as an error with no database, and frees the
    -- copy of the name. With column families it does nothing but return the error
    -- ErrColumnFamilyMustMatch when the numbers of their names and options differ, and panics when both
    -- are 0; otherwise it returns their handles besides, and frees every C string that it made.
    pub transaction_dbs-Open : (w : World S) → IsValid w → OpensTransactions w
    unfolding open_transaction_db open_optimistic_transaction_db open_transaction_db_column_families
        open_optimistic_transaction_db_column_families open_families Opens
    transaction_dbs-Open w v =
        let b = length cf_names == length cf_opts in
        let u = after_malloc (c_string name) w in
        let u-IsValid : IsValid u = after_malloc-IsValid (c_string name) w v in
        (
          with_name w v _ _ name _ (opens _ _ u u-IsValid),
          with_name w v _ _ name _ (opens _ _ u u-IsValid),
          open_if-OpensFamilies w v b new_transaction_db name cf_names _,
          open_if-OpensFamilies w v b new_optimistic_db name cf_names _,
        )
