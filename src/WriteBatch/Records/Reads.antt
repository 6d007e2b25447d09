-- ===== src/WriteBatch/Records/Reads.antt =====
-- The loop `for iter.Next() { … iter.Record() … }` over a batch, as a relation: the records that it
-- sees, and the iterator that it ends with, or a panic. A derivation is a finite run.
use grocksdb.Base.{◌≡◌, true, false, List, [], ◌∷◌}
use grocksdb.WriteBatch.Records.{WriteBatchRecord, WriteBatchIterator, Outcome, returned, panics}
use grocksdb.WriteBatch.Records.{next}

pub data Reads
    : WriteBatchIterator → List WriteBatchRecord → Outcome WriteBatchIterator → Type 0 where
  stop :
      {it it' : WriteBatchIterator} → next it ≡ returned (false, it') → Reads it [] (returned it')
  crash : {it : WriteBatchIterator} → next it ≡ panics → Reads it [] panics
  more :
      {it it' : WriteBatchIterator} {rs : List WriteBatchRecord} {o : Outcome WriteBatchIterator}
      → next it ≡ returned (true, it')
      → Reads it' rs o
      → Reads it (it'.current ∷ rs) o
