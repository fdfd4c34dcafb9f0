-- ===== src/Tx/States.antt =====
-- The states of a transaction of tx.go: who may run beside it, and what it collects.
use nutsdb.Prelude.{
  ℕ, ◌+◌, ◌^◌, ◌<◌, ◌≡◌, refl, Bool, true, false, none, some, List, [], ◌∷◌, ◌++◌, arith, length,
  ok,
}
use nutsdb.Prelude.Words.{Bytes}
use nutsdb.Entries.{Entry, valid}
use nutsdb.Entries.Layout.{IsSized}
use nutsdb.Tx.{Tx, closed, Lock, lock, unlock, new_tx, begin, new_entry, put, rollback}

-- While a writable transaction that `Begin` has opened holds the lock, no other begins: `Begin`
-- waits, for writing and for reading.
pub begin-excludes :
    (id id' : ℕ) (writable : Bool) (is_closed : Bool) (l l' : Lock) (tx : Tx)
    → begin id true false l ≡ some (ok tx, l')
    → begin id' writable is_closed l' ≡ none
unfolding begin lock new_tx
begin-excludes id id' writable is_closed l l' tx h = ground arith

-- Where `Begin` succeeds, `Rollback` of the transaction, whatever it has collected, succeeds,
-- closes it, drops its writes, and leaves the lock as `Begin` found it.
pub begin-rollback :
    (id : ℕ) (writable : Bool) (l l' : Lock) (tx : Tx) (writes : List Entry)
    → begin id writable false l ≡ some (ok tx, l')
    → (t : Tx) × (rollback (record tx { pending_writes = writes }, l') ≡ (ok tt, (t, l)))
      × (t.status ≡ closed)
      × (t.has_db ≡ false)
      × (t.pending_writes ≡ [])
unfolding begin lock unlock new_tx rollback
begin-rollback id writable l l' tx writes h = (
  record tx { status = closed; has_db = false; pending_writes = [] },
  ground arith,
  refl,
  refl,
  refl,
)

-- A write that `put` takes stands behind the other pending writes with the transaction's ID, has a
-- key, and has the sizes of its parts, as `Encode` and the readers need them, where the numbers fit
-- their fields and the whole entry fits a `uint32`.
pub put-IsSized :
    (bucket key value : Bytes) (ttl flag timestamp ds : ℕ) (tx t : Tx)
    → put bucket key value ttl flag timestamp ds tx ≡ (ok tt, t)
    → ttl < 2 ^ 32
    → flag < 2 ^ 16
    → timestamp < 2 ^ 64
    → ds < 2 ^ 16
    → tx.id < 2 ^ 64
    → 42 + length key + length value + length bucket < 2 ^ 32
    → (e : Entry) × (t.pending_writes ≡ tx.pending_writes ++ (e ∷ []))
      × IsSized e
      × (0 < length e.key)
      × (e.meta.tx_id ≡ tx.id)
unfolding put valid
put-IsSized bucket key value ttl flag timestamp ds tx t h a b c d e f = (
  new_entry tx bucket key value ttl flag timestamp ds,
  ground arith,
  record {
    in_range = record {
      timestamp = c;
      key_size = omega arith;
      value_size = omega arith;
      flag = b;
      ttl = a;
      bucket_size = omega arith;
      status = omega arith;
      ds = d;
      tx_id = e;
    };
    key = omega arith;
    value = omega arith;
    bucket = omega arith;
    total = omega arith;
  },
  ground arith,
  refl,
)
