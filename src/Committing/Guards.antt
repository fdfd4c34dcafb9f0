-- ===== src/Committing/Guards.antt =====
-- How `Commit` of tx.go ends a transaction, and what it does with one that is over.
use nutsdb.Prelude.{ℕ, ◌≡◌, refl, Bool, false, some, List, [], arith, ok, panic}
use nutsdb.Tx.{Tx, closed, Lock, lock, unlock, begin, new_tx, rollback}
use nutsdb.Entries.{Entry}
use nutsdb.Indexing.{Structures}
use nutsdb.Committing.{RamMode, World, commit_writes, deferred, commit_open, commit}

module _ {T Z L : Type 0} (ops : Structures T Z L) where
  -- Where `Begin` succeeds, `Commit` of the transaction, whatever it has collected, gives what its
  -- writes give (success, error or panic), closes it, drops its writes, and leaves the lock as
  -- `Begin` found it.
  pub begin-commit :
      (id now : ℕ) (writable : Bool) (l l' : Lock) (tx : Tx) (writes : List Entry) (mode : RamMode)
      (w : World T Z L)
      → begin id writable false l ≡ some (ok tx, l')
      → (t : Tx) × (commit ops now mode (record tx { pending_writes = writes }) l' w ≡ (
        ((commit_writes ops now mode writes w).0, (t, l)),
        (commit_writes ops now mode writes w).1,
      ))
        × (t.status ≡ closed)
        × (t.has_db ≡ false)
        × (t.pending_writes ≡ [])
  unfolding begin lock unlock new_tx commit commit_open deferred
  begin-commit id now writable l l' tx writes mode w h = (
    record tx { status = closed; has_db = false; pending_writes = [] },
    ground arith,
    refl,
    refl,
    refl,
  )

  -- A transaction that `Rollback` has closed panics on `Commit`, and the files and the indexes stay
  -- as they are: the error that the guard returns is handled through the field `db`, which is nil.
  pub commit_panics_after_rollback :
      (now : ℕ) (mode : RamMode) (tx t : Tx) (l l' l'' : Lock) (w : World T Z L)
      → rollback (tx, l) ≡ (ok tt, (t, l'))
      → commit ops now mode t l'' w ≡ ((panic, (t, l'')), w)
  unfolding rollback unlock commit deferred
  commit_panics_after_rollback now mode tx t l l' l'' w h = ground arith

  -- A transaction that has committed panics on a second `Commit`, and the files and the indexes
  -- stay as they are.
  pub commit_panics_twice :
      (now : ℕ) (mode : RamMode) (tx t : Tx) (l l' l'' : Lock) (w v v' : World T Z L)
      → commit ops now mode tx l w ≡ ((ok tt, (t, l')), v)
      → commit ops now mode t l'' v' ≡ ((panic, (t, l'')), v')
  unfolding unlock commit commit_open deferred
  commit_panics_twice now mode tx t l l' l'' w v v' h = ground arith
