-- ===== src/TxSets/Reads.antt =====
-- What the readers of tx_set.go return.
use nutsdb.Prelude.{ℕ, ◌≡◌, refl, Option, Outcome, ok, err, panic, Bool, true, false}
use nutsdb.Prelude.Exec.{◌>>=◌, ◌>>◌, continue, fail}
use nutsdb.Prelude.Words.{Bytes}
use nutsdb.DataFile.{RwManager}
use nutsdb.Sets.{s_members}
use nutsdb.TxSets.{
  SetTx, SetTxError, bucket_not_found, Method, check_tx_is_closed, on_set, read_values,
  tx_s_members,
}

-- An outcome that is a value.
abbrev pub is_ok : {A : Type 0} → Outcome SetTxError A → Bool
is_ok (ok a) = true
is_ok (err x) = false
is_ok panic = false

-- A chain of calls whose continuation never returns a value returns none.
continue-fails :
    {A B : Type 0}
    → (o : Outcome SetTxError A) (st : SetTx) (f : A → Method B)
    → ((a : A) (st' : SetTx) → is_ok (f a st').0 ≡ false)
    → is_ok (continue o st f).0 ≡ false
continue-fails (ok a) st f h = h a st
continue-fails (err x) st f h = refl
continue-fails panic st f h = refl

-- `SMembers` never returns members: in every state, and whatever the files hold, it returns an
-- error or panics, also where the bucket has the key and every value can be read.
pub tx_s_members_fails :
    (get_data_file : ℕ → Option RwManager) (bucket key : Bytes) (st : SetTx)
    → is_ok (tx_s_members get_data_file bucket key st).0 ≡ false
unfolding tx_s_members
tx_s_members_fails get_data_file bucket key st =
    continue-fails (check_tx_is_closed st).0 (check_tx_is_closed st).1
      (λ u. on_set bucket bucket_not_found (s_members key) >>= λ items.
        read_values get_data_file items >> fail bucket_not_found)
      (λ u st1.
        continue-fails (on_set bucket bucket_not_found (s_members key) st1).0
          (on_set bucket bucket_not_found (s_members key) st1).1
          (λ items. read_values get_data_file items >> fail bucket_not_found)
          (λ items st2.
            continue-fails (read_values get_data_file items st2).0
              (read_values get_data_file items st2).1 (λ values. fail bucket_not_found)
              (λ values st3. refl)))
