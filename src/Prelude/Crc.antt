-- ===== src/Prelude/Crc.antt =====
-- The standard library's checksums that the program calls: `hash/crc32` with the IEEE table, and
-- the 32-bit FNV-1a of `hash/fnv`. A `uint32` is kept below 2 ^ 32.
use Prim.Native.Nat.{bit_xor}
use nutsdb.Prelude.Words.{Bytes}
use Prim.Native.Nat.{ℕ, zero, suc, ◌-◌, ◌*◌, ◌/◌, ◌%◌, ◌^◌, ◌<◌}
use mathlib.Core.Path.{◌≡◌, refl, sym, ap, ◌∙◌}
use mathlib.Core.List.{[], ◌∷◌, ◌++◌}
use native.Mathlib.Omega.{arith}
use nutsdb.Prelude.Tests.{◌==◌, if◌then◌else◌}

-- One entry of the table, by its eight rounds.
table_rounds : ℕ → ℕ → ℕ
table_rounds zero c = c
table_rounds (suc k) c = table_rounds k (if c % 2 == 1 then bit_xor 0xedb88320 (c / 2) else c / 2)

step : ℕ → ℕ → ℕ
unfolding table_rounds
step crc b = bit_xor (table_rounds 8 (bit_xor (crc % 256) b)) (crc / 256) % 2 ^ 32

run : ℕ → Bytes → ℕ
run crc [] = crc
run crc (b ∷ bs) = run (step crc b) bs

-- `crc32.Update(crc, crc32.IEEETable, p)`, which works on the complement.
unfoldable pub update : ℕ → Bytes → ℕ
unfolding step run
update crc p = 2 ^ 32 - 1 - run (2 ^ 32 - 1 - crc) p

-- `crc32.ChecksumIEEE(p)`
unfoldable pub checksum : Bytes → ℕ
unfolding update
checksum p = update 0 p

run-append : (crc : ℕ) (p q : Bytes) → run crc (p ++ q) ≡ run (run crc p) q
unfolding run
run-append crc [] q = refl
run-append crc (b ∷ p) q = run-append (step crc b) p q

run-lt : (crc : ℕ) (p : Bytes) → crc < 2 ^ 32 → run crc p < 2 ^ 32
unfolding run step
run-lt crc [] h = h
run-lt crc (b ∷ p) h = run-lt (step crc b) p (omega arith)

pub update-lt : (crc : ℕ) (p : Bytes) → update crc p < 2 ^ 32
unfolding update
update-lt crc p = omega arith

-- A checksum may be taken piece by piece.
pub update-append :
    (crc : ℕ) (p q : Bytes) → crc < 2 ^ 32 → update (update crc p) q ≡ update crc (p ++ q)
update-append crc p q h =
    let c = 2 ^ 32 - 1 - crc in
    let small = run-lt c p (omega arith) in
    let e : 2 ^ 32 - 1 - (2 ^ 32 - 1 - run c p) ≡ run c p = omega arith in
    unfold update in ap (λ t. 2 ^ 32 - 1 - t) (ap (λ t. run t q) e ∙ sym (run-append c p q))

check : checksum (0x31 ∷ 0x32 ∷ 0x33 ∷ 0x34 ∷ 0x35 ∷ 0x36 ∷ 0x37 ∷ 0x38 ∷ 0x39 ∷ []) ≡ 0xcbf43926
unfolding checksum
check = refl

pub checksum-lt : (p : Bytes) → checksum p < 2 ^ 32
unfolding checksum
checksum-lt p = update-lt 0 p

pub checksum-update : (p q : Bytes) → update (checksum p) q ≡ checksum (p ++ q)
checksum-update p q = unfold checksum in update-append 0 p q (omega arith)

fnv_run : ℕ → Bytes → ℕ
fnv_run h [] = h
fnv_run h (b ∷ bs) = fnv_run (bit_xor h b * 16777619 % 2 ^ 32) bs

-- `fnv.New32a`, from its offset basis.
unfoldable pub fnv32a : Bytes → ℕ
unfolding fnv_run
fnv32a p = fnv_run 2166136261 p

fnv_check : fnv32a (0x61 ∷ []) ≡ 0xe40c292c
unfolding fnv32a
fnv_check = refl
