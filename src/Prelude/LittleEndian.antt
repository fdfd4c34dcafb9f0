-- ===== src/Prelude/LittleEndian.antt =====
-- `encoding/binary`'s little-endian integers in a byte slice.
use Prim.Native.Nat.{ℕ, zero, suc, ◌+◌, ◌*◌, ◌/◌, ◌%◌, ◌^◌, ◌<◌}
use mathlib.Core.Path.{◌≡◌, refl, ap}
use mathlib.Core.Option.{Option, none, some}
use mathlib.Core.List.{[], ◌∷◌}
use native.Mathlib.Omega.{arith}
use native.Mathlib.Nat.{pow-suc}
use nutsdb.Prelude.Tests.{leb, if◌then◌else◌}
use nutsdb.Prelude.Lists.{length, take, drop}
use nutsdb.Prelude.Arrays.{write_all}
use nutsdb.Prelude.Words.{Bytes}

unfoldable pub le_bytes : ℕ → ℕ → Bytes
le_bytes zero v = []
le_bytes (suc n) v = v % 256 ∷ le_bytes n (v / 256)

unfoldable pub le_value : Bytes → ℕ
le_value [] = 0
le_value (b ∷ bs) = b + 256 * le_value bs

pub length-le_bytes : (n v : ℕ) → length (le_bytes n v) ≡ n
unfolding le_bytes
length-le_bytes zero v = refl
length-le_bytes (suc n) v = ap suc (length-le_bytes n (v / 256))

pub le_value-le_bytes : (n v : ℕ) → v < 256 ^ n → le_value (le_bytes n v) ≡ v
unfolding le_bytes le_value
le_value-le_bytes zero v h = omega arith
le_value-le_bytes (suc n) v h =
    let small : v / 256 < 256 ^ n = omega (arith, pow-suc 256 n) in
    omega (arith, le_value-le_bytes n (v / 256) small)

-- `binary.LittleEndian.PutUint…(buf[off:off+n], v)`
unfoldable pub put : ℕ → ℕ → ℕ → Bytes → Option Bytes
put n off v buf = write_all (le_bytes n v) off buf

-- `binary.LittleEndian.Uint…(buf[off:off+n])`
unfoldable pub get : ℕ → ℕ → Bytes → Option ℕ
get n off buf = if leb (off + n) (length buf) then some (le_value (take n (drop off buf))) else none
