-- ===== src/Prelude/Fields.antt =====
-- Runs of little-endian fields, and writes that go on where the last one stopped.
use Prim.Native.Nat.{ℕ, ◌+◌, ◌-◌, ◌^◌, ◌≤◌, ◌<◌}
use mathlib.Core.Path.{◌≡◌, refl, sym, ap, ◌∙◌, subst}
use mathlib.Core.Bool.{true}
use mathlib.Core.Option.{Option, some}
use mathlib.Core.List.{List, [], ◌∷◌, ◌++◌, append_assoc}
use native.Mathlib.Omega.{arith}
use nutsdb.Prelude.Tests.{leb}
use nutsdb.Prelude.Lists.{
  length, length-append, take, drop, take_append, drop_append, length-drop, drop-drop,
}
use nutsdb.Prelude.Arrays.{write_all, write_all-append, split_gap}
use nutsdb.Prelude.Options.{◌>>=◌}
use nutsdb.Prelude.Words.{Bytes}
use nutsdb.Prelude.LittleEndian.{le_bytes, length-le_bytes, le_value-le_bytes, put, get}

module _ {ℓ} {A : Type ℓ} where
  -- Writing goes on behind what is done.
  pub write_all-next :
      (vs done rest : List A)
      → length vs ≤ length rest
      → write_all vs (length done) (done ++ rest) ≡ some (done ++ (vs ++ drop (length vs) rest))
  write_all-next vs done rest h =
      let (a, b, e, la, lb) = split_gap (length vs) (length rest - length vs) rest (omega arith) in
      subst
        (λ r. write_all vs (length done) (done ++ r) ≡ some (done ++ (vs ++ drop (length vs) r)))
        (sym e)
        (write_all-append vs done a b la
          ∙ ap (λ t. some (done ++ (vs ++ t)))
              (sym (drop_append a b) ∙ ap (λ n. drop n (a ++ b)) la))

-- A field is its width in bytes and its value.
abbrev pub Field : Type 0
Field = ℕ × ℕ

abbrev pub width : List Field → ℕ
width [] = 0
width ((n, v) ∷ fs) = n + width fs

abbrev pub field_bytes : List Field → Bytes
field_bytes [] = []
field_bytes ((n, v) ∷ fs) = le_bytes n v ++ field_bytes fs

-- The values fit their widths.
abbrev pub Fit : List Field → Type 0
Fit [] = Unit
Fit ((n, v) ∷ fs) = (v < 256 ^ n) × Fit fs

pub length-field_bytes : (fs : List Field) → length (field_bytes fs) ≡ width fs
length-field_bytes [] = refl
length-field_bytes ((n, v) ∷ fs) = omega (
  arith,
  length-append (le_bytes n v) (field_bytes fs),
  length-le_bytes n v,
  length-field_bytes fs,
)

-- The fields written one after the other, from `off` on.
unfoldable pub put_fields : List Field → ℕ → Bytes → Option Bytes
put_fields [] off buf = some buf
put_fields ((n, v) ∷ fs) off buf = do buf' ← put n off v buf; put_fields fs (off + n) buf'

put_fields-step :
    (n v : ℕ) (fs : List Field) (off : ℕ) (buf buf' : Bytes)
    → put n off v buf ≡ some buf'
    → put_fields ((n, v) ∷ fs) off buf ≡ put_fields fs (off + n) buf'
unfolding put_fields
put_fields-step n v fs off buf buf' h = rw (h, put_fields)

pub put-next :
    (n v : ℕ) (done rest : Bytes)
    → n ≤ length rest
    → put n (length done) v (done ++ rest) ≡ some ((done ++ le_bytes n v) ++ drop n rest)
unfolding put
put-next n v done rest h =
    write_all-next (le_bytes n v) done rest (omega (arith, length-le_bytes n v))
    ∙ ap (λ k. some (done ++ (le_bytes n v ++ drop k rest))) (length-le_bytes n v)
    ∙ ap some (sym (append_assoc done (le_bytes n v) (drop n rest)))

-- The header that a run of fields leaves.
pub put_fields-append :
    (fs : List Field) (done rest : Bytes)
    → width fs ≤ length rest
    → put_fields fs (length done) (done ++ rest)
      ≡ some (done ++ (field_bytes fs ++ drop (width fs) rest))
put_fields-append [] done rest h = unfold put_fields in refl
put_fields-append ((n, v) ∷ fs) done rest h =
    let ih =
      put_fields-append fs (done ++ le_bytes n v) (drop n rest)
        (omega (arith, length-drop n rest)) in
    let len : length (done ++ le_bytes n v) ≡ length done + n =
      omega (arith, length-append done (le_bytes n v), length-le_bytes n v) in
    put_fields-step n v fs (length done) (done ++ rest) _ (put-next n v done rest (omega arith))
    ∙ subst
        (λ k.
          put_fields fs k ((done ++ le_bytes n v) ++ drop n rest)
          ≡ some ((done ++ le_bytes n v) ++ (field_bytes fs ++ drop (width fs) (drop n rest))))
        len ih
    ∙ ap some (
        append_assoc done (le_bytes n v) (field_bytes fs ++ drop (width fs) (drop n rest))
        ∙ ap (λ t. done ++ (le_bytes n v ++ (field_bytes fs ++ t))) (drop-drop (width fs) n rest)
        ∙ ap (λ t. done ++ t)
            (sym (append_assoc (le_bytes n v) (field_bytes fs) (drop (n + width fs) rest))))

-- Every field can be read back at its place.
abbrev pub AllRead : List Field → ℕ → Bytes → Type 0
AllRead [] off buf = Unit
AllRead ((n, v) ∷ fs) off buf = (get n off buf ≡ some v) × AllRead fs (off + n) buf

get-append :
    (n v : ℕ) (done post : Bytes)
    → v < 256 ^ n
    → get n (length done) (done ++ (le_bytes n v ++ post)) ≡ some v
unfolding get
get-append n v done post h =
    let len = length-le_bytes n v in
    let fits : leb (length done + n) (length (done ++ (le_bytes n v ++ post))) ≡ true =
      ground (
        arith,
        length-append done (le_bytes n v ++ post),
        length-append (le_bytes n v) post,
        len,
      ) in
    let found : take n (le_bytes n v ++ post) ≡ le_bytes n v =
      ap (λ k. take k (le_bytes n v ++ post)) (sym len) ∙ take_append (le_bytes n v) post in
    rw (fits, drop_append done (le_bytes n v ++ post), found, le_value-le_bytes n v h)

pub AllRead-append :
    (fs : List Field) (done post : Bytes)
    → Fit fs
    → AllRead fs (length done) (done ++ (field_bytes fs ++ post))
AllRead-append [] done post h = tt
AllRead-append ((n, v) ∷ fs) done post h =
    let len : length (done ++ le_bytes n v) ≡ length done + n =
      omega (arith, length-append done (le_bytes n v), length-le_bytes n v) in
    let whole : done ++ ((le_bytes n v ++ field_bytes fs) ++ post)
        ≡ (done ++ le_bytes n v) ++ (field_bytes fs ++ post) =
      ap (λ t. done ++ t) (append_assoc (le_bytes n v) (field_bytes fs) post)
      ∙ sym (append_assoc done (le_bytes n v) (field_bytes fs ++ post)) in
    (
      rw (append_assoc (le_bytes n v) (field_bytes fs) post)
          (get-append n v done (field_bytes fs ++ post) h.0),
      subst (λ b. AllRead fs (length done + n) b) (sym whole)
          (subst (λ k. AllRead fs k ((done ++ le_bytes n v) ++ (field_bytes fs ++ post))) len
            (AllRead-append fs (done ++ le_bytes n v) post h.1)),
    )
