-- ===== src/Persistence/Binary.antt =====
-- common/binary_io.hpp: plain numbers and blocks of bytes in a stream. A number stands as the bytes
-- of its object, the lowest first, as on the little-endian machines that the program is built for.
-- A stream is the list of its bytes; a read that finds too few throws, which is `none`.
use vertex_db.Base.{
  ℕ, zero, suc, ◌+◌, ◌*◌, ◌/◌, ◌%◌, ◌<◌, ◌^◌, ◌≡◌, refl, subst, ap, Option, none, some, List, [],
  ◌∷◌, ◌++◌, arith, length, Option-cases, inl, inr,
}
use native.Mathlib.Nat.{pow-suc}

abbrev pub Bytes : Type 0
Bytes = List ℕ

infixl 5 ◌>>=◌
abbrev pub ◌>>=◌ {ℓ κ} : {A : Type ℓ} {B : Type κ} → Option A → (A → Option B) → Option B
none >>= f = none
some a >>= f = f a

-- writePod of a number of `width` bytes
unfoldable pub write_pod : ℕ → ℕ → Bytes
write_pod zero n = []
write_pod (suc width) n = (n % 256) ∷ write_pod width (n / 256)

-- readBytes
unfoldable pub read_bytes : ℕ → Bytes → Option (Bytes × Bytes)
read_bytes zero input = some ([], input)
read_bytes (suc n) [] = none
read_bytes (suc n) (b ∷ input) = do r ← read_bytes n input; some (b ∷ r.0, r.1)

unfoldable pub number_of : Bytes → ℕ
number_of [] = 0
number_of (b ∷ bytes) = b + 256 * number_of bytes

-- readPod of a number of `width` bytes
unfoldable pub read_pod : ℕ → Bytes → Option (ℕ × Bytes)
unfolding read_bytes number_of
read_pod width input = do r ← read_bytes width input; some (number_of r.0, r.1)

pub read_bytes-append :
    (bytes rest : Bytes) → read_bytes (length bytes) (bytes ++ rest) ≡ some (bytes, rest)
unfolding read_bytes
read_bytes-append [] rest = refl
read_bytes-append (b ∷ bytes) rest = rw (read_bytes-append bytes rest)

pub length-write_pod : (width n : ℕ) → length (write_pod width n) ≡ width
unfolding write_pod
length-write_pod zero n = refl
length-write_pod (suc width) n = ap suc (length-write_pod width (n / 256))

number_of-write_pod : (width n : ℕ) → n < 256 ^ width → number_of (write_pod width n) ≡ n
unfolding number_of write_pod
number_of-write_pod zero n h = omega arith
number_of-write_pod (suc width) n h = omega (
  arith,
  number_of-write_pod width (n / 256)
      (omega (arith, (λ (e : 256 ^ suc width ≡ 256 ^ width * 256). e) (pow-suc 256 width))),
)

-- A read that succeeds does so with more bytes behind, and leaves them.
pub read_bytes_more :
    (n : ℕ) (input more : Bytes) (r : Bytes × Bytes)
    → read_bytes n input ≡ some r
    → read_bytes n (input ++ more) ≡ some (r.0, r.1 ++ more)
unfolding read_bytes
read_bytes_more zero input more r h = ground arith
read_bytes_more (suc n) [] more r h = cc
read_bytes_more (suc n) (b ∷ input) more r h = elim (Option-cases (read_bytes n input)) [
  | inl e ↦ ground arith
  | inr (q, e) ↦ ground (arith, read_bytes_more n input more q e)
]

-- A number that fits its width is read back, and what follows it is left.
pub read_pod-write_pod :
    (width n : ℕ) (rest : Bytes)
    → n < 256 ^ width
    → read_pod width (write_pod width n ++ rest) ≡ some (n, rest)
unfolding read_pod
read_pod-write_pod width n rest h =
    let bytes =
      subst (λ w. read_bytes w (write_pod width n ++ rest) ≡ some (write_pod width n, rest))
        (length-write_pod width n) (read_bytes-append (write_pod width n) rest) in
    rw bytes (ground (arith, number_of-write_pod width n h))

pub read_pod_more :
    (width : ℕ) (input more : Bytes) (r : ℕ × Bytes)
    → read_pod width input ≡ some r
    → read_pod width (input ++ more) ≡ some (r.0, r.1 ++ more)
unfolding read_pod
read_pod_more width input more r h = elim (Option-cases (read_bytes width input)) [
  | inl e ↦ ground arith
  | inr (q, e) ↦ ground (arith, read_bytes_more width input more q e)
]
