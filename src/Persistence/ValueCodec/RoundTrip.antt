-- ===== src/Persistence/ValueCodec/RoundTrip.antt =====
-- What is written of a value is read back, in front of any further bytes.
use vertex_db.Base.{
  ℕ, zero, suc, ◌+◌, ◌<◌, ◌≤◌, ◌^◌, ◌≡◌, refl, ap, some, [], ◌++◌, length, Text, arith,
  append_assoc, Option-cases, inl, inr, length-append,
}
use vertex_db.Base.Int.{ℤ, pos, negsuc}
use vertex_db.Common.Value.{
  Value, Values, null, int, double, string, parameter, composite, nil, cons, make_composite,
}
use vertex_db.Persistence.Binary.{
  Bytes, write_pod, read_pod, read_pod-write_pod, read_bytes-append, length-write_pod,
}
use vertex_db.Persistence.ValueCodec.{
  bits_of, int_of, write_string, read_string, part_count, write_value, write_parts, read_fueled,
  read_parts, read_value,
}

abbrev pub IsInt64 : ℤ → Type 0
IsInt64 (pos n) = n < 9223372036854775808
IsInt64 (negsuc n) = n < 9223372036854775808

-- Numbers fit 64 bits, texts are not longer than that, and a composite has two parts or more.
unfoldable mutual
  pub IsStorable : Value → Type 0
  IsStorable null = Unit
  IsStorable (int i) = IsInt64 i
  IsStorable (double d) = d < 256 ^ 8
  IsStorable (string s) = length s < 256 ^ 8
  IsStorable (parameter i) = Unit
  IsStorable (composite vs) = (2 ≤ part_count vs) × (part_count vs < 256 ^ 8) × AreStorable vs

  pub AreStorable : Values → Type 0
  AreStorable nil = Unit
  AreStorable (cons v vs) = IsStorable v × AreStorable vs

-- The depth of the calls that read a value
unfoldable mutual
  weight : Value → ℕ
  weight null = 0
  weight (int i) = 0
  weight (double d) = 0
  weight (string s) = 0
  weight (parameter i) = 0
  weight (composite vs) = suc (weight_all vs)

  weight_all : Values → ℕ
  weight_all nil = 0
  weight_all (cons v vs) = suc (weight v + weight_all vs)

pub int_of-bits_of : (i : ℤ) → IsInt64 i → int_of (bits_of i) ≡ i
unfolding int_of bits_of
int_of-bits_of (pos n) h = ground arith
int_of-bits_of (negsuc n) h = ground arith

pub bits_bound : (i : ℤ) → bits_of i < 256 ^ 8
unfolding bits_of
bits_bound (pos n) = omega arith
bits_bound (negsuc n) = omega arith

make_composite_many : (vs : Values) → 2 ≤ part_count vs → make_composite vs ≡ some (composite vs)
unfolding make_composite part_count
make_composite_many nil m = ground arith
make_composite_many (cons v nil) m = ground arith
make_composite_many (cons v (cons w vs)) m = refl

module _ (rest : Bytes) where
  kind_read :
      (kind : ℕ) (body : Bytes)
      → kind < 256
      → read_pod 1 ((write_pod 1 kind ++ body) ++ rest) ≡ some (kind, body ++ rest)
  kind_read kind body h =
      rw (append_assoc (write_pod 1 kind) body rest)
        (read_pod-write_pod 1 kind (body ++ rest) (omega arith))

  null_read : (fuel : ℕ) → read_fueled (suc fuel) (write_pod 1 255 ++ rest) ≡ some (null, rest)
  unfolding read_fueled
  null_read fuel = rw (read_pod-write_pod 1 255 rest (omega arith))

  int_read :
      (fuel bits : ℕ)
      → bits < 256 ^ 8
      → read_fueled (suc fuel) ((write_pod 1 0 ++ write_pod 8 bits) ++ rest)
        ≡ some (int (int_of bits), rest)
  unfolding read_fueled
  int_read fuel bits h =
      rw (kind_read 0 (write_pod 8 bits) (omega arith), read_pod-write_pod 8 bits rest h)

  double_read :
      (fuel bits : ℕ)
      → bits < 256 ^ 8
      → read_fueled (suc fuel) ((write_pod 1 1 ++ write_pod 8 bits) ++ rest)
        ≡ some (double bits, rest)
  unfolding read_fueled
  double_read fuel bits h =
      rw (kind_read 1 (write_pod 8 bits) (omega arith), read_pod-write_pod 8 bits rest h)

  read_string-write_string :
      (s : Text) → length s < 256 ^ 8 → read_string (write_string s ++ rest) ≡ some (s, rest)
  unfolding read_string write_string
  read_string-write_string s h = rw (
    append_assoc (write_pod 8 (length s)) s rest,
    read_pod-write_pod 8 (length s) (s ++ rest) h,
    read_bytes-append s rest,
  )

  string_read :
      (fuel : ℕ) (s : Text)
      → length s < 256 ^ 8
      → read_fueled (suc fuel) ((write_pod 1 2 ++ write_string s) ++ rest) ≡ some (string s, rest)
  unfolding read_fueled
  string_read fuel s h =
      rw (kind_read 2 (write_string s) (omega arith), read_string-write_string s h)

  composite_read :
      (fuel : ℕ) (vs : Values) (parts : Bytes)
      → 2 ≤ part_count vs
      → part_count vs < 256 ^ 8
      → read_parts fuel (part_count vs) (parts ++ rest) ≡ some (vs, rest)
      → read_fueled (suc fuel) ((write_pod 1 254 ++ (write_pod 8 (part_count vs) ++ parts)) ++ rest)
        ≡ some (composite vs, rest)
  unfolding read_fueled
  composite_read fuel vs parts many h read = rw (
    kind_read 254 (write_pod 8 (part_count vs) ++ parts) (omega arith),
    append_assoc (write_pod 8 (part_count vs)) parts rest,
    read_pod-write_pod 8 (part_count vs) (parts ++ rest) h,
    read,
    make_composite_many vs many,
  )

-- What a writer that ends has written
written_composite :
    (vs : Values) (bytes : Bytes)
    → write_value (composite vs) ≡ some bytes
    → (parts : Bytes) × (write_parts vs ≡ some parts)
      × (bytes ≡ write_pod 1 254 ++ (write_pod 8 (part_count vs) ++ parts))
unfolding write_value
written_composite vs bytes h = elim (Option-cases (write_parts vs)) [
  | inl e ↦ absurd (ground arith)
  | inr (parts, e) ↦ (parts, e, ground arith)
]

written_cons :
    (v : Value) (vs : Values) (bytes : Bytes)
    → write_parts (cons v vs) ≡ some bytes
    → (first others : Bytes) × (write_value v ≡ some first)
      × (write_parts vs ≡ some others)
      × (bytes ≡ first ++ others)
unfolding write_parts
written_cons v vs bytes h = elim (Option-cases (write_value v)) [
  | inl e ↦ absurd (ground arith)
  | inr (first, e) ↦ elim (Option-cases (write_parts vs)) [
    | inl e' ↦ absurd (ground arith)
    | inr (others, e') ↦ (first, others, e, e', ground arith)
  ]
]

some_injective : (a b : Bytes) → some a ≡ some b → b ≡ a
some_injective a b h = ground arith

mutual
  unfolding write_value write_parts IsStorable AreStorable weight weight_all part_count read_parts

  read_fueled-write_value :
      (fuel : ℕ) (v : Value) (bytes rest : Bytes)
      → IsStorable v
      → write_value v ≡ some bytes
      → weight v < fuel
      → read_fueled fuel (bytes ++ rest) ≡ some (v, rest)
  read_fueled-write_value zero v bytes rest z h room = ground arith
  read_fueled-write_value (suc fuel) null bytes rest z h room =
      rw (some_injective (write_pod 1 255) bytes h, null_read rest fuel)
  read_fueled-write_value (suc fuel) (int i) bytes rest z h room = rw (
    some_injective (write_pod 1 0 ++ write_pod 8 (bits_of i)) bytes h,
    int_read rest fuel (bits_of i) (bits_bound i),
    int_of-bits_of i z,
  )
  read_fueled-write_value (suc fuel) (double d) bytes rest z h room =
      rw (some_injective (write_pod 1 1 ++ write_pod 8 d) bytes h, double_read rest fuel d z)
  read_fueled-write_value (suc fuel) (string s) bytes rest z h room =
      rw (some_injective (write_pod 1 2 ++ write_string s) bytes h, string_read rest fuel s z)
  read_fueled-write_value (suc fuel) (parameter i) bytes rest z h room = ground arith
  read_fueled-write_value (suc fuel) (composite vs) bytes rest z h room =
      let (parts, e, same) = written_composite vs bytes h in
      rw same (
        composite_read rest fuel vs parts z.0 z.1
          (read_parts-write_parts fuel vs parts rest z.2 e (omega arith)))

  read_parts-write_parts :
      (fuel : ℕ) (vs : Values) (bytes rest : Bytes)
      → AreStorable vs
      → write_parts vs ≡ some bytes
      → weight_all vs < fuel
      → read_parts fuel (part_count vs) (bytes ++ rest) ≡ some (vs, rest)
  read_parts-write_parts zero vs bytes rest z h room = ground arith
  read_parts-write_parts (suc fuel) nil bytes rest z h room = rw (some_injective [] bytes h)
  read_parts-write_parts (suc fuel) (cons v vs) bytes rest z h room =
      let (first, others, e, e', same) = written_cons v vs bytes h in
      rw (
        same,
        append_assoc first others rest,
        read_fueled-write_value fuel v first (others ++ rest) z.0 e (omega arith),
        read_parts-write_parts fuel vs others rest z.1 e' (omega arith),
      )

mutual
  unfolding write_value write_parts weight weight_all

  weight-write_value :
      (v : Value) (bytes : Bytes) → write_value v ≡ some bytes → weight v < length bytes
  weight-write_value null bytes h =
      omega (arith, ap length (some_injective (write_pod 1 255) bytes h), length-write_pod 1 255)
  weight-write_value (int i) bytes h = omega (
    arith,
    ap length (some_injective (write_pod 1 0 ++ write_pod 8 (bits_of i)) bytes h),
    length-append (write_pod 1 0) (write_pod 8 (bits_of i)),
    length-write_pod 1 0,
  )
  weight-write_value (double d) bytes h = omega (
    arith,
    ap length (some_injective (write_pod 1 1 ++ write_pod 8 d) bytes h),
    length-append (write_pod 1 1) (write_pod 8 d),
    length-write_pod 1 1,
  )
  weight-write_value (string s) bytes h = omega (
    arith,
    ap length (some_injective (write_pod 1 2 ++ write_string s) bytes h),
    length-append (write_pod 1 2) (write_string s),
    length-write_pod 1 2,
  )
  weight-write_value (parameter i) bytes h = ground arith
  weight-write_value (composite vs) bytes h =
      let (parts, e, same) = written_composite vs bytes h in
      omega (
        arith,
        ap length same,
        length-append (write_pod 1 254) (write_pod 8 (part_count vs) ++ parts),
        length-append (write_pod 8 (part_count vs)) parts,
        length-write_pod 8 (part_count vs),
        weight-write_parts vs parts e,
      )

  weight-write_parts :
      (vs : Values) (bytes : Bytes) → write_parts vs ≡ some bytes → weight_all vs ≤ length bytes
  weight-write_parts nil bytes h = omega arith
  weight-write_parts (cons v vs) bytes h =
      let (first, others, e, e', same) = written_cons v vs bytes h in
      omega (
        arith,
        ap length same,
        length-append first others,
        weight-write_value v first e,
        weight-write_parts vs others e',
      )

-- A value that was written is read back, composites of any depth included, and what follows it is
-- left, if numbers fit 64 bits, texts are not longer than that, and composites have two parts or more.
pub read_value-write_value :
    (v : Value) (bytes rest : Bytes)
    → IsStorable v
    → write_value v ≡ some bytes
    → read_value (bytes ++ rest) ≡ some (v, rest)
unfolding read_value
read_value-write_value v bytes rest z h =
    read_fueled-write_value (suc (length (bytes ++ rest))) v bytes rest z h
      (omega (arith, length-append bytes rest, weight-write_value v bytes h))
