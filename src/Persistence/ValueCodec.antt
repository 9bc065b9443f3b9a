-- ===== src/Persistence/ValueCodec.antt =====
-- persistence/tcrdb_value_codec.cpp and the constants of tcrdb_detail.hpp: values in a database file.
-- A value that cannot be written makes the writer throw, which is `none`; what it had put into the
-- stream by then is not kept.
pub mod RoundTrip
use vertex_db.Base.{
  ℕ, zero, suc, ◌+◌, ◌-◌, ◌%◌, Bool, Option, none, some, List, [], ◌∷◌, ◌++◌, ◌==◌, ltb,
  if◌then◌else◌, length, Text,
}
use vertex_db.Base.Int.{ℤ, pos, negsuc}
use vertex_db.Common.Value.{
  Value, Values, null, int, double, string, parameter, composite, nil, cons, make_composite, Row,
}
use vertex_db.Persistence.Binary.{Bytes, write_pod, read_pod, read_bytes, ◌>>=◌}

abbrev pub null_value_type : ℕ
null_value_type = 255

abbrev pub composite_value_type : ℕ
composite_value_type = 254

-- An int64_t in two's complement
unfoldable pub bits_of : ℤ → ℕ
bits_of (pos n) = n % 18446744073709551616
bits_of (negsuc n) = 18446744073709551615 - n % 18446744073709551616

unfoldable pub int_of : ℕ → ℤ
int_of bits =
    if ltb bits 9223372036854775808 then pos bits else negsuc (18446744073709551615 - bits)

unfoldable pub write_string : Text → Bytes
write_string value = write_pod 8 (length value) ++ value

unfoldable pub read_string : Bytes → Option (Text × Bytes)
read_string input = do size ← read_pod 8 input; read_bytes size.0 size.1

unfoldable pub part_count : Values → ℕ
part_count nil = 0
part_count (cons v vs) = suc (part_count vs)

-- writeValue, and its loop over the parts of a composite
unfoldable mutual
  pub write_value : Value → Option Bytes
  write_value null = some (write_pod 1 null_value_type)
  write_value (int i) = some (write_pod 1 0 ++ write_pod 8 (bits_of i))
  write_value (double d) = some (write_pod 1 1 ++ write_pod 8 d)
  write_value (string s) = some (write_pod 1 2 ++ write_string s)
  write_value (parameter i) = none
  write_value (composite vs) = do
    parts ← write_parts vs
    some (write_pod 1 composite_value_type ++ (write_pod 8 (part_count vs) ++ parts))

  pub write_parts : Values → Option Bytes
  write_parts nil = some []
  write_parts (cons v vs) = do
    first ← write_value v
    others ← write_parts vs
    some (first ++ others)

-- readValue and its loop over the parts of a composite, on fuel for the depth of the calls.
unfoldable mutual
  pub read_fueled : ℕ → Bytes → Option (Value × Bytes)
  read_fueled zero input = none
  read_fueled (suc fuel) input = do
    kind ← read_pod 1 input
    if kind.0 == null_value_type
        then some (null, kind.1)
        else if kind.0 == composite_value_type
        then (do
          count ← read_pod 8 kind.1
          parts ← read_parts fuel count.0 count.1
          v ← make_composite parts.0
          some (v, parts.1))
        else if kind.0 == 0
        then (do bits ← read_pod 8 kind.1; some (int (int_of bits.0), bits.1))
        else if kind.0 == 1
        then (do bits ← read_pod 8 kind.1; some (double bits.0, bits.1))
        else if kind.0 == 2
        then (do s ← read_string kind.1; some (string s.0, s.1))
        else none

  pub read_parts : ℕ → ℕ → Bytes → Option (Values × Bytes)
  read_parts zero n input = none
  read_parts (suc fuel) zero input = some (nil, input)
  read_parts (suc fuel) (suc n) input = do
    first ← read_fueled fuel input
    others ← read_parts fuel n first.1
    some (cons first.0 others.0, others.1)

-- readValue: a call further down has fewer bytes left, so the number of bytes is fuel enough.
unfoldable pub read_value : Bytes → Option (Value × Bytes)
read_value input = read_fueled (suc (length input)) input

-- readRow
unfoldable pub read_row : ℕ → Bytes → Option (Row × Bytes)
unfolding read_value
read_row zero input = some ([], input)
read_row (suc n) input = do
  first ← read_value input
  others ← read_row n first.1
  some (first.0 ∷ others.0, others.1)
