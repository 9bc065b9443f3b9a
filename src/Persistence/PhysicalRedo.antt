-- ===== src/Persistence/PhysicalRedo.antt =====
-- persistence/physical_redo.cpp: the batches of row images in the log. A payload that cannot be read
-- makes the reader throw, with the error that stands for its text; a batch that cannot be written
-- makes the writer throw, which is `none`. That memory runs out for a count is not modelled.
pub mod RoundTrip
pub mod Torn
use vertex_db.Base.{
  ℕ, zero, suc, ◌+◌, Bool, Option, none, some, List, [], ◌∷◌, ◌++◌, ◌==◌, if◌then◌else◌, length,
  Text,
}
use vertex_db.Common.Value.{Value, null, int, double, string, parameter, composite, Row}
use vertex_db.Persistence.Binary.{Bytes, write_pod, read_pod, read_bytes}
use vertex_db.Persistence.ValueCodec.{bits_of, int_of}

-- enum class PhysicalRedoKind
pub data PhysicalRedoKind : Type 0 where
  upsert erase : PhysicalRedoKind

abbrev pub kind_code : PhysicalRedoKind → ℕ
kind_code upsert = 0
kind_code erase = 1

-- struct PhysicalRedoRecord
pub record PhysicalRedoRecord : Type 0 where
  pub kind : PhysicalRedoKind
  pub table_name : Text
  pub row_id : ℕ
  pub row : Row

-- The texts of the errors that the reader throws
pub data RedoError : Type 0 where
  truncated unsupported_value_type unknown_kind empty_batch trailing_bytes : RedoError

pub data Result {ℓ} (A : Type ℓ) : Type ℓ where
  ok : A → Result A
  error : RedoError → Result A

infixl 5 ◌>>=◌
abbrev pub ◌>>=◌ {ℓ κ} : {A : Type ℓ} {B : Type κ} → Result A → (A → Result B) → Result B
ok a >>= f = f a
error e >>= f = error e

-- readPod on a span, with the text for a span that is too short
abbrev pub or_truncated {ℓ} : {A : Type ℓ} → Option A → Result A
or_truncated none = error truncated
or_truncated (some a) = ok a

-- appendString
unfoldable pub append_string : Text → Bytes
append_string value = write_pod 8 (length value) ++ value

-- appendValue; Value::type throws for a parameter slot and a composite.
unfoldable pub append_value : Value → Option Bytes
unfolding append_string
append_value null = some (write_pod 1 255)
append_value (int i) = some (write_pod 1 0 ++ write_pod 8 (bits_of i))
append_value (double d) = some (write_pod 1 1 ++ write_pod 8 d)
append_value (string s) = some (write_pod 1 2 ++ append_string s)
append_value (parameter i) = none
append_value (composite vs) = none

unfoldable pub append_values : Row → Option Bytes
unfolding append_value
append_values [] = some []
append_values (v ∷ row) = elim (append_value v) [
  | none ↦ none
  | some first ↦ elim (append_values row) [ none ↦ none | some others ↦ some (first ++ others) ]
]

-- appendRecord
unfoldable pub append_record : PhysicalRedoRecord → Option Bytes
unfolding append_values append_string
append_record r =
    let head =
      write_pod 1 (kind_code r.kind) ++ (append_string r.table_name ++ write_pod 8 r.row_id) in
    elim r.kind [
      | erase ↦ some head
      | upsert ↦ elim (append_values r.row) [
        | none ↦ none
        | some values ↦ some (head ++ (write_pod 8 (length r.row) ++ values))
      ]
    ]

unfoldable pub append_records : List PhysicalRedoRecord → Option Bytes
unfolding append_record
append_records [] = some []
append_records (r ∷ rs) = elim (append_record r) [
  | none ↦ none
  | some first ↦ elim (append_records rs) [ none ↦ none | some others ↦ some (first ++ others) ]
]

-- encodePhysicalRedos, which throws for no records
unfoldable pub encode_physical_redos : List PhysicalRedoRecord → Option Bytes
unfolding append_records
encode_physical_redos [] = none
encode_physical_redos (r ∷ rs) = elim (append_records (r ∷ rs)) [
  | none ↦ none
  | some bytes ↦ some (write_pod 8 (length (r ∷ rs)) ++ bytes)
]

-- readString
unfoldable pub read_string : Bytes → Result (Text × Bytes)
read_string bytes = do
  size ← or_truncated (read_pod 8 bytes)
  or_truncated (read_bytes size.0 size.1)

-- readValue
unfoldable pub read_value : Bytes → Result (Value × Bytes)
unfolding read_string
read_value bytes = do
  kind ← or_truncated (read_pod 1 bytes)
  if kind.0 == 255
      then ok (null, kind.1)
      else if kind.0 == 0
      then (do bits ← or_truncated (read_pod 8 kind.1); ok (int (int_of bits.0), bits.1))
      else if kind.0 == 1
      then (do bits ← or_truncated (read_pod 8 kind.1); ok (double bits.0, bits.1))
      else if kind.0 == 2
      then (do s ← read_string kind.1; ok (string s.0, s.1))
      else error unsupported_value_type

-- The loop of readRecord over the columns
unfoldable pub read_values : ℕ → Bytes → Result (Row × Bytes)
unfolding read_value
read_values zero bytes = ok ([], bytes)
read_values (suc n) bytes = do
  v ← read_value bytes
  row ← read_values n v.1
  ok (v.0 ∷ row.0, row.1)

-- readRecord
unfoldable pub read_record : Bytes → Result (PhysicalRedoRecord × Bytes)
unfolding read_values read_string
read_record bytes = do
  kind ← or_truncated (read_pod 1 bytes)
  name ← read_string kind.1
  row_id ← or_truncated (read_pod 8 name.1)
  if kind.0 == 0
      then (do
        count ← or_truncated (read_pod 8 row_id.1)
        row ← read_values count.0 count.1
        ok (record { kind = upsert; table_name = name.0; row_id = row_id.0; row = row.0 }, row.1))
      else if kind.0 == 1
      then ok (record { kind = erase; table_name = name.0; row_id = row_id.0; row = [] }, row_id.1)
      else error unknown_kind

-- The loop of decodePhysicalRedos over the records
unfoldable pub read_records : ℕ → Bytes → Result (List PhysicalRedoRecord × Bytes)
unfolding read_record
read_records zero bytes = ok ([], bytes)
read_records (suc n) bytes = do
  r ← read_record bytes
  rs ← read_records n r.1
  ok (r.0 ∷ rs.0, rs.1)

-- decodePhysicalRedos up to its test for trailing bytes
unfoldable pub read_batch : Bytes → Result (List PhysicalRedoRecord × Bytes)
unfolding read_records
read_batch payload = do
  count ← or_truncated (read_pod 8 payload)
  if count.0 == 0 then error empty_batch else read_records count.0 count.1

abbrev pub no_trailing : List PhysicalRedoRecord × Bytes → Result (List PhysicalRedoRecord)
no_trailing (records, []) = ok records
no_trailing (records, b ∷ rest) = error trailing_bytes

-- decodePhysicalRedos
unfoldable pub decode_physical_redos : Bytes → Result (List PhysicalRedoRecord)
unfolding read_batch
decode_physical_redos payload = do r ← read_batch payload; no_trailing r
