-- ===== src/Persistence/PhysicalRedo/RoundTrip.antt =====
-- What is encoded of a batch of row images is decoded.
use vertex_db.Base.{
  ℕ, ◌<◌, ◌^◌, ◌≡◌, refl, ap, ◌∙◌, Option, none, some, List, [], ◌∷◌, ◌++◌, length, Text, arith,
  append_assoc, append-nil, All, false, ◌==◌,
}
use vertex_db.Common.Value.{Value, null, int, double, string, parameter, composite, Row}
use vertex_db.Persistence.Binary.{Bytes, write_pod, read_pod, read_pod-write_pod, read_bytes-append}
use vertex_db.Persistence.ValueCodec.{bits_of}
use vertex_db.Persistence.ValueCodec.RoundTrip.{IsStorable, int_of-bits_of, bits_bound}
use vertex_db.Persistence.PhysicalRedo.{
  PhysicalRedoKind, upsert, erase, PhysicalRedoRecord, ok, error, trailing_bytes, append_string,
  append_value, append_values, append_record, append_records, encode_physical_redos, read_string,
  read_value, read_values, read_record, read_records, read_batch, decode_physical_redos,
}

some_injective {ℓ} : {A : Type ℓ} (a b : A) → some a ≡ some b → b ≡ a
some_injective a b h = ground arith

pod_read :
    (width n : ℕ) (body rest : Bytes)
    → n < 256 ^ width
    → read_pod width ((write_pod width n ++ body) ++ rest) ≡ some (n, body ++ rest)
pod_read width n body rest h =
    rw (append_assoc (write_pod width n) body rest) (read_pod-write_pod width n (body ++ rest) h)

read_string-append_string :
    (s : Text) (rest : Bytes)
    → length s < 256 ^ 8
    → read_string (append_string s ++ rest) ≡ ok (s, rest)
unfolding read_string append_string
read_string-append_string s rest h =
    rw (pod_read 8 (length s) s rest h) (rw (read_bytes-append s rest) refl)

read_value-append_value :
    (v : Value) (bytes rest : Bytes)
    → IsStorable v
    → append_value v ≡ some bytes
    → read_value (bytes ++ rest) ≡ ok (v, rest)
unfolding append_value read_value IsStorable
read_value-append_value null bytes rest s h =
    rw (some_injective _ bytes h) (rw (read_pod-write_pod 1 255 rest (omega arith)) refl)
read_value-append_value (int i) bytes rest s h = rw (some_injective _ bytes h) (
    rw (pod_read 1 0 (write_pod 8 (bits_of i)) rest (omega arith)) (
      rw (read_pod-write_pod 8 (bits_of i) rest (bits_bound i))
        (ap (λ j. ok (int j, rest)) (int_of-bits_of i s))))
read_value-append_value (double d) bytes rest s h =
    rw (some_injective _ bytes h) (
      rw (pod_read 1 1 (write_pod 8 d) rest (omega arith))
        (rw (read_pod-write_pod 8 d rest s) refl))
read_value-append_value (string t) bytes rest s h = rw (some_injective _ bytes h) (
    rw (pod_read 1 2 (append_string t) rest (omega arith))
      (rw (read_string-append_string t rest s) refl))
read_value-append_value (parameter i) bytes rest s h = cc
read_value-append_value (composite vs) bytes rest s h = cc

-- A sequence of two writers that ends has written the one after the other.
both_written :
    (a b : Option Bytes) (bytes : Bytes)
    → (elim a [
      | none ↦ none
      | some first ↦ elim b [ none ↦ none | some others ↦ some (first ++ others) ]
    ])
      ≡ some bytes
    → (first : Bytes) × (others : Bytes) × (a ≡ some first)
      × (b ≡ some others)
      × (bytes ≡ first ++ others)
both_written none b bytes h = absurd (ground arith)
both_written (some x) none bytes h = absurd (ground arith)
both_written (some x) (some y) bytes h = (x, y, refl, refl, some_injective _ bytes h)

read_values-append_values :
    (row : Row) (bytes rest : Bytes)
    → All IsStorable row
    → append_values row ≡ some bytes
    → read_values (length row) (bytes ++ rest) ≡ ok (row, rest)
unfolding append_values read_values
read_values-append_values [] bytes rest s h = rw (some_injective _ bytes h) refl
read_values-append_values (v ∷ row) bytes rest s h =
    let (first, others, a, b, e) = both_written (append_value v) (append_values row) bytes h in
    rw e (
      rw (append_assoc first others rest) (
        rw (read_value-append_value v first (others ++ rest) s.0 a)
          (rw (read_values-append_values row others rest s.1 b) refl)))

-- Sizes and the row identifier fit 64 bits, the values can be stored, and an erased row is empty.
pub record IsWritable (r : PhysicalRedoRecord) : Type 0 where
  pub name_fits : length r.table_name < 256 ^ 8
  pub row_id_fits : r.row_id < 256 ^ 8
  pub row_fits : length r.row < 256 ^ 8
  pub stored : All IsStorable r.row
  pub erased : r.kind ≡ erase → r.row ≡ []

-- The bytes in front of the columns
abbrev head_of : ℕ → Text → ℕ → Bytes
head_of kind name row_id = write_pod 1 kind ++ (append_string name ++ write_pod 8 row_id)

head_assoc :
    (kind : ℕ) (name : Text) (row_id : ℕ) (rest : Bytes)
    → head_of kind name row_id ++ rest
      ≡ write_pod 1 kind ++ (append_string name ++ (write_pod 8 row_id ++ rest))
head_assoc kind name row_id rest =
    append_assoc (write_pod 1 kind) (append_string name ++ write_pod 8 row_id) rest
    ∙ ap (λ b. write_pod 1 kind ++ b) (append_assoc (append_string name) (write_pod 8 row_id) rest)

read_erase :
    (name : Text) (row_id : ℕ) (rest : Bytes)
    → length name < 256 ^ 8
    → row_id < 256 ^ 8
    → read_record (head_of 1 name row_id ++ rest)
      ≡ ok (record { kind = erase; table_name = name; row_id = row_id; row = [] }, rest)
unfolding read_record
read_erase name row_id rest n i = rw (head_assoc 1 name row_id rest) (
    rw (read_pod-write_pod 1 1 (append_string name ++ (write_pod 8 row_id ++ rest)) (omega arith)) (
      rw (read_string-append_string name (write_pod 8 row_id ++ rest) n)
        (rw (read_pod-write_pod 8 row_id rest i) refl)))

read_upsert :
    (name : Text) (row_id : ℕ) (row : Row) (values rest : Bytes)
    → length name < 256 ^ 8
    → row_id < 256 ^ 8
    → length row < 256 ^ 8
    → read_values (length row) (values ++ rest) ≡ ok (row, rest)
    → read_record ((head_of 0 name row_id ++ (write_pod 8 (length row) ++ values)) ++ rest)
      ≡ ok (record { kind = upsert; table_name = name; row_id = row_id; row = row }, rest)
unfolding read_record
read_upsert name row_id row values rest n i l v =
    let body = write_pod 8 (length row) ++ values in
    rw (append_assoc (head_of 0 name row_id) body rest) (
      rw (head_assoc 0 name row_id (body ++ rest)) (
        rw
          (read_pod-write_pod 1 0 (append_string name ++ (write_pod 8 row_id ++ (body ++ rest)))
            (omega arith))
          (rw (read_string-append_string name (write_pod 8 row_id ++ (body ++ rest)) n) (
            rw (read_pod-write_pod 8 row_id (body ++ rest) i)
              (rw (pod_read 8 (length row) values rest l) (rw v refl))))))

body_written :
    (head body : Bytes) (a : Option Bytes) (bytes : Bytes)
    → (elim a [ none ↦ none | some values ↦ some (head ++ (body ++ values)) ]) ≡ some bytes
    → (values : Bytes) × (a ≡ some values) × (bytes ≡ head ++ (body ++ values))
body_written head body none bytes h = absurd (ground arith)
body_written head body (some x) bytes h = (x, refl, some_injective _ bytes h)

read_kind :
    (kind : PhysicalRedoKind) (name : Text) (row_id : ℕ) (row : Row) (bytes rest : Bytes)
    → IsWritable (record { kind = kind; table_name = name; row_id = row_id; row = row })
    → append_record (record { kind = kind; table_name = name; row_id = row_id; row = row })
      ≡ some bytes
    → read_record (bytes ++ rest)
      ≡ ok (record { kind = kind; table_name = name; row_id = row_id; row = row }, rest)
unfolding append_record
read_kind erase name row_id row bytes rest w h =
    rw (some_injective _ bytes h)
      (rw (w.erased refl) (read_erase name row_id rest w.name_fits w.row_id_fits))
read_kind upsert name row_id row bytes rest w h =
    let (values, a, e) =
      body_written (head_of 0 name row_id) (write_pod 8 (length row)) (append_values row) bytes h in
    rw e (
      read_upsert name row_id row values rest w.name_fits w.row_id_fits w.row_fits
        (read_values-append_values row values rest w.stored a))

read_record-append_record :
    (r : PhysicalRedoRecord) (bytes rest : Bytes)
    → IsWritable r
    → append_record r ≡ some bytes
    → read_record (bytes ++ rest) ≡ ok (r, rest)
read_record-append_record r bytes rest w h =
    read_kind r.kind r.table_name r.row_id r.row bytes rest w h

read_records-append_records :
    (rs : List PhysicalRedoRecord) (bytes rest : Bytes)
    → All IsWritable rs
    → append_records rs ≡ some bytes
    → read_records (length rs) (bytes ++ rest) ≡ ok (rs, rest)
unfolding append_records read_records
read_records-append_records [] bytes rest w h = rw (some_injective _ bytes h) refl
read_records-append_records (r ∷ rs) bytes rest w h =
    let (first, others, a, b, e) = both_written (append_record r) (append_records rs) bytes h in
    rw e (
      rw (append_assoc first others rest) (
        rw (read_record-append_record r first (others ++ rest) w.0 a)
          (rw (read_records-append_records rs others rest w.1 b) refl)))

pod_written :
    (count : Bytes) (a : Option Bytes) (bytes : Bytes)
    → (elim a [ none ↦ none | some body ↦ some (count ++ body) ]) ≡ some bytes
    → (body : Bytes) × (a ≡ some body) × (bytes ≡ count ++ body)
pod_written count none bytes h = absurd (ground arith)
pod_written count (some x) bytes h = (x, refl, some_injective _ bytes h)

pub read_batch-encode_physical_redos :
    (rs : List PhysicalRedoRecord) (bytes rest : Bytes)
    → All IsWritable rs
    → length rs < 256 ^ 8
    → encode_physical_redos rs ≡ some bytes
    → read_batch (bytes ++ rest) ≡ ok (rs, rest)
unfolding encode_physical_redos read_batch
read_batch-encode_physical_redos [] bytes rest w l h = absurd (ground arith)
read_batch-encode_physical_redos (r ∷ rs) bytes rest w l h =
    let n = length (r ∷ rs) in
    let (body, a, e) = pod_written (write_pod 8 n) (append_records (r ∷ rs)) bytes h in
    let some_count : (n == 0) ≡ false = ground arith in
    rw e (
      rw (pod_read 8 n body rest l)
        (rw some_count (read_records-append_records (r ∷ rs) body rest w a)))

-- What encodePhysicalRedos writes of a batch, of rows without composites and parameter slots since
-- it throws for them, is decoded to the same batch; with more bytes behind it the decoder throws.
pub decode_physical_redos-encode_physical_redos :
    (rs : List PhysicalRedoRecord) (bytes : Bytes)
    → All IsWritable rs
    → length rs < 256 ^ 8
    → encode_physical_redos rs ≡ some bytes
    → (decode_physical_redos bytes ≡ ok rs)
      × ((b : ℕ) (more : Bytes) → decode_physical_redos (bytes ++ b ∷ more) ≡ error trailing_bytes)
unfolding decode_physical_redos
decode_physical_redos-encode_physical_redos rs bytes w l h = (
  rw (← append-nil bytes) (rw (read_batch-encode_physical_redos rs bytes [] w l h) refl),
  λ b more. rw (read_batch-encode_physical_redos rs bytes (b ∷ more) w l h) refl,
)
