-- ===== src/Examples/Redos.antt =====
-- A batch of row images for the log.
use vertex_db.Base.{ℕ, ◌≡◌, refl, some, List, [], ◌∷◌, ◌++◌, arith, All}
use vertex_db.Base.Int.{negsuc}
use vertex_db.Common.Value.{null, int}
use vertex_db.Persistence.Binary.{Bytes, write_pod}
use vertex_db.Persistence.ValueCodec.{bits_of}
use vertex_db.Persistence.ValueCodec.RoundTrip.{IsStorable}
use vertex_db.Persistence.PhysicalRedo.{
  upsert, erase, PhysicalRedoRecord, ok, error, truncated, trailing_bytes, encode_physical_redos,
  append_records, append_record, append_values, append_value, append_string, decode_physical_redos,
}
use vertex_db.Persistence.PhysicalRedo.RoundTrip.{
  IsWritable, decode_physical_redos-encode_physical_redos,
}
use vertex_db.Persistence.PhysicalRedo.Torn.{decode_physical_redos_torn}

-- A row of table `t` is written, another one is erased.
abbrev batch : List PhysicalRedoRecord
batch =
    (record { kind = upsert; table_name = 116 ∷ []; row_id = 3; row = int (negsuc 0) ∷ null ∷ [] })
    ∷ (record { kind = erase; table_name = 116 ∷ []; row_id = 2; row = [] })
    ∷ []

abbrev batch_start : Bytes
batch_start =
    2 ∷ 0 ∷ 0 ∷ 0 ∷ 0 ∷ 0 ∷ 0 ∷ 0 ∷ 0 ∷ 1 ∷ 0 ∷ 0 ∷ 0 ∷ 0 ∷ 0 ∷ 0 ∷ 0 ∷ 116 ∷ 3 ∷ 0 ∷ 0 ∷ 0 ∷ 0 ∷ 0
    ∷ 0 ∷ 0 ∷ 2 ∷ 0 ∷ 0 ∷ 0 ∷ 0 ∷ 0 ∷ 0 ∷ 0 ∷ 0 ∷ 255 ∷ 255 ∷ 255 ∷ 255 ∷ 255 ∷ 255 ∷ 255 ∷ 255
    ∷ 255 ∷ []

abbrev batch_rest : Bytes
batch_rest = 1 ∷ 0 ∷ 0 ∷ 0 ∷ 0 ∷ 0 ∷ 0 ∷ 0 ∷ 116 ∷ 2 ∷ 0 ∷ 0 ∷ 0 ∷ 0 ∷ 0 ∷ 0 ∷ 0 ∷ []

batch_written : encode_physical_redos batch ≡ some (batch_start ++ 1 ∷ batch_rest)
unfolding encode_physical_redos append_records append_record append_values append_value
    append_string write_pod bits_of
batch_written = refl

batch-IsWritable : All IsWritable batch
unfolding IsStorable
batch-IsWritable = (
  record {
    name_fits = omega arith;
    row_id_fits = omega arith;
    row_fits = omega arith;
    stored = (omega arith, (tt, tt));
    erased = λ h. absurd (ground (arith, h));
  },
  (
    record {
      name_fits = omega arith;
      row_id_fits = omega arith;
      row_fits = omega arith;
      stored = tt;
      erased = λ h. refl;
    },
    tt,
  ),
)

decode_physical_redos-encode_physical_redos_example :
    (decode_physical_redos (batch_start ++ 1 ∷ batch_rest) ≡ ok batch)
    × ((b : ℕ) (more : Bytes)
        → decode_physical_redos ((batch_start ++ 1 ∷ batch_rest) ++ b ∷ more)
          ≡ error trailing_bytes)
decode_physical_redos-encode_physical_redos_example =
    decode_physical_redos-encode_physical_redos batch (batch_start ++ 1 ∷ batch_rest)
      batch-IsWritable (omega arith) batch_written

decode_physical_redos_torn_example : decode_physical_redos batch_start ≡ error truncated
decode_physical_redos_torn_example =
    decode_physical_redos_torn batch batch_start 1 batch_rest batch-IsWritable (omega arith)
      batch_written
