-- ===== src/Examples/Logs.antt =====
-- Bytes of numbers and of the write-ahead log.
use vertex_db.Base.{◌≡◌, refl, none, some, [], ◌∷◌, ◌++◌, arith, take}
use vertex_db.Persistence.Binary.{Bytes, write_pod, read_pod, read_bytes, number_of}
use vertex_db.Base.Int.{negsuc}
use vertex_db.Common.Value.{Value, null, int, double, string, composite, nil, cons}
use vertex_db.Persistence.ValueCodec.{
  write_value, write_parts, read_value, bits_of, write_string, part_count,
}
use vertex_db.Persistence.ValueCodec.RoundTrip.{IsStorable, AreStorable, read_value-write_value}
use vertex_db.Persistence.WriteAheadLog.{
  WalRecord, Log, wal_magic, encode, encode_all, read_record, read_all, append, take_lsn,
}
use vertex_db.Persistence.WriteAheadLog.Recovery.{IsSized, read_all_torn}
use vertex_db.Persistence.WriteAheadLog.Torn.{appended, read_all-append, read_all-append_torn}

abbrev create_record : WalRecord
create_record = record { lsn = 1; operation = 1; payload = 97 ∷ 98 ∷ [] }

abbrev insert_record : WalRecord
insert_record = record { lsn = 2; operation = 9; payload = 99 ∷ [] }

create_record-IsSized : IsSized create_record
create_record-IsSized = record {
  lsn_sized = omega arith;
  operation_sized = omega arith;
  payload_sized = omega arith;
}

insert_record-IsSized : IsSized insert_record
insert_record-IsSized = record {
  lsn_sized = omega arith;
  operation_sized = omega arith;
  payload_sized = omega arith;
}

-- The second record was cut off in its payload.
abbrev torn : Bytes
torn = take 25 (encode insert_record)

abbrev lost : Bytes
lost = 99 ∷ []

torn_whole : torn ++ lost ≡ encode insert_record
unfolding encode write_pod
torn_whole = refl

read_all_torn_example : read_all (encode_all (create_record ∷ []) ++ torn) ≡ create_record ∷ []
read_all_torn_example =
    read_all_torn (create_record ∷ []) insert_record torn lost (create_record-IsSized, tt)
      insert_record-IsSized torn_whole (λ e. ground arith)

torn_unread : read_record torn ≡ none
unfolding read_record read_pod read_bytes number_of encode write_pod
torn_unread = refl

abbrev torn_log : Log
torn_log = record { file = encode_all (create_record ∷ []) ++ torn; next_lsn = none }

-- A log that is open, with one record on it
abbrev open_log : Log
open_log = record { file = encode_all (create_record ∷ []); next_lsn = some 2 }

next-IsSized : IsSized (appended open_log 9 (99 ∷ []))
unfolding take_lsn
next-IsSized = record {
  lsn_sized = omega arith;
  operation_sized = omega arith;
  payload_sized = omega arith;
}

read_all-append_example :
    read_all (append open_log 9 (99 ∷ [])).1.file
    ≡ create_record ∷ appended open_log 9 (99 ∷ []) ∷ []
read_all-append_example =
    read_all-append open_log (create_record ∷ []) 9 (99 ∷ []) refl (create_record-IsSized, tt)
      next-IsSized

-- The same log after a crash two bytes into its second record
abbrev crashed_log : Log
crashed_log = record {
  file = encode_all (create_record ∷ []) ++ take 2 (write_pod 4 wal_magic);
  next_lsn = none;
}

read_all-append_torn_example : read_all (append crashed_log 9 (99 ∷ [])).1.file ≡ create_record ∷ []
read_all-append_torn_example =
    read_all-append_torn crashed_log (create_record ∷ []) 2 9 (99 ∷ []) refl
      (create_record-IsSized, tt) (omega arith) (omega arith)

abbrev inner_key : Value
inner_key = composite (cons null (cons (double 0) nil))

-- A composite key of a number below zero, a text and a composite
abbrev key : Value
key = composite (cons (int (negsuc 4)) (cons (string (97 ∷ [])) (cons inner_key nil)))

abbrev key_bytes : Bytes
key_bytes =
    254 ∷ 3 ∷ 0 ∷ 0 ∷ 0 ∷ 0 ∷ 0 ∷ 0 ∷ 0 ∷ 0 ∷ 251 ∷ 255 ∷ 255 ∷ 255 ∷ 255 ∷ 255 ∷ 255 ∷ 255 ∷ 2 ∷ 1
    ∷ 0 ∷ 0 ∷ 0 ∷ 0 ∷ 0 ∷ 0 ∷ 0 ∷ 97 ∷ 254 ∷ 2 ∷ 0 ∷ 0 ∷ 0 ∷ 0 ∷ 0 ∷ 0 ∷ 0 ∷ 255 ∷ 1 ∷ 0 ∷ 0 ∷ 0 ∷ 0
    ∷ 0 ∷ 0 ∷ 0 ∷ 0 ∷ []

key_written : write_value key ≡ some key_bytes
unfolding write_value write_parts write_pod bits_of write_string part_count
key_written = refl

key-IsStorable : IsStorable key
unfolding IsStorable AreStorable part_count
key-IsStorable = omega arith

read_value-write_value_example : read_value (key_bytes ++ 7 ∷ []) ≡ some (key, 7 ∷ [])
read_value-write_value_example =
    read_value-write_value key key_bytes (7 ∷ []) key-IsStorable key_written
