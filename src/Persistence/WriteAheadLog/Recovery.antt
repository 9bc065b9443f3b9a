-- ===== src/Persistence/WriteAheadLog/Recovery.antt =====
-- Reading back what was appended, with or without a torn record at the end.
use vertex_db.Base.{
  ℕ, zero, suc, ◌<◌, ◌≤◌, ◌^◌, ◌≡◌, ◌≢◌, refl, sym, ◌∙◌, none, some, List, [], ◌∷◌, ◌++◌, arith,
  length, All, append_assoc, append-nil, Option-cases, length-append, inl, inr,
}
use vertex_db.Persistence.Binary.{
  Bytes, write_pod, read_pod, read_bytes, read_pod-write_pod, read_bytes-append, read_pod_more,
  read_bytes_more, length-write_pod,
}
use vertex_db.Persistence.WriteAheadLog.{
  WalRecord, wal_magic, wal_version, encode, encode_all, read_record, read_loop, read_all,
}

-- The fields fit the widths that they are written in.
pub record IsSized (r : WalRecord) : Type 0 where
  pub lsn_sized : r.lsn < 256 ^ 8
  pub operation_sized : r.operation < 256 ^ 1
  pub payload_sized : length r.payload < 256 ^ 8

-- The parts of an encoded record before further bytes.
module _ (r : WalRecord) (rest : Bytes) where
  abbrev after_size : Bytes
  after_size = r.payload ++ rest

  abbrev after_operation : Bytes
  after_operation = write_pod 8 (length r.payload) ++ after_size

  abbrev after_lsn : Bytes
  after_lsn = write_pod 1 r.operation ++ after_operation

  abbrev after_version : Bytes
  after_version = write_pod 8 r.lsn ++ after_lsn

  abbrev after_magic : Bytes
  after_magic = write_pod 4 wal_version ++ after_version

  encode-append : encode r ++ rest ≡ write_pod 4 wal_magic ++ after_magic
  unfolding encode
  encode-append = simp append_assoc

  -- A record that stands whole at the front is read, and what follows it is left.
  pub read_record-encode : IsSized r → read_record (encode r ++ rest) ≡ some (r, rest)
  unfolding read_record
  read_record-encode z = rw (
    encode-append,
    read_pod-write_pod 4 wal_magic after_magic (omega arith),
    read_pod-write_pod 4 wal_version after_version (omega arith),
    read_pod-write_pod 8 r.lsn after_lsn z.lsn_sized,
    read_pod-write_pod 1 r.operation after_operation z.operation_sized,
    read_pod-write_pod 8 (length r.payload) after_size z.payload_sized,
    read_bytes-append r.payload rest,
  )

-- A record that is read from the front of some bytes is read from them with more behind.
read_record_more :
    (input more : Bytes) (q : WalRecord × Bytes)
    → read_record input ≡ some q
    → read_record (input ++ more) ≡ some (q.0, q.1 ++ more)
unfolding read_record
read_record_more input more q h = elim (Option-cases (read_pod 4 input)) [
  | inl e ↦ ground arith
  | inr (magic, e) ↦ elim (Option-cases (read_pod 4 magic.1)) [
    | inl e1 ↦ ground arith
    | inr (version, e1) ↦ elim (Option-cases (read_pod 8 version.1)) [
      | inl e2 ↦ ground arith
      | inr (lsn, e2) ↦ elim (Option-cases (read_pod 1 lsn.1)) [
        | inl e3 ↦ ground arith
        | inr (operation, e3) ↦ elim (Option-cases (read_pod 8 operation.1)) [
          | inl e4 ↦ ground arith
          | inr (size, e4) ↦ elim (Option-cases (read_bytes size.0 size.1)) [
            | inl e5 ↦ ground arith
            | inr (payload, e5) ↦ ground (
              arith,
              read_pod_more 4 input more magic e,
              read_pod_more 4 magic.1 more version e1,
              read_pod_more 8 version.1 more lsn e2,
              read_pod_more 1 lsn.1 more operation e3,
              read_pod_more 8 operation.1 more size e4,
              read_bytes_more size.0 size.1 more payload e5,
            )
          ]
        ]
      ]
    ]
  ]
]

append_is_nil : (xs ys : Bytes) → xs ++ ys ≡ [] → ys ≡ []
append_is_nil [] ys h = h
append_is_nil (x ∷ xs) ys h = ground arith

-- A proper prefix of an encoded record is not read as a record.
pub read_record_torn :
    (r : WalRecord) (torn more : Bytes)
    → IsSized r
    → torn ++ more ≡ encode r
    → more ≢ []
    → read_record torn ≡ none
read_record_torn r torn more z whole h = elim (Option-cases (read_record torn)) [
  | inl e ↦ e
  | inr (q, e) ↦
      let more_read : read_record (torn ++ more) ≡ some (q.0, q.1 ++ more) =
        read_record_more torn more q e in
      let whole_read : read_record (torn ++ more) ≡ some (r, []) =
        rw (whole, sym (append-nil (encode r)), read_record-encode r [] z) in
      let same : some (q.0, q.1 ++ more) ≡ some (r, []) = sym more_read ∙ whole_read in
      let rest : q.1 ++ more ≡ [] = cc in elim (h (append_is_nil q.1 more rest)) [ ]
]

read_loop_lem :
    (fuel : ℕ) (input : Bytes)
    → read_loop (suc fuel) input
      ≡ elim (read_record input) [ none ↦ [] | some r ↦ r.0 ∷ read_loop fuel r.1 ]
unfolding read_loop read_record read_pod
read_loop_lem fuel [] = refl
read_loop_lem fuel (b ∷ input) = refl

pub read_loop-encode_all :
    (fuel : ℕ) (rs : List WalRecord) (torn : Bytes)
    → All IsSized rs
    → length rs < fuel
    → read_record torn ≡ none
    → read_loop fuel (encode_all rs ++ torn) ≡ rs
unfolding encode_all
read_loop-encode_all zero rs torn zs enough broken = ground arith
read_loop-encode_all (suc fuel) [] torn zs enough broken = rw (read_loop_lem, broken)
read_loop-encode_all (suc fuel) (r ∷ rs) torn zs enough broken = rw (
  append_assoc,
  read_loop_lem,
  read_record-encode r (encode_all rs ++ torn) zs.0,
  read_loop-encode_all fuel rs torn zs.1 (omega arith) broken,
)

length-encode : (r : WalRecord) → 0 < length (encode r)
unfolding encode
length-encode r = omega (
  arith,
  length-append (write_pod 4 wal_magic) (
      write_pod 4 wal_version
      ++ (write_pod 8 r.lsn
          ++ (write_pod 1 r.operation ++ (write_pod 8 (length r.payload) ++ r.payload)))),
  length-write_pod 4 wal_magic,
)

length-encode_all : (rs : List WalRecord) → length rs ≤ length (encode_all rs)
unfolding encode_all
length-encode_all [] = omega arith
length-encode_all (r ∷ rs) =
    omega (arith, length-append (encode r) (encode_all rs), length-encode_all rs, length-encode r)

pub read_all-encode_all :
    (rs : List WalRecord) (torn : Bytes)
    → All IsSized rs
    → read_record torn ≡ none
    → read_all (encode_all rs ++ torn) ≡ rs
unfolding read_all
read_all-encode_all rs torn zs broken =
    read_loop-encode_all (suc (length (encode_all rs ++ torn))) rs torn zs
      (omega (arith, length-append (encode_all rs) torn, length-encode_all rs)) broken

-- A log that was cut inside a record is read as the records before that one, each with its number,
-- its operation and its payload, if the fields of all of them fit their widths.
pub read_all_torn :
    (rs : List WalRecord) (r : WalRecord) (torn more : Bytes)
    → All IsSized rs
    → IsSized r
    → torn ++ more ≡ encode r
    → more ≢ []
    → read_all (encode_all rs ++ torn) ≡ rs
read_all_torn rs r torn more zs z whole h =
    read_all-encode_all rs torn zs (read_record_torn r torn more z whole h)
