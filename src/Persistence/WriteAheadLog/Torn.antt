-- ===== src/Persistence/WriteAheadLog/Torn.antt =====
-- Numbers for appended records, and what an append behind a torn record comes to.
use Prim.Native.Nat.{max}
use vertex_db.Base.{
  ℕ, zero, suc, ◌+◌, ◌<◌, ◌≤◌, ◌%◌, ◌≡◌, refl, ap, ◌∙◌, Option, none, some, List, [], ◌∷◌, ◌++◌,
  arith, All, append_assoc, append-nil, take,
}
use vertex_db.Persistence.Binary.{Bytes, write_pod, read_pod}
use vertex_db.Persistence.WriteAheadLog.{
  WalRecord, Log, wal_magic, encode, encode_all, read_record, read_all, append, take_lsn, max_lsn,
}
use vertex_db.Persistence.WriteAheadLog.Recovery.{IsSized, read_all-encode_all}

encode_all-append :
    (rs qs : List WalRecord) → encode_all (rs ++ qs) ≡ encode_all rs ++ encode_all qs
unfolding encode_all
encode_all-append [] qs = refl
encode_all-append (r ∷ rs) qs = rw (encode_all-append rs qs, append_assoc)

max_lsn_above :
    (n : ℕ) (rs : List WalRecord)
    → All (λ r. r.lsn + 1 < 18446744073709551616) rs
    → All (λ r. r.lsn < max_lsn n rs) rs × n ≤ max_lsn n rs
unfolding max_lsn
max_lsn_above n [] h = (tt, omega arith)
max_lsn_above n (r ∷ rs) h =
    let next = max n ((r.lsn + 1) % 18446744073709551616) in
    let rest : All (λ q. q.lsn < max_lsn next rs) rs × next ≤ max_lsn next rs =
      max_lsn_above next rs h.1 in
    let above : r.lsn < max_lsn next rs = omega (arith, rest.1, h.0) in
    ((above, rest.0), omega (arith, rest.1))

-- The number that a log opened on whole records, with or without a torn end behind them, takes
-- first is above the number of each record, if the fields fit their widths and no number is the
-- last one of 64 bits.
pub take_lsn_fresh :
    (rs : List WalRecord) (torn : Bytes)
    → All IsSized rs
    → All (λ r. r.lsn + 1 < 18446744073709551616) rs
    → read_record torn ≡ none
    → All (λ r. r.lsn < (take_lsn (record { file = encode_all rs ++ torn; next_lsn = none })).0) rs
unfolding take_lsn
take_lsn_fresh rs torn zs hs broken =
    rw (read_all-encode_all rs torn zs broken) (max_lsn_above 1 rs hs).0

-- The record that `append` writes.
abbrev pub appended : Log → ℕ → Bytes → WalRecord
appended w operation payload = record {
  lsn = (take_lsn w).0;
  operation = operation;
  payload = payload;
}

file-take_lsn :
    (file : Bytes) (next : Option ℕ)
    → (take_lsn (record { file = file; next_lsn = next })).1.file ≡ file
unfolding take_lsn
file-take_lsn file none = refl
file-take_lsn file (some n) = refl

file-append :
    (w : Log) (operation : ℕ) (payload : Bytes)
    → (append w operation payload).1.file ≡ w.file ++ encode (appended w operation payload)
unfolding append
file-append w operation payload =
    ap (λ f. f ++ encode (appended w operation payload)) (file-take_lsn w.file w.next_lsn)

encode_all_last :
    (rs : List WalRecord) (r : WalRecord)
    → encode_all rs ++ encode r ≡ encode_all (rs ++ (r ∷ [])) ++ []
encode_all_last rs r = rw (encode_all-append, append-nil) (unfold encode_all in rw append-nil)

All-last :
    (rs : List WalRecord) (r : WalRecord)
    → All IsSized rs
    → IsSized r
    → All IsSized (rs ++ (r ∷ []))
All-last [] r zs z = (z, tt)
All-last (q ∷ rs) r zs z = (zs.0, All-last rs r zs.1 z)

-- On a file of whole records, the number that was taken, the operation and the payload of an
-- appended record are read back behind the records that the file held, if the fields fit their
-- widths.
pub read_all-append :
    (w : Log) (rs : List WalRecord) (operation : ℕ) (payload : Bytes)
    → w.file ≡ encode_all rs
    → All IsSized rs
    → IsSized (appended w operation payload)
    → read_all (append w operation payload).1.file ≡ rs ++ (appended w operation payload ∷ [])
read_all-append w rs operation payload held zs z =
    let last = appended w operation payload in
    let file : (append w operation payload).1.file ≡ encode_all (rs ++ (last ∷ [])) ++ [] =
      file-append w operation payload ∙ ap (λ f. f ++ encode last) held ∙ encode_all_last rs last in
    rw (
      file,
      read_all-encode_all (rs ++ (last ∷ [])) [] (All-last rs last zs z)
          (unfold read_record read_pod in refl),
    )

torn_unread :
    (k : ℕ) (r : WalRecord)
    → 0 < k
    → k < 4
    → read_record (take k (write_pod 4 wal_magic) ++ encode r) ≡ none
unfolding read_record read_pod encode write_pod
torn_unread zero r h0 h1 = ground arith
torn_unread (suc zero) r h0 h1 = refl
torn_unread (suc (suc zero)) r h0 h1 = refl
torn_unread (suc (suc (suc zero))) r h0 h1 = refl
torn_unread (suc (suc (suc (suc k)))) r h0 h1 = ground arith

-- A file of whole records that ends in the first bytes, one to three, of a record's magic number
-- hides a record that is appended behind them: the reader stops where they stand.
pub read_all-append_torn :
    (w : Log) (rs : List WalRecord) (k operation : ℕ) (payload : Bytes)
    → w.file ≡ encode_all rs ++ take k (write_pod 4 wal_magic)
    → All IsSized rs
    → 0 < k
    → k < 4
    → read_all (append w operation payload).1.file ≡ rs
read_all-append_torn w rs k operation payload held zs h0 h1 =
    let last = appended w operation payload in
    let file : (append w operation payload).1.file
        ≡ encode_all rs ++ (take k (write_pod 4 wal_magic) ++ encode last) =
      file-append w operation payload
      ∙ ap (λ f. f ++ encode last) held
      ∙ append_assoc (encode_all rs) (take k (write_pod 4 wal_magic)) (encode last) in
    rw file (
      read_all-encode_all rs (take k (write_pod 4 wal_magic) ++ encode last) zs
        (torn_unread k last h0 h1))
