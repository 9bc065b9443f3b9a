-- ===== src/Persistence/WriteAheadLog.antt =====
-- persistence/write_ahead_log.cpp: the records of the log file, their encoding, and the reader that
-- stops at the first record that is not whole. The file is the list of its bytes; opening, flushing
-- and syncing it are not modelled.
pub mod Recovery
pub mod Torn
use Prim.Native.Nat.{max}
use vertex_db.Base.{
  ℕ, zero, suc, ◌+◌, ◌%◌, ◌<◌, ◌^◌, ◌≤◌, ◌≡◌, Bool, true, false, not, ◌||◌, Option, none, some,
  List, [], ◌∷◌, ◌++◌, ◌==◌, if◌then◌else◌, length, All,
}
use vertex_db.Persistence.Binary.{Bytes, write_pod, read_pod, read_bytes, ◌>>=◌}

-- struct WalRecord; the operation is its byte
pub record WalRecord : Type 0 where
  pub lsn : ℕ
  pub operation : ℕ
  pub payload : Bytes

-- "TCWA" and the version of the format
abbrev pub wal_magic : ℕ
wal_magic = 0x54435741

abbrev pub wal_version : ℕ
wal_version = 1

-- What `append` writes for a record.
unfoldable pub encode : WalRecord → Bytes
encode r =
    write_pod 4 wal_magic
    ++ (write_pod 4 wal_version
        ++ (write_pod 8 r.lsn
            ++ (write_pod 1 r.operation ++ (write_pod 8 (length r.payload) ++ r.payload))))

-- The body of the loop of `readAll`: `none` where it breaks.
unfoldable pub read_record : Bytes → Option (WalRecord × Bytes)
read_record input = do
  magic ← read_pod 4 input
  version ← read_pod 4 magic.1
  if not (magic.0 == wal_magic) || not (version.0 == wal_version) then none else do
    lsn ← read_pod 8 version.1
    operation ← read_pod 1 lsn.1
    size ← read_pod 8 operation.1
    payload ← read_bytes size.0 size.1
    some (record { lsn = lsn.0; operation = operation.0; payload = payload.0 }, payload.1)

-- The loop of `readAll`, on fuel.
unfoldable pub read_loop : ℕ → Bytes → List WalRecord
read_loop zero input = []
read_loop (suc fuel) [] = []
read_loop (suc fuel) (b ∷ input) = elim (read_record (b ∷ input)) [
  | none ↦ []
  | some r ↦ r.0 ∷ read_loop fuel r.1
]

-- WriteAheadLog::readAll: a record takes at least one byte, so this fuel is enough.
unfoldable pub read_all : Bytes → List WalRecord
read_all input = read_loop (suc (length input)) input

-- class WriteAheadLog
pub record Log : Type 0 where
  pub file : Bytes
  pub next_lsn : Option ℕ

-- The loop of nextLsn, on a uint64_t.
unfoldable pub max_lsn : ℕ → List WalRecord → ℕ
max_lsn next [] = next
max_lsn next (r ∷ rs) = max_lsn (max next ((r.lsn + 1) % 18446744073709551616)) rs

-- WriteAheadLog::nextLsn
unfoldable pub take_lsn : Log → ℕ × Log
take_lsn w = elim w.next_lsn [
  | some n ↦ (n, record w { next_lsn = some ((n + 1) % 18446744073709551616) })
  | none ↦
      let next = max_lsn 1 (read_all w.file) in
      (next, record w { next_lsn = some ((next + 1) % 18446744073709551616) })
]

-- WriteAheadLog::append
unfoldable pub append : Log → ℕ → Bytes → ℕ × Log
append w operation payload =
    let (lsn, w') = take_lsn w in
    (
      lsn,
      record w' {
        file = w'.file ++ encode (record { lsn = lsn; operation = operation; payload = payload });
      },
    )

-- WriteAheadLog::reset
abbrev pub reset : Log → Log
reset w = record { file = []; next_lsn = some 1 }

-- The bytes of several records.
unfoldable pub encode_all : List WalRecord → Bytes
encode_all [] = []
encode_all (r ∷ rs) = encode r ++ encode_all rs
