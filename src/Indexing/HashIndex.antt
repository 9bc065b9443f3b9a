-- ===== src/Indexing/HashIndex.antt =====
-- indexing/hash_index.cpp: buckets of row identifiers by key, and the keys that changed since the
-- last snapshot of changes. The hash function decides only the place of an entry in memory.
pub mod Lookup
pub mod Redo
use vertex_db.Base.{
  ℕ, Bool, true, false, not, ◌||◌, Option, none, some, List, [], ◌∷◌, ◌++◌, ◌==◌, if◌then◌else◌,
  map, length, any,
}
use vertex_db.Base.Dict.{lookup, put, erase}
use vertex_db.Common.Value.{Value, value_eq}
use vertex_db.Common.Value.Equal.{value_equality}

abbrev pub Buckets : Type 0
Buckets = List (Value × List ℕ)

pub record HashIndex : Type 0 where
  pub entries : Buckets
  pub dirty_keys : List (Value × Bool)
  pub full_replace_dirty : Bool

-- struct HashIndexSnapshot
pub record HashIndexSnapshot : Type 0 where
  pub replace_all : Bool
  pub buckets : Buckets

abbrev pub empty : HashIndex
empty = record { entries = []; dirty_keys = []; full_replace_dirty = false }

-- The bucket of a key, empty if there is none.
abbrev pub bucket : Value → Buckets → List ℕ
bucket key entries = elim (lookup key entries) [ none ↦ [] | some ids ↦ ids ]

-- HashIndex::find
unfoldable pub find : HashIndex → Value → List ℕ
unfolding lookup
find x key = bucket key x.entries

-- HashIndex::insert and markDirty
unfoldable pub insert : HashIndex → Value → ℕ → HashIndex
insert x key row_id = record x {
  entries = put key (bucket key x.entries ++ row_id ∷ []) x.entries;
  dirty_keys = put key true x.dirty_keys;
}

-- std::erase(rowIds, rowId)
unfoldable pub without : ℕ → List ℕ → List ℕ
without row_id [] = []
without row_id (x ∷ xs) = let rest = without row_id xs in if x == row_id then rest else x ∷ rest

-- HashIndex::remove
unfoldable pub remove : HashIndex → Value → ℕ → HashIndex
remove x key row_id = elim (lookup key x.entries) [
  | none ↦ x
  | some ids ↦ elim (without row_id ids) [
    | [] ↦ record x { entries = erase key x.entries; dirty_keys = put key true x.dirty_keys }
    | id ∷ rest ↦ record x {
      entries = put key (id ∷ rest) x.entries;
      dirty_keys = put key true x.dirty_keys;
    }
  ]
]

-- HashIndex::clear
unfoldable pub clear : HashIndex → HashIndex
clear x = record { entries = []; dirty_keys = []; full_replace_dirty = true }

-- HashIndex::size
abbrev pub size : HashIndex → ℕ
size x = length x.entries

-- HashIndex::clearDirtyPages
abbrev pub clear_dirty_pages : HashIndex → HashIndex
clear_dirty_pages x = record x { dirty_keys = []; full_replace_dirty = false }

-- HashIndex::exportBuckets
unfoldable pub export_buckets : HashIndex → HashIndexSnapshot
export_buckets x = record { replace_all = false; buckets = x.entries }

-- The loop of replaceFromBuckets: `emplace` keeps the first bucket of a key.
unfoldable pub emplace_all : Buckets → Buckets → Buckets
emplace_all entries [] = entries
emplace_all entries ((key, ids) ∷ rest) =
    emplace_all (elim (lookup key entries) [ none ↦ put key ids entries | some old ↦ entries ]) rest

-- HashIndex::replaceFromBuckets
unfoldable pub replace_from_buckets : HashIndexSnapshot → HashIndex
unfolding emplace_all
replace_from_buckets snapshot = record {
  entries = emplace_all [] snapshot.buckets;
  dirty_keys = [];
  full_replace_dirty = false;
}

-- The loop of takeDirtyBuckets: a key that is gone is sent with an empty bucket.
unfoldable pub dirty_buckets : Buckets → List (Value × Bool) → Buckets
dirty_buckets entries [] = []
dirty_buckets entries ((key, flag) ∷ rest) = (key, bucket key entries) ∷ dirty_buckets entries rest

-- HashIndex::takeDirtyBuckets
unfoldable pub take_dirty_buckets : HashIndex → HashIndexSnapshot × HashIndex
unfolding dirty_buckets
take_dirty_buckets x = (
  record {
    replace_all = x.full_replace_dirty;
    buckets = if x.full_replace_dirty then x.entries else dirty_buckets x.entries x.dirty_keys;
  },
  clear_dirty_pages x,
)

-- The loop of applyDirtyBuckets
unfoldable pub apply_loop : Buckets → Buckets → Buckets
apply_loop entries [] = entries
apply_loop entries ((key, ids) ∷ rest) =
    apply_loop (elim ids [ [] ↦ erase key entries | id ∷ more ↦ put key (id ∷ more) entries ]) rest

-- HashIndex::applyDirtyBuckets
unfoldable pub apply_dirty_buckets : HashIndex → HashIndexSnapshot → HashIndex
unfolding apply_loop replace_from_buckets
apply_dirty_buckets x dirty =
    if dirty.replace_all
    then replace_from_buckets (record dirty { replace_all = false })
    else clear_dirty_pages (record x { entries = apply_loop x.entries dirty.buckets })
