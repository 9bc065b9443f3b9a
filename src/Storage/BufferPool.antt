-- ===== src/Storage/BufferPool.antt =====
-- storage/buffer_pool.cpp: pages by their identifier, the least recently used one evicted. The map's
-- iterators into the list are the identifiers themselves, which stand in the list once.
pub mod Directory
pub mod Recency
use vertex_db.Base.{
  ℕ, zero, suc, ◌≡◌, Bool, true, false, Option, none, some, List, [], ◌∷◌, ltb, ◌==◌, length,
  is_some, Equality, arith,
}
use vertex_db.Base.Dict.{lookup, put, erase}
use vertex_db.Storage.VectorRowStore.{unsnoc, erase_first}

pub id_sym : (a b : ℕ) → a == b ≡ true → b == a ≡ true
id_sym a b h = ground arith

pub id_trans : (a b c : ℕ) → a == b ≡ true → b == c ≡ true → a == c ≡ true
id_trans a b c h k = ground arith

instance abbrev pub id_equality : Equality ℕ
id_equality = record { beq = λ a b. a == b; beq_sym = id_sym; beq_trans = id_trans }

-- struct Page
pub record Page : Type 0 where
  pub id : ℕ
  pub bytes : List ℕ
  pub dirty : Bool

abbrev pub Pages : Type 0
Pages = List (ℕ × Page)

-- class BufferPool; the most recently used identifier stands first in `lru`
pub record BufferPool : Type 0 where
  pub capacity : ℕ
  pub lru : List ℕ
  pub pages : Pages

-- The constructor, which throws for a capacity of zero
unfoldable pub make : ℕ → Option BufferPool
make zero = none
make (suc n) = some (record { capacity = suc n; lru = []; pages = [] })

abbrev pub contains : BufferPool → ℕ → Bool
contains p id = is_some (lookup id p.pages)

abbrev pub size : BufferPool → ℕ
size p = length p.pages

-- BufferPool::touch
abbrev pub touch : ℕ → List ℕ → List ℕ
touch id lru = id ∷ erase_first id lru

-- BufferPool::evictIfNeeded, on fuel; `lru_.back()` of an empty list does not occur.
unfoldable pub evict_loop : ℕ → BufferPool → BufferPool
evict_loop zero p = p
evict_loop (suc fuel) p = elim (ltb p.capacity (length p.pages)) [
  | false ↦ p
  | true ↦ elim (unsnoc p.lru) [
    | none ↦ p
    | some q ↦ evict_loop fuel (record p { lru = q.0; pages = erase q.1 p.pages })
  ]
]

-- Each round takes one identifier off the list, so this fuel is enough.
abbrev pub evict_if_needed : BufferPool → BufferPool
evict_if_needed p = evict_loop (length p.lru) p

-- BufferPool::put
unfoldable pub put_page : Page → BufferPool → BufferPool
unfolding evict_loop
put_page page p = elim (lookup page.id p.pages) [
  | some old ↦ record p { lru = touch page.id p.lru; pages = put page.id page p.pages }
  | none ↦ evict_if_needed (record p { lru = page.id ∷ p.lru; pages = put page.id page p.pages })
]

-- BufferPool::get
unfoldable pub get_page : ℕ → BufferPool → Option Page × BufferPool
get_page id p = elim (lookup id p.pages) [
  | none ↦ (none, p)
  | some page ↦ (some page, record p { lru = touch id p.lru })
]
