-- ===== src/Storage/BufferPool/Directory.antt =====
-- How many entries the map has, and how many under one identifier.
use vertex_db.Base.{
  ℕ, suc, ◌+◌, ◌≡◌, refl, [], ◌∷◌, ◌==◌, if◌then◌else◌, arith, length, is_some, ltb,
}
use vertex_db.Base.Dict.{lookup, put, erase}
use vertex_db.Storage.BufferPool.{Page, Pages, id_equality}

unfoldable pub entries_under : ℕ → Pages → ℕ
entries_under id [] = 0
entries_under id ((j, page) ∷ m) = if j == id then suc (entries_under id m) else entries_under id m

pub entries_under-lookup : (id : ℕ) (m : Pages) → is_some (lookup id m) ≡ ltb 0 (entries_under id m)
unfolding lookup entries_under
entries_under-lookup id [] = refl
entries_under-lookup id ((j, page) ∷ m) = ground (arith, entries_under-lookup id m)

pub length-put :
    (id : ℕ) (page : Page) (m : Pages)
    → length (put id page m) ≡ (if is_some (lookup id m) then length m else suc (length m))
unfolding lookup put
length-put id page [] = refl
length-put id page ((j, old) ∷ m) = ground (arith, length-put id page m)

pub entries_under-put :
    (id j : ℕ) (page : Page) (m : Pages)
    → entries_under j (put id page m) ≡ (
        if is_some (lookup id m)
        then entries_under j m
        else if id == j
        then suc (entries_under j m)
        else entries_under j m)
unfolding lookup put entries_under
entries_under-put id j page [] = refl
entries_under-put id j page ((i, old) ∷ m) = ground (arith, entries_under-put id j page m)

pub length-erase : (id : ℕ) (m : Pages) → length (erase id m) + entries_under id m ≡ length m
unfolding erase entries_under
length-erase id [] = omega arith
length-erase id ((j, page) ∷ m) = ground (arith, length-erase id m)

pub entries_under-erase :
    (id j : ℕ) (m : Pages)
    → entries_under j (erase id m) ≡ (if id == j then 0 else entries_under j m)
unfolding erase entries_under
entries_under-erase id j [] = ground arith
entries_under-erase id j ((i, page) ∷ m) = ground (arith, entries_under-erase id j m)
