-- ===== src/Storage/BufferPool/Recency.antt =====
-- The pool's invariant, and what it keeps and drops.
use vertex_db.Base.{
  ℕ, zero, suc, ◌+◌, ◌<◌, ◌≤◌, ◌≡◌, refl, subst, sym, ◌∙◌, ap, true, none, some, List, [], ◌∷◌,
  ◌==◌, if◌then◌else◌, arith, length, is_some, ltb, Option-cases, Bool-cases, inl, inr, ◌++◌,
  length-append,
}
use vertex_db.Base.Dict.{lookup, put, erase, lookup-put, lookup-erase}
use vertex_db.Storage.VectorRowStore.{unsnoc, erase_first}
use vertex_db.Storage.VectorRowStore.FreeList.{
  occurrences, occurrences-snoc, occurrences-erase_first, unsnoc-none, unsnoc-some,
}
use vertex_db.Storage.BufferPool.{
  Page, Pages, BufferPool, id_equality, touch, evict_loop, put_page, get_page,
}
use vertex_db.Storage.BufferPool.Directory.{
  entries_under, entries_under-lookup, length-put, entries_under-put, length-erase,
  entries_under-erase,
}

-- The list names exactly the pages that are there, each once, and they are no more than fit.
pub record IsWf (p : BufferPool) : Type 0 where
  pub positive : 0 < p.capacity
  pub bounded : length p.pages ≤ p.capacity
  pub lengths : length p.lru ≡ length p.pages
  pub listed : (i : ℕ) → occurrences i p.lru ≡ entries_under i p.pages
  pub once : (i : ℕ) → entries_under i p.pages ≤ 1

length-erase_first :
    (id : ℕ) (lru : List ℕ)
    → 0 < occurrences id lru
    → suc (length (erase_first id lru)) ≡ length lru
unfolding erase_first occurrences
length-erase_first id [] h = ground arith
length-erase_first id (x ∷ lru) h = ground (arith, length-erase_first id lru)

evict_loop_fits : (fuel : ℕ) (p : BufferPool) → length p.pages ≤ p.capacity → evict_loop fuel p ≡ p
unfolding evict_loop
evict_loop_fits zero p h = refl
evict_loop_fits (suc fuel) p h = ground arith

evict_loop_over :
    (fuel : ℕ) (p : BufferPool) (q : List ℕ × ℕ)
    → p.capacity < length p.pages
    → unsnoc p.lru ≡ some q
    → length (erase q.1 p.pages) ≤ p.capacity
    → evict_loop (suc fuel) p ≡ record p { lru = q.0; pages = erase q.1 p.pages }
unfolding evict_loop
evict_loop_over fuel p q over last fits =
    ground (arith, evict_loop_fits fuel (record p { lru = q.0; pages = erase q.1 p.pages }) fits)

unsnoc-snoc : (xs : List ℕ) (x : ℕ) → unsnoc (xs ++ x ∷ []) ≡ some (xs, x)
unfolding unsnoc
unsnoc-snoc [] x = refl
unsnoc-snoc (y ∷ xs) x = rw (unsnoc-snoc xs x)

unsnoc-length :
    (lru : List ℕ) (q : List ℕ × ℕ) → unsnoc lru ≡ some q → length lru ≡ suc (length q.0)
unsnoc-length lru q h = omega (arith, ap length (unsnoc-some lru q h), length-append q.0 (q.1 ∷ []))

-- The use of a page that is there keeps the invariant.
touch-IsWf :
    (id : ℕ) (p : BufferPool) (pages : Pages)
    → IsWf p
    → is_some (lookup id p.pages) ≡ true
    → length pages ≡ length p.pages
    → ((i : ℕ) → entries_under i pages ≡ entries_under i p.pages)
    → IsWf (record p { lru = touch id p.lru; pages = pages })
touch-IsWf id p pages v h same_length same =
    let there : 0 < occurrences id p.lru =
      ground (arith, v.listed id, entries_under-lookup id p.pages) in
    record {
      positive = v.positive;
      bounded = omega (arith, v.bounded);
      lengths = omega (arith, length-erase_first id p.lru there, v.lengths);
      listed = λ i.
          unfold occurrences in
          ground (arith, occurrences-erase_first id i p.lru, v.listed i, same i);
      once = λ i. omega (arith, same i, v.once i);
    }

module _ (page : Page) (p : BufferPool) where
  abbrev inserted : Pages
  inserted = put page.id page p.pages

  -- A page that is there is replaced and becomes the most recent one.
  put_page_hit :
      (old : Page)
      → lookup page.id p.pages ≡ some old
      → put_page page p ≡ record p { lru = touch page.id p.lru; pages = inserted }
  unfolding put_page
  put_page_hit old h = rw (put_page, h)

  put_page_room :
      IsWf p
      → lookup page.id p.pages ≡ none
      → length p.pages < p.capacity
      → put_page page p ≡ record p { lru = page.id ∷ p.lru; pages = inserted }
  unfolding put_page
  put_page_room v h room =
      rw (put_page, h)
        (evict_loop_fits (suc (length p.lru)) (record p { lru = page.id ∷ p.lru; pages = inserted })
          (ground (arith, length-put page.id page p.pages)))

  -- In a full pool a new page takes the place of the least recent one.
  put_page_full :
      (q : List ℕ × ℕ)
      → IsWf p
      → lookup page.id p.pages ≡ none
      → length p.pages ≡ p.capacity
      → unsnoc p.lru ≡ some q
      → put_page page p ≡ record p { lru = page.id ∷ q.0; pages = erase q.1 inserted }
  unfolding put_page
  put_page_full q v h full last =
      let victim : 0 < entries_under q.1 p.pages =
        ground (arith, v.listed q.1, unsnoc-some p.lru q last, occurrences-snoc q.1 q.1 q.0) in
      let grown : length inserted ≡ suc (length p.pages) =
        ground (arith, length-put page.id page p.pages) in
      let fits : length (erase q.1 inserted) ≤ p.capacity =
        ground (arith, length-erase q.1 inserted, entries_under-put page.id q.1 page p.pages) in
      rw (put_page, h)
        (evict_loop_over (length p.lru) (record p { lru = page.id ∷ p.lru; pages = inserted })
          (page.id ∷ q.0, q.1) (omega (arith, grown)) (unfold unsnoc in rw last) fits)

  room-IsWf :
      IsWf p
      → lookup page.id p.pages ≡ none
      → length p.pages < p.capacity
      → IsWf (record p { lru = page.id ∷ p.lru; pages = inserted })
  room-IsWf v h room = record {
    positive = v.positive;
    bounded = ground (arith, length-put page.id page p.pages, room);
    lengths = ground (arith, length-put page.id page p.pages, v.lengths);
    listed = λ i.
        unfold occurrences in ground (arith, entries_under-put page.id i page p.pages, v.listed i);
    once = λ i. ground (
      arith,
      entries_under-put page.id i page p.pages,
      v.once i,
      entries_under-lookup page.id p.pages,
    );
  }

  full-IsWf :
      (q : List ℕ × ℕ)
      → IsWf p
      → lookup page.id p.pages ≡ none
      → length p.pages ≡ p.capacity
      → unsnoc p.lru ≡ some q
      → IsWf (record p { lru = page.id ∷ q.0; pages = erase q.1 inserted })
  full-IsWf q v h full last =
      let split : (i : ℕ) → occurrences i p.lru ≡ occurrences i q.0 + (if q.1 == i then 1 else 0) =
        λ i. ap (occurrences i) (unsnoc-some p.lru q last) ∙ occurrences-snoc i q.1 q.0 in
      let absent : entries_under page.id p.pages ≡ 0 =
        ground (arith, entries_under-lookup page.id p.pages) in
      let victim : entries_under q.1 p.pages ≡ 1 =
        ground (arith, v.listed q.1, split q.1, v.once q.1) in
      let size : suc (length (erase q.1 inserted)) ≡ suc (length p.pages) = ground (
        arith,
        length-erase q.1 inserted,
        entries_under-put page.id q.1 page p.pages,
        length-put page.id page p.pages,
        absent,
        victim,
      ) in
      record {
        positive = v.positive;
        bounded = omega (arith, size);
        lengths = omega (arith, size, v.lengths, unsnoc-length p.lru q last);
        listed = λ i.
            unfold occurrences in
            ground (
              arith,
              split i,
              v.listed i,
              v.once i,
              absent,
              victim,
              entries_under-erase q.1 i inserted,
              entries_under-put page.id i page p.pages,
            );
        once = λ i. ground (
          arith,
          v.once i,
          absent,
          entries_under-erase q.1 i inserted,
          entries_under-put page.id i page p.pages,
        );
      }

  -- `put` keeps the invariant of the pool: a positive capacity, no more pages than it, and a list
  -- that names exactly the pages that are there, each once.
  pub put_page-IsWf : IsWf p → IsWf (put_page page p)
  put_page-IsWf v = elim (Option-cases (lookup page.id p.pages)) [
    | inr (old, h) ↦ subst IsWf (sym (put_page_hit old h)) (
        touch-IsWf page.id p inserted v (rw h) (ground (arith, length-put page.id page p.pages))
          (λ i. ground (arith, entries_under-put page.id i page p.pages)))
    | inl h ↦ elim (Bool-cases (ltb (length p.pages) p.capacity)) [
      | inl e ↦ subst IsWf (sym (put_page_room v h (ground arith))) (room-IsWf v h (ground arith))
      | inr e ↦ elim (Option-cases (unsnoc p.lru)) [
        | inl e' ↦ absurd (ground (arith, ap length (unsnoc-none p.lru e'), v.lengths, v.positive))
        | inr (q, e') ↦
            subst IsWf (sym (put_page_full q v h (ground arith) e'))
              (full-IsWf q v h (ground arith) e')
      ]
    ]
  ]

  full-lookup :
      (q : List ℕ × ℕ) (j : ℕ)
      → IsWf p
      → lookup page.id p.pages ≡ none
      → length p.pages ≡ p.capacity
      → unsnoc p.lru ≡ some q
      → lookup j (put_page page p).pages
        ≡ (if page.id == j then some page else if q.1 == j then none else lookup j p.pages)
  full-lookup q j v h full last =
      let victim : 0 < entries_under q.1 p.pages =
        ground (arith, v.listed q.1, unsnoc-some p.lru q last, occurrences-snoc q.1 q.1 q.0) in
      let absent : entries_under page.id p.pages ≡ 0 =
        ground (arith, entries_under-lookup page.id p.pages) in
      ap (λ r. lookup j r.pages) (put_page_full q v h full last)
      ∙ ground
          (arith, victim, absent, lookup-erase q.1 j inserted, lookup-put page.id j page p.pages)

  -- In a full, well-formed pool a page with a new identifier evicts the least recently used page,
  -- and no other page changes.
  pub put_page_evicts :
      (front : List ℕ) (victim j : ℕ)
      → IsWf p
      → lookup page.id p.pages ≡ none
      → length p.pages ≡ p.capacity
      → p.lru ≡ front ++ victim ∷ []
      → lookup j (put_page page p).pages
        ≡ (if page.id == j then some page else if victim == j then none else lookup j p.pages)
  put_page_evicts front victim j v h full last =
      full-lookup (front, victim) j v h full (rw last (unsnoc-snoc front victim))

-- `get` keeps the invariant.
pub get_page-IsWf : (id : ℕ) (p : BufferPool) → IsWf p → IsWf (get_page id p).1
unfolding get_page
get_page-IsWf id p v = elim (Option-cases (lookup id p.pages)) [
  | inl h ↦ rw (get_page, h) v
  | inr (page, h) ↦ rw (get_page, h) (touch-IsWf id p p.pages v (rw h) refl (λ i. refl))
]

lookup-put_page :
    (page : Page) (p : BufferPool) → IsWf p → lookup page.id (put_page page p).pages ≡ some page
lookup-put_page page p v = elim (Option-cases (lookup page.id p.pages)) [
  | inr (old, h) ↦
      ap (λ r. lookup page.id r.pages) (put_page_hit page p old h)
      ∙ ground (arith, lookup-put page.id page.id page p.pages)
  | inl h ↦ elim (Bool-cases (ltb (length p.pages) p.capacity)) [
    | inl e ↦
        ap (λ r. lookup page.id r.pages) (put_page_room page p v h (ground arith))
        ∙ ground (arith, lookup-put page.id page.id page p.pages)
    | inr e ↦ elim (Option-cases (unsnoc p.lru)) [
      | inl e' ↦ absurd (ground (arith, ap length (unsnoc-none p.lru e'), v.lengths, v.positive))
      | inr (q, e') ↦ ground (arith, full-lookup page p q page.id v h (ground arith) e')
    ]
  ]
]

-- In a well-formed pool a page that was put is what `get` answers next, whether it was new,
-- replaced a page or evicted one.
pub get_page-put_page :
    (page : Page) (p : BufferPool) → IsWf p → (get_page page.id (put_page page p)).0 ≡ some page
unfolding get_page
get_page-put_page page p v = rw (get_page, lookup-put_page page p v)

pub IsWf-make : (n : ℕ) → IsWf (record { capacity = suc n; lru = []; pages = [] })
unfolding occurrences entries_under
IsWf-make n = record {
  positive = omega arith;
  bounded = omega arith;
  lengths = refl;
  listed = λ i. refl;
  once = λ i. omega arith;
}
