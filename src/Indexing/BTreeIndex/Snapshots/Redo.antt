-- ===== src/Indexing/BTreeIndex/Snapshots/Redo.antt =====
-- The pages that an index exports, installed again: every lookup answers the same.
use vertex_db.Base.{
  ℕ, ◌≡◌, refl, true, false, Option, none, some, List, [], ◌∷◌, ltb, ◌==◌, if◌then◌else◌, is_some,
  arith, Option-cases, inl, inr, ap, sym, ◌∙◌,
}
use vertex_db.Base.OrderedMap.{Map, lookup, emplace, lookup-emplace}
use vertex_db.Indexing.KeyOrder.{Comparison, IsStrictWeak}
use vertex_db.Indexing.BTreeIndex.{BTreeNode, BTreeIndex, find_rows, path_to_leaf}
use vertex_db.Indexing.BTreeIndex.Trees.{Tree, leaf, inner, root, Stores}
use vertex_db.Indexing.BTreeIndex.Pages.{Stores-frame}
use vertex_db.Indexing.BTreeIndex.Supply.{spare, IsKeyed, IsKeyed-emplace}
use vertex_db.Indexing.BTreeIndex.Maps.{IsWf, find_rows-find_entry}
use vertex_db.Indexing.BTreeIndex.Snapshots.{
  is_empty, insert_page, sorted_pages, export_pages, clear_dirty_pages, install_pages,
  replace_from_pages, has_dirty_pages, take_dirty_pages, apply_dirty_pages,
}

module _ {ℓ} {K : Type ℓ} where
  -- The first page with a number
  unfoldable first_page : ℕ → List (BTreeNode K) → Option (BTreeNode K)
  first_page j [] = none
  first_page j (p ∷ ps) = if p.page_id == j then some p else first_page j ps

  first_page-insert_page :
      (j : ℕ) (p : BTreeNode K) (ps : List (BTreeNode K))
      → first_page j (insert_page p ps) ≡ first_page j (p ∷ ps)
  unfolding first_page insert_page
  first_page-insert_page j p [] = refl
  first_page-insert_page j p (q ∷ qs) = ground (arith, first_page-insert_page j p qs)

  first_page-sorted_pages :
      (j : ℕ) (m : Map (BTreeNode K)) → IsKeyed m → first_page j (sorted_pages m) ≡ lookup j m
  unfolding first_page sorted_pages lookup
  first_page-sorted_pages j [] k = refl
  first_page-sorted_pages j ((id, p) ∷ m) k =
      first_page-insert_page j p (sorted_pages m)
      ∙ ground (arith, first_page-sorted_pages j m k.1, k.0)

  orelse : Option (BTreeNode K) → Option (BTreeNode K) → Option (BTreeNode K)
  orelse none b = b
  orelse (some a) b = some a

  lookup-emplace_any :
      (k j : ℕ) (v : BTreeNode K) (m : Map (BTreeNode K))
      → lookup j (emplace k v m) ≡ orelse (lookup j m) (if k == j then some v else none)
  unfolding emplace orelse
  lookup-emplace_any k j v m = elim (Option-cases (lookup k m)) [
    | inl e ↦ lookup-emplace k j v m e ∙ ground (arith, e)
    | inr (a, e) ↦ ground (arith, e)
  ]

  lookup-install_pages :
      (j : ℕ) (ps : List (BTreeNode K)) (m : Map (BTreeNode K))
      → lookup j (install_pages ps m) ≡ orelse (lookup j m) (first_page j ps)
  unfolding install_pages first_page orelse
  lookup-install_pages j [] m = ground arith
  lookup-install_pages j (p ∷ ps) m =
      ground (
        arith,
        lookup-install_pages j ps (emplace p.page_id p m),
        lookup-emplace_any p.page_id j p m,
      )

  pub lookup-reinstalled :
      (j : ℕ) (m : Map (BTreeNode K))
      → IsKeyed m
      → lookup j (install_pages (sorted_pages m) []) ≡ lookup j m
  unfolding orelse lookup
  lookup-reinstalled j m k =
      lookup-install_pages j (sorted_pages m) [] ∙ first_page-sorted_pages j m k

  IsKeyed-installed :
      (ps : List (BTreeNode K)) (m : Map (BTreeNode K)) → IsKeyed m → IsKeyed (install_pages ps m)
  unfolding install_pages
  IsKeyed-installed [] m k = k
  IsKeyed-installed (p ∷ ps) m k =
      IsKeyed-installed ps (emplace p.page_id p m) (IsKeyed-emplace p.page_id p m refl k)

  is_empty-installed :
      (j : ℕ) (ps : List (BTreeNode K))
      → is_some (lookup j (install_pages ps [])) ≡ true
      → is_empty ps ≡ false
  unfolding install_pages lookup
  is_empty-installed j [] h = cc
  is_empty-installed j (p ∷ ps) h = refl

root_stored :
    {K : Type 0} (nodes : Map (BTreeNode K)) (t : Tree K)
    → Stores nodes t
    → is_some (lookup (root t) nodes) ≡ true
unfolding Stores
root_stored nodes (leaf id es next) s = rw s refl
root_stored nodes (inner id kids) s = rw s.0 refl

module _ {K : Type 0} ⦃c : Comparison K⦄ where
  IsWf-reinstalled :
      (x : BTreeIndex K) (t : Tree K)
      → IsWf x t
      → IsWf (record x { nodes = install_pages (sorted_pages x.nodes) [] }) t
  unfolding spare
  IsWf-reinstalled x t v = record {
    at_root = v.at_root;
    stores = Stores-frame x.nodes _ t v.stores (λ j h. lookup-reinstalled j x.nodes v.keyed);
    distinct = v.distinct;
    supplied = record {
      absent = λ j h. lookup-reinstalled j x.nodes v.keyed ∙ v.supplied.absent j h;
      distinct = v.supplied.distinct;
    };
    ordered = v.ordered;
    fits = v.fits;
    capacity = v.capacity;
    keyed = IsKeyed-installed (sorted_pages x.nodes) [] tt;
  }

  -- The export of an index, installed over any index, makes it store the same tree.
  pub replace_from_pages-export_pages :
      (x y : BTreeIndex K) (t : Tree K)
      → IsWf x t
      → ((replace_from_pages (export_pages x) y).0 ≡ true)
        × IsWf (replace_from_pages (export_pages x) y).1 t
  unfolding replace_from_pages export_pages clear_dirty_pages spare
  replace_from_pages-export_pages x y t v =
      let enough : ltb x.max_keys_per_node 2 ≡ false = ground (arith, v.capacity) in
      let found : is_some (lookup x.root_page_id (install_pages (sorted_pages x.nodes) [])) ≡ true =
        ap is_some (lookup-reinstalled x.root_page_id x.nodes v.keyed)
        ∙ rw v.at_root (root_stored x.nodes t v.stores) in
      let wf = IsWf-reinstalled x t v in
      rw enough (
        rw found (
          refl,
          record {
            at_root = wf.at_root;
            stores = wf.stores;
            distinct = wf.distinct;
            supplied = record { absent = wf.supplied.absent; distinct = wf.supplied.distinct };
            ordered = wf.ordered;
            fits = wf.fits;
            capacity = wf.capacity;
            keyed = wf.keyed;
          },
        ))

  take_dirty_pages-dirty :
      (x : BTreeIndex K)
      → has_dirty_pages x ≡ true
      → take_dirty_pages x ≡ (export_pages x, clear_dirty_pages x)
  unfolding take_dirty_pages
  take_dirty_pages-dirty x d = rw d refl

  has_dirty_pages-clear : (x : BTreeIndex K) → has_dirty_pages (clear_dirty_pages x) ≡ false
  unfolding has_dirty_pages clear_dirty_pages
  has_dirty_pages-clear x = refl

  find_rows-clear :
      (x : BTreeIndex K) (key : K) → find_rows (clear_dirty_pages x) key ≡ find_rows x key
  unfolding find_rows path_to_leaf clear_dirty_pages
  find_rows-clear x key = refl

  -- The guard of applyDirtyPages does not stop an export that holds pages.
  apply_dirty_pages-export_pages :
      (x y : BTreeIndex K) (t : Tree K)
      → IsWf x t
      → apply_dirty_pages (export_pages x) y ≡ replace_from_pages (export_pages x) y
  unfolding apply_dirty_pages export_pages
  apply_dirty_pages-export_pages x y t v =
      let found : is_some (lookup x.root_page_id (install_pages (sorted_pages x.nodes) [])) ≡ true =
        ap is_some (lookup-reinstalled x.root_page_id x.nodes v.keyed)
        ∙ rw v.at_root (root_stored x.nodes t v.stores) in
      rw (is_empty-installed x.root_page_id (sorted_pages x.nodes) found) refl

  -- What a changed index that stores a tree hands to the redo is installed by any index, which then
  -- answers every lookup as the changed one did; the changed one still does, and is clean.
  pub apply_dirty_pages-take_dirty_pages :
      (w : IsStrictWeak c) (x y : BTreeIndex K) (t : Tree K) (key : K)
      → IsWf x t
      → has_dirty_pages x ≡ true
      → let (snapshot, z) = take_dirty_pages x in
        let (installed, y') = apply_dirty_pages snapshot y in
        (installed ≡ true)
        × (find_rows y' key ≡ find_rows x key)
        × (find_rows z key ≡ find_rows x key)
        × (has_dirty_pages z ≡ false)
  apply_dirty_pages-take_dirty_pages w x y t key v d =
      let (installed, wf) = replace_from_pages-export_pages x y t v in
      rw (take_dirty_pages-dirty x d) (
        rw (apply_dirty_pages-export_pages x y t v) (
          installed,
          find_rows-find_entry w _ t key wf ∙ sym (find_rows-find_entry w x t key v),
          find_rows-clear x key,
          has_dirty_pages-clear x,
        ))
