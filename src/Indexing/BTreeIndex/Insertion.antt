-- ===== src/Indexing/BTreeIndex/Insertion.antt =====
-- Insertion below the root: the subtree of a page grows into one tree or two, and with two the
-- insertion goes on in the page above.
pub mod Leaves
pub mod Inner
use vertex_db.Base.{ℕ, suc, ◌+◌, ◌≤◌, ◌<◌, ◌≡◌, Option, some, List, [], ◌∷◌}
use vertex_db.Base.OrderedMap.{lookup}
use vertex_db.Indexing.KeyOrder.{Comparison}
use vertex_db.Indexing.BTreeIndex.{BTreeIndex, insert_separator, insert_into_leaf}
use vertex_db.Indexing.BTreeIndex.Entries.{insert_entry}
use vertex_db.Indexing.BTreeIndex.Trees.{
  Tree, root, occurs, height, entries, Stores, Fits, Ordered, From, Below, path_of,
}
use vertex_db.Indexing.BTreeIndex.Growth.{
  Growth, one, two, grown_root, grown_entries, grown_occurs, GrownStores, GrownFits, GrownOrdered,
}
use vertex_db.Indexing.BTreeIndex.Supply.{spare, IsSupplied, IsKeyed}

module _ {K : Type 0} ⦃c : Comparison K⦄ where
  -- What is left to do above a grown subtree
  abbrev pub finish : List ℕ → Growth K → BTreeIndex K → Option (BTreeIndex K)
  finish above (one t) x = some x
  finish above (two l k r) x = insert_separator above k (root r) x

  -- A subtree in which a key between the bounds can be inserted
  pub record IsReady (lo hi : Option K) (key : K) (t : Tree K) (x : BTreeIndex K) : Type 0 where
    pub stores : Stores x.nodes t
    pub distinct : (j : ℕ) → occurs j t + spare j x ≤ 1
    pub supplied : IsSupplied x
    pub ordered : Ordered lo hi t
    pub from : From lo key
    pub below : Below hi key
    pub fits : Fits x.max_keys_per_node t
    pub capacity : 2 ≤ x.max_keys_per_node
    pub room : x.next_page_id + height t < 18446744073709551616

  -- The subtree after the insertion. Pages of others keep their content.
  pub record IsInserted (lo hi : Option K) (key : K) (row_id : ℕ) (t : Tree K) (above : List ℕ)
      (x x' : BTreeIndex K) (g : Growth K) : Type 0 where
    pub run : insert_into_leaf (path_of t key above) key row_id x ≡ finish above g x'
    pub same_page : grown_root g ≡ root t
    pub contents : grown_entries g ≡ insert_entry key row_id (entries t)
    pub ordered : GrownOrdered lo hi g
    pub fits : GrownFits x.max_keys_per_node g
    pub stores : GrownStores x'.nodes g
    pub counts : (j : ℕ) → grown_occurs j g + spare j x' ≡ occurs j t + spare j x
    pub frame : (j : ℕ) → occurs j t + spare j x ≡ 0 → lookup j x'.nodes ≡ lookup j x.nodes
    pub supplied : IsSupplied x'
    pub keyed : IsKeyed x.nodes → IsKeyed x'.nodes
    pub same_root : x'.root_page_id ≡ x.root_page_id
    pub same_max : x'.max_keys_per_node ≡ x.max_keys_per_node
    pub room : x'.next_page_id ≤ x.next_page_id + height t

  abbrev pub Inserts : K → ℕ → Tree K → Type 0
  Inserts key row_id t =
      (lo hi : Option K) (above : List ℕ) (x : BTreeIndex K)
      → IsReady lo hi key t x
      → (x' : BTreeIndex K) × (g : Growth K) × IsInserted lo hi key row_id t above x x' g
