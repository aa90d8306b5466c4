-- ===== src/Treemap.antt =====
-- module/treemap.h and module/treemap.c: maps and multimaps over the kernel's red-black trees. A tree
-- node is told apart by its key, so a pointer to a node is its key. What the kernel's rbtree does
-- (rb_insert_color, rb_erase, rb_first, rb_last, rb_next, rb_prev) is a parameter.
pub mod Lists
pub mod Lookup
pub mod Search
pub mod Found
pub mod Map
pub mod Effects
pub mod Remove
pub mod Walks
pub mod Cursor
pub mod Multimap
pub mod Values
pub mod Stored
pub mod MultiCursor
pub mod Scan
pub mod Cut
pub mod Scanned
pub mod Position
pub mod Deletion
pub mod Tally
pub mod Range
use walb_driver.Common.{ℕ, ◌≡◌, Bool, Option, none, some, List, [], ◌∷◌, ◌++◌, ◌==◌, if◌then◌else◌}

-- struct tree_node with its two children.
pub data Tree (A : Type 0) : Type 0 where
  leaf : Tree A
  node : Tree A → ℕ → A → Tree A → Tree A

-- The entries in order.
abbrev pub to_list : {A : Type 0} → Tree A → List (ℕ × A)
to_list leaf = []
to_list (node l k v r) = to_list l ++ ((k, v) ∷ to_list r)

abbrev pub keys : {A : Type 0} → List (ℕ × A) → List ℕ
keys [] = []
keys ((k, v) ∷ es) = k ∷ keys es

abbrev pub head? : List ℕ → Option ℕ
head? [] = none
head? (k ∷ ks) = some k

abbrev pub last_of : Option ℕ → List ℕ → Option ℕ
last_of d [] = d
last_of d (k ∷ ks) = last_of (some k) ks

-- The neighbours of a key in a list of keys.
abbrev pub after : ℕ → List ℕ → Option ℕ
after k [] = none
after k (x ∷ xs) = if x == k then head? xs else after k xs

abbrev pub before : Option ℕ → ℕ → List ℕ → Option ℕ
before p k [] = none
before p k (x ∷ xs) = if x == k then p else before (some x) k xs

-- The entries without those of a key.
abbrev pub remove : {A : Type 0} → ℕ → List (ℕ × A) → List (ℕ × A)
remove k [] = []
remove k ((j, v) ∷ es) = if j == k then es else (j, v) ∷ remove k es

-- <linux/rbtree.h>. `insert_color` is told the key of the node that rb_link_node has just hung into
-- the tree. The laws: rotations keep the order of the entries, rb_erase takes out the one entry, and
-- the walks go through the entries in order.
pub record RbTree (A : Type 0) : Type 0 where
  pub insert_color : ℕ → Tree A → Tree A
  pub erase : ℕ → Tree A → Tree A
  pub first : Tree A → Option ℕ
  pub last : Tree A → Option ℕ
  pub next : Tree A → ℕ → Option ℕ
  pub prev : Tree A → ℕ → Option ℕ
  pub to_list-insert_color : (k : ℕ) (t : Tree A) → to_list (insert_color k t) ≡ to_list t
  pub to_list-erase : (k : ℕ) (t : Tree A) → to_list (erase k t) ≡ remove k (to_list t)
  pub first_head : (t : Tree A) → first t ≡ head? (keys (to_list t))
  pub last_end : (t : Tree A) → last t ≡ last_of none (keys (to_list t))
  pub next_after : (t : Tree A) (k : ℕ) → next t k ≡ after k (keys (to_list t))
  pub prev_before : (t : Tree A) (k : ℕ) → prev t k ≡ before none k (keys (to_list t))
