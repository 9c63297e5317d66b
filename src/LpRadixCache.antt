-- ===== src/LpRadixCache.antt =====
-- dualmap/cache_manager/global_lru_cache_preble.py: TreeNode and LPRadixCache. A node is a tree with its children in it,
-- so that its parent is what stands above it; a method that climbs from a node to the root follows the path of the
-- key of the node. `uuid4` is a counter. The queue of decode lengths belongs to the histogram.
pub mod Updates
pub mod Shape
pub mod Sizes
pub mod Allocated
pub mod Paths
pub mod Reached
pub mod Finds
pub mod Tests
use dual_map.Prelude.{
  ℕ, zero, suc, ◌+◌, ◌-◌, ◌≡◌, Bool, true, false, not, ◌&&◌, none, some, Option, List, [], ◌∷◌,
  ◌++◌, ◌==◌, if◌then◌else◌, length, take, drop, ltb, ◌>>=◌, ℤ, pos, ◌-ℤ◌, ◌>>=◌,
}

pub record Info : Type 0 where
  pub id : ℕ
  pub key : List ℕ
  pub value : List ℕ
  pub num_uncompleted_request_for_gpu_map : ℕ → ℕ
  pub load : ℕ
  pub last_access_time : ℕ
  pub evicted_gpus : ℕ → Bool
  pub cached_gpus : ℕ → Bool
  pub context_length : ℕ
  pub depth : ℕ

-- `children`, a dict by first token.
mutual
  pub data TreeNode : Type 0 where
    node : Info → Children → TreeNode

  pub data Children : Type 0 where
    no_child : Children
    child : ℕ → TreeNode → Children → Children

abbrev pub info : TreeNode → Info
info (node i f) = i

unfoldable pub has_cached_gpu : ℕ → Info → Bool
has_cached_gpu gpu i = i.cached_gpus gpu && not (i.evicted_gpus gpu)

unfoldable pub num_tokens : Info → ℕ
num_tokens i = length i.value

unfoldable pub context_so_far : Info → ℤ
unfolding num_tokens
context_so_far i = pos i.context_length -ℤ pos (num_tokens i)

-- `match`: how many tokens two keys have in common at their beginnings.
unfoldable pub match_len : List ℕ → List ℕ → ℕ
match_len [] seq = 0
match_len (k ∷ key) [] = 0
match_len (k ∷ key) (w ∷ seq) = if k == w then suc (match_len key seq) else 0

-- A node as `TreeNode.__init__` makes it, with what `_insert_helper` sets.
unfoldable pub new_leaf : ℕ → ℕ → List ℕ → List ℕ → ℕ → ℕ → Info
new_leaf now id key value context_length depth = record {
  id = id;
  key = key;
  value = value;
  num_uncompleted_request_for_gpu_map = λ gpu. 0;
  load = 1;
  last_access_time = now;
  evicted_gpus = λ gpu. false;
  cached_gpus = λ gpu. false;
  context_length = context_length;
  depth = depth;
}

-- `reset`
unfoldable pub root_node : ℕ → TreeNode
root_node now =
    node
      (record {
        id = 0;
        key = [];
        value = [];
        num_uncompleted_request_for_gpu_map = λ gpu. 1;
        load = 0;
        last_access_time = now;
        evicted_gpus = λ gpu. false;
        cached_gpus = λ gpu. false;
        context_length = 0;
        depth = 0;
      })
      no_child

-- `_match_prefix_helper`, without the access times that it sets.
unfoldable mutual
  pub find : TreeNode → List ℕ → Option TreeNode
  find (node i f) [] = some (node i f)
  find (node i f) (k ∷ key) = find_child (node i f) f k (k ∷ key)

  pub find_child : TreeNode → Children → ℕ → List ℕ → Option TreeNode
  find_child parent no_child k key = some parent
  find_child parent (child c t f) k key =
      if c == k
      then (let prefix_len = match_len (info t).key key in
          if ltb prefix_len (length (info t).key) then none else find t (drop prefix_len key))
      else find_child parent f k key

-- What an insertion makes: the node, the node that holds the key, and a node that was split with the one put above it.
pub record Inserted : Type 0 where
  pub tree : TreeNode
  pub created : Info
  pub split_nodes : Option (ℕ × ℕ)

pub record InsertedChild : Type 0 where
  pub children : Children
  pub created : Info
  pub split_nodes : Option (ℕ × ℕ)

-- `_split_node`: the upper part of a node.
unfoldable pub upper : ℕ → ℕ → ℕ → ℕ → Info → Info
upper now id parent_context_length split_len i = record i {
  id = id;
  key = take split_len i.key;
  value = take split_len i.value;
  last_access_time = now;
  context_length = parent_context_length + split_len;
}

unfoldable pub lower : ℕ → Info → Info
lower split_len i = record i {
  key = drop split_len i.key;
  value = drop split_len i.value;
  depth = i.depth + 1;
}

-- The children of the upper part: `key[split_len:][0]` is there, since less than the key was matched.
abbrev pub only : List ℕ → TreeNode → Children
only [] t = no_child
only (c ∷ key) t = child c t no_child

abbrev pub visited : ℕ → Info → Info
visited now i = record i { last_access_time = now; load = i.load + 1 }

abbrev pub append_child : ℕ → TreeNode → Children → Children
append_child k t no_child = child k t no_child
append_child k t (child c u f) = child c u (append_child k t f)

abbrev pub found_whole : TreeNode → Inserted
found_whole (node i f) = record {
  tree = node (record i { load = i.load + 1 }) f;
  created = record i { load = i.load + 1 };
  split_nodes = none;
}

abbrev pub in_child : ℕ → Children → Inserted → InsertedChild
in_child c f r = record {
  children = child c r.tree f;
  created = r.created;
  split_nodes = r.split_nodes;
}

abbrev pub behind_child : ℕ → TreeNode → InsertedChild → InsertedChild
behind_child c t r = record r { children = child c t r.children }

-- `_insert_helper`: a node that is split gets the id `next`, a new leaf the one after.
module _ (now next : ℕ) where
  -- At the node that was just put above a split one. There the key does not go on with the token of its only child, at
  -- which the match stopped.
  abbrev pub insert_below_split : Info → Children → ℕ → List ℕ → List ℕ → ℕ → ℕ → Inserted
  insert_below_split i f split [] value context_length depth = record {
    tree = node (visited now i) f;
    created = visited now i;
    split_nodes = some (split, i.id);
  }
  insert_below_split i f split (k ∷ key) value context_length depth =
      let leaf =
        new_leaf now (next + 1) (k ∷ key) value (context_length + length (k ∷ key)) (depth + 1) in
      record {
        tree = node (visited now i) (append_child k (node leaf no_child) f);
        created = leaf;
        split_nodes = some (split, i.id);
      }

  -- The insertion into a child that shares less than its whole key.
  abbrev pub split_node : Info → TreeNode → ℕ → List ℕ → List ℕ → ℕ → ℕ → Inserted
  split_node parent (node i f) prefix_len key value context_length depth =
      insert_below_split (upper now next parent.context_length prefix_len i)
        (only (drop prefix_len i.key) (node (lower prefix_len i) f)) i.id (drop prefix_len key)
        (drop prefix_len value) (context_length + prefix_len) (depth + 2)

  unfoldable mutual
    pub insert_helper : TreeNode → List ℕ → List ℕ → ℕ → ℕ → Inserted
    insert_helper (node i f) [] value context_length depth = record {
      tree = node (visited now i) f;
      created = visited now i;
      split_nodes = none;
    }
    insert_helper (node i f) (k ∷ key) value context_length depth =
        let r = insert_child i f k (k ∷ key) value context_length depth in
        record {
          tree = node (visited now i) r.children;
          created = r.created;
          split_nodes = r.split_nodes;
        }

    pub insert_child : Info → Children → ℕ → List ℕ → List ℕ → ℕ → ℕ → InsertedChild
    insert_child parent no_child k key value context_length depth =
        let leaf = new_leaf now (next + 1) key value (context_length + length key) (depth + 1) in
        record {
          children = child k (node leaf no_child) no_child;
          created = leaf;
          split_nodes = none;
        }
    insert_child parent (child c t f) k key value context_length depth =
        let prefix_len = match_len (info t).key key in
        let deeper =
          insert_helper t (drop prefix_len key) (drop prefix_len value)
            (context_length + prefix_len) (depth + 1) in
        let later = insert_child parent f k key value context_length depth in
        if c == k
        then (if prefix_len == length (info t).key
            then (if prefix_len == length key
                then in_child c f (found_whole t)
                else in_child c f deeper)
            else in_child c f (split_node parent t prefix_len key value context_length depth))
        else behind_child c t later

-- `total_size` and the other sums over all nodes.
unfoldable mutual
  pub size_by : (Info → ℕ) → TreeNode → ℕ
  size_by g (node i f) = g i + children_by g f

  pub children_by : (Info → ℕ) → Children → ℕ
  children_by g no_child = 0
  children_by g (child c t f) = size_by g t + children_by g f

unfoldable pub total_size : TreeNode → ℕ
total_size = size_by num_tokens

abbrev pub cached_tokens : ℕ → Info → ℕ
cached_tokens gpu i = if has_cached_gpu gpu i then num_tokens i else 0

abbrev pub evictable_tokens : ℕ → Info → ℕ
evictable_tokens gpu i =
    if i.num_uncompleted_request_for_gpu_map gpu == 0 && has_cached_gpu gpu i
    then num_tokens i
    else 0

unfoldable pub get_evictable_size : ℕ → TreeNode → ℕ
get_evictable_size gpu = size_by (evictable_tokens gpu)

pub record LpRadixCache : Type 0 where
  pub root_node : TreeNode
  pub allocated_size_for_gpus_list : ℕ → ℕ
  pub next : ℕ

unfoldable pub reset : ℕ → LpRadixCache
reset now = record { root_node = root_node now; allocated_size_for_gpus_list = λ gpu. 0; next = 1 }

unfoldable pub find_node : List ℕ → LpRadixCache → Option TreeNode
find_node key cache = find cache.root_node key

-- `insert`, with the tokens as their own values.
unfoldable pub insert : ℕ → List ℕ → LpRadixCache → Inserted × LpRadixCache
insert now key cache =
    let r = insert_helper now cache.next cache.root_node key key 0 0 in
    (r, record cache { root_node = r.tree; next = cache.next + 2 })
