-- ===== src/BTree/Splitting.antt =====
-- insert_br of examples/btree.c, which adds an entry to a node and splits the node if it is full.
use refined_c.Base.{ℕ, zero, suc, ◌+◌, ◌-◌, Option, none, some, get_elem?, ltb, ◌==◌, if◌then◌else◌}
use refined_c.Base.Run.{Run, ok, need, ◌>>=◌}
use refined_c.BTree.{Btree, Node, order, store, get_child, store_child, key_index}

-- `keys[to] = from.keys[i]`, the same with the values, and `children[to + 1] = from.children[i + 1]`
abbrev pub copy_entry : (node new : Node) (i to : ℕ) → Run Node
copy_entry node new i to = need (get_elem? node.keys i) >>= λ k. store new.keys to k >>= λ keys.
    need (get_elem? node.vals i) >>= λ v. store new.vals to v >>= λ vals.
    get_child node.children (i + 1) >>= λ c. store_child new.children (to + 1) c >>= λ children.
    ok (record new { keys = keys; vals = vals; children = children })

-- `for(; i < stop; i++)`, which copies entry `i` of the node to place `i - base` of the new node, with
-- `rounds` for `stop - i`.
unfoldable pub copy_loop : (rounds i base : ℕ) (node new : Node) → Run Node
copy_loop zero i base node new = ok new
copy_loop (suc rounds) i base node new =
    copy_entry node new i (i - base) >>= λ more. copy_loop rounds (suc i) base node more

-- `for(i = last; i > slot; i--)`, with `rounds` for `i - slot`: entry `i - 1` moves to place `i`.
unfoldable pub shift_loop : (rounds slot : ℕ) → Node → Run Node
shift_loop zero slot node = ok node
shift_loop (suc rounds) slot node =
    let i = slot + suc rounds in
    need (get_elem? node.keys (i - 1)) >>= λ k. store node.keys i k >>= λ keys.
    need (get_elem? node.vals (i - 1)) >>= λ v. store node.vals i v >>= λ vals.
    get_child node.children i >>= λ c. store_child node.children (i + 1) c >>= λ children.
    shift_loop rounds slot (record node { keys = keys; vals = vals; children = children })

-- The new key, its value and the branch right of it.
abbrev pub write_entry : Node → (slot k v : ℕ) → Btree → Run Node
write_entry node slot k v b = store node.keys slot k >>= λ keys. store node.vals slot v >>= λ vals.
    store_child node.children (slot + 1) b >>= λ children.
    ok (record node { keys = keys; vals = vals; children = children })

-- The median, and the node that holds what is right of it.
pub record Split : Type 0 where
  pub med_k : ℕ
  pub med_v : ℕ
  pub new_node : Node

abbrev pub med : ℕ
med = 2

-- The cases of `insert_br` without a free place: left of the median, at it and right of it. `raw` is
-- the block of `xmalloc`.
unfoldable pub split_left : (raw node : Node) (slot k v : ℕ) → Btree → Run (Node × Option Split)
unfolding copy_loop shift_loop
split_left raw node slot k v b = need (get_elem? node.keys (med - 1)) >>= λ med_k.
    need (get_elem? node.vals (med - 1)) >>= λ med_v.
    copy_loop (order - med) med med node raw >>= λ new. get_child node.children med >>= λ c.
    store_child new.children 0 c >>= λ children. shift_loop (med - 1 - slot) slot node >>= λ spaced.
    write_entry spaced slot k v b >>= λ written. ok (
      record written { nb_keys = med },
      some record {
        med_k = med_k;
        med_v = med_v;
        new_node = record new { children = children; nb_keys = order - med - 1 };
      },
    )

unfoldable pub split_middle : (raw node : Node) (k v : ℕ) → Btree → Run (Node × Option Split)
unfolding copy_loop
split_middle raw node k v b = copy_loop (order - 1 - med) med med node raw >>= λ new.
    store_child new.children 0 b >>= λ children. ok (
      record node { nb_keys = med },
      some record {
        med_k = k;
        med_v = v;
        new_node = record new { children = children; nb_keys = order - med - 1 };
      },
    )

unfoldable pub split_right : (raw node : Node) (slot k v : ℕ) → Btree → Run (Node × Option Split)
unfolding copy_loop
split_right raw node slot k v b = need (get_elem? node.keys med) >>= λ med_k.
    need (get_elem? node.vals med) >>= λ med_v.
    copy_loop (slot - (med + 1)) (med + 1) (med + 1) node raw >>= λ new.
    get_child node.children (med + 1) >>= λ c. store_child new.children 0 c >>= λ children.
    write_entry (record new { children = children }) (slot - (med + 1)) k v b >>= λ written.
    copy_loop (order - 1 - slot) slot med node written >>= λ all. ok (
      record node { nb_keys = med },
      some record {
        med_k = med_k;
        med_v = med_v;
        new_node = record all { nb_keys = order - med - 1 };
      },
    )

-- `insert_br` behind the search for the slot. It changes the node, and returns the new one if it had to
-- split it.
unfoldable pub insert_at_slot : (raw node : Node) (slot k v : ℕ) → Btree → Run (Node × Option Split)
unfolding shift_loop split_left split_middle split_right
insert_at_slot raw node slot k v b =
    if ltb node.nb_keys (order - 1)
    then (shift_loop (node.nb_keys - slot) slot node >>= λ spaced.
        write_entry spaced slot k v b >>= λ written.
        ok (record written { nb_keys = written.nb_keys + 1 }, none))
    else let new = record raw { height = node.height } in
      if ltb slot med
      then split_left new node slot k v b
      else if slot == med
      then split_middle new node k v b
      else split_right new node slot k v b

unfoldable pub insert_br : (raw node : Node) (k v : ℕ) → Btree → Run (Node × Option Split)
unfolding insert_at_slot key_index
insert_br raw node k v b =
    key_index node.keys node.nb_keys k >>= λ slot. insert_at_slot raw node slot k v b
