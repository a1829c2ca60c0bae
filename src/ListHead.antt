-- ===== src/ListHead.antt =====
-- The doubly linked circular lists of linux/casestudies/page_alloc.c: struct list_head and its
-- operations. A node is a list's head in `free_area` or the one inside a page's struct hyp_page.
pub mod Ring
pub mod Unlink
mod Examples
use refined_c.Base.{ℕ, ◌≡◌, Bool, true, false, ◌==◌, if◌then◌else◌}
use refined_c.Base.Run.{Run, ok, fault}

pub data Node : Type 0 where
  head : ℕ → Node
  page : ℕ → Node

-- `a == b` on pointers to nodes
abbrev pub same : Node → Node → Bool
same (head a) (head b) = a == b
same (page a) (page b) = a == b
same (head a) (page b) = false
same (page a) (head b) = false

pub record Links : Type 0 where
  pub next : Node → Node
  pub prev : Node → Node

-- `at->next = to` and `at->prev = to`
unfoldable pub set_next : (at to : Node) → Links → Links
set_next at to g = record g { next = λ n. if same n at then to else g.next n }

unfoldable pub set_prev : (at to : Node) → Links → Links
set_prev at to g = record g { prev = λ n. if same n at then to else g.prev n }

unfoldable pub init_list_head : Node → Links → Links
init_list_head list g = set_prev list list (set_next list list g)

-- `__list_add`
unfoldable pub list_insert : (new before after : Node) → Links → Links
list_insert new before after g =
    set_next before new (set_prev new before (set_next new after (set_prev after new g)))

unfoldable pub list_add : (new list : Node) → Links → Links
list_add new list g = list_insert new list (g.next list) g

unfoldable pub list_add_tail : (new list : Node) → Links → Links
list_add_tail new list g = list_insert new (g.prev list) list g

-- `__list_del`
unfoldable pub list_del : (before after : Node) → Links → Links
list_del before after g = set_next before after (set_prev after before g)

-- `__list_del_entry`
unfoldable pub list_del_entry : Node → Links → Links
list_del_entry entry g = list_del (g.prev entry) (g.next entry) g

unfoldable pub list_del_init : Node → Links → Links
list_del_init entry g = init_list_head entry (list_del_entry entry g)

unfoldable pub list_empty : Node → Links → Bool
list_empty list g = same (g.next list) list

-- `list_first_entry`, the page that the first node is inside of
unfoldable pub list_first_entry : Node → Links → Run ℕ
list_first_entry list g = elim (g.next list) [ page p ↦ ok p | head o ↦ fault ]
