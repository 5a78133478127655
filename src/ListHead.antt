-- ===== src/ListHead.antt =====
-- include/list.h: intrusive circular doubly linked lists over a heap of `list_head` nodes. A node
-- is its address, a number, and 0 is `(void*) 0`.
pub mod Links
pub mod Insert
pub mod Delete
pub mod Queue
pub mod Queues
pub mod Move
pub mod Count
mod Tests
use s.Base.{ℕ, Bool, update, ◌==◌}

-- The two fields of every `struct list_head`.
pub record Heap : Type 0 where
  pub next : ℕ → ℕ
  pub prev : ℕ → ℕ

abbrev pub null : ℕ
null = 0

-- `a->next = b`
abbrev pub set_next : Heap → ℕ → ℕ → Heap
set_next h a b = record h { next = update h.next a b }

-- `a->prev = b`
abbrev pub set_prev : Heap → ℕ → ℕ → Heap
set_prev h a b = record h { prev = update h.prev a b }

unfoldable pub init_list_head : Heap → ℕ → Heap
unfolding update
init_list_head h list = set_prev (set_next h list list) list list

-- `__list_add`
abbrev pub list_add_between : Heap → ℕ → ℕ → ℕ → Heap
list_add_between h new prev next =
    set_next (set_prev (set_next (set_prev h next new) new next) new prev) prev new

unfoldable pub list_add : Heap → ℕ → ℕ → Heap
unfolding update
list_add h new head = list_add_between h new head (h.next head)

unfoldable pub list_add_tail : Heap → ℕ → ℕ → Heap
unfolding update
list_add_tail h new head = list_add_between h new (h.prev head) head

-- `__list_del`
abbrev pub list_del_between : Heap → ℕ → ℕ → Heap
list_del_between h prev next = set_next (set_prev h next prev) prev next

unfoldable pub list_del : Heap → ℕ → Heap
unfolding update
list_del h entry =
    set_prev (set_next (list_del_between h (h.prev entry) (h.next entry)) entry null) entry null

abbrev pub list_empty : Heap → ℕ → Bool
list_empty h head = h.next head == head

abbrev pub list_first : Heap → ℕ → ℕ
list_first h head = h.next head
