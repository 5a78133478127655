-- ===== src/ListHead/Tests.antt =====
-- Lists of include/list.h at concrete addresses, and the theorems on them.
use s.Base.{◌≡◌, refl, [], ◌∷◌}
use s.ListHead.{Heap, init_list_head, list_add, list_add_tail, list_del, list_first}
use s.ListHead.Links.{IsQueue}
use s.ListHead.Insert.{init_list_head-IsQueue, list_add-IsQueue, list_add_tail-IsQueue}
use s.ListHead.Delete.{list_del-IsQueue}

abbrev blank : Heap
blank = record { next = λ a. 0; prev = λ a. 0 }

abbrev empty : Heap
empty = init_list_head blank 11

abbrev one : Heap
one = list_add_tail empty 1 11

abbrev two : Heap
two = list_add_tail one 2 11

abbrev three : Heap
three = list_add two 3 11

one-IsQueue : IsQueue one 11 (1 ∷ [])
one-IsQueue = list_add_tail-IsQueue empty 1 11 [] (init_list_head-IsQueue blank 11) refl

three-IsQueue : IsQueue three 11 (3 ∷ 1 ∷ 2 ∷ [])
three-IsQueue =
    list_add-IsQueue two 3 11 (1 ∷ 2 ∷ [])
      (list_add_tail-IsQueue one 2 11 (1 ∷ []) one-IsQueue refl) refl

list_del-IsQueue_example : IsQueue (list_del three 1) 11 (3 ∷ 2 ∷ [])
list_del-IsQueue_example = list_del-IsQueue three 11 (3 ∷ []) 1 (2 ∷ []) three-IsQueue

first_run : list_first (list_del three 3) 11 ≡ 1
unfolding list_add list_add_tail list_del init_list_head
first_run = refl
