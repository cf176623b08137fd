-- ===== src/Exec/Tests.antt =====
-- kernel/exec.c: two argument strings on a stack of one page.
use kali.Prelude.{◌%◌, ◌≡◌, refl, some, [], ◌∷◌, arith}
use kali.Strings.{Memory, memmove, copy_up, copy_down, strlen, strlen_from}
use kali.Kalloc.{Kmem, store_le, load_le}
use kali.Vm.{px, walk, walk_loop, next_table}
use kali.Vm.Copy.{writable_page, copyout, copyout_loop}
use kali.Exec.{push_args}
use kali.Exec.Stack.{IsStacked, push_args-IsStacked}

-- Tables at 4096, 8192 and 12288 map the second page of the user to 16384. In the rest of the memory there is a
-- string of one character at 20735, and one of two at 20734.
abbrev tables : Memory
tables = store_le (store_le (store_le (λ a. a % 256) 4096 2049 8) 8192 3073 8) 12296 4119 8

abbrev mapped : Kmem
mapped = record { freelist = 0; mem = tables }

abbrev two_pushed : Kmem
two_pushed = record { freelist = 0; mem = memmove (memmove tables 20464 20735 2) 20448 20734 3 }

pushed_lem :
    push_args 4096 4096 0 8192 (20735 ∷ 20734 ∷ []) mapped
    ≡ some (some (8160, 8176 ∷ 8160 ∷ []), two_pushed)
unfolding push_args strlen strlen_from copyout copyout_loop writable_page walk walk_loop next_table
    px store_le load_le memmove copy_up copy_down
pushed_lem = refl

push_args-IsStacked_example :
    IsStacked 4096 4096 0 8192 (20735 ∷ 20734 ∷ []) mapped 8160 (8176 ∷ 8160 ∷ []) two_pushed
push_args-IsStacked_example =
    push_args-IsStacked 4096 4096 0 8192 (20735 ∷ 20734 ∷ []) mapped 8160 (8176 ∷ 8160 ∷ [])
      two_pushed (omega arith) (omega arith) (omega arith) pushed_lem
