-- ===== src/Proc/Fork.antt =====
-- kernel/proc.c: userinit, fork, exit and wait with the memory and the files of the processes. `me` is the
-- running process; what sched does is of Proc.System.
use kali.Prelude.{
  ℕ, zero, suc, ◌+◌, ◌-◌, ◌%◌, ◌^◌, Bool, true, false, not, Option, none, some, List, [], ◌∷◌, ◌==◌,
  ltb, if◌then◌else◌, update, ℤ, pos, negsuc, M, pure, panic, panic_if, gets, modify, ◌>>=◌, ◌>>◌,
}
use kali.Strings.{safestrcpy}
use kali.Kalloc.{Kmem, pgsize, store_le}
use kali.Vm.{pte_w, failed}
use kali.Vm.Space.{move_bytes, uvmfirst, uvmalloc, uvmdealloc, uvmcopy}
use kali.Vm.Copy.{copyin, copyout}
use kali.Fs.Inodes.{idup}
use kali.Fs.Inodes.Blocks.{iput}
use kali.Fs.Paths.{namei}
use kali.File.{on_fs, start_op, finish_op, filedup, fileclose}
use kali.Proc.{
  runnable, nproc, exit_locked, exited_child, no_exit, scan, wait_end, Outcome, returns,
}
use kali.Proc.Lifecycle.{nofile, World, on_files, on_mem, this_proc, set_proc, freeproc, allocproc}

-- Words of the trapframe, by their offsets.
abbrev pub set_register : (trapframe offset v : ℕ) → M Kmem (Unit {0})
set_register trapframe offset v =
    modify (λ k. record k { mem = store_le k.mem (trapframe + offset) v 8 })

-- safestrcpy of one name to another.
abbrev pub named_after : (old from : ℕ → ℕ) → ℕ → ℕ
named_after old from i = safestrcpy (λ a. if ltb a 16 then old a else from (a - 16)) 0 16 (pos 16) i

abbrev char_at : List ℕ → ℕ → ℕ
char_at [] i = 0
char_at (c ∷ cs) zero = c
char_at (c ∷ cs) (suc i) = char_at cs i

-- "initcode"
abbrev pub initcode_name : ℕ → ℕ
initcode_name = char_at (105 ∷ 110 ∷ 105 ∷ 116 ∷ 99 ∷ 111 ∷ 100 ∷ 101 ∷ [])

module _ (end trampoline forkret : ℕ) where
  -- `initcode` is the address of the array of 52 bytes. The result of allocproc is used unchecked:
  -- without a process the first access of it is a fault.
  pub userinit : (initcode : ℕ) → M World (Unit {0})
  userinit initcode = do
    found ← allocproc end trampoline forkret
    modify (λ s. record s { initproc = found })
    elim found [
      | none ↦ panic
      | some i ↦ do
        p ← this_proc i
        on_mem (uvmfirst p.pagetable initcode 52)
        set_proc i (λ p. record p { sz = pgsize })
        on_mem (set_register p.trapframe 24 0)
        on_mem (set_register p.trapframe 48 pgsize)
        set_proc i (λ p. record p { name = named_after p.name initcode_name })
        cwd ← on_files (on_fs (namei p.pid 0 (47 ∷ [])))
        set_proc i (λ p. record p { cwd = cwd })
        set_proc i (λ p. record p { state = runnable })
    ]

  -- The loop over the open files of fork.
  pub dup_files : (me np fd rounds : ℕ) → M World (Unit {0})
  dup_files me np fd zero = pure tt
  dup_files me np fd (suc rounds) = do
    p ← this_proc me
    elim (p.ofile fd) [
      | none ↦ pure tt
      | some f ↦ on_files (filedup f) >>= λ f.
          set_proc np (λ c. record c { ofile = update c.ofile fd (some f) })
    ]
    dup_files me np (fd + 1) rounds

  pub dup_cwd : (np : ℕ) → Option ℕ → M World (Unit {0})
  dup_cwd np none = panic
  dup_cwd np (some d) = do
    d ← on_files (on_fs (idup d))
    set_proc np (λ c. record c { cwd = some d })

  -- fork behind uvmcopy.
  pub copied_child : (me np : ℕ) → M World ℤ
  copied_child me np = do
    p ← this_proc me
    c ← this_proc np
    set_proc np (λ c. record c { sz = p.sz })
    on_mem (move_bytes c.trapframe p.trapframe 288)
    on_mem (set_register c.trapframe 112 0)
    dup_files me np 0 nofile
    dup_cwd np p.cwd
    set_proc np (λ c. record c { name = named_after c.name p.name })
    set_proc np (λ c. record c { parent = some me })
    set_proc np (λ c. record c { state = runnable })
    pure (pos c.pid)

  pub fork : (me : ℕ) → M World ℤ
  fork me = do
    found ← allocproc end trampoline forkret
    elim found [
      | none ↦ pure (negsuc 0)
      | some np ↦ do
        p ← this_proc me
        c ← this_proc np
        r ← on_mem (uvmcopy end p.pagetable c.pagetable p.sz)
        if failed r then freeproc end np >> pure (negsuc 0) else copied_child me np
    ]

-- `sz + n` in 64 bits
abbrev pub grown : (sz : ℕ) → ℤ → ℕ
grown sz (pos n) = (sz + n) % 2 ^ 64
grown sz (negsuc k) = (sz + (2 ^ 64 - (k + 1))) % 2 ^ 64

pub set_size : (me sz : ℕ) → M World ℤ
set_size me sz = do set_proc me (λ p. record p { sz = sz }); pure (pos 0)

pub growproc : (end me : ℕ) → ℤ → M World ℤ
growproc end me (pos zero) = do p ← this_proc me; set_size me p.sz
growproc end me (pos (suc n)) = do
  p ← this_proc me
  sz ← on_mem (uvmalloc end p.pagetable p.sz (grown p.sz (pos (suc n))) pte_w)
  if sz == 0 then pure (negsuc 0) else set_size me sz
growproc end me (negsuc k) = do
  p ← this_proc me
  sz ← on_mem (uvmdealloc end p.pagetable p.sz (grown p.sz (negsuc k)))
  set_size me sz

-- The loop over the open files of exit.
pub close_files : (end me fd rounds : ℕ) → M World (Unit {0})
close_files end me fd zero = pure tt
close_files end me fd (suc rounds) = do
  p ← this_proc me
  elim (p.ofile fd) [
    | none ↦ pure tt
    | some f ↦
        on_files (fileclose end p.pid f)
        >> set_proc me (λ p. record p { ofile = update p.ofile fd none })
  ]
  close_files end me (fd + 1) rounds

pub put_cwd : (pid : ℕ) → Option ℕ → M World (Unit {0})
put_cwd pid none = panic
put_cwd pid (some d) = on_files (on_fs (iput pid d))

-- exit up to sched.
pub exit : (end me : ℕ) → (status : ℤ) → M World (Unit {0})
exit end me status = do
  init ← gets (λ s. s.initproc)
  elim init [
    | none ↦ panic
    | some init ↦ do
      panic_if (me == init)
      close_files end me 0 nofile
      p ← this_proc me
      on_files (on_fs start_op)
      put_cwd p.pid p.cwd
      on_files (on_fs finish_op)
      set_proc me (λ p. record p { cwd = none })
      modify (λ s. record s { table = exit_locked init me status s.table })
  ]

-- The copy of the exit status of child `c` to `addr`, of 4 bytes; `kernel` is the address of the
-- field in the process table.
pub copy_status : (me addr kernel : ℕ) → M World Bool
copy_status me addr kernel =
    if addr == 0
    then pure true
    else do p ← this_proc me; r ← on_mem (copyout p.pagetable addr kernel 4); pure (not (failed r))

-- A round of wait: with the child's page table and pages freed. `status` are the addresses of the
-- fields for the exit status.
pub wait : (end : ℕ) → (status : ℕ → ℕ) → (me addr : ℕ) → M World Outcome
wait end status me addr = do
  found ← gets (λ s. scan s.table me 0 nproc false)
  elim found [
    | exited_child c ↦ do
      copied ← copy_status me addr (status c)
      p ← this_proc c
      if copied then freeproc end c >> pure (returns (pos p.pid)) else pure (returns (negsuc 0))
    | no_exit havekids ↦ λ s.
        let (o, table) = wait_end true me s.table (no_exit havekids) in
        some (o, record s { table = table })
  ]

pub either_copyout : (user_dst : Bool) → (me dst src len : ℕ) → M World ℤ
either_copyout user_dst me dst src len =
    if user_dst
    then this_proc me >>= (λ p. on_mem (copyout p.pagetable dst src len))
    else on_mem (move_bytes dst src len) >> pure (pos 0)

pub either_copyin : (user_src : Bool) → (me dst src len : ℕ) → M World ℤ
either_copyin user_src me dst src len =
    if user_src
    then this_proc me >>= (λ p. on_mem (copyin p.pagetable dst src len))
    else on_mem (move_bytes dst src len) >> pure (pos 0)
