-- ===== src/Exec.antt =====
-- kernel/exec.c: exec and loadseg for the process `me`. The local arrays of exec are in the kernel's memory;
-- of these, `ustack` is an address, since copyout reads it, and the headers are the bytes that readi gives.
pub mod Stack
mod Tests
use Prim.Native.Nat.{bit_or}
use kali.Prelude.{
  ℕ, zero, suc, ◌+◌, ◌-◌, ◌*◌, ◌/◌, ◌%◌, ◌^◌, Bool, true, false, not, ◌||◌, Option, none, some,
  List, [], ◌∷◌, ◌==◌, ltb, leb, if◌then◌else◌, length, take, drop, ℤ, pos, negsuc, M, pure, panic,
  panic_if, gets, modify, ◌>>=◌, ◌>>◌,
}
use kali.Strings.{Memory, strlen}
use kali.Kalloc.{Kmem, pgsize, pgroundup, store_le}
use kali.Vm.{pte_w, pte_x, failed, walkaddr, has}
use kali.Vm.Space.{uvmalloc, uvmclear}
use kali.Vm.Copy.{copyout}
use kali.Fs.Inodes.{ilock}
use kali.Fs.Inodes.Blocks.{iunlockput}
use kali.Fs.Inodes.Content.{readi}
use kali.Fs.Paths.{namei}
use kali.File.{on_fs, start_op, finish_op}
use kali.Proc.{Proc}
use kali.Proc.Lifecycle.{
  World, on_files, on_mem, this_proc, set_proc, proc_pagetable, proc_freepagetable,
}
use kali.Proc.Fork.{set_register, named_after}

-- MAXARG and USERSTACK
abbrev pub maxarg : ℕ
maxarg = 32

abbrev pub userstack : ℕ
userstack = 1

abbrev pub flags2perm : (flags : ℕ) → ℕ
flags2perm flags = bit_or (if has 1 flags then pte_x else 0) (if has 2 flags then pte_w else 0)

-- A field of `n` bytes at `o` in a header, the lowest byte first.
abbrev pub little_endian : List ℕ → ℕ
little_endian [] = 0
little_endian (c ∷ cs) = c + 256 * little_endian cs

abbrev pub field : (o n : ℕ) → List ℕ → ℕ
field o n bytes = little_endian (take n (drop o bytes))

-- A `uint64` difference.
abbrev pub sub64 : ℕ → ℕ → ℕ
sub64 a b = (a + (2 ^ 64 - b)) % 2 ^ 64

-- readi to an address of the kernel, where a copy succeeds.
pub read_at : (i off n : ℕ) → M World (Option (List ℕ))
read_at i off n = on_files (on_fs (readi (λ dst bytes. true) i 0 off n))

pub move_in : Memory → (pa : ℕ) → List ℕ → Memory
move_in m pa [] = m
move_in m pa (c ∷ cs) = move_in (λ a. if pa == a then c else m a) (pa + 1) cs

-- Whether readi gave `n` bytes.
abbrev pub is_whole : ℕ → Option (List ℕ) → Bool
is_whole n none = false
is_whole n (some bytes) = length bytes == n

abbrev pub bytes_read : Option (List ℕ) → List ℕ
bytes_read none = []
bytes_read (some bytes) = bytes

abbrev pub chunk_of : (left : ℕ) → ℕ
chunk_of left = if ltb left pgsize then left else pgsize

-- The loop of loadseg from `i` on; a round is a page.
pub loadseg_loop : (rounds pagetable va ip offset sz i : ℕ) → M World ℤ
loadseg_loop zero pagetable va ip offset sz i = pure (pos 0)
loadseg_loop (suc rounds) pagetable va ip offset sz i = do
  pa ← on_mem (walkaddr pagetable (va + i))
  panic_if (pa == 0)
  r ← read_at ip ((offset + i) % 2 ^ 32) (chunk_of (sz - i))
  on_mem (modify (λ k. record k { mem = move_in k.mem pa (bytes_read r) }))
  if is_whole (chunk_of (sz - i)) r
      then loadseg_loop rounds pagetable va ip offset sz (i + pgsize)
      else pure (negsuc 0)

pub loadseg : (pagetable va ip offset sz : ℕ) → M World ℤ
loadseg pagetable va ip offset sz =
    loadseg_loop ((sz + pgsize - 1) / pgsize) pagetable va ip offset sz 0

-- Whether all went well, and the size so far, with which `bad` frees the page table.
abbrev pub Loaded : Type 0
Loaded = Bool × ℕ

-- The tests of a header for a segment to load; the sum has 64 bits.
abbrev pub is_bad_segment : (vaddr filesz memsz : ℕ) → Bool
is_bad_segment vaddr filesz memsz =
    ltb memsz filesz || ltb ((vaddr + memsz) % 2 ^ 64) vaddr || not (vaddr % pgsize == 0)

module _ (end pagetable ip : ℕ) where
  -- A segment to load, by its program header.
  pub load_segment : (sz : ℕ) → (ph : List ℕ) → M World Loaded
  load_segment sz ph =
      let vaddr = field 16 8 ph in
      let filesz = field 32 8 ph in
      let memsz = field 40 8 ph in
      let new = (vaddr + memsz) % 2 ^ 64 in
      if is_bad_segment vaddr filesz memsz
      then pure (false, sz)
      else on_mem (uvmalloc end pagetable sz new (flags2perm (field 4 4 ph))) >>= λ sz1.
          if sz1 == 0
          then pure (false, sz)
          else loadseg pagetable vaddr ip (field 8 8 ph % 2 ^ 32) (filesz % 2 ^ 32) >>= λ r.
              pure (not (failed r), sz1)

  -- The loop over the `rounds` program headers that are left.
  pub load_loop : (rounds off sz : ℕ) → M World Loaded
  load_loop zero off sz = pure (true, sz)
  load_loop (suc rounds) off sz = read_at ip off 56 >>= λ r.
      let next = load_loop rounds ((off + 56) % 2 ^ 32) in
      let segment =
        load_segment sz (bytes_read r) >>= λ o. if o.0 then next o.1 else pure (false, o.1) in
      if not (is_whole 56 r)
      then pure (false, sz)
      else if field 0 4 (bytes_read r) == 1
      then segment
      else next sz

-- The stack pointer below `n` more bytes, aligned.
abbrev pub lowered : (sp n : ℕ) → ℕ
lowered sp n = sub64 sp n - sub64 sp n % 16

-- strlen of a string that ends within a page; without an end it reads on, which is not modelled.
abbrev pub string_size : (s : ℕ) → M Kmem ℕ
string_size s k = elim (strlen pgsize k.mem s) [ none ↦ none | some n ↦ some (n + 1, k) ]

abbrev pub pushed : (u : ℕ) → Option (ℕ × List ℕ) → Option (ℕ × List ℕ)
pushed u none = none
pushed u (some (sp, us)) = some (sp, u ∷ us)

-- The loop over the argument strings behind `argc` of them: the stack pointer and what it stores to ustack.
pub push_args : (pagetable stackbase argc sp : ℕ) → List ℕ → M Kmem (Option (ℕ × List ℕ))
push_args pagetable stackbase argc sp [] = pure (some (sp, []))
push_args pagetable stackbase argc sp (s ∷ argv) =
    let copied = string_size s >>= λ n.
    let u = lowered sp n in
    let next = copyout pagetable u s n >>= λ r.
    if failed r
    then pure none
    else push_args pagetable stackbase (argc + 1) u argv >>= λ rest. pure (pushed u rest) in
    if ltb u stackbase then pure none else next in
    if leb maxarg argc then pure none else copied

-- The entries of ustack, with the 0 behind them, from `at` on.
pub store_words : Memory → (at : ℕ) → List ℕ → Memory
store_words m at [] = store_le m at 0 8
store_words m at (u ∷ us) = store_words (store_le m at u 8) (at + 8) us

-- The stack pointer in the end.
pub push_pointers : (pagetable stackbase ustack : ℕ) → Option (ℕ × List ℕ) → M Kmem (Option ℕ)
push_pointers pagetable stackbase ustack none = pure none
push_pointers pagetable stackbase ustack (some (sp, us)) =
    let size = (length us + 1) * 8 in
    let top = lowered sp size in
    if ltb top stackbase then pure none else do
      modify (λ k. record k { mem = store_words k.mem ustack us })
      r ← copyout pagetable top ustack size
      pure (if failed r then none else some top)

-- What is behind the last slash; `last` is from where the name may be.
pub last_element : (s last : List ℕ) → List ℕ
last_element [] last = last
last_element (c ∷ s) last = last_element s (if c == b'/' then s else last)

abbrev pub char_of : List ℕ → ℕ → ℕ
char_of [] i = 0
char_of (c ∷ cs) zero = c
char_of (c ∷ cs) (suc i) = char_of cs i

module _ (end trampoline me ustack : ℕ) (path : List ℕ) (argv : List ℕ) where
  -- `bad` with a page table and no inode.
  pub bad_image : (pagetable sz : ℕ) → M World ℤ
  bad_image pagetable sz = do on_mem (proc_freepagetable end pagetable sz); pure (negsuc 0)

  -- The inode, and the transaction, are given up.
  pub close_file : (pid ip : ℕ) → M World (Unit {0})
  close_file pid ip = do on_files (on_fs (iunlockput pid ip)); on_files (on_fs finish_op)

  pub commit_image : (pagetable sz entry sp : ℕ) → M World ℤ
  commit_image pagetable sz entry sp = do
    p ← this_proc me
    on_mem (set_register p.trapframe 120 sp)
    set_proc me (λ p. record p {
      name = named_after p.name (char_of (last_element path path));
      pagetable = pagetable;
      sz = sz;
    })
    on_mem (set_register p.trapframe 24 entry)
    on_mem (set_register p.trapframe 48 sp)
    on_mem (proc_freepagetable end p.pagetable p.sz)
    pure (pos (length argv))

  -- The stack of `sz`, behind the two pages more.
  pub with_stack : (pagetable sz entry : ℕ) → M World ℤ
  with_stack pagetable sz entry = do
    on_mem (uvmclear pagetable (sz - (userstack + 1) * pgsize))
    args ← on_mem (push_args pagetable (sz - userstack * pgsize) 0 sz argv)
    sp ← on_mem (push_pointers pagetable (sz - userstack * pgsize) ustack args)
    elim sp [ none ↦ bad_image pagetable sz | some sp ↦ commit_image pagetable sz entry sp ]

  -- exec behind the loop over the segments.
  pub with_image : (pid ip pagetable entry : ℕ) → Loaded → M World ℤ
  with_image pid ip pagetable entry (false, sz) = do
    on_mem (proc_freepagetable end pagetable sz)
    close_file pid ip
    pure (negsuc 0)
  with_image pid ip pagetable entry (true, sz) = do
    close_file pid ip
    sz1 ←
        on_mem
          (uvmalloc end pagetable (pgroundup sz) (pgroundup sz + (userstack + 1) * pgsize) pte_w)
    if sz1 == 0 then bad_image pagetable (pgroundup sz) else with_stack pagetable sz1 entry

  -- exec behind readi of the header `elf`.
  pub with_header : (pid ip : ℕ) → (elf : List ℕ) → M World ℤ
  with_header pid ip elf = do
    p ← this_proc me
    pagetable ← on_mem (proc_pagetable end trampoline p.trapframe)
    if pagetable == 0
        then close_file pid ip >> pure (negsuc 0)
        else load_loop end pagetable ip (field 56 2 elf) (field 32 8 elf % 2 ^ 32) 0
          >>= with_image pid ip pagetable (field 24 8 elf)

  pub with_inode : (pid ip : ℕ) → M World ℤ
  with_inode pid ip = do
    on_files (on_fs (ilock pid ip))
    r ← read_at ip 0 64
    if is_whole 64 r
        then (if field 0 4 (bytes_read r) == 0x464C457F
            then with_header pid ip (bytes_read r)
            else close_file pid ip >> pure (negsuc 0))
        else close_file pid ip >> pure (negsuc 0)

  pub with_found : (pid : ℕ) → Option ℕ → M World ℤ
  with_found pid none = do on_files (on_fs finish_op); pure (negsuc 0)
  with_found pid (some ip) = with_inode pid ip

  -- The current directory, which each process has.
  pub exec_in : (pid : ℕ) → Option ℕ → M World ℤ
  exec_in pid none = panic
  exec_in pid (some cwd) = do
    on_files (on_fs start_op)
    ip ← on_files (on_fs (namei pid cwd path))
    with_found pid ip

  pub exec : M World ℤ
  exec = do p ← this_proc me; exec_in p.pid p.cwd
