-- ===== src/File.antt =====
-- kernel/file.c, and pipealloc of kernel/pipe.c: the table of open files over the file system, the pipes
-- and the page allocator. A file is known by its index in the table, a pipe by the address of its
-- page. ftable.lock is held through each access of the table; `none` is a panic or a wait. The processes
-- that pipeclose wakes are of Proc.
pub mod Transfer
use kali.Prelude.{
  ℕ, zero, suc, ◌+◌, ◌-◌, ◌*◌, Bool, true, false, not, ◌&&◌, ◌||◌, Option, none, some, ◌==◌, ltb,
  if◌then◌else◌, update, M, pure, panic, panic_if, gets, modify, ◌>>=◌, ◌>>◌,
}
use kali.Log.{begin_op, end_op, end_commit}
use kali.Kalloc.{Kmem, kalloc, kfree}
use kali.Fs.{Fs}
use kali.Fs.Inodes.Blocks.{iput}
use kali.Pipe.{Pipe, fresh, pipeclose}

abbrev pub nfile : ℕ
nfile = 100

pub data FileType : Type 0 where
  fd_none : FileType
  fd_pipe : FileType
  fd_inode : FileType
  fd_device : FileType

-- `struct file`
pub record File : Type 0 where
  pub type : FileType
  pub ref : ℕ
  pub readable : Bool
  pub writable : Bool
  pub pipe : ℕ
  pub ip : ℕ
  pub off : ℕ
  pub major : ℕ

-- `ftable`, with what the files stand on.
pub record Files : Type 0 where
  pub kmem : Kmem
  pub fs : Fs
  pub file : ℕ → File
  pub pipes : ℕ → Pipe

-- A call of the file system, and one of the page allocator and of vm.c.
abbrev pub on_fs : {A : Type 0} → M Fs A → M Files A
on_fs m s = elim (m s.fs) [ none ↦ none | some (a, fs) ↦ some (a, record s { fs = fs }) ]

abbrev pub on_kmem : {A : Type 0} → M Kmem A → M Files A
on_kmem m s = elim (m s.kmem) [ none ↦ none | some (a, k) ↦ some (a, record s { kmem = k }) ]

abbrev pub set_file : (f : ℕ) → (File → File) → M Files (Unit {0})
set_file f g = modify (λ s. record s { file = update s.file f (g (s.file f)) })

-- begin_op and end_op around calls of the file system.
abbrev pub start_op : M Fs (Unit {0})
start_op s = elim (begin_op s.log) [ none ↦ none | some l ↦ some (tt, record s { log = l }) ]

abbrev pub finish_op : M Fs (Unit {0})
finish_op s = elim (end_op s.log) [
  | none ↦ none
  | some (l, false) ↦ some (tt, record s { log = l })
  | some (l, true) ↦ let (l', v) = end_commit l s.view in some (tt, record s { log = l'; view = v })
]

-- The first file from `f` on without a reference.
unfoldable pub find_free : (ℕ → File) → (f rounds : ℕ) → Option ℕ
find_free table f zero = none
find_free table f (suc rounds) =
    let rest = find_free table (f + 1) rounds in if (table f).ref == 0 then some f else rest

abbrev pub referred : File → File
referred x = record x { ref = 1 }

-- The rest of filealloc.
unfoldable pub take_file : Option ℕ → M Files (Option ℕ)
take_file none = pure none
take_file (some f) = do set_file f referred; pure (some f)

unfoldable pub filealloc : M Files (Option ℕ)
unfolding find_free take_file
filealloc = gets (λ s. find_free s.file 0 nfile) >>= take_file

unfoldable pub filedup : (f : ℕ) → M Files ℕ
filedup f = do
  x ← gets (λ s. s.file f)
  panic_if (ltb x.ref 1)
  set_file f (λ x. record x { ref = x.ref + 1 })
  pure f

-- pipeclose on the pipe in the page `pi`; `end` is the first address after the kernel.
pub close_pipe : (end pi : ℕ) → (writable : Bool) → M Files (Unit {0})
close_pipe end pi writable = do
  p ← gets (λ s. s.pipes pi)
  modify (λ s. record s { pipes = update s.pipes pi (pipeclose p writable).0 })
  if (pipeclose p writable).1
      then on_kmem (λ k. elim (kfree end pi k) [ none ↦ none | some k' ↦ some (tt, k') ])
      else pure tt

-- The end of fileclose, for the copy of a file without a reference.
pub end_use : (end pid : ℕ) → File → FileType → M Files (Unit {0})
end_use end pid ff fd_none = pure tt
end_use end pid ff fd_pipe = close_pipe end ff.pipe ff.writable
end_use end pid ff fd_inode = do on_fs start_op; on_fs (iput pid ff.ip); on_fs finish_op
end_use end pid ff fd_device = do on_fs start_op; on_fs (iput pid ff.ip); on_fs finish_op

abbrev pub closed : File → File
closed x = record x { ref = 0; type = fd_none }

unfoldable pub fileclose : (end pid f : ℕ) → M Files (Unit {0})
unfolding end_use
fileclose end pid f = do
  x ← gets (λ s. s.file f)
  panic_if (ltb x.ref 1)
  if ltb 0 (x.ref - 1)
      then set_file f (λ x. record x { ref = x.ref - 1 })
      else set_file f closed >> end_use end pid (record x { ref = x.ref - 1 }) x.type

abbrev pub alloc_pipe : M Files ℕ
alloc_pipe = on_kmem (λ k. some (kalloc k))

-- The end of a pipe. `data` is behind the 24 bytes of the lock.
abbrev pub pipe_end : (pi : ℕ) → (writes : Bool) → File → File
pipe_end pi writes x = record x {
  type = fd_pipe;
  readable = not writes;
  writable = writes;
  pipe = pi;
}

-- pipealloc behind the allocations.
pub join_ends : (f0 f1 pi : ℕ) → M Files (Option (ℕ × ℕ))
join_ends f0 f1 pi = do
  modify (λ s. record s { pipes = update s.pipes pi (fresh (λ i. s.kmem.mem (pi + 24 + i))) })
  set_file f0 (pipe_end pi false)
  set_file f1 (pipe_end pi true)
  pure (some (f0, f1))

-- pipealloc behind the first file, and behind both.
pub with_ends : (end pid f0 f1 : ℕ) → M Files (Option (ℕ × ℕ))
with_ends end pid f0 f1 = do
  pi ← alloc_pipe
  if pi == 0 then fileclose end pid f0 >> fileclose end pid f1 >> pure none else join_ends f0 f1 pi

pub with_end : (end pid f0 : ℕ) → Option ℕ → M Files (Option (ℕ × ℕ))
with_end end pid f0 none = do fileclose end pid f0; pure none
with_end end pid f0 (some f1) = with_ends end pid f0 f1

-- The two ends, or none for -1.
pub pipealloc : (end pid : ℕ) → M Files (Option (ℕ × ℕ))
pipealloc end pid = do
  f0 ← filealloc
  elim f0 [ none ↦ pure none | some f0 ↦ filealloc >>= with_end end pid f0 ]
