-- ===== src/Calls.antt =====
-- kernel/sysfile.c: the calls on file descriptors. `me` is the running process; the arguments are those that
-- argint, argaddr and argstr fetch, and `none` is a panic or a wait.
pub mod Dup
mod Tests
pub mod Args
pub mod Process
pub mod Names
pub mod Nodes
pub mod Open
pub mod Exec
use kali.Prelude.{
  ℕ, zero, suc, ◌+◌, ◌-◌, Bool, true, false, not, ◌&&◌, ◌||◌, Option, none, some, List, ◌==◌, ltb,
  leb, if◌then◌else◌, update, ℤ, pos, negsuc, M, pure, panic, gets, modify, ◌>>=◌, ◌>>◌,
}
use kali.Fs.Inodes.Content.{Stat}
use kali.File.{Files, filedup, fileclose, pipealloc}
use kali.File.Transfer.{filestat, fileread, filewrite}
use kali.Proc.{Proc}
use kali.Proc.Lifecycle.{nofile, World, on_files, this_proc, set_proc}

abbrev pub fail : M World ℤ
fail = pure (negsuc 0)

abbrev pub open_fd : (fd : ℕ) → Option ℕ → Option (ℕ × ℕ)
open_fd fd none = none
open_fd fd (some f) = some (fd, f)

-- The descriptor and the file.
abbrev pub argfd : (me : ℕ) → ℤ → M World (Option (ℕ × ℕ))
argfd me (negsuc k) = pure none
argfd me (pos fd) = do
  p ← this_proc me
  pure (if leb nofile fd then none else open_fd fd (p.ofile fd))

-- A round of the search of fdalloc, with the result of the next rounds.
abbrev pub first_fd : (fd : ℕ) → (rest : Option ℕ) → Option ℕ → Option ℕ
first_fd fd rest none = some fd
first_fd fd rest (some f) = rest

-- The first free descriptor from `fd` on.
unfoldable pub find_fd : (ℕ → Option ℕ) → (fd rounds : ℕ) → Option ℕ
find_fd ofile fd zero = none
find_fd ofile fd (suc rounds) = first_fd fd (find_fd ofile (fd + 1) rounds) (ofile fd)

abbrev pub set_fd : (me fd : ℕ) → Option ℕ → M World (Unit {0})
set_fd me fd f = set_proc me (λ p. record p { ofile = update p.ofile fd f })

unfoldable pub take_fd : (me f : ℕ) → Option ℕ → M World (Option ℕ)
take_fd me f none = pure none
take_fd me f (some fd) = do set_fd me fd (some f); pure (some fd)

unfoldable pub fdalloc : (me f : ℕ) → M World (Option ℕ)
unfolding find_fd take_fd
fdalloc me f = gets (λ s. find_fd (s.table me).ofile 0 nofile) >>= take_fd me f

-- sys_dup behind fdalloc.
unfoldable pub dup_end : (f : ℕ) → Option ℕ → M World ℤ
dup_end f none = fail
dup_end f (some fd) = do on_files (filedup f); pure (pos fd)

-- sys_dup behind argfd.
unfoldable pub dup_found : (me : ℕ) → Option (ℕ × ℕ) → M World ℤ
dup_found me none = fail
dup_found me (some (fd, f)) = fdalloc me f >>= dup_end f

unfoldable pub sys_dup : (me : ℕ) → ℤ → M World ℤ
unfolding dup_found
sys_dup me n = argfd me n >>= dup_found me

-- The calls to memory and devices are those of fileread and filewrite.
module _ (copyout : ℕ → List ℕ → Bool) (killed : Bool)
    (devsw : ℕ → Option (ℕ → ℤ → ℤ × List ℕ)) where
  pub sys_read : (me : ℕ) → (fd : ℤ) → (addr : ℕ) → (n : ℤ) → M World (ℤ × List ℕ)
  sys_read me fd addr n = do
    found ← argfd me fd
    p ← this_proc me
    elim found [
      | none ↦ pure (negsuc 0, List.[])
      | some (_, f) ↦ on_files (fileread copyout killed devsw p.pid f addr n)
    ]

module _ (copyin : ℕ → ℕ → Bool × List ℕ) (byte_in : ℕ → Option ℕ) (killed : ℕ → Bool)
    (devsw : ℕ → Option (ℕ → ℤ → ℤ × List ℕ)) where
  pub sys_write : (me : ℕ) → (fd : ℤ) → (addr : ℕ) → (n : ℤ) → M World ℤ
  sys_write me fd addr n = do
    found ← argfd me fd
    p ← this_proc me
    elim found [
      | none ↦ fail
      | some (_, f) ↦ on_files (filewrite copyin byte_in killed devsw p.pid f addr n)
    ]

pub sys_close : (end me : ℕ) → ℤ → M World ℤ
sys_close end me n = do
  found ← argfd me n
  p ← this_proc me
  elim found [
    | none ↦ fail
    | some (fd, f) ↦ set_fd me fd none >> on_files (fileclose end p.pid f) >> pure (pos 0)
  ]

pub sys_fstat : (copyout : Stat → Bool) → (me : ℕ) → ℤ → M World ℤ
sys_fstat copyout me n = do
  found ← argfd me n
  p ← this_proc me
  elim found [ none ↦ fail | some (_, f) ↦ on_files (filestat copyout p.pid f) ]

-- The two ends of a pipe without their descriptors.
pub close_both : (end me rf wf : ℕ) → M World ℤ
close_both end me rf wf = do
  p ← this_proc me
  on_files (fileclose end p.pid rf)
  on_files (fileclose end p.pid wf)
  fail

-- `copyout` says whether the copy of a descriptor to an address succeeds.
module _ (copyout : ℕ → ℕ → Bool) (end me fdarray : ℕ) where
  -- sys_pipe with both descriptors, with the first, and with the ends only.
  pub with_fds : (rf wf fd0 fd1 : ℕ) → M World ℤ
  with_fds rf wf fd0 fd1 =
      if copyout fdarray fd0 && copyout (fdarray + 4) fd1
      then pure (pos 0)
      else set_fd me fd0 none >> set_fd me fd1 none >> close_both end me rf wf

  pub with_fd : (rf wf fd0 : ℕ) → Option ℕ → M World ℤ
  with_fd rf wf fd0 none = do set_fd me fd0 none; close_both end me rf wf
  with_fd rf wf fd0 (some fd1) = with_fds rf wf fd0 fd1

  pub with_pipe : (rf wf : ℕ) → Option ℕ → M World ℤ
  with_pipe rf wf none = close_both end me rf wf
  with_pipe rf wf (some fd0) = fdalloc me wf >>= with_fd rf wf fd0

  pub sys_pipe : M World ℤ
  sys_pipe = do
    p ← this_proc me
    ends ← on_files (pipealloc end p.pid)
    elim ends [ none ↦ fail | some (rf, wf) ↦ fdalloc me rf >>= with_pipe rf wf ]
