-- ===== src/File/Transfer.antt =====
-- kernel/file.c: reads and writes of a file. The caller's memory, the devices and whether the caller is
-- killed are parameters.
use kali.Prelude.{
  ℕ, zero, suc, ◌+◌, ◌-◌, ◌*◌, ◌/◌, ◌^◌, Bool, false, not, Option, none, some, List, [], ◌∷◌, ◌==◌,
  ltb, if◌then◌else◌, length, update, ℤ, pos, negsuc, pos_part, M, pure, panic, gets, ◌>>=◌, ◌>>◌,
}
use kali.Log.{bsize, max_op_blocks}
use kali.Fs.{Fs}
use kali.Fs.Inodes.{ilock, iunlock}
use kali.Fs.Inodes.Content.{Stat, stati, readi, writei}
use kali.Pipe.{Pipe, Run, returns, sleeps, piperead, pipewrite}
use kali.File.{
  File, Files, FileType, fd_none, fd_pipe, fd_inode, fd_device, on_fs, set_file, start_op,
  finish_op,
}

abbrev pub ndev : ℕ
ndev = 10

-- An `int` that is passed as a `uint`.
abbrev pub as_uint : ℤ → ℕ
as_uint (pos n) = n
as_uint (negsuc k) = 2 ^ 32 - 1 - k

-- The metadata of an inode, read under its lock.
pub inode_stat : (pid i : ℕ) → M Fs Stat
inode_stat pid i = do ilock pid i; st ← stati i; iunlock pid i; pure st

-- `copyout` says whether the copy of the result to the caller succeeds.
pub stat_of : (copyout : Stat → Bool) → (pid i : ℕ) → M Files ℤ
stat_of copyout pid i = do
  st ← on_fs (inode_stat pid i)
  pure (if copyout st then pos 0 else negsuc 0)

pub filestat_as : (copyout : Stat → Bool) → (pid i : ℕ) → FileType → M Files ℤ
filestat_as copyout pid i fd_none = pure (negsuc 0)
filestat_as copyout pid i fd_pipe = pure (negsuc 0)
filestat_as copyout pid i fd_inode = stat_of copyout pid i
filestat_as copyout pid i fd_device = stat_of copyout pid i

pub filestat : (copyout : Stat → Bool) → (pid f : ℕ) → M Files ℤ
filestat copyout pid f = do x ← gets (λ s. s.file f); filestat_as copyout pid x.ip x.type

-- A run of a pipe's function as a call: `none` where it sleeps.
pub call_pipe : (pi : ℕ) → (Pipe → Run) → M Files (ℤ × List ℕ)
call_pipe pi run s =
    let r = run (s.pipes pi) in
    elim r.outcome [
      | returns n ↦ some ((n, r.moved), record s { pipes = update s.pipes pi r.pipe })
      | sleeps i ↦ none
    ]

-- readi at the file's offset, and the offset moved by what it read.
pub read_inode : (copyout : ℕ → List ℕ → Bool) → (pid f ip addr n : ℕ) → M Files (ℤ × List ℕ)
read_inode copyout pid f ip addr n = do
  on_fs (ilock pid ip)
  off ← gets (λ s. (s.file f).off)
  r ← on_fs (readi copyout ip addr off n)
  elim r [
    | none ↦ on_fs (iunlock pid ip) >> pure (negsuc 0, [])
    | some cs ↦
        set_file f (λ x. record x { off = x.off + length cs })
        >> on_fs (iunlock pid ip)
        >> pure (pos (length cs), cs)
  ]

-- `devsw`: the read and the write of a device; a read's result carries its bytes.
abbrev pub device_call :
    {A : Type 0}
    → (A → Option (ℕ → ℤ → ℤ × List ℕ))
    → (major : A) → Bool
    → (addr : ℕ) → ℤ
    → ℤ × List ℕ
device_call devsw major inside addr n = elim (devsw major) [
  | none ↦ (negsuc 0, [])
  | some call ↦ if inside then call addr n else (negsuc 0, [])
]

module _ (copyout : ℕ → List ℕ → Bool) (killed : Bool)
    (devsw : ℕ → Option (ℕ → ℤ → ℤ × List ℕ)) where
  pub fileread_as : (pid f : ℕ) → File → (addr : ℕ) → ℤ → FileType → M Files (ℤ × List ℕ)
  fileread_as pid f x addr n fd_none = panic
  fileread_as pid f x addr n fd_pipe =
      call_pipe x.pipe (piperead (λ a b. copyout a (b ∷ [])) killed addr n)
  fileread_as pid f x addr n fd_inode = read_inode copyout pid f x.ip addr (as_uint n)
  fileread_as pid f x addr n fd_device = pure (device_call devsw x.major (ltb x.major ndev) addr n)

  pub fileread : (pid f addr : ℕ) → ℤ → M Files (ℤ × List ℕ)
  fileread pid f addr n = do
    x ← gets (λ s. s.file f)
    if not x.readable then pure (negsuc 0, []) else fileread_as pid f x addr n x.type

-- `int max`
abbrev pub max_bytes : ℕ
max_bytes = (max_op_blocks - 1 - 1 - 2) / 2 * bsize

abbrev pub moved_by : ℤ → ℕ
moved_by (pos r) = r
moved_by (negsuc k) = 0

abbrev pub wrote_all : ℤ → ℕ → Bool
wrote_all (pos r) n = r == n
wrote_all (negsuc k) n = false

-- One transaction of filewrite: the result of writei.
pub write_inode : (copyin : ℕ → ℕ → Bool × List ℕ) → (pid f ip addr n1 : ℕ) → M Files ℤ
write_inode copyin pid f ip addr n1 = do
  on_fs start_op
  on_fs (ilock pid ip)
  off ← gets (λ s. (s.file f).off)
  r ← on_fs (writei copyin ip addr off n1)
  set_file f (λ x. record x { off = x.off + moved_by r })
  on_fs (iunlock pid ip)
  on_fs finish_op
  pure r

-- The loop of filewrite from byte `i`, with `left` bytes to go: how many were written. A round that
-- does not end it writes a byte at least: `left` is fuel enough.
pub filewrite_loop : (copyin : ℕ → ℕ → Bool × List ℕ) → (fuel pid f ip addr i left : ℕ) → M Files ℕ
filewrite_loop copyin zero pid f ip addr i left = if left == 0 then pure i else panic
filewrite_loop copyin (suc fuel) pid f ip addr i left =
    if left == 0
    then pure i
    else let n1 = if ltb max_bytes left then max_bytes else left in
      write_inode copyin pid f ip (addr + i) n1 >>= λ r.
      if wrote_all r n1
      then filewrite_loop copyin fuel pid f ip addr (i + n1) (left - n1)
      else pure i

-- `i == n ? n : -1`
abbrev pub write_result : (i : ℕ) → ℤ → ℤ
write_result i (pos n) = if i == n then pos n else negsuc 0
write_result i (negsuc k) = negsuc 0

module _ (copyin : ℕ → ℕ → Bool × List ℕ) (byte_in : ℕ → Option ℕ) (killed : ℕ → Bool)
    (devsw : ℕ → Option (ℕ → ℤ → ℤ × List ℕ)) where
  pub filewrite_as : (pid f : ℕ) → File → (addr : ℕ) → ℤ → FileType → M Files ℤ
  filewrite_as pid f x addr n fd_none = panic
  filewrite_as pid f x addr n fd_pipe = do
    r ← call_pipe x.pipe (pipewrite byte_in killed addr n)
    pure r.0
  filewrite_as pid f x addr n fd_inode = do
    i ← filewrite_loop copyin (pos_part n) pid f x.ip addr 0 (pos_part n)
    pure (write_result i n)
  filewrite_as pid f x addr n fd_device =
      pure (device_call devsw x.major (ltb x.major ndev) addr n).0

  pub filewrite : (pid f addr : ℕ) → ℤ → M Files ℤ
  filewrite pid f addr n = do
    x ← gets (λ s. s.file f)
    if not x.writable then pure (negsuc 0) else filewrite_as pid f x addr n x.type
