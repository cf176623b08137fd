-- ===== src/Calls/Open.antt =====
-- kernel/sysfile.c: open and chdir. The arguments are as in Calls.Names; the flags are those of fcntl.h.
use kali.Prelude.{
  ℕ, ◌/◌, ◌%◌, Bool, not, ◌&&◌, ◌||◌, Option, none, some, List, ◌==◌, leb, if◌then◌else◌, ℤ, pos, M,
  pure, panic, ◌>>=◌, ◌>>◌,
}
use kali.Fs.{Fs, Inode}
use kali.Fs.Inodes.{this_inode, ilock, iunlock}
use kali.Fs.Inodes.Blocks.{iput, iunlockput, itrunc}
use kali.Fs.Directories.{Name, t_dir}
use kali.Fs.Paths.{namei}
use kali.File.{
  File, fd_inode, fd_device, on_fs, start_op, finish_op, set_file, filealloc, fileclose,
}
use kali.File.Transfer.{ndev}
use kali.Proc.Lifecycle.{World, on_files, this_proc, set_proc}
use kali.Calls.{fail, fdalloc}
use kali.Calls.Nodes.{t_file, t_device, create}

abbrev pub o_wronly : ℕ → Bool
o_wronly omode = omode % 2 == 1

abbrev pub o_rdwr : ℕ → Bool
o_rdwr omode = omode / 2 % 2 == 1

abbrev pub o_create : ℕ → Bool
o_create omode = omode / 0x200 % 2 == 1

abbrev pub o_trunc : ℕ → Bool
o_trunc omode = omode / 0x400 % 2 == 1

-- The inode at a path, locked, where the mode allows to open it.
pub open_existing : (pid cwd : ℕ) → List ℕ → (omode : ℕ) → M Fs (Option ℕ)
open_existing pid cwd path omode = do
  ip ← namei pid cwd path
  elim ip [
    | none ↦ pure none
    | some ip ↦ do
      ilock pid ip
      i ← this_inode ip
      if i.type == t_dir && not (omode == 0) then iunlockput pid ip >> pure none else pure (some ip)
  ]

abbrev pub bad_device : Inode → Bool
bad_device i = i.type == t_device && leb ndev i.major

pub open_inode : (pid cwd : ℕ) → List ℕ → (omode : ℕ) → (junk : Name) → M Fs (Option ℕ)
open_inode pid cwd path omode junk =
    (if o_create omode
      then create pid cwd path t_file 0 0 junk
      else open_existing pid cwd path omode)
    >>= (λ ip. elim ip [
      | none ↦ pure none
      | some ip ↦ this_inode ip >>= λ i.
          if bad_device i then iunlockput pid ip >> pure none else pure (some ip)
    ])

-- The fields of an open file.
abbrev pub opened : (ip omode : ℕ) → Inode → File → File
opened ip omode i f =
    let rw = record f {
      ip = ip;
      readable = not (o_wronly omode);
      writable = o_wronly omode || o_rdwr omode;
    } in
    if i.type == t_device
    then record rw { type = fd_device; major = i.major }
    else record rw { type = fd_inode; off = 0 }

-- The failure of sys_open behind the lookup.
pub open_fails : (pid ip : ℕ) → M World ℤ
open_fails pid ip = do on_files (on_fs (iunlockput pid ip)); on_files (on_fs finish_op); fail

-- The rest of sys_open with a file and a descriptor.
pub open_end : (pid ip omode f fd : ℕ) → M World ℤ
open_end pid ip omode f fd = do
  i ← on_files (on_fs (this_inode ip))
  on_files (set_file f (opened ip omode i))
  if o_trunc omode && i.type == t_file then on_files (on_fs (itrunc ip)) else pure tt
  on_files (on_fs (iunlock pid ip))
  on_files (on_fs finish_op)
  pure (pos fd)

pub with_file : (end me pid ip omode : ℕ) → Option ℕ → M World ℤ
with_file end me pid ip omode none = open_fails pid ip
with_file end me pid ip omode (some f) = do
  fd ← fdalloc me f
  elim fd [
    | none ↦ on_files (fileclose end pid f) >> open_fails pid ip
    | some fd ↦ open_end pid ip omode f fd
  ]

-- `cwd` is the caller's current directory.
pub open_path : (end me pid cwd : ℕ) → List ℕ → (omode : ℕ) → (junk : Name) → M World ℤ
open_path end me pid cwd path omode junk = do
  on_files (on_fs start_op)
  ip ← on_files (on_fs (open_inode pid cwd path omode junk))
  elim ip [
    | none ↦ on_files (on_fs finish_op) >> fail
    | some ip ↦ on_files filealloc >>= with_file end me pid ip omode
  ]

-- A process that makes calls has a current directory.
pub sys_open : (end me : ℕ) → (path : Option (List ℕ)) → (omode : ℕ) → (junk : Name) → M World ℤ
sys_open end me none omode junk = fail
sys_open end me (some path) omode junk = do
  p ← this_proc me
  elim p.cwd [ none ↦ panic | some cwd ↦ open_path end me p.pid cwd path omode junk ]

-- sys_chdir behind argstr: the new directory.
pub find_directory : (pid cwd : ℕ) → List ℕ → M Fs (Option ℕ)
find_directory pid cwd path = do
  ip ← namei pid cwd path
  elim ip [
    | none ↦ pure none
    | some ip ↦ do
      ilock pid ip
      i ← this_inode ip
      if not (i.type == t_dir)
          then iunlockput pid ip >> pure none
          else iunlock pid ip >> iput pid cwd >> pure (some ip)
  ]

pub change_directory : (me pid cwd : ℕ) → List ℕ → M World ℤ
change_directory me pid cwd path = do
  ip ← on_files (on_fs (find_directory pid cwd path))
  on_files (on_fs finish_op)
  elim ip [ none ↦ fail | some ip ↦ set_proc me (λ p. record p { cwd = some ip }) >> pure (pos 0) ]

pub sys_chdir : (me : ℕ) → (path : Option (List ℕ)) → M World ℤ
sys_chdir me path = do
  p ← this_proc me
  on_files (on_fs start_op)
  elim path [
    | none ↦ on_files (on_fs finish_op) >> fail
    | some path ↦ elim p.cwd [ none ↦ panic | some cwd ↦ change_directory me p.pid cwd path ]
  ]
