-- ===== src/Calls/Nodes.antt =====
-- kernel/sysfile.c: create, and the calls mkdir and mknod. The arguments are as in Calls.Names.
use kali.Prelude.{
  ℕ, Bool, true, false, ◌&&◌, ◌||◌, Option, none, some, List, ◌==◌, if◌then◌else◌, ℤ, pos, negsuc,
  M, pure, ◌>>=◌, ◌>>◌,
}
use kali.Fs.{Fs}
use kali.Fs.Inodes.{this_inode, set_inode, iupdate, ialloc, ilock}
use kali.Fs.Inodes.Blocks.{iunlockput}
use kali.Fs.Directories.{Name, t_dir, dirlookup, dirlink}
use kali.Fs.Paths.{nameiparent}
use kali.File.{start_op}
use kali.Calls.Names.{finish, add_link, is_error, dot, dot_dot}

abbrev pub t_file : ℕ
t_file = 2

abbrev pub t_device : ℕ
t_device = 3

-- create from `fail` on.
pub undo_create : (pid ip dp : ℕ) → M Fs (Option ℕ)
undo_create pid ip dp = do
  set_inode ip (λ i. record i { nlink = 0 })
  iupdate ip
  iunlockput pid ip
  iunlockput pid dp
  pure none

-- The entries "." and "..": whether one of them fails.
pub link_dots : (pid ip dp : ℕ) → (junk : Name) → M Fs Bool
link_dots pid ip dp junk = do
  i ← this_inode ip
  d ← this_inode dp
  r ← dirlink pid ip dot i.inum junk
  if is_error r then pure true else dirlink pid ip dot_dot d.inum junk >>= (λ r. pure (is_error r))

-- create behind ialloc.
pub fill_node : (pid dp ip type major minor : ℕ) → Name → (junk : Name) → M Fs (Option ℕ)
fill_node pid dp ip type major minor name junk = do
  ilock pid ip
  set_inode ip (λ i. record i { major = major; minor = minor; nlink = 1 })
  iupdate ip
  bad ← if type == t_dir then link_dots pid ip dp junk else pure false
  i ← this_inode ip
  r ← if bad then pure (negsuc 0) else dirlink pid dp name i.inum junk
  if is_error r
      then undo_create pid ip dp
      else (if type == t_dir then add_link dp else pure tt) >> iunlockput pid dp >> pure (some ip)

-- create where the name exists.
pub existing_node : (pid dp ip type : ℕ) → M Fs (Option ℕ)
existing_node pid dp ip type = do
  iunlockput pid dp
  ilock pid ip
  i ← this_inode ip
  if type == t_file && (i.type == t_file || i.type == t_device)
      then pure (some ip)
      else iunlockput pid ip >> pure none

pub new_node : (pid dp type major minor : ℕ) → Name → (junk : Name) → M Fs (Option ℕ)
new_node pid dp type major minor name junk = do
  d ← this_inode dp
  ip ← ialloc d.dev type
  elim ip [
    | none ↦ iunlockput pid dp >> pure none
    | some ip ↦ fill_node pid dp ip type major minor name junk
  ]

pub create_in : (pid dp type major minor : ℕ) → Name → (junk : Name) → M Fs (Option ℕ)
create_in pid dp type major minor name junk = do
  ilock pid dp
  found ← dirlookup dp name
  elim found [
    | some (ip, off) ↦ existing_node pid dp ip type
    | none ↦ new_node pid dp type major minor name junk
  ]

-- The inode, locked.
pub create : (pid cwd : ℕ) → List ℕ → (type major minor : ℕ) → (junk : Name) → M Fs (Option ℕ)
create pid cwd path type major minor junk = nameiparent pid cwd path junk >>= (λ r.
    let (d, name) = r in
    elim d [ none ↦ pure none | some dp ↦ create_in pid dp type major minor name junk ])

-- The rest of mkdir and mknod behind argstr.
pub make_node : (pid cwd : ℕ) → Option (List ℕ) → (type major minor : ℕ) → (junk : Name) → M Fs ℤ
make_node pid cwd none type major minor junk = finish (negsuc 0)
make_node pid cwd (some path) type major minor junk = do
  ip ← create pid cwd path type major minor junk
  elim ip [ none ↦ finish (negsuc 0) | some ip ↦ iunlockput pid ip >> finish (pos 0) ]

pub sys_mkdir : (pid cwd : ℕ) → (path : Option (List ℕ)) → (junk : Name) → M Fs ℤ
sys_mkdir pid cwd path junk = do start_op; make_node pid cwd path t_dir 0 0 junk

pub sys_mknod :
    (pid cwd : ℕ) → (path : Option (List ℕ)) → (major minor : ℕ) → (junk : Name) → M Fs ℤ
sys_mknod pid cwd path major minor junk = do
  start_op
  make_node pid cwd path t_device major minor junk
