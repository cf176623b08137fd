-- ===== src/Calls/Names.antt =====
-- kernel/sysfile.c: link and unlink. A path is what argstr fetches, `none` its failure. `pid` and `cwd` are
-- the caller's; `junk` is what the arrays for names on the stack hold before they are written.
use kali.Prelude.{
  ℕ, zero, suc, ◌+◌, ◌-◌, ◌/◌, ◌%◌, ◌^◌, Bool, true, false, not, ◌||◌, Option, none, some, List,
  ◌==◌, ltb, leb, if◌then◌else◌, ℤ, pos, negsuc, M, pure, panic_if, ◌>>=◌, ◌>>◌,
}
use kali.Fs.{Fs}
use kali.Fs.Inodes.{this_inode, set_inode, iupdate, ilock, iunlock}
use kali.Fs.Inodes.Blocks.{iput, iunlockput}
use kali.Fs.Inodes.Content.{writei}
use kali.Fs.Directories.{Name, t_dir, is_zero, namecmp, encode, read_entry, dirlookup, dirlink}
use kali.Fs.Paths.{namei, nameiparent}
use kali.File.{start_op, finish_op}

-- The end of a transaction, with the result.
abbrev pub finish : {A : Type 0} → A → M Fs A
finish r = finish_op >> pure r

-- `nlink` is the 16 bits of a `short`.
abbrev pub add_link : (i : ℕ) → M Fs (Unit {0})
add_link i = do set_inode i (λ ip. record ip { nlink = (ip.nlink + 1) % 2 ^ 16 }); iupdate i

abbrev pub drop_link : (i : ℕ) → M Fs (Unit {0})
drop_link i = do
  set_inode i (λ ip. record ip { nlink = (ip.nlink + (2 ^ 16 - 1)) % 2 ^ 16 })
  iupdate i

abbrev pub is_error : ℤ → Bool
is_error (pos n) = false
is_error (negsuc k) = true

-- sys_link from `bad` on.
pub undo_link : (pid ip : ℕ) → M Fs ℤ
undo_link pid ip = do ilock pid ip; drop_link ip; iunlockput pid ip; finish (negsuc 0)

-- sys_link behind the lookup of the directory.
pub link_in : (pid ip dp : ℕ) → Name → (junk : Name) → M Fs ℤ
link_in pid ip dp name junk = do
  ilock pid dp
  d ← this_inode dp
  i ← this_inode ip
  r ← if not (d.dev == i.dev) then pure (negsuc 0) else dirlink pid dp name i.inum junk
  iunlockput pid dp
  if is_error r then undo_link pid ip else iput pid ip >> finish (pos 0)

-- sys_link behind the lookup of the old path.
pub link_to : (pid cwd ip : ℕ) → (new : List ℕ) → (junk : Name) → M Fs ℤ
link_to pid cwd ip new junk = do
  ilock pid ip
  i ← this_inode ip
  if i.type == t_dir
      then iunlockput pid ip >> finish (negsuc 0)
      else add_link ip >> iunlock pid ip >> nameiparent pid cwd new junk >>= (λ r.
        let (d, name) = r in
        elim d [ none ↦ undo_link pid ip | some dp ↦ link_in pid ip dp name junk ])

pub link_paths : (pid cwd : ℕ) → (old new : List ℕ) → (junk : Name) → M Fs ℤ
link_paths pid cwd old new junk = do
  start_op
  ip ← namei pid cwd old
  elim ip [ none ↦ finish (negsuc 0) | some ip ↦ link_to pid cwd ip new junk ]

pub sys_link : (pid cwd : ℕ) → (old new : Option (List ℕ)) → (junk : Name) → M Fs ℤ
sys_link pid cwd none new junk = pure (negsuc 0)
sys_link pid cwd (some old) none junk = pure (negsuc 0)
sys_link pid cwd (some old) (some new) junk = link_paths pid cwd old new junk

-- The loop of isdirempty from `off` on.
pub isdirempty_loop : (dp rounds off : ℕ) → M Fs Bool
isdirempty_loop dp zero off = pure true
isdirempty_loop dp (suc rounds) off = do
  de ← read_entry dp off
  if not (de.inum == 0) then pure false else isdirempty_loop dp rounds (off + 16)

pub isdirempty : (dp : ℕ) → M Fs Bool
isdirempty dp = do d ← this_inode dp; isdirempty_loop dp ((d.size - 32 + 15) / 16) 32

-- "." and ".."
abbrev pub dot : Name
dot i = if i == 0 then 46 else 0

abbrev pub dot_dot : Name
dot_dot i = if ltb i 2 then 46 else 0

-- sys_unlink from `bad` on.
pub unlink_bad : (pid dp : ℕ) → M Fs ℤ
unlink_bad pid dp = do iunlockput pid dp; finish (negsuc 0)

-- The entry at `off` is cleared; the result is whether all of it was written.
pub clear_entry : (dp off : ℕ) → M Fs (Unit {0})
clear_entry dp off = do
  r ← writei (λ _ _. (true, encode (record { inum = 0; name = λ _. 0 }))) dp 0 off 16
  panic_if (elim r [ pos n ↦ not (n == 16) | negsuc k ↦ true ])

-- sys_unlink from the clearing of the entry on.
pub unlink_entry : (pid dp ip off : ℕ) → M Fs ℤ
unlink_entry pid dp ip off = do
  clear_entry dp off
  i ← this_inode ip
  if i.type == t_dir then drop_link dp else pure tt
  iunlockput pid dp
  drop_link ip
  iunlockput pid ip
  finish (pos 0)

-- sys_unlink behind the lookup of the entry.
pub unlink_found : (pid dp ip off : ℕ) → M Fs ℤ
unlink_found pid dp ip off = do
  ilock pid ip
  i ← this_inode ip
  panic_if (ltb i.nlink 1 || leb (2 ^ 15) i.nlink)
  empty ← if i.type == t_dir then isdirempty ip else pure true
  if not empty then iunlockput pid ip >> unlink_bad pid dp else unlink_entry pid dp ip off

pub unlink_in : (pid dp : ℕ) → Name → M Fs ℤ
unlink_in pid dp name = do
  ilock pid dp
  if is_zero (namecmp name dot) || is_zero (namecmp name dot_dot)
      then unlink_bad pid dp
      else dirlookup dp name >>= λ found. elim found [
        | none ↦ unlink_bad pid dp
        | some (ip, off) ↦ unlink_found pid dp ip off
      ]

pub sys_unlink : (pid cwd : ℕ) → (path : Option (List ℕ)) → (junk : Name) → M Fs ℤ
sys_unlink pid cwd none junk = pure (negsuc 0)
sys_unlink pid cwd (some path) junk = start_op >> nameiparent pid cwd path junk >>= (λ r.
    let (d, name) = r in elim d [ none ↦ finish (negsuc 0) | some dp ↦ unlink_in pid dp name ])
