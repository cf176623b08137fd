-- ===== src/Fs/Inodes/Blocks.antt =====
-- kernel/fs.c: the blocks of an inode.
use kali.Prelude.{
  ℕ, zero, suc, ◌+◌, ◌-◌, false, not, ◌&&◌, ◌==◌, ltb, if◌then◌else◌, update, M, pure, panic, ◌>>=◌,
  ◌>>◌,
}
use kali.Buffers.{Block}
use kali.Fs.{Fs, ndirect, nindirect, read_block, write_block}
use kali.Fs.Alloc.{balloc, bfree}
use kali.Fs.Inodes.{this_inode, set_inode, iupdate, fewer_refs, lock_inode, unlock_inode, iunlock}

abbrev pub set_addr : (i j addr : ℕ) → M Fs (Unit {0})
set_addr i j addr = set_inode i (λ ip. record ip { addrs = update ip.addrs j addr })

-- The block that `addrs[j]` names, allocated if it is 0; the result 0 is that of a full disk.
pub bmap_addr : (i j : ℕ) → M Fs ℕ
bmap_addr i j = do
  ip ← this_inode i
  if not (ip.addrs j == 0)
      then pure (ip.addrs j)
      else balloc >>= λ addr. if addr == 0 then pure 0 else do set_addr i j addr; pure addr

-- Entry `bn` of the indirect block, allocated if it is 0. The buffer of the indirect block stays
-- locked while balloc runs, which changes the bitmap and the new block alone.
pub bmap_indirect : (addr bn : ℕ) → M Fs ℕ
bmap_indirect addr bn = do
  a ← read_block addr
  if not (a bn == 0)
      then pure (a bn)
      else balloc >>= λ new.
          if new == 0
          then pure 0
          else do a' ← read_block addr; write_block addr (update a' bn new); pure new

pub bmap : (i bn : ℕ) → M Fs ℕ
bmap i bn =
    if ltb bn ndirect
    then bmap_addr i bn
    else if ltb (bn - ndirect) nindirect
    then bmap_addr i ndirect
      >>= (λ addr. if addr == 0 then pure 0 else bmap_indirect addr (bn - ndirect))
    else panic

-- The loops of itrunc, from `j` on: over the direct blocks, and over the indirect block `a`.
pub trunc_direct : (i j rounds : ℕ) → M Fs (Unit {0})
trunc_direct i j zero = pure tt
trunc_direct i j (suc rounds) = do
  ip ← this_inode i
  if ip.addrs j == 0 then pure tt else do bfree (ip.addrs j); set_addr i j 0
  trunc_direct i (j + 1) rounds

pub trunc_indirect : (a : Block) → (j rounds : ℕ) → M Fs (Unit {0})
trunc_indirect a j zero = pure tt
trunc_indirect a j (suc rounds) = do
  if a j == 0 then pure tt else bfree (a j)
  trunc_indirect a (j + 1) rounds

pub itrunc : (i : ℕ) → M Fs (Unit {0})
itrunc i = do
  trunc_direct i 0 ndirect
  ip ← this_inode i
  if ip.addrs ndirect == 0 then pure tt else do
    a ← read_block (ip.addrs ndirect)
    trunc_indirect a 0 nindirect
    bfree (ip.addrs ndirect)
    set_addr i ndirect 0
  set_inode i (λ ip. record ip { size = 0 })
  iupdate i

-- The part of iput for the last reference to an inode without links.
pub free_inode : (pid i : ℕ) → M Fs (Unit {0})
free_inode pid i = do
  lock_inode pid i
  itrunc i
  set_inode i (λ ip. record ip { type = 0 })
  iupdate i
  set_inode i (λ ip. record ip { valid = false })
  unlock_inode i

-- The caller has a reference to drop: `ref` is 1 at least.
pub iput : (pid i : ℕ) → M Fs (Unit {0})
iput pid i = do
  ip ← this_inode i
  if ip.ref == 1 && ip.valid && ip.nlink == 0 then free_inode pid i else pure tt
  set_inode i fewer_refs

pub iunlockput : (pid i : ℕ) → M Fs (Unit {0})
iunlockput pid i = do iunlock pid i; iput pid i
