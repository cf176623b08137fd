-- ===== src/Fs/Inodes.antt =====
-- kernel/fs.c: inodes, on the disk and in the table. A `short` is its 16 bits. `itable.lock` is held
-- through each search and change of reference counts; no other process runs in between.
pub mod Blocks
pub mod Content
mod Tests
pub mod Search
pub mod Table
use kali.Prelude.{
  ℕ, zero, suc, ◌+◌, ◌-◌, ◌*◌, ◌/◌, ◌%◌, ◌^◌, Bool, true, false, not, ◌&&◌, Option, none, some,
  ◌==◌, ltb, leb, if◌then◌else◌, update, M, pure, panic, panic_if, gets, modify, ◌>>=◌, ◌>>◌,
}
use kali.Buffers.{Block}
use kali.Fs.{Fs, Super, Inode, ndirect, nindirect, ninode, read_block, write_block}
use kali.Fs.Alloc.{bfree}

abbrev pub ipb : ℕ
ipb = 16

abbrev pub iblock : (i : ℕ) → Super → ℕ
iblock i sb = i / ipb + sb.inodestart

abbrev pub this_inode : (i : ℕ) → M Fs Inode
this_inode i = gets (λ s. s.itable i)

abbrev pub set_inode : (i : ℕ) → (Inode → Inode) → M Fs (Unit {0})
set_inode i f = modify (λ s. record s { itable = update s.itable i (f (s.itable i)) })

-- The first of the 16 words of `struct dinode` in its block.
abbrev pub dinode_at : (inum : ℕ) → ℕ
dinode_at inum = 16 * (inum % ipb)

abbrev pub inode_word : Inode → (w : ℕ) → ℕ
inode_word ip zero = ip.type + 65536 * ip.major
inode_word ip (suc zero) = ip.minor + 65536 * ip.nlink
inode_word ip (suc (suc zero)) = ip.size
inode_word ip (suc (suc (suc j))) = ip.addrs j

unfoldable pub store_inode : Block → (at : ℕ) → Inode → Block
store_inode x at ip j = if leb at j && ltb j (at + 16) then inode_word ip (j - at) else x j

unfoldable pub load_inode : Block → (at : ℕ) → Inode → Inode
load_inode x at ip = record ip {
  type = x at % 65536;
  major = x at / 65536;
  minor = x (at + 1) % 65536;
  nlink = x (at + 1) / 65536;
  size = x (at + 2);
  addrs = λ j. x (at + 3 + j);
}

-- The changes of an inode's entry go to its block; what was read before is used up.
pub iupdate : (i : ℕ) → M Fs (Unit {0})
iupdate i = do
  ip ← this_inode i
  sb ← gets (λ s. s.sb)
  x ← read_block (iblock ip.inum sb)
  write_block (iblock ip.inum sb) (store_inode x (dinode_at ip.inum) ip)

-- What the loop of iget finds: the inode's entry, the first free one, or neither.
pub data Slot : Type 0 where
  cached : ℕ → Slot
  empty : ℕ → Slot
  full : Slot

abbrev pub is_cached : (dev inum : ℕ) → Inode → Bool
is_cached dev inum ip = ltb 0 ip.ref && ip.dev == dev && ip.inum == inum

abbrev pub slot_of : Option ℕ → Slot
slot_of none = full
slot_of (some e) = empty e

-- `empty == 0 && ip->ref == 0`
abbrev pub remember : Option ℕ → (i : ℕ) → Inode → Option ℕ
remember (some e) i ip = some e
remember none i ip = if ip.ref == 0 then some i else none

unfoldable pub find_slot : (ℕ → Inode) → (dev inum i rounds : ℕ) → Option ℕ → Slot
find_slot tbl dev inum i zero e = slot_of e
find_slot tbl dev inum i (suc rounds) e =
    let rest = find_slot tbl dev inum (i + 1) rounds (remember e i (tbl i)) in
    if is_cached dev inum (tbl i) then cached i else rest

abbrev pub more_refs : Inode → Inode
more_refs ip = record ip { ref = ip.ref + 1 }

abbrev pub fewer_refs : Inode → Inode
fewer_refs ip = record ip { ref = ip.ref - 1 }

abbrev pub fresh_entry : (dev inum : ℕ) → Inode → Inode
fresh_entry dev inum ip = record ip { dev = dev; inum = inum; ref = 1; valid = false }

-- The rest of iget.
pub take_slot : (dev inum : ℕ) → Slot → M Fs ℕ
take_slot dev inum (cached i) = do set_inode i more_refs; pure i
take_slot dev inum (empty i) = do set_inode i (fresh_entry dev inum); pure i
take_slot dev inum full = panic

pub iget : (dev inum : ℕ) → M Fs ℕ
iget dev inum = gets (λ s. find_slot s.itable dev inum 0 ninode none) >>= take_slot dev inum

pub idup : (i : ℕ) → M Fs ℕ
idup i = do set_inode i more_refs; pure i

-- The inode that ialloc finds free becomes one of that type, all else of it 0.
abbrev pub blank_inode : Block → (at type : ℕ) → Block
blank_inode x at type j = if leb at j && ltb j (at + 16) then (if j == at then type else 0) else x j

-- The loop of ialloc from `inum` on, without the message.
pub ialloc_loop : (dev type rounds inum : ℕ) → M Fs (Option ℕ)
ialloc_loop dev type zero inum = pure none
ialloc_loop dev type (suc rounds) inum = do
  sb ← gets (λ s. s.sb)
  x ← read_block (iblock inum sb)
  if x (dinode_at inum) % 65536 == 0
      then write_block (iblock inum sb) (blank_inode x (dinode_at inum) type)
        >> iget dev inum
        >>= (λ i. pure (some i))
      else ialloc_loop dev type rounds (inum + 1)

pub ialloc : (dev type : ℕ) → M Fs (Option ℕ)
ialloc dev type = do n ← gets (λ s. s.sb.ninodes); ialloc_loop dev type (n - 1) 1

-- acquiresleep of the inode's lock; `none` where the caller would sleep.
abbrev pub lock_inode : (pid i : ℕ) → M Fs (Unit {0})
lock_inode pid i = do
  ip ← this_inode i
  elim ip.owner [ none ↦ set_inode i (λ ip. record ip { owner = some pid }) | some _ ↦ panic ]

abbrev pub unlock_inode : (i : ℕ) → M Fs (Unit {0})
unlock_inode i = set_inode i (λ ip. record ip { owner = none })

abbrev holds : (pid : ℕ) → Inode → Bool
holds pid ip = elim ip.owner [ none ↦ false | some p ↦ p == pid ]

-- An inode pointer is not null here.
pub ilock : (pid i : ℕ) → M Fs (Unit {0})
ilock pid i = do
  ip ← this_inode i
  panic_if (ltb ip.ref 1)
  lock_inode pid i
  if ip.valid then pure tt else do
    sb ← gets (λ s. s.sb)
    x ← read_block (iblock ip.inum sb)
    set_inode i (load_inode x (dinode_at ip.inum))
    set_inode i (λ ip. record ip { valid = true })
    now ← this_inode i
    panic_if (now.type == 0)

pub iunlock : (pid i : ℕ) → M Fs (Unit {0})
iunlock pid i = do
  ip ← this_inode i
  panic_if (not (holds pid ip))
  panic_if (ltb ip.ref 1)
  unlock_inode i
