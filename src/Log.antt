-- ===== src/Log.antt =====
-- kernel/log.c: the redo log. `log.lock` is held through each function here but `commit` and what
-- it calls; those run while `committing` keeps every other operation out.
pub mod Reserve
pub mod Absorb
pub mod Effect
pub mod Holds
pub mod Crash
mod Tests
use kali.Prelude.{
  ℕ, zero, suc, ◌+◌, ◌-◌, ◌*◌, List, [], Bool, true, false, ◌||◌, Option, none, some, ◌==◌, ltb,
  leb, if◌then◌else◌, update,
}
use kali.Buffers.{Block, Disk, View, store, bwrite, bpin, bunpin}

abbrev pub max_op_blocks : ℕ
max_op_blocks = 10

abbrev pub log_size : ℕ
log_size = max_op_blocks * 3

-- BSIZE, and the size in bytes of `struct logheader`: `n` and `block[LOGSIZE]`, all `int`.
abbrev pub bsize : ℕ
bsize = 1024

abbrev pub header_bytes : ℕ
header_bytes = 4 + 4 * log_size

-- `struct logheader`
pub record LogHeader : Type 0 where
  pub n : ℕ
  pub block : ℕ → ℕ

-- `struct log`, less its spinlock.
pub record Log : Type 0 where
  pub start : ℕ
  pub size : ℕ
  pub outstanding : ℕ
  pub committing : Bool
  pub dev : ℕ
  pub lh : LogHeader

-- The fields of the superblock that `initlog` reads.
pub record Superblock : Type 0 where
  pub logstart : ℕ
  pub nlog : ℕ

-- The first log block, behind the header, is number `start + 1`.
abbrev pub slot : Log → ℕ → ℕ
slot l tail = l.start + tail + 1

-- One round of the loop of `install_trans`.
pub install_one : (recovering : Bool) → Log → (tail : ℕ) → View → View
install_one recovering l tail v =
    let dst = l.lh.block tail in
    let v' = bwrite dst (store dst (v.contents (slot l tail)) v) in
    if recovering then v' else bunpin dst v'

pub install_loop : (recovering : Bool) → Log → (tail rounds : ℕ) → View → View
unfolding install_one
install_loop recovering l tail zero v = v
install_loop recovering l tail (suc k) v =
    install_loop recovering l (tail + 1) k (install_one recovering l tail v)

pub install_trans : (recovering : Bool) → Log → View → View
unfolding install_loop
install_trans recovering l v = install_loop recovering l 0 l.lh.n v

-- `to->block[i] = from[i + 1]` for `rounds` words from `i` on.
pub read_blocks : Block → (ℕ → ℕ) → (i rounds : ℕ) → ℕ → ℕ
read_blocks words block i zero = block
read_blocks words block i (suc k) = read_blocks words (update block i (words (i + 1))) (i + 1) k

pub read_head : Log → View → Log
unfolding read_blocks
read_head l v =
    let words = v.contents l.start in
    record l { lh = record { n = words 0; block = read_blocks words l.lh.block 0 (words 0) } }

-- `hb->block[i] = block[i]`: word `i + 1` of the header block.
pub write_blocks : Block → (ℕ → ℕ) → (i rounds : ℕ) → Block
write_blocks hb block i zero = hb
write_blocks hb block i (suc k) = write_blocks (update hb (i + 1) (block i)) block (i + 1) k

pub write_head : Log → View → View
unfolding write_blocks
write_head l v =
    let hb = update (v.contents l.start) 0 l.lh.n in
    bwrite l.start (store l.start (write_blocks hb l.lh.block 0 l.lh.n) v)

-- `log.lh.n = 0`
abbrev pub clear : Log → Log
clear l = record l { lh = record { n = 0; block = l.lh.block } }

pub recover_from_log : Log → View → Log × View
unfolding read_head install_trans write_head
recover_from_log l v =
    let l' = read_head l v in
    let v' = install_trans true l' v in (clear l', write_head (clear l') v')

-- `none` is the panic.
pub initlog : Log → (dev : ℕ) → Superblock → View → Option (Log × View)
unfolding recover_from_log
initlog l dev sb v =
    if leb bsize header_bytes
    then none
    else some (recover_from_log (record l { start = sb.logstart; size = sb.nlog; dev = dev }) v)

pub write_log_loop : Log → (tail rounds : ℕ) → View → View
write_log_loop l tail zero v = v
write_log_loop l tail (suc k) v =
    let to = slot l tail in
    write_log_loop l (tail + 1) k (bwrite to (store to (v.contents (l.lh.block tail)) v))

pub write_log : Log → View → View
unfolding write_log_loop
write_log l v = write_log_loop l 0 l.lh.n v

pub commit : Log → View → Log × View
unfolding write_log write_head install_trans
commit l v =
    if ltb 0 l.lh.n
    then (clear l, write_head (clear l) (install_trans false l (write_head l (write_log l v))))
    else (l, v)

-- One turn of the loop of `begin_op`: `none` means that the caller sleeps and tries again.
pub begin_op : Log → Option Log
begin_op l =
    if l.committing
    then none
    else if ltb log_size (l.lh.n + (l.outstanding + 1) * max_op_blocks)
    then none
    else some (record l { outstanding = l.outstanding + 1 })

-- `end_op` up to the release of the lock, with `do_commit`; `none` is the panic. The first
-- decrement runs with `outstanding` above 0 in every state that `begin_op` leads to.
pub end_op : Log → Option (Log × Bool)
end_op l =
    let left = l.outstanding - 1 in
    if l.committing
    then none
    else if left == 0
    then some (record l { outstanding = left; committing = true }, true)
    else some (record l { outstanding = left }, false)

-- The rest of `end_op` where `do_commit` is set.
pub end_commit : Log → View → Log × View
unfolding commit
end_commit l v = let (l', v') = commit l v in (record l' { committing = false }, v')

-- The index where the scan of `log_write` stops: at the block, or behind the last.
pub find_block : (ℕ → ℕ) → (b i rounds : ℕ) → ℕ
find_block block b i zero = i
find_block block b i (suc k) =
    let rest = find_block block b (i + 1) k in if block i == b then i else rest

-- `none` is a panic.
unfoldable pub log_write : Log → View → (b : ℕ) → Option (Log × View)
unfolding find_block
log_write l v b =
    let i = find_block l.lh.block b 0 l.lh.n in
    let block = update l.lh.block i b in
    if leb log_size l.lh.n || leb (l.size - 1) l.lh.n
    then none
    else if ltb l.outstanding 1
    then none
    else if i == l.lh.n
    then some (record l { lh = record { n = l.lh.n + 1; block = block } }, bpin b v)
    else some (record l { lh = record { n = l.lh.n; block = block } }, v)
