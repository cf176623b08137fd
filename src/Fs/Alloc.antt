-- ===== src/Fs/Alloc.antt =====
-- kernel/fs.c: bzero, balloc and bfree on the bitmap of blocks.
pub mod Bits
pub mod Scan
pub mod First
pub mod Frees
mod Tests
use kali.Prelude.{
  ℕ, zero, suc, ◌+◌, ◌-◌, ◌*◌, ◌/◌, ◌%◌, ◌^◌, Bool, true, false, not, Option, none, some, ◌==◌, ltb,
  if◌then◌else◌, M, pure, panic_if, gets, ◌>>=◌, ◌>>◌,
}
use kali.Buffers.{Block}
use kali.Log.{bsize}
use kali.Fs.{Fs, Super, read_block, write_block, get_byte, set_byte}

abbrev pub bpb : ℕ
bpb = bsize * 8

abbrev pub bblock : (b : ℕ) → Super → ℕ
bblock b sb = b / bpb + sb.bmapstart

-- `bp->data[bi/8] & (1 << (bi % 8))`
unfoldable pub in_use : Block → (bi : ℕ) → Bool
in_use x bi = get_byte x (bi / 8) / 2 ^ (bi % 8) % 2 == 1

-- The bit of a free block set, and that of a block in use cleared.
unfoldable pub mark : Block → (bi : ℕ) → Block
mark x bi = set_byte x (bi / 8) (get_byte x (bi / 8) + 2 ^ (bi % 8))

unfoldable pub unmark : Block → (bi : ℕ) → Block
unmark x bi = set_byte x (bi / 8) (get_byte x (bi / 8) - 2 ^ (bi % 8))

pub bzero : (bno : ℕ) → M Fs (Unit {0})
bzero bno = write_block bno (λ _. 0)

-- The inner loop of balloc from `bi` on: the first free block of the bitmap's block.
unfoldable pub scan : (size : ℕ) → Block → (b bi rounds : ℕ) → Option ℕ
scan size x b bi zero = none
scan size x b bi (suc rounds) =
    let rest = scan size x b (bi + 1) rounds in
    if ltb (b + bi) size then (if not (in_use x bi) then some bi else rest) else none

-- The rest of a round of the outer loop; `next` is the loop from the next bitmap block on.
pub take_first : (block : ℕ) → Block → (b : ℕ) → (next : M Fs ℕ) → Option ℕ → M Fs ℕ
take_first block x b next none = next
take_first block x b next (some bi) = do
  write_block block (mark x bi)
  bzero (b + bi)
  pure (b + bi)

-- The outer loop from `b` on, without the message.
pub balloc_loop : (rounds b : ℕ) → M Fs ℕ
balloc_loop zero b = pure 0
balloc_loop (suc rounds) b = do
  sb ← gets (λ s. s.sb)
  x ← read_block (bblock b sb)
  take_first (bblock b sb) x b (balloc_loop rounds (b + bpb)) (scan sb.size x b 0 bpb)

pub balloc : M Fs ℕ
balloc = do size ← gets (λ s. s.sb.size); balloc_loop ((size + bpb - 1) / bpb) 0

pub bfree : (b : ℕ) → M Fs (Unit {0})
bfree b = do
  sb ← gets (λ s. s.sb)
  x ← read_block (bblock b sb)
  panic_if (not (in_use x (b % bpb)))
  write_block (bblock b sb) (unmark x (b % bpb))
