-- ===== src/Fs/Inodes/Content.antt =====
-- kernel/fs.c: readi and writei. The copies to and from the caller's memory, either_copyout and
-- either_copyin, are parameters: whether a copy of bytes to an address succeeds; and whether one of
-- `n` bytes from an address does, with the bytes that it brings, or brought before it failed. The results carry the bytes that were copied.
use kali.Prelude.{
  ℕ, zero, suc, ◌+◌, ◌-◌, ◌*◌, ◌/◌, ◌%◌, ◌^◌, Bool, ◌||◌, Option, none, some, List, [], ◌∷◌, ◌++◌,
  ◌==◌, ltb, if◌then◌else◌, ℤ, pos, negsuc, M, pure, panic, gets, modify, ◌>>=◌, ◌>>◌,
}
use kali.Buffers.{Block, store}
use kali.Log.{bsize}
use kali.Fs.{Fs, maxfile, read_block, log_block, get_byte, set_byte}
use kali.Fs.Inodes.{this_inode, set_inode, iupdate}
use kali.Fs.Inodes.Blocks.{bmap}

-- `struct stat`
pub record Stat : Type 0 where
  pub dev : ℕ
  pub ino : ℕ
  pub type : ℕ
  pub nlink : ℕ
  pub size : ℕ

pub stati : (i : ℕ) → M Fs Stat
stati i = gets (λ s.
    let ip = s.itable i in
    record { dev = ip.dev; ino = ip.inum; type = ip.type; nlink = ip.nlink; size = ip.size })

-- `n` bytes of a block from `o` on, and a block with bytes replaced from `o` on.
pub bytes_of : Block → (o n : ℕ) → List ℕ
bytes_of x o zero = []
bytes_of x o (suc n) = get_byte x o ∷ bytes_of x (o + 1) n

pub put_bytes : Block → (o : ℕ) → List ℕ → Block
put_bytes x o [] = x
put_bytes x o (c ∷ cs) = put_bytes (set_byte x o c) (o + 1) cs

-- `min(n - tot, BSIZE - off%BSIZE)`
abbrev pub piece : (left off : ℕ) → ℕ
piece left off = let room = bsize - off % bsize in if ltb left room then left else room

-- The loop of readi, with `left` bytes to go and `done` copied; the fuel is `left` at least.
pub readi_loop :
    (copyout : ℕ → List ℕ → Bool) → (fuel i dst off left : ℕ) → List ℕ → M Fs (Option (List ℕ))
readi_loop copyout zero i dst off left done = if left == 0 then pure (some done) else panic
readi_loop copyout (suc fuel) i dst off left done =
    if left == 0
    then pure (some done)
    else bmap i (off / bsize) >>= λ addr. if addr == 0 then pure (some done) else do
      x ← read_block addr
      if copyout dst (bytes_of x (off % bsize) (piece left off))
          then readi_loop copyout fuel i (dst + piece left off) (off + piece left off)
              (left - piece left off) (done ++ bytes_of x (off % bsize) (piece left off))
          else pure none

-- The bytes read; `none` is the result -1.
pub readi : (copyout : ℕ → List ℕ → Bool) → (i dst off n : ℕ) → M Fs (Option (List ℕ))
readi copyout i dst off n = do
  ip ← this_inode i
  if ltb ip.size off || ltb ((off + n) % 2 ^ 32) off
      then pure (some [])
      else if ltb ip.size (off + n)
      then readi_loop copyout (ip.size - off) i dst off (ip.size - off) []
      else readi_loop copyout n i dst off n []

-- The data of a block is replaced.
abbrev change_block : (b : ℕ) → Block → M Fs (Unit {0})
change_block b x = modify (λ s. record s { view = store b x s.view })

-- The loop of writei, with `left` bytes to go: how many are left when it ends.
pub writei_loop : (copyin : ℕ → ℕ → Bool × List ℕ) → (fuel i src off left : ℕ) → M Fs ℕ
writei_loop copyin zero i src off left = if left == 0 then pure 0 else panic
writei_loop copyin (suc fuel) i src off left =
    if left == 0
    then pure 0
    else bmap i (off / bsize) >>= λ addr.
        if addr == 0
        then pure left
        else read_block addr >>= λ x.
            change_block addr (put_bytes x (off % bsize) (copyin src (piece left off)).1)
            >> (if (copyin src (piece left off)).0
                then log_block addr
                  >> writei_loop copyin fuel i (src + piece left off) (off + piece left off)
                      (left - piece left off)
                else pure left)

pub writei : (copyin : ℕ → ℕ → Bool × List ℕ) → (i src off n : ℕ) → M Fs ℤ
writei copyin i src off n = do
  ip ← this_inode i
  if ltb ip.size off || ltb ((off + n) % 2 ^ 32) off || ltb (maxfile * bsize) (off + n)
      then pure (negsuc 0)
      else do
        left ← writei_loop copyin n i src off n
        set_inode i (λ ip.
            if ltb ip.size (off + (n - left)) then record ip { size = off + (n - left) } else ip)
        iupdate i
        pure (pos (n - left))
