-- ===== src/Bio.antt =====
-- kernel/bio.c. The linked list of buffers is a list, most recently used first; a buffer is known by
-- its address, here the number `id`. `bcache.lock` is held through each search and each update of
-- the list. The disk stands for what virtio_disk_rw reads and writes: the block of a device.
pub mod Find
pub mod Contents
pub mod Reads
pub mod Unlink
pub mod Writes
pub mod Releases
pub mod Boot
mod Tests
use kali.Prelude.{
  ℕ, zero, suc, ◌+◌, ◌-◌, ◌%◌, ◌^◌, Bool, true, false, not, ◌&&◌, Option, none, some, List, [], ◌∷◌,
  ◌==◌, if◌then◌else◌,
}
use kali.Buffers.{Block}

abbrev pub nbuf : ℕ
nbuf = 30

-- `struct buf`, with its sleep lock as the pid of the holder, and without the flag of the driver.
pub record Buf : Type 0 where
  pub id : ℕ
  pub dev : ℕ
  pub blockno : ℕ
  pub valid : Bool
  pub refcnt : ℕ
  pub owner : Option ℕ
  pub words : Block

pub record Cache : Type 0 where
  pub bufs : List Buf
  pub disk : ℕ → ℕ → Block

-- A buffer of the zeroed `bcache`.
abbrev pub blank : ℕ → Buf
blank i = record {
  id = i;
  dev = 0;
  blockno = 0;
  valid = false;
  refcnt = 0;
  owner = none;
  words = λ _. 0;
}

-- Each of the buffers 0 to n - 1 goes to the front.
pub binit_loop : ℕ → List Buf
binit_loop zero = []
binit_loop (suc n) = blank n ∷ binit_loop n

pub binit : List Buf
unfolding binit_loop
binit = binit_loop nbuf

abbrev pub has_key : (dev blockno : ℕ) → Buf → Bool
has_key dev blockno b = b.dev == dev && b.blockno == blockno

-- The first search of bget, from the front.
pub find_cached : (dev blockno : ℕ) → List Buf → Option Buf
find_cached dev blockno [] = none
find_cached dev blockno (b ∷ bs) =
    if has_key dev blockno b then some b else find_cached dev blockno bs

-- The second search, from the back.
pub find_unused : List Buf → Option Buf
find_unused [] = none
find_unused (b ∷ bs) = elim (find_unused bs) [
  | some u ↦ some u
  | none ↦ if b.refcnt == 0 then some b else none
]

-- `*b` at the address `i`.
pub get_buf : (i : ℕ) → List Buf → Option Buf
get_buf i [] = none
get_buf i (b ∷ bs) = if b.id == i then some b else get_buf i bs

-- A change of the buffer at the address `i`.
pub on_buf : (i : ℕ) → (Buf → Buf) → List Buf → List Buf
on_buf i f [] = []
on_buf i f (b ∷ bs) = if b.id == i then f b ∷ bs else b ∷ on_buf i f bs

-- The list with the buffer at the address `i` unlinked.
pub unlink : (i : ℕ) → List Buf → List Buf
unlink i [] = []
unlink i (b ∷ bs) = if b.id == i then bs else b ∷ unlink i bs

abbrev pub incref : Buf → Buf
incref b = record b { refcnt = (b.refcnt + 1) % 2 ^ 32 }

abbrev pub decref : Buf → Buf
decref b = record b { refcnt = (b.refcnt + 2 ^ 32 - 1) % 2 ^ 32 }

abbrev pub recycle : (dev blockno : ℕ) → Buf → Buf
recycle dev blockno b = record b { dev = dev; blockno = blockno; valid = false; refcnt = 1 }

-- bget up to its acquiresleep: the buffer's address and the cache; `none` is the panic.
pub bget : (dev blockno : ℕ) → Cache → Option (ℕ × Cache)
unfolding find_cached find_unused on_buf
bget dev blockno c = elim (find_cached dev blockno c.bufs) [
  | some b ↦ some (b.id, record c { bufs = on_buf b.id incref c.bufs })
  | none ↦ elim (find_unused c.bufs) [
    | some b ↦ some (b.id, record c { bufs = on_buf b.id (recycle dev blockno) c.bufs })
    | none ↦ none
  ]
]

-- One turn of the loop of acquiresleep: `none` where the caller sleeps.
pub acquiresleep : (pid i : ℕ) → Cache → Option Cache
unfolding get_buf on_buf
acquiresleep pid i c = elim (get_buf i c.bufs) [
  | none ↦ none
  | some b ↦ elim b.owner [
    | some _ ↦ none
    | none ↦ some (record c { bufs = on_buf i (λ b. record b { owner = some pid }) c.bufs })
  ]
]

-- `if(!b->valid) { virtio_disk_rw(b, 0); b->valid = 1; }`
abbrev pub read_block : (ℕ → ℕ → Block) → Buf → Buf
read_block disk b = record b {
  words = if b.valid then b.words else disk b.dev b.blockno;
  valid = true;
}

-- What bread does with the buffer that bget has locked.
pub fill : (i : ℕ) → Cache → Cache
unfolding on_buf
fill i c = record c { bufs = on_buf i (read_block c.disk) c.bufs }

pub data Result : Type 0 where
  panics : Result
  sleeps : (i : ℕ) → Cache → Result  -- on the lock of the buffer at `i`
  got : (i : ℕ) → Cache → Result

-- bread; a caller that sleeps goes on with `acquiresleep` and `fill` when it is woken.
pub bread : (pid dev blockno : ℕ) → Cache → Result
unfolding bget acquiresleep fill
bread pid dev blockno c = elim (bget dev blockno c) [
  | none ↦ panics
  | some (i, c1) ↦ elim (acquiresleep pid i c1) [ none ↦ sleeps i c1 | some c2 ↦ got i (fill i c2) ]
]

abbrev is_owner : Option ℕ → ℕ → Bool
is_owner none pid = false
is_owner (some p) pid = p == pid

pub holdingsleep : (pid i : ℕ) → Cache → Bool
unfolding get_buf
holdingsleep pid i c = elim (get_buf i c.bufs) [ none ↦ false | some b ↦ is_owner b.owner pid ]

abbrev pub store_block : (ℕ → ℕ → Block) → (dev blockno : ℕ) → Block → ℕ → ℕ → Block
store_block disk dev blockno x d b = if d == dev && b == blockno then x else disk d b

-- `none` is the panic, here and below.
pub bwrite : (pid i : ℕ) → Cache → Option Cache
unfolding holdingsleep get_buf
bwrite pid i c = elim (get_buf i c.bufs) [
  | none ↦ none
  | some b ↦
      if not (holdingsleep pid i c)
      then none
      else some (record c { disk = store_block c.disk b.dev b.blockno b.words })
]

abbrev pub let_go : Buf → Buf
let_go b = decref (record b { owner = none })

-- brelse behind its check, for the buffer `b`: released, with one reference less, and moved to the
-- front if that was the last.
abbrev pub released : (i : ℕ) → Buf → List Buf → List Buf
released i b bufs =
    if (let_go b).refcnt == 0 then let_go b ∷ unlink i bufs else on_buf i let_go bufs

pub brelse : (pid i : ℕ) → Cache → Option Cache
unfolding holdingsleep get_buf on_buf unlink
brelse pid i c = elim (get_buf i c.bufs) [
  | none ↦ none
  | some b ↦
      if not (holdingsleep pid i c) then none else some (record c { bufs = released i b c.bufs })
]

pub bpin : (i : ℕ) → Cache → Cache
unfolding on_buf
bpin i c = record c { bufs = on_buf i incref c.bufs }

pub bunpin : (i : ℕ) → Cache → Cache
unfolding on_buf
bunpin i c = record c { bufs = on_buf i decref c.bufs }
