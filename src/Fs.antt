-- ===== src/Fs.antt =====
-- kernel/fs.c: the state of the file system and its blocks. The one device is the view that the
-- buffer cache gives (Buffers), and changes go through the log (Log). `none` is a panic or, at the
-- lock of an inode, a wait: a call is modelled where it can run to its end.
pub mod Writes
pub mod Alloc
pub mod Inodes
pub mod Directories
pub mod Paths
use kali.Prelude.{
  ℕ, ◌+◌, ◌-◌, ◌*◌, ◌/◌, ◌%◌, ◌^◌, Bool, true, false, not, Option, none, some, ◌==◌, if◌then◌else◌,
  update, M, pure, panic_if, gets, modify, ◌>>=◌, ◌>>◌,
}
use kali.Buffers.{Block, View, store}
use kali.Log
use kali.Log.{Log, bsize, Superblock, initlog}

-- `struct superblock`; `nblocks` is not read here.
pub record Super : Type 0 where
  pub magic : ℕ
  pub size : ℕ
  pub ninodes : ℕ
  pub nlog : ℕ
  pub logstart : ℕ
  pub inodestart : ℕ
  pub bmapstart : ℕ

abbrev pub ndirect : ℕ
ndirect = 12

abbrev pub nindirect : ℕ
nindirect = bsize / 4

abbrev pub maxfile : ℕ
maxfile = ndirect + nindirect

abbrev pub ninode : ℕ
ninode = 50

-- `struct inode`, with its sleep lock as the pid of the holder.
pub record Inode : Type 0 where
  pub dev : ℕ
  pub inum : ℕ
  pub ref : ℕ
  pub owner : Option ℕ
  pub valid : Bool
  pub type : ℕ
  pub major : ℕ
  pub minor : ℕ
  pub nlink : ℕ
  pub size : ℕ
  pub addrs : ℕ → ℕ

-- An inode is known by its index in the table.
pub record Fs : Type 0 where
  pub view : View
  pub log : Log
  pub sb : Super
  pub itable : ℕ → Inode

-- The data of a block after bread; brelse gives it back.
abbrev pub read_block : (b : ℕ) → M Fs Block
read_block b = gets (λ s. s.view.contents b)

abbrev pub log_block : (b : ℕ) → M Fs (Unit {0})
log_block b s = elim (Log.log_write s.log s.view b) [
  | none ↦ none
  | some (l, v) ↦ some (tt, record s { log = l; view = v })
]

-- The data of a block is replaced, and the block logged.
abbrev pub write_block : (b : ℕ) → Block → M Fs (Unit {0})
write_block b x = do modify (λ s. record s { view = store b x s.view }); log_block b

-- The superblock as it stands in block 1.
abbrev pub super_of : Block → Super
super_of x = record {
  magic = x 0;
  size = x 1;
  ninodes = x 3;
  nlog = x 4;
  logstart = x 5;
  inodestart = x 6;
  bmapstart = x 7;
}

pub readsb : M Fs (Unit {0})
readsb = do x ← read_block 1; modify (λ s. record s { sb = super_of x })

abbrev pub fsmagic : ℕ
fsmagic = 0x10203040

abbrev start_log : (dev : ℕ) → M Fs (Unit {0})
start_log dev s =
    elim (initlog s.log dev (record { logstart = s.sb.logstart; nlog = s.sb.nlog }) s.view) [
      | none ↦ none
      | some (l, v) ↦ some (tt, record s { log = l; view = v })
    ]

pub fsinit : (dev : ℕ) → M Fs (Unit {0})
fsinit dev = do
  readsb
  magic ← gets (λ s. s.sb.magic)
  panic_if (not (magic == fsmagic))
  start_log dev

-- A block is 32-bit words; these are its bytes.
unfoldable pub get_byte : Block → ℕ → ℕ
get_byte x i = x (i / 4) / 256 ^ (i % 4) % 256

unfoldable pub set_byte : Block → ℕ → ℕ → Block
set_byte x i v = update x (i / 4) (x (i / 4) - get_byte x i * 256 ^ (i % 4) + v * 256 ^ (i % 4))
