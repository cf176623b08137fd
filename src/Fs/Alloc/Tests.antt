-- ===== src/Fs/Alloc/Tests.antt =====
-- kernel/fs.c: a file system of 100 blocks, the first 47 in use.
use kali.Prelude.{
  ℕ, ◌+◌, ◌/◌, ◌≡◌, ◌⊎◌, ◌<◌, ap, none, some, [], true, false, arith, ◌==◌, if◌then◌else◌,
}
use kali.Fs.{Fs, get_byte}
use kali.Fs.Writes.{HasRoom}
use kali.Fs.Alloc.{in_use, bpb, balloc}
use kali.Fs.Alloc.First.{used, IsReserved, IsAllocated, balloc_lem}

abbrev formatted : Fs
formatted = record {
  view = record {
    contents =
        λ b i. if b == 46 then (if i == 0 then 0xffffffff else if i == 1 then 0x7fff else 0) else 7;
    disk = λ _ _. 0;
    pins = λ _. 0;
    history = [];
  };
  log = record {
    start = 2;
    size = 31;
    outstanding = 1;
    committing = false;
    dev = 1;
    lh = record { n = 0; block = λ _. 0 };
  };
  sb = record {
    magic = 0x10203040;
    size = 100;
    ninodes = 200;
    nlog = 31;
    logstart = 2;
    inodestart = 33;
    bmapstart = 46;
  };
  itable = λ _. record {
    dev = 0;
    inum = 0;
    ref = 0;
    owner = none;
    valid = false;
    type = 0;
    major = 0;
    minor = 0;
    nlink = 0;
    size = 0;
    addrs = λ _. 0;
  };
}

formatted-IsReserved : IsReserved formatted
unfolding in_use get_byte
formatted-IsReserved = record { bitmap = λ q inside. ap (used formatted) (one_block q inside) }
  where
    one_block : (q : ℕ) → q < 100 → q / bpb + 46 ≡ 46
    one_block q inside = omega (arith, inside)

formatted-HasRoom : HasRoom 2 formatted
formatted-HasRoom = record { running = omega arith; transaction = omega arith; area = omega arith }

balloc_lem_example :
    ((c : ℕ) × (s : Fs) × (balloc formatted ≡ some (c, s)) × IsAllocated formatted c s)
    ⊎ ((balloc formatted ≡ some (0, formatted)) × ((q : ℕ) → q < 100 → used formatted q ≡ true))
balloc_lem_example = balloc_lem formatted formatted-IsReserved formatted-HasRoom
