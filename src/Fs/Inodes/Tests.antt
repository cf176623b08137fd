-- ===== src/Fs/Inodes/Tests.antt =====
-- kernel/fs.c: a table with one inode in use.
use kali.Prelude.{ℕ, ◌≡◌, ◌⊎◌, none, some, [], true, false, arith, ◌==◌, if◌then◌else◌}
use kali.Fs.{Fs, Inode}
use kali.Fs.Inodes.{iget}
use kali.Fs.Inodes.Table.{IsTable, IsGot, IsFull, iget_lem}

abbrev unused : Inode
unused = record {
  dev = 0;
  inum = 0;
  ref = 0;
  owner = none;
  valid = false;
  type = 0;
  major = 0;
  minor = 0;
  nlink = 0;
  size = 0;
  addrs = λ _. 0;
}

-- The root, inode 1 of device 1, is entry 3.
abbrev rooted : Fs
rooted = record {
  view = record { contents = λ _ _. 0; disk = λ _ _. 0; pins = λ _. 0; history = [] };
  log = record {
    start = 2;
    size = 31;
    outstanding = 1;
    committing = false;
    dev = 1;
    lh = record { n = 0; block = λ _. 0 };
  };
  sb = record {
    magic = 0x10203040;
    size = 2000;
    ninodes = 200;
    nlog = 31;
    logstart = 2;
    inodestart = 33;
    bmapstart = 46;
  };
  itable = λ i.
      if i == 3
      then record unused { dev = 1; inum = 1; ref = 1; valid = true; type = 1 }
      else unused;
}

rooted-IsTable : IsTable rooted.itable
rooted-IsTable = record { once = λ i j hi hj ri rj e1 e2. ground (arith, ri, rj) }

iget_lem_example :
    ((i : ℕ) × (s : Fs) × (iget 1 1 rooted ≡ some (i, s)) × IsGot rooted 1 1 i s)
    ⊎ ((iget 1 1 rooted ≡ none) × IsFull rooted 1 1)
iget_lem_example = iget_lem rooted 1 1 rooted-IsTable
