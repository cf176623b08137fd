-- ===== src/Fs/Directories.antt =====
-- kernel/fs.c: directories. A name is an array of 14 characters; an entry is 2 bytes of the inode's
-- number and the name. The copies of an entry are between kernel addresses and do not fail.
use kali.Prelude.{
  ℕ, zero, suc, ◌+◌, ◌-◌, ◌*◌, ◌/◌, ◌%◌, Bool, true, false, not, Option, none, some, List, [], ◌∷◌,
  ◌==◌, ltb, if◌then◌else◌, ℤ, pos, negsuc, M, pure, panic, panic_if, ◌>>=◌, ◌>>◌,
}
use kali.Strings.{Memory, strncmp, strncpy}
use kali.Fs.{Fs}
use kali.Fs.Inodes.{this_inode, iget}
use kali.Fs.Inodes.Blocks.{iput}
use kali.Fs.Inodes.Content.{readi, writei}

abbrev pub dirsiz : ℕ
dirsiz = 14

abbrev pub t_dir : ℕ
t_dir = 1

abbrev pub Name : Type 0
Name = ℕ → ℕ

-- Memory with the array `s` at 0 and `t` at 16.
abbrev pub beside : Name → Name → Memory
beside s t a = if ltb a 16 then s a else t (a - 16)

abbrev pub is_zero : ℤ → Bool
is_zero (pos n) = n == 0
is_zero (negsuc n) = false

pub namecmp : Name → Name → ℤ
namecmp s t = strncmp (beside s t) 0 16 dirsiz

pub record Dirent : Type 0 where
  pub inum : ℕ
  pub name : Name

-- `struct dirent` as its 16 bytes.
abbrev nth : List ℕ → ℕ → ℕ
nth [] i = 0
nth (c ∷ cs) zero = c
nth (c ∷ cs) (suc i) = nth cs i

abbrev pub decode : List ℕ → Dirent
decode cs = record { inum = nth cs 0 + 256 * nth cs 1; name = λ i. nth cs (i + 2) }

bytes_from : Name → (i n : ℕ) → List ℕ
bytes_from name i zero = []
bytes_from name i (suc n) = name i ∷ bytes_from name (i + 1) n

pub encode : Dirent → List ℕ
encode de = de.inum % 256 ∷ de.inum / 256 % 256 ∷ bytes_from de.name 0 dirsiz

abbrev length : List ℕ → ℕ
length [] = 0
length (c ∷ cs) = suc (length cs)

-- `readi(dp, 0, (uint64)&de, off, sizeof(de))` with its panic.
pub read_entry : (dp off : ℕ) → M Fs Dirent
read_entry dp off = readi (λ _ _. true) dp 0 off 16 >>= λ r. elim r [
  | none ↦ panic
  | some cs ↦ do panic_if (not (length cs == 16)); pure (decode cs)
]

found_entry : (dp off inum : ℕ) → M Fs (Option (ℕ × ℕ))
found_entry dp off inum = do d ← this_inode dp; ip ← iget d.dev inum; pure (some (ip, off))

-- The loop of dirlookup from `off` on: the entry's inode and its offset.
pub dirlookup_loop : (dp : ℕ) → Name → (rounds off : ℕ) → M Fs (Option (ℕ × ℕ))
dirlookup_loop dp name zero off = pure none
dirlookup_loop dp name (suc rounds) off = do
  de ← read_entry dp off
  if de.inum == 0
      then dirlookup_loop dp name rounds (off + 16)
      else if is_zero (namecmp name de.name)
      then found_entry dp off de.inum
      else dirlookup_loop dp name rounds (off + 16)

pub dirlookup : (dp : ℕ) → Name → M Fs (Option (ℕ × ℕ))
dirlookup dp name = do
  d ← this_inode dp
  panic_if (not (d.type == t_dir))
  dirlookup_loop dp name ((d.size + 15) / 16) 0

-- The offset where the loop of dirlink stops: of the first free entry, or the end.
pub free_entry : (dp rounds off : ℕ) → M Fs ℕ
free_entry dp zero off = pure off
free_entry dp (suc rounds) off = do
  de ← read_entry dp off
  if de.inum == 0 then pure off else free_entry dp rounds (off + 16)

-- What strncpy leaves in the name of an entry.
abbrev pub copied_name : Name → Name → Name
copied_name old name i = strncpy (beside old name) 0 16 (pos dirsiz) i

-- An entry at `off`; `old` is what the name of the entry held before.
pub write_entry : (dp off inum : ℕ) → Name → Name → M Fs ℤ
write_entry dp off inum old name =
    let de : Dirent = record { inum = inum; name = copied_name old name } in
    writei (λ _ _. (true, encode de)) dp 0 off 16 >>= λ r. elim r [
      | pos n ↦ pure (if n == 16 then pos 0 else negsuc 0)
      | negsuc n ↦ pure (negsuc 0)
    ]

pub dirlink : (pid dp : ℕ) → Name → (inum : ℕ) → (old : Name) → M Fs ℤ
dirlink pid dp name inum old = dirlookup dp name >>= λ found. elim found [
  | some (ip, off) ↦ do iput pid ip; pure (negsuc 0)
  | none ↦ do
    d ← this_inode dp
    off ← free_entry dp ((d.size + 15) / 16) 0
    write_entry dp off inum old name
]
