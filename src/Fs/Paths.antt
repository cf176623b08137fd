-- ===== src/Fs/Paths.antt =====
-- kernel/fs.c: path names. A path is the list of its characters before the terminating zero, so that
-- moving the pointer by one takes the tail.
pub mod Elements
mod Tests
use kali.Prelude.{
  ℕ, zero, suc, ◌+◌, ◌-◌, Bool, true, false, not, ◌&&◌, ◌||◌, Option, none, some, List, [], ◌∷◌,
  ◌==◌, ltb, leb, if◌then◌else◌, length, update, M, pure, panic, gets, ◌>>=◌, ◌>>◌,
}
use kali.Fs.{Fs}
use kali.Fs.Inodes.{this_inode, iget, idup, ilock, iunlock}
use kali.Fs.Inodes.Blocks.{iput, iunlockput}
use kali.Fs.Directories.{Name, dirsiz, t_dir, dirlookup}

-- 47 is the slash.
abbrev pub is_slash : ℕ → Bool
is_slash c = c == 47

-- `while(*path == '/') path++;`
unfoldable pub skip_slashes : List ℕ → List ℕ
skip_slashes [] = []
skip_slashes (c ∷ cs) = if is_slash c then skip_slashes cs else c ∷ cs

-- `while(*path != '/' && *path != 0) path++;`: what is passed and what is left.
unfoldable pub span : List ℕ → List ℕ × List ℕ
span [] = ([], [])
span (c ∷ cs) = let (s, rest) = span cs in if is_slash c then ([], c ∷ cs) else (c ∷ s, rest)

-- memmove of `n` of the characters to the front of `name`.
unfoldable pub move_name : Name → (i n : ℕ) → List ℕ → Name
move_name name i zero s = name
move_name name i (suc n) [] = name
move_name name i (suc n) (c ∷ s) = move_name (update name i c) (i + 1) n s

abbrev pub copy_name : List ℕ → Name → Name
copy_name s name =
    if leb dirsiz (length s)
    then move_name name 0 dirsiz s
    else update (move_name name 0 (length s) s) (length s) 0

abbrev after : List ℕ → Name → Option (List ℕ × Name)
after [] name = none
after (c ∷ cs) name = let (s, rest) = span (c ∷ cs) in some (skip_slashes rest, copy_name s name)

-- The rest of the path and the element, in `name`; `none` is the null pointer.
unfoldable pub skipelem : List ℕ → Name → Option (List ℕ × Name)
unfolding skip_slashes span move_name
skipelem path name = after (skip_slashes path) name

abbrev pub starts_at_root : List ℕ → Bool
starts_at_root [] = false
starts_at_root (c ∷ cs) = is_slash c

abbrev pub is_end : List ℕ → Bool
is_end [] = true
is_end (c ∷ cs) = false

-- One round of namex behind skipelem, for the rest of the path: the inode to go on with, or the
-- result.
pub data Round : Type 0 where
  on : ℕ → Round
  done : Option ℕ → Round

pub namex_round : (pid : ℕ) → (parent : Bool) → (ip : ℕ) → List ℕ → Name → M Fs Round
namex_round pid parent ip path name = do
  ilock pid ip
  d ← this_inode ip
  if not (d.type == t_dir)
      then iunlockput pid ip >> pure (done none)
      else if parent && is_end path
      then iunlock pid ip >> pure (done (some ip))
      else dirlookup ip name >>= λ found.
          iunlockput pid ip >> pure (elim found [ none ↦ done none | some (next, off) ↦ on next ])

-- The end of namex.
abbrev pub namex_end : (pid : ℕ) → (parent : Bool) → (ip : ℕ) → M Fs (Option ℕ)
namex_end pid parent ip = if parent then iput pid ip >> pure none else pure (some ip)

-- skipelem shortens the path: its length is fuel enough. The result is the inode and the name.
pub namex_loop :
    (pid : ℕ) → (parent : Bool) → (fuel ip : ℕ) → List ℕ → Name → M Fs (Option ℕ × Name)
namex_loop pid parent zero ip path name = panic
namex_loop pid parent (suc fuel) ip path name = elim (skipelem path name) [
  | none ↦ namex_end pid parent ip >>= (λ r. pure (r, name))
  | some (rest, elem) ↦ namex_round pid parent ip rest elem >>= λ r. elim r [
    | done r ↦ pure (r, elem)
    | on next ↦ namex_loop pid parent fuel next rest elem
  ]
]

-- The root is inode 1 of device 1; `cwd` is the current directory of the process.
pub namex : (pid cwd : ℕ) → (parent : Bool) → List ℕ → Name → M Fs (Option ℕ × Name)
namex pid cwd parent path name = do
  ip ← if starts_at_root path then iget 1 1 else idup cwd
  namex_loop pid parent (length path + 1) ip path name

pub namei : (pid cwd : ℕ) → List ℕ → M Fs (Option ℕ)
namei pid cwd path = do r ← namex pid cwd false path (λ _. 0); pure r.0

pub nameiparent : (pid cwd : ℕ) → List ℕ → Name → M Fs (Option ℕ × Name)
nameiparent pid cwd path name = namex pid cwd true path name
