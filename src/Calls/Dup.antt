-- ===== src/Calls/Dup.antt =====
-- kernel/sysfile.c: sys_dup, with fdalloc and filedup.
use kali.Prelude.{
  ℕ, zero, suc, ◌+◌, ◌≡◌, ◌≢◌, ◌≤◌, ◌<◌, refl, sym, ap, ◌∙◌, false, Option, none, some, ltb, leb,
  if◌then◌else◌, update, update_self, update_ne, arith, Bool-cases, Option-cases, inl, inr,
  ℕ_discrete, ℤ, pos, negsuc, M, pure, panic_if, ◌>>=◌, ◌>>◌, >>=-some,
}
use kali.File.{Files, set_file, filedup}
use kali.Proc.Lifecycle.{nofile, World, on_files}
use kali.Calls.{first_fd, find_fd, open_fd, dup_found, take_fd, fdalloc, dup_end, sys_dup}

-- The open file that a descriptor names.
abbrev pub file_at : World → (me : ℕ) → ℤ → Option ℕ
file_at s me (negsuc k) = none
file_at s me (pos fd) = if leb nofile fd then none else (s.table me).ofile fd

-- Every file that the process has open is referred to.
pub record HasRefs (s : World) (me : ℕ) : Type 0 where
  pub refs : (fd f : ℕ) → (s.table me).ofile fd ≡ some f → 1 ≤ (s.files.file f).ref

-- The first free descriptor.
pub record IsFirstFree (ofile : ℕ → Option ℕ) (fd : ℕ) : Type 0 where
  pub free : ofile fd ≡ none
  pub inside : fd < nofile
  pub before : (j : ℕ) → j < fd → ofile j ≢ none

-- Descriptor `fd` of process `me` becomes one more reference to the file `f`, and nothing else changes.
pub record IsShared (s : World) (me fd f : ℕ) (s' : World) : Type 0 where
  pub new_fd : (s'.table me).ofile fd ≡ some f
  pub other_fds : (j : ℕ) → j ≢ fd → (s'.table me).ofile j ≡ (s.table me).ofile j
  pub others : (p : ℕ) → p ≢ me → s'.table p ≡ s.table p
  pub count : (s'.files.file f).ref ≡ (s.files.file f).ref + 1
  pub other_files : (g : ℕ) → g ≢ f → s'.files.file g ≡ s.files.file g
  pub stores :
      (s'.files.fs ≡ s.files.fs) × (s'.files.kmem ≡ s.files.kmem) × (s'.files.pipes ≡ s.files.pipes)

pub data Duplicated (s : World) (me : ℕ) (fd : ℤ) (r : Option (ℤ × World)) : Type 0 where
  not_open : file_at s me fd ≡ none → r ≡ some (negsuc 0, s) → Duplicated s me fd r
  no_descriptor :
      ((j : ℕ) → j < nofile → (s.table me).ofile j ≢ none)
      → r ≡ some (negsuc 0, s)
      → Duplicated s me fd r
  shares :
      (f new : ℕ) (s' : World)
      → file_at s me fd ≡ some f
      → IsFirstFree (s.table me).ofile new
      → r ≡ some (pos new, s')
      → IsShared s me new f s'
      → Duplicated s me fd r

not_both : {f : ℕ} {o : Option ℕ} → o ≡ some f → o ≢ none
not_both e h = cc

same_some : {a b : ℕ} → some a ≡ some b → a ≡ b
same_some e = cc

find_fd-none :
    (ofile : ℕ → Option ℕ) (rounds i : ℕ)
    → find_fd ofile i rounds ≡ none
    → (j : ℕ) → i ≤ j
    → j < i + rounds
    → ofile j ≢ none
unfolding find_fd
find_fd-none ofile zero i e j low high = absurd (omega (arith, low, high))
find_fd-none ofile (suc rounds) i e j low high = elim (Option-cases (ofile i)) [
  | inl free ↦
      absurd (not_both refl (sym (ap (first_fd i (find_fd ofile (i + 1) rounds)) free) ∙ e))
  | inr (f, taken) ↦ elim (ℕ_discrete i j) [
    | yes same ↦ not_both (sym (ap ofile same) ∙ taken)
    | no n ↦
        find_fd-none ofile rounds (i + 1)
          (sym (ap (first_fd i (find_fd ofile (i + 1) rounds)) taken) ∙ e) j (omega (arith, n, low))
          (omega (arith, high))
  ]
]

find_fd-some :
    (ofile : ℕ → Option ℕ) (rounds i fd : ℕ)
    → find_fd ofile i rounds ≡ some fd
    → (ofile fd ≡ none) × (fd < i + rounds) × ((j : ℕ) → i ≤ j → j < fd → ofile j ≢ none)
unfolding find_fd
find_fd-some ofile zero i fd e = cc
find_fd-some ofile (suc rounds) i fd e = elim (Option-cases (ofile i)) [
  | inl free ↦ here (same_some (sym (ap (first_fd i (find_fd ofile (i + 1) rounds)) free) ∙ e)) free
  | inr (f, taken) ↦
      let (free, inside, before) =
        find_fd-some ofile rounds (i + 1) fd
          (sym (ap (first_fd i (find_fd ofile (i + 1) rounds)) taken) ∙ e) in
      (
        free,
        omega (arith, inside),
        λ j low high. elim (ℕ_discrete i j) [
          | yes same ↦ not_both (sym (ap ofile same) ∙ taken)
          | no n ↦ before j (omega (arith, n, low)) high
        ],
      )
]
  where
    here :
        i ≡ fd
        → ofile i ≡ none
        → (ofile fd ≡ none) × (fd < i + suc rounds) × ((j : ℕ) → i ≤ j → j < fd → ofile j ≢ none)
    here same free = (
      sym (ap ofile same) ∙ free,
      omega (arith, same),
      λ j low high. absurd (omega (arith, same, low, high)),
    )

-- filedup on a file that is referred to.
filedup-held :
    (t : Files) (f : ℕ)
    → 1 ≤ (t.file f).ref
    → filedup f t
      ≡ some
          (f, record t { file = update t.file f (record (t.file f) { ref = (t.file f).ref + 1 }) })
unfolding filedup
filedup-held t f held =
    ap
      (λ b.
        (panic_if {S = Files} b >> (set_file f (λ x. record x { ref = x.ref + 1 }) >> pure f)) t)
      (not_zero (t.file f).ref held)
  where
    not_zero : (n : ℕ) → 1 ≤ n → ltb n 1 ≡ false
    not_zero n h = ground (arith, h)

on_files-some :
    {A : Type 0} (m : M Files A) (s : World) {a : A} {t : Files}
    → m s.files ≡ some (a, t)
    → on_files m s ≡ some (a, record s { files = t })
on_files-some m s e = rw (e, on_files) refl

module _ (s : World) (me f : ℕ) where
  -- The state behind fdalloc, and that behind filedup.
  with_fd : (fd : ℕ) → World
  with_fd fd = record s {
    table =
        update s.table me (record (s.table me) { ofile = update (s.table me).ofile fd (some f) });
  }

  shared : (fd : ℕ) → World
  shared fd = record s {
    table =
        update s.table me (record (s.table me) { ofile = update (s.table me).ofile fd (some f) });
    files = record s.files {
      file = update s.files.file f (record (s.files.file f) { ref = (s.files.file f).ref + 1 });
    };
  }

  shared-IsShared : (fd : ℕ) → IsShared s me fd f (shared fd)
  unfolding shared
  shared-IsShared fd = record {
    new_fd =
        ap (λ p. p.ofile fd) (update_self s.table me _)
        ∙ update_self (s.table me).ofile fd (some f);
    other_fds = λ j n.
        ap (λ p. p.ofile j) (update_self s.table me _)
        ∙ update_ne (s.table me).ofile fd j (some f) (λ e. n (sym e));
    others = λ p n. update_ne s.table me p _ (λ e. n (sym e));
    count = ap (λ x. x.ref) (update_self s.files.file f _);
    other_files = λ g n. update_ne s.files.file f g _ (λ e. n (sym e));
    stores = (refl, refl, refl);
  }

  counted :
      (fd : ℕ) → 1 ≤ (s.files.file f).ref → on_files (filedup f) (with_fd fd) ≡ some (f, shared fd)
  unfolding with_fd shared
  counted fd held = on_files-some (filedup f) (with_fd fd) (filedup-held s.files f held)

  dup_some :
      (fd : ℕ)
      → 1 ≤ (s.files.file f).ref
      → (take_fd me f (some fd) >>= dup_end f) s ≡ some (pos fd, shared fd)
  unfolding take_fd dup_end with_fd
  dup_some fd held =
      >>=-some (on_files (filedup f)) (λ _. pure (pos fd)) {s = with_fd fd} (counted fd held)

  dup_none : (take_fd me f none >>= dup_end f) s ≡ some (negsuc 0, s)
  unfolding take_fd dup_end
  dup_none = refl

  dup_take :
      (o : Option ℕ)
      → find_fd (s.table me).ofile 0 nofile ≡ o
      → (fdalloc me f >>= dup_end f) s ≡ (take_fd me f o >>= dup_end f) s
  unfolding fdalloc
  dup_take o e = ap (λ o. (take_fd me f o >>= dup_end f) s) e

  duplicates :
      (fd : ℤ)
      → file_at s me fd ≡ some f
      → 1 ≤ (s.files.file f).ref
      → sys_dup me fd s ≡ (fdalloc me f >>= dup_end f) s
      → Duplicated s me fd (sys_dup me fd s)
  duplicates fd named held e = elim (Option-cases (find_fd (s.table me).ofile 0 nofile)) [
    | inl full ↦
        no_descriptor
          (λ j inside.
            find_fd-none (s.table me).ofile nofile 0 full j (omega arith) (omega (arith, inside)))
          (e ∙ dup_take none full ∙ dup_none)
    | inr (new, eq) ↦
        let (free, inside, before) = find_fd-some (s.table me).ofile nofile 0 new eq in
        shares f new (shared new) named
          (record {
            free = free;
            inside = omega (arith, inside);
            before = λ j low. before j (omega arith) low;
          })
          (e ∙ dup_take (some new) eq ∙ dup_some new held) (shared-IsShared new)
  ]

-- sys_dup either returns the first free descriptor, which from then on is one more reference to the
-- file that the argument names, with all other descriptors, processes and files as before; or it returns -1 with
-- nothing changed, where the argument names no open file or no descriptor is free. It does not panic
-- if the files that the process has open are referred to.
pub sys_dup_lem :
    (s : World) (me : ℕ) (fd : ℤ) → HasRefs s me → Duplicated s me fd (sys_dup me fd s)
unfolding sys_dup dup_found
sys_dup_lem s me (negsuc k) held = not_open refl refl
sys_dup_lem s me (pos fd) held = elim (Bool-cases (leb nofile fd)) [
  | inl far ↦
      not_open (rw far refl)
        (ap (λ b. dup_found me (if b then none else open_fd fd ((s.table me).ofile fd)) s) far)
  | inr near ↦ elim (Option-cases ((s.table me).ofile fd)) [
    | inl closed ↦
        not_open (rw near closed) (step near ∙ ap (λ o. dup_found me (open_fd fd o) s) closed)
    | inr (f, is_open) ↦
        duplicates s me f (pos fd) (rw near is_open) (held.refs fd f is_open)
          (step near ∙ ap (λ o. dup_found me (open_fd fd o) s) is_open)
  ]
]
  where
    step :
        leb nofile fd ≡ false
        → sys_dup me (pos fd) s ≡ dup_found me (open_fd fd ((s.table me).ofile fd)) s
    step near =
        ap (λ b. dup_found me (if b then none else open_fd fd ((s.table me).ofile fd)) s) near
