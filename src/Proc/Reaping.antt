-- ===== src/Proc/Reaping.antt =====
-- kernel/proc.c: what a round of wait does.
use kali.Prelude.{ℕ, ◌+◌, ◌≡◌, ◌≤◌, ◌<◌, ◌⊎◌, Bool, true, false, some, update, pos, negsuc}
use kali.Proc.{
  Proc, Table, nproc, same_proc, at_proc, freed, asleep, Scan, exited_child, no_exit, Outcome,
  returns, sleeps,
}
use kali.Proc.Waits.{left}

abbrev pub is_child : (q : ℕ) → Proc → Bool
is_child q p = same_proc p.parent q

-- The scan of `rounds` rows from `i` on, after rows with children or without.
data Scanned (ps : Table) (me i rounds : ℕ) (havekids : Bool) (r : Scan) : Type 0 where
  finds :
      (c : ℕ)
      → r ≡ exited_child c
      → c < i + rounds
      → left me (ps c) ≡ true
      → Scanned ps me i rounds havekids r
  passes :
      (kids : Bool)
      → r ≡ no_exit kids
      → ((c : ℕ) → i ≤ c → c < i + rounds → left me (ps c) ≡ false)
      → (kids ≡ true
          → (havekids ≡ true) ⊎ ((c : ℕ) × (c < i + rounds) × (is_child me (ps c) ≡ true)))
      → (kids ≡ false
          → (havekids ≡ false) × ((c : ℕ) → i ≤ c → c < i + rounds → is_child me (ps c) ≡ false))
      → Scanned ps me i rounds havekids r

-- What a round of wait does with the table `ps`, by the children of the caller.
pub data Waited (copied : Bool) (me : ℕ) (ps : Table) (r : Outcome × Table) : Type 0 where
  reaps :
      (c : ℕ)
      → c < nproc
      → left me (ps c) ≡ true
      → copied ≡ true
      → r ≡ (returns (pos (ps c).pid), update ps c (freed (ps c)))
      → Waited copied me ps r
  copy_fails :
      (c : ℕ)
      → c < nproc
      → left me (ps c) ≡ true
      → copied ≡ false
      → r ≡ (returns (negsuc 0), ps)
      → Waited copied me ps r
  has_no_child :
      ((c : ℕ) → c < nproc → is_child me (ps c) ≡ false)
      → r ≡ (returns (negsuc 0), ps)
      → Waited copied me ps r
  is_killed :
      ((c : ℕ) → c < nproc → left me (ps c) ≡ false)
      → (ps me).killed ≡ true
      → r ≡ (returns (negsuc 0), ps)
      → Waited copied me ps r
  falls_asleep :
      ((c : ℕ) → c < nproc → left me (ps c) ≡ false)
      → (ps me).killed ≡ false
      → (c : ℕ) → c < nproc
      → is_child me (ps c) ≡ true
      → r ≡ (sleeps, update ps me (asleep (some (at_proc me)) (ps me)))
      → Waited copied me ps r
