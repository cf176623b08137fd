-- ===== src/Pipe/Runs.antt =====
-- kernel/pipe.c: what one run of pipewrite and of piperead does to the bytes in the pipe.
use kali.Prelude.{
  ℕ, zero, suc, ◌+◌, ◌<◌, ◌≡◌, refl, ap, ◌∙◌, sym, subst, if◌then◌else◌, Bool, true, false, ◌⊎◌,
  inl, inr, Option, none, some, List, [], ◌∷◌, ◌++◌, length, append_assoc, append-nil, arith,
  Bool-cases, Option-cases, not, ◌||◌, ◌&&◌, ℤ, pos, negsuc, pos_part,
}
use native.Mathlib.Nat.{add-zero, zero-add, add_assoc}
use kali.Pipe.{
  Pipe, Outcome, returns, sleeps, Run, stop, is_full, is_empty, put, front, get, pipewrite_loop,
  pipewrite, piperead_loop, piperead,
}
use kali.Pipe.Ring.{IsValid, contents, put-IsValid, contents-put, get-IsValid, contents-get}

-- The list is what the caller's memory holds from `addr` on.
abbrev pub Reads : (ℕ → Option ℕ) → ℕ → List ℕ → Type 0
Reads copyin addr [] = Unit {0}
Reads copyin addr (x ∷ xs) = (copyin addr ≡ some x) × Reads copyin (addr + 1) xs

no_reader : (open' killed : Bool) → (not open' || killed) ≡ true → (open' ≡ false) ⊎ (killed ≡ true)
no_reader true k h = inr h
no_reader false k h = inl refl

shift : (i k : ℕ) → i + 1 + k ≡ i + suc k
shift i k = omega arith

module _ (copyin : ℕ → Option ℕ) (killed : ℕ → Bool) (addr : ℕ) where
  -- How a run of pipewrite for `n` bytes may end with `at` of them written: it returns that number if
  -- it is `n` or the next byte cannot be read, it returns -1 if no reader is left or the caller is
  -- killed, and else it sleeps, on a full pipe.
  abbrev pub WriteEnd : (n at : ℕ) → Pipe → Outcome → Type 0
  WriteEnd n at pi (returns (pos m)) = (m ≡ at) × ((m ≡ n) ⊎ (copyin (addr + m) ≡ none))
  WriteEnd n at pi (returns (negsuc m)) = (m ≡ 0) × ((pi.readopen ≡ false) ⊎ (killed at ≡ true))
  WriteEnd n at pi (sleeps m) = (m ≡ at) × (at < n) × (is_full pi ≡ true)

  -- What a run from byte `i` makes of the pipe `pi`.
  pub record IsWriteRun (n i : ℕ) (pi : Pipe) (r : Run) : Type 0 where
    pub valid : IsValid r.pipe
    pub appended : contents r.pipe ≡ contents pi ++ r.moved
    pub read : Reads copyin (addr + i) r.moved
    pub ending : WriteEnd n (i + length r.moved) r.pipe r.outcome
    pub readopen : r.pipe.readopen ≡ pi.readopen
    pub writeopen : r.pipe.writeopen ≡ pi.writeopen
    pub nothing_lost : r.lost ≡ []

  write_stop :
      (n i : ℕ) (pi : Pipe) (o : Outcome) (w : Bool)
      → IsValid pi
      → WriteEnd n i pi o
      → IsWriteRun n i pi (stop o w pi)
  write_stop n i pi o w v e = record {
    valid = v;
    appended = sym (append-nil (contents pi));
    read = tt;
    ending = subst (λ at. WriteEnd n at pi o) (sym (add-zero i)) e;
    readopen = refl;
    writeopen = refl;
    nothing_lost = refl;
  }

  write_put :
      (n i ch : ℕ) (pi : Pipe) (r : Run)
      → IsValid pi
      → is_full pi ≡ false
      → copyin (addr + i) ≡ some ch
      → IsWriteRun n (i + 1) (put pi ch) r
      → IsWriteRun n i pi (record r { moved = ch ∷ r.moved })
  write_put n i ch pi r v room got rest = record {
    valid = rest.valid;
    appended =
        rest.appended
        ∙ ap (λ l. l ++ r.moved) (contents-put pi v ch room)
        ∙ append_assoc (contents pi) (ch ∷ []) r.moved;
    read = (got, subst (λ a. Reads copyin a r.moved) (sym (add_assoc addr i 1)) rest.read);
    ending = subst (λ at. WriteEnd n at r.pipe r.outcome) (shift i (length r.moved)) rest.ending;
    readopen = rest.readopen;
    writeopen = rest.writeopen;
    nothing_lost = rest.nothing_lost;
  }

  pub pipewrite_loop_lem :
      (i k : ℕ) (pi : Pipe)
      → IsValid pi
      → IsWriteRun (i + k) i pi (pipewrite_loop copyin killed addr i k pi)
  unfolding pipewrite_loop
  pipewrite_loop_lem i zero pi v = write_stop (i + 0) i pi _ _ v (refl, inl (sym (add-zero i)))
  pipewrite_loop_lem i (suc k) pi v = elim (Bool-cases (not pi.readopen || killed i)) [
    | inl gone ↦ rw gone (write_stop _ i pi _ _ v (refl, no_reader pi.readopen (killed i) gone))
    | inr go ↦ rw go (elim (Bool-cases (is_full pi)) [
      | inl full ↦ rw full (write_stop _ i pi _ _ v (refl, omega arith, full))
      | inr room ↦ rw room (elim (Option-cases (copyin (addr + i))) [
        | inl fault ↦ rw fault (write_stop _ i pi _ _ v (refl, inr fault))
        | inr (ch, got) ↦ rw got (
            write_put _ i ch pi _ v room got (
              subst
                (λ n.
                  IsWriteRun n (i + 1) (put pi ch)
                    (pipewrite_loop copyin killed addr (i + 1) k (put pi ch)))
                (shift i k) (pipewrite_loop_lem (i + 1) k (put pi ch) (put-IsValid pi v ch room))))
      ])
    ])
  ]

  -- One call of pipewrite up to its first sleep: the bytes that it takes from the caller's memory
  -- are those from `addr` on, and join the pipe behind what it holds.
  pub pipewrite_lem :
      (n : ℤ) (pi : Pipe)
      → IsValid pi
      → IsWriteRun (pos_part n) 0 pi (pipewrite copyin killed addr n pi)
  unfolding pipewrite
  pipewrite_lem n pi v =
      subst (λ m. IsWriteRun m 0 pi (pipewrite_loop copyin killed addr 0 (pos_part n) pi))
        (zero-add (pos_part n)) (pipewrite_loop_lem 0 (pos_part n) pi v)

-- `copyout` stores each byte of the list, from `addr` on.
abbrev pub Stores : (ℕ → ℕ → Bool) → ℕ → List ℕ → Type 0
Stores copyout addr [] = Unit {0}
Stores copyout addr (x ∷ xs) = (copyout addr x ≡ true) × Stores copyout (addr + 1) xs

module _ (copyout : ℕ → ℕ → Bool) (addr : ℕ) where
  -- How the copying of piperead for `n` bytes ends with `at` of them stored: all of them are, or the
  -- pipe is empty, or a byte is out of the pipe and cannot be stored.
  abbrev pub ReadEnd : (n at : ℕ) → Run → Type 0
  ReadEnd n at r =
      (r.outcome ≡ returns (pos at))
      × (((at ≡ n) × (r.lost ≡ []))
          ⊎ ((is_empty r.pipe ≡ true) × (r.lost ≡ []))
          ⊎ ((b : ℕ) × (copyout (addr + at) b ≡ false) × (r.lost ≡ b ∷ [])))

  pub record IsReadRun (n i : ℕ) (pi : Pipe) (r : Run) : Type 0 where
    pub valid : IsValid r.pipe
    pub taken : contents pi ≡ r.moved ++ (r.lost ++ contents r.pipe)
    pub stored : Stores copyout (addr + i) r.moved
    pub ending : ReadEnd n (i + length r.moved) r
    pub readopen : r.pipe.readopen ≡ pi.readopen
    pub writeopen : r.pipe.writeopen ≡ pi.writeopen

  read_get :
      (n i : ℕ) (pi : Pipe) (r : Run)
      → IsValid pi
      → is_empty pi ≡ false
      → copyout (addr + i) (front pi) ≡ true
      → IsReadRun n (i + 1) (get pi) r
      → IsReadRun n i pi (record r { moved = front pi ∷ r.moved })
  read_get n i pi r v some_left ok rest = record {
    valid = rest.valid;
    taken = contents-get pi v some_left ∙ ap (λ l. front pi ∷ l) rest.taken;
    stored = (ok, subst (λ a. Stores copyout a r.moved) (sym (add_assoc addr i 1)) rest.stored);
    ending = subst (λ at. ReadEnd n at r) (shift i (length r.moved)) rest.ending;
    readopen = rest.readopen;
    writeopen = rest.writeopen;
  }

  read_stop :
      (n i : ℕ) (pi : Pipe)
      → IsValid pi
      → (i ≡ n) ⊎ (is_empty pi ≡ true)
      → IsReadRun n i pi (stop (returns (pos i)) true pi)
  read_stop n i pi v why = record {
    valid = v;
    taken = refl;
    stored = tt;
    ending =
        subst (λ at. ReadEnd n at (stop (returns (pos i)) true pi)) (sym (add-zero i))
          (
            refl,
            elim why [ inl all ↦ inl (all, refl) | inr none_left ↦ inr (inl (none_left, refl)) ],
          );
    readopen = refl;
    writeopen = refl;
  }

  read_fault :
      (n i : ℕ) (pi : Pipe)
      → IsValid pi
      → is_empty pi ≡ false
      → copyout (addr + i) (front pi) ≡ false
      → IsReadRun n i pi (record (stop (returns (pos i)) true (get pi)) { lost = front pi ∷ [] })
  read_fault n i pi v some_left fault = record {
    valid = get-IsValid pi v some_left;
    taken = contents-get pi v some_left;
    stored = tt;
    ending =
        subst
          (λ at.
            ReadEnd n at (record (stop (returns (pos i)) true (get pi)) { lost = front pi ∷ [] }))
          (sym (add-zero i)) (refl, inr (inr (front pi, fault, refl)));
    readopen = refl;
    writeopen = refl;
  }

  pub piperead_loop_lem :
      (killed : Bool) (i k : ℕ) (pi : Pipe)
      → IsValid pi
      → IsReadRun (i + k) i pi (piperead_loop copyout killed addr i k pi)
  unfolding piperead_loop
  piperead_loop_lem killed i zero pi v = read_stop (i + 0) i pi v (inl (sym (add-zero i)))
  piperead_loop_lem killed i (suc k) pi v = elim (Bool-cases (is_empty pi)) [
    | inl none_left ↦ rw none_left (read_stop _ i pi v (inr none_left))
    | inr some_left ↦ rw some_left (elim (Bool-cases (copyout (addr + i) (front pi))) [
      | inl ok ↦ rw ok (
          read_get _ i pi _ v some_left ok (
            subst
              (λ n.
                IsReadRun n (i + 1) (get pi) (piperead_loop copyout killed addr (i + 1) k (get pi)))
              (shift i k)
              (piperead_loop_lem killed (i + 1) k (get pi) (get-IsValid pi v some_left))))
      | inr fault ↦ rw fault (read_fault _ i pi v some_left fault)
    ])
  ]

  -- A run of piperead that finds bytes, or no writer, takes bytes from the front of the pipe in
  -- order: those that it stores from `addr` on, and one more if that one cannot be stored.
  pub piperead_lem :
      (killed : Bool) (n : ℤ) (pi : Pipe)
      → IsValid pi
      → (is_empty pi && pi.writeopen) ≡ false
      → IsReadRun (pos_part n) 0 pi (piperead copyout killed addr n pi)
  unfolding piperead
  piperead_lem killed n pi v ready = rw ready (
      subst (λ m. IsReadRun m 0 pi (piperead_loop copyout killed addr 0 (pos_part n) pi))
        (zero-add (pos_part n)) (piperead_loop_lem killed 0 (pos_part n) pi v))

  -- A run of piperead that finds no bytes but a writer leaves the pipe alone: it returns -1 if the
  -- caller is killed, and else it sleeps.
  pub piperead_waits :
      (killed : Bool) (n : ℤ) (pi : Pipe)
      → (is_empty pi && pi.writeopen) ≡ true
      → piperead copyout killed addr n pi
        ≡ stop (if killed then returns (negsuc 0) else sleeps 0) false pi
  unfolding piperead
  piperead_waits true n pi wait = rw wait
  piperead_waits false n pi wait = rw wait
