-- ===== src/Pipe/Fifo.antt =====
-- kernel/pipe.c: any interleaving of the runs of writers and readers. A run holds the lock, so the
-- runs come one after the other.
use kali.Prelude.{
  ℕ, ◌≤◌, ◌≡◌, refl, ap, ◌∙◌, sym, subst, Bool, true, false, Option, List, [], ◌++◌, length,
  append_assoc, append-nil, ℤ, Bool-cases, ◌&&◌, arith, inl, inr,
}
use kali.Pipe.{Pipe, pipesize, Run, fresh, is_empty, pipewrite_loop, piperead, pipeclose}
use kali.Pipe.Ring.{IsValid, contents, count, length-window}
use kali.Pipe.Runs.{pipewrite_loop_lem, piperead_lem, piperead_waits}

-- The pipe, with all bytes ever written to it and all that ever left it.
pub record State : Type 0 where
  pub pipe : Pipe
  pub sent : List ℕ
  pub taken : List ℕ

abbrev wrote : State → Run → State
wrote s r = record { pipe = r.pipe; sent = s.sent ++ r.moved; taken = s.taken }

abbrev took : State → Run → State
took s r = record { pipe = r.pipe; sent = s.sent; taken = s.taken ++ (r.moved ++ r.lost) }

-- One run: of a writer, from its first byte or from where it slept; of a reader; or a close.
pub data Step (s : State) : State → Type 0 where
  writes :
      (copyin : ℕ → Option ℕ) (killed : ℕ → Bool) (addr i rounds : ℕ)
      → Step s (wrote s (pipewrite_loop copyin killed addr i rounds s.pipe))
  reads :
      (copyout : ℕ → ℕ → Bool) (killed : Bool) (addr : ℕ) (n : ℤ)
      → Step s (took s (piperead copyout killed addr n s.pipe))
  closes : (writable : Bool) → Step s (record s { pipe = (pipeclose s.pipe writable).0 })

pub data Reach (page : ℕ → ℕ) : State → Type 0 where
  start : Reach page (record { pipe = fresh page; sent = []; taken = [] })
  later : {s t : State} → Reach page s → Step s t → Reach page t

pub record IsFifo (s : State) : Type 0 where
  pub valid : IsValid s.pipe
  pub order : s.sent ≡ s.taken ++ contents s.pipe

write-IsFifo :
    (s : State) (copyin : ℕ → Option ℕ) (killed : ℕ → Bool) (addr i rounds : ℕ)
    → IsFifo s
    → IsFifo (wrote s (pipewrite_loop copyin killed addr i rounds s.pipe))
write-IsFifo s copyin killed addr i rounds f =
    let w = pipewrite_loop_lem copyin killed addr i rounds s.pipe f.valid in
    record {
      valid = w.valid;
      order =
          ap (λ l. l ++ (pipewrite_loop copyin killed addr i rounds s.pipe).moved) f.order
          ∙ append_assoc s.taken (contents s.pipe) _
          ∙ ap (λ l. s.taken ++ l) (sym w.appended);
    }

read-IsFifo :
    (s : State) (copyout : ℕ → ℕ → Bool) (killed : Bool) (addr : ℕ) (n : ℤ)
    → IsFifo s
    → IsFifo (took s (piperead copyout killed addr n s.pipe))
read-IsFifo s copyout killed addr n f = elim (Bool-cases (is_empty s.pipe && s.pipe.writeopen)) [
  | inl wait ↦
      subst (λ r. IsFifo (took s r)) (sym (piperead_waits copyout addr killed n s.pipe wait))
        (record {
          valid = f.valid;
          order = f.order ∙ ap (λ l. l ++ contents s.pipe) (sym (append-nil s.taken));
        })
  | inr ready ↦
      let r = piperead_lem copyout addr killed n s.pipe f.valid ready in
      let run = piperead copyout killed addr n s.pipe in
      record {
        valid = r.valid;
        order =
            f.order
            ∙ ap (λ l. s.taken ++ l)
                (r.taken ∙ sym (append_assoc run.moved run.lost (contents run.pipe)))
            ∙ sym (append_assoc s.taken (run.moved ++ run.lost) (contents run.pipe));
      }
]

close-IsFifo :
    (s : State) (writable : Bool)
    → IsFifo s
    → IsFifo (record s { pipe = (pipeclose s.pipe writable).0 })
unfolding pipeclose
close-IsFifo s true f = record {
  valid = record {
    nread_fits = f.valid.nread_fits;
    nwrite_fits = f.valid.nwrite_fits;
    bounded = f.valid.bounded;
  };
  order = f.order;
}
close-IsFifo s false f = record {
  valid = record {
    nread_fits = f.valid.nread_fits;
    nwrite_fits = f.valid.nwrite_fits;
    bounded = f.valid.bounded;
  };
  order = f.order;
}

Step-IsFifo : {s t : State} → Step s t → IsFifo s → IsFifo t
Step-IsFifo {s} (writes copyin killed addr i rounds) f =
    write-IsFifo s copyin killed addr i rounds f
Step-IsFifo {s} (reads copyout killed addr n) f = read-IsFifo s copyout killed addr n f
Step-IsFifo {s} (closes writable) f = close-IsFifo s writable f

Reach-IsFifo : (page : ℕ → ℕ) {s : State} → Reach page s → IsFifo s
Reach-IsFifo page start = record {
  valid = record { nread_fits = omega arith; nwrite_fits = omega arith; bounded = omega arith };
  order = refl;
}
Reach-IsFifo page (later r st) = Step-IsFifo st (Reach-IsFifo page r)

-- However runs of writers, readers and closers follow one another, the bytes written are those that
-- left the pipe followed by those in it, in order, and these are 512 at most.
pub Reach-fifo :
    (page : ℕ → ℕ) {s : State}
    → Reach page s
    → (s.sent ≡ s.taken ++ contents s.pipe) × (length (contents s.pipe) ≤ pipesize)
Reach-fifo page {s} r =
    let f = Reach-IsFifo page r in
    (
      f.order,
      omega (arith, length-window s.pipe.bytes s.pipe.nread (count s.pipe), f.valid.bounded),
    )
