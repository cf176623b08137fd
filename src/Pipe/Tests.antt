-- ===== src/Pipe/Tests.antt =====
-- kernel/pipe.c: a short exchange, and the theorems at concrete pipes.
use kali.Prelude.{ℕ, ◌≤◌, ◌≡◌, refl, true, false, some, [], ◌∷◌, length, pos, arith}
use kali.Pipe.{Pipe, pipesize, fresh, put, pipewrite, piperead, pipewrite_loop}
use kali.Pipe.Ring.{IsValid, contents}
use kali.Pipe.Runs.{IsWriteRun, IsReadRun, pipewrite_lem, piperead_lem}
use kali.Pipe.Fifo.{State, Step, Reach, start, later, Reach-fifo}

abbrev page : ℕ → ℕ
page i = 7

abbrev empty : Pipe
empty = fresh page

-- One byte, 5, with both counters about to wrap.
abbrev wrapping : Pipe
wrapping =
    put
      (record {
        bytes = page;
        nread = 0xffff_ffff;
        nwrite = 0xffff_ffff;
        readopen = true;
        writeopen = true;
      })
      5

empty-IsValid : IsValid empty
empty-IsValid = record {
  nread_fits = omega arith;
  nwrite_fits = omega arith;
  bounded = omega arith;
}

wrapping-IsValid : IsValid wrapping
wrapping-IsValid = record {
  nread_fits = omega arith;
  nwrite_fits = omega arith;
  bounded = omega arith;
}

wrapping_contents : contents wrapping ≡ 5 ∷ []
wrapping_contents = refl

lossy : (piperead (λ a b. false) false 0 (pos 1) wrapping).lost ≡ 5 ∷ []
unfolding piperead
lossy = refl

pipewrite_lem_example :
    IsWriteRun
      (λ a. some a)
      (λ i. false)
      64
      2
      0
      empty
      (pipewrite (λ a. some a) (λ i. false) 64 (pos 2) empty)
pipewrite_lem_example = pipewrite_lem (λ a. some a) (λ i. false) 64 (pos 2) empty empty-IsValid

piperead_lem_example :
    IsReadRun (λ a b. true) 64 3 0 wrapping (piperead (λ a b. true) false 64 (pos 3) wrapping)
piperead_lem_example = piperead_lem (λ a b. true) 64 false (pos 3) wrapping wrapping-IsValid refl

abbrev exchange : State
exchange = record {
  pipe =
      (piperead (λ a b. true) false 64 (pos 1)
        (pipewrite_loop (λ a. some a) (λ i. false) 64 0 2 empty).pipe).pipe;
  sent = 64 ∷ 65 ∷ [];
  taken = 64 ∷ [];
}

exchanged : Reach page exchange
unfolding pipewrite_loop piperead
exchanged =
    later (later start (Step.writes (λ a. some a) (λ i. false) 64 0 2))
      (Step.reads (λ a b. true) false 64 (pos 1))

Reach-fifo_example :
    (64 ∷ 65 ∷ [] ≡ 64 ∷ contents exchange.pipe) × (length (contents exchange.pipe) ≤ pipesize)
Reach-fifo_example = Reach-fifo page exchanged
