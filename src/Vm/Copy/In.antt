-- ===== src/Vm/Copy/In.antt =====
-- kernel/vm.c: copyin.
use kali.Prelude.{
  ℕ, zero, suc, ◌+◌, ◌-◌, ◌≡◌, ◌≢◌, ◌≤◌, inl, inr, refl, sym, ap, subst, ◌∙◌, arith, dec_lt,
  ℕ_discrete,
}
use kali.Strings.{Memory}
use kali.Kalloc.{Kmem, pgsize}
use kali.Vm.{pgrounddown}
use kali.Vm.Translate.{user_page}
use kali.Vm.Copy.{chunk, copyin_loop, copyin}
use kali.Vm.Copy.Region.{chunk_le, chunk_next, chunk_pos}
use kali.Vm.Copy.Round.{
  moved, copyin_loop-done, copyin_loop-unmapped, copyin_loop-turn, IsApart, IsReady, Outcome,
  IsReady-next, last, more,
}

none_left :
    (m : Memory) (pagetable dst srcva len fuel : ℕ) (k : Kmem)
    → len ≡ 0
    → Outcome m pagetable dst srcva len k (copyin_loop fuel pagetable dst srcva len k)
none_left m pagetable dst srcva len fuel k e =
    subst (λ n. Outcome m pagetable dst srcva n k (copyin_loop fuel pagetable dst srcva n k))
      (sym e)
      (inl (record {
        mapped = λ i small. absurd (omega (arith, small));
        mem = k.mem;
        result = copyin_loop-done fuel pagetable dst srcva k;
        bytes = λ q. ground arith;
      }))

module _ (m : Memory) (pagetable base size : ℕ) where
  copyin_loop_lem :
      (fuel dst srcva len : ℕ) (k : Kmem)
      → len ≤ fuel
      → IsReady m pagetable base size dst srcva len k
      → Outcome m pagetable dst srcva len k (copyin_loop fuel pagetable dst srcva len k)
  copyin_loop_lem zero dst srcva len k enough ready =
      none_left m pagetable dst srcva len zero k (omega (arith, enough))
  copyin_loop_lem (suc fuel) dst srcva len k enough ready = elim (ℕ_discrete len 0) [
    | yes e ↦ none_left m pagetable dst srcva len (suc fuel) k e
    | no left ↦ elim (ℕ_discrete (user_page m pagetable (pgrounddown srcva)) 0) [
      | yes gone ↦ inr (record {
        at = 0;
        early = omega (arith, left);
        missing = rw (add_zero srcva) gone;
        mem = k.mem;
        result = copyin_loop-unmapped fuel pagetable dst srcva len k left (same left ∙ gone);
        same = λ q out. refl;
      })
      | no real ↦
          let pa = user_page m pagetable (pgrounddown srcva) in
          let k1 = moved k pa dst srcva len in
          let turn = copyin_loop-turn fuel pagetable dst srcva len pa k left (same left) real in
          elim (dec_lt (chunk srcva len) len) [
            | yes further ↦
                more m pagetable base size dst srcva len pa k ready refl real
                  (copyin_loop (suc fuel) pagetable dst srcva len k)
                  (subst
                    (Outcome m pagetable (dst + chunk srcva len) (srcva + chunk srcva len)
                      (len - chunk srcva len) k1)
                    (sym (
                      turn
                      ∙ ap
                          (λ va.
                            copyin_loop fuel pagetable (dst + chunk srcva len) va
                              (len - chunk srcva len) k1)
                          (chunk_next srcva len further)))
                    (copyin_loop_lem fuel (dst + chunk srcva len) (srcva + chunk srcva len)
                      (len - chunk srcva len) k1 (omega (arith, enough, chunk_pos srcva len left))
                      (IsReady-next m pagetable base size dst srcva len pa k ready refl real)))
            | no all ↦
                let e : chunk srcva len ≡ len = omega (arith, all, chunk_le srcva len) in
                let z : len - chunk srcva len ≡ 0 = omega (arith, e) in
                last m pagetable base size dst srcva len pa k ready refl real e
                  (copyin_loop (suc fuel) pagetable dst srcva len k)
                  (turn
                    ∙ ap
                        (λ n.
                          copyin_loop fuel pagetable (dst + chunk srcva len)
                            (pgrounddown srcva + pgsize) n k1)
                        z
                    ∙ copyin_loop-done fuel pagetable (dst + chunk srcva len)
                        (pgrounddown srcva + pgsize) k1)
          ]
    ]
  ]
    where
      add_zero : (a : ℕ) → a + 0 ≡ a
      add_zero a = omega arith

      same :
          len ≢ 0
          → user_page k.mem pagetable (pgrounddown srcva)
            ≡ user_page m pagetable (pgrounddown srcva)
      same left =
          subst
            (λ a. user_page k.mem pagetable (pgrounddown a) ≡ user_page m pagetable (pgrounddown a))
            (add_zero srcva) (ready.apart.stable k.mem ready.outside 0 (omega (arith, left)))

-- copyin to a target that holds neither the page tables nor the bytes to copy always returns. It
-- returns 0 if every one of the `len` user bytes from `srcva` on stands in a user page; then the
-- target holds these bytes, and all other memory is as before. Else it returns -1, and changes no
-- byte outside the target.
pub copyin_lem :
    (pagetable dst srcva len : ℕ) (k : Kmem)
    → IsApart k.mem pagetable dst len srcva len
    → Outcome k.mem pagetable dst srcva len k (copyin pagetable dst srcva len k)
unfolding copyin
copyin_lem pagetable dst srcva len k apart =
    copyin_loop_lem k.mem pagetable dst len len dst srcva len k (omega arith)
      (record { low = omega arith; high = omega arith; outside = λ q out. refl; apart = apart })
