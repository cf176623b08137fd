-- ===== src/Exec/Stack.antt =====
-- kernel/exec.c: where the argument strings come to stand on the new stack.
use kali.Prelude.{
  ℕ, ◌+◌, ◌%◌, ◌^◌, ◌≡◌, ◌≤◌, ◌<◌, refl, subst, ap, inl, inr, false, Option, none, some, List, [],
  ◌∷◌, ltb, leb, ltb→le, ℤ, arith, Bool-cases, Option-cases, ◌>>=◌, pure,
}
use mathlib.Core.Option.{some-injective}
use kali.Strings.{strlen}
use kali.Strings.Text.{strlen_bounds}
use kali.Kalloc.{Kmem, pgsize}
use kali.Vm.{failed}
use kali.Vm.Copy.{copyout}
use kali.Exec.{maxarg, lowered, string_size, pushed, push_args}

size_of : (s n : ℕ) (k : Kmem) → strlen pgsize k.mem s ≡ some n → string_size s k ≡ some (n + 1, k)
size_of s n k h = rw (string_size, h) refl

size_of_none : (s : ℕ) (k : Kmem) → strlen pgsize k.mem s ≡ none → string_size s k ≡ none
size_of_none s k h = rw (string_size, h) refl

-- The strings of `argv`, the first one topmost, in memories that go from `k` to `k'`: each is copied out with
-- its zero to an aligned place below the one before and not below `base`; fewer than 32 stand before it.
pub data IsStacked (pagetable base : ℕ)
    : (argc sp : ℕ) → List ℕ → Kmem → ℕ → List ℕ → Kmem → Type 0 where
  all_done : {argc sp : ℕ} {k : Kmem} → IsStacked pagetable base argc sp [] k sp [] k
  one_more :
      {argc sp : ℕ} {argv : List ℕ} {k k' k'' : Kmem} {last : ℕ} {us : List ℕ} (s u n : ℕ) (r : ℤ)
      → argc < maxarg
      → strlen pgsize k.mem s ≡ some n
      → copyout pagetable u s (n + 1) k ≡ some (r, k')
      → failed r ≡ false
      → u % 16 ≡ 0
      → base ≤ u
      → u + (n + 1) ≤ sp
      → IsStacked pagetable base (argc + 1) u argv k' last us k''
      → IsStacked pagetable base argc sp (s ∷ argv) k last (u ∷ us) k''

lowered_bounds :
    (sp n : ℕ) → sp < 2 ^ 64 → n ≤ sp → (lowered sp n + n ≤ sp) × (lowered sp n % 16 ≡ 0)
lowered_bounds sp n small fits = (omega arith, omega arith)

-- The result is that of `pushed`.
same_result :
    (pagetable base argc sp : ℕ) (argv : List ℕ) (k : Kmem) (q : ℕ × List ℕ) (k'' : Kmem) (last : ℕ)
    (us : List ℕ) (k' : Kmem)
    → ◌≡◌ {A = Option (ℕ × List ℕ) × Kmem} (some q, k'') (some (last, us), k')
    → IsStacked pagetable base argc sp argv k q.0 q.1 k''
    → IsStacked pagetable base argc sp argv k last us k'
same_result pagetable base argc sp argv k q k'' last us k' e h =
    subst (λ m. IsStacked pagetable base argc sp argv k last us m) (ap (λ r. r.1) e)
      (subst (λ r. IsStacked pagetable base argc sp argv k r.0 r.1 k'')
        (some-injective q (last, us) (ap (λ r. r.0) e)) h)

-- The strings behind the first one, as far as they are stacked, below it.
rest-IsStacked :
    (pagetable base argc sp s u n : ℕ) (r : ℤ) (argv : List ℕ) (k k1 : Kmem) (last : ℕ)
    (us : List ℕ) (k' : Kmem)
    → ((l : ℕ) (vs : List ℕ) (k2 : Kmem)
        → push_args pagetable base (argc + 1) u argv k1 ≡ some (some (l, vs), k2)
        → IsStacked pagetable base argc sp (s ∷ argv) k l (u ∷ vs) k2)
    → (push_args pagetable base (argc + 1) u argv >>= λ rest. pure (pushed u rest)) k1
      ≡ some (some (last, us), k')
    → IsStacked pagetable base argc sp (s ∷ argv) k last us k'
rest-IsStacked pagetable base argc sp s u n r argv k k1 last us k' more e =
    elim (Option-cases (push_args pagetable base (argc + 1) u argv k1)) [
      | inl panics ↦ let bad = rw (◌>>=◌, panics) at e in cc
      | inr ((none, k2), failing) ↦ let bad = rw (◌>>=◌, failing) at e in cc
      | inr ((some (l, vs), k2), good) ↦
          same_result pagetable base argc sp (s ∷ argv) k (l, u ∷ vs) k2 last us k'
            (some-injective _ _ (rw (◌>>=◌, good) at e)) (more l vs k2 good)
    ]

few_args : (argc : ℕ) → leb maxarg argc ≡ false → argc < maxarg
few_args argc h = ground arith

-- On a stack from `base`, which is not in the first page, up to `sp`: when exec pushes the argument strings and
-- does not fail, there are at most 32; each was copied out, with its zero, to an address that is a multiple of
-- 16, inside the stack, and below the strings before it, so that no two of them overlap; `us` are the addresses.
pub push_args-IsStacked :
    (pagetable base argc sp : ℕ) (argv : List ℕ) (k : Kmem) (last : ℕ) (us : List ℕ) (k' : Kmem)
    → pgsize ≤ base
    → base ≤ sp
    → sp < 2 ^ 64
    → push_args pagetable base argc sp argv k ≡ some (some (last, us), k')
    → IsStacked pagetable base argc sp argv k last us k'
unfolding push_args
push_args-IsStacked pagetable base argc sp [] k last us k' low below small e =
    same_result pagetable base argc sp [] k (sp, []) k last us k' (some-injective _ _ e) all_done
push_args-IsStacked pagetable base argc sp (s ∷ argv) k last us k' low below small e =
    elim (Bool-cases (leb maxarg argc)) [
      | inl many ↦ let bad = rw many at e in cc
      | inr few ↦ elim (Option-cases (strlen pgsize k.mem s)) [
        | inl endless ↦ let bad = rw (few, ◌>>=◌, size_of_none s k endless) at e in cc
        | inr (n, length_is) ↦ elim (Bool-cases (ltb (lowered sp (n + 1)) base)) [
          | inl under ↦ let bad = rw (few, ◌>>=◌, size_of s n k length_is, under) at e in cc
          | inr over ↦
              let u = lowered sp (n + 1) in
              let good = rw (few, ◌>>=◌, size_of s n k length_is, over) at e in
              elim (Option-cases (copyout pagetable u s (n + 1) k)) [
                | inl fault ↦ let bad = rw (◌>>=◌, fault) at good in cc
                | inr ((r, k1), copied) ↦ elim (Bool-cases (failed r)) [
                  | inl not_copied ↦ let bad = rw (◌>>=◌, copied, not_copied) at good in cc
                  | inr done ↦
                      let above = ltb→le u base over in
                      let (fits, aligned) =
                        lowered_bounds sp (n + 1) small
                          (omega (arith, strlen_bounds pgsize k.mem s n length_is, low, below)) in
                      rest-IsStacked pagetable base argc sp s u n r argv k k1 last us k'
                        (λ l vs k2 e'.
                          one_more s u n r (few_args argc few) length_is copied done aligned above
                            fits
                            (push_args-IsStacked pagetable base (argc + 1) u argv k1 l vs k2 low
                              above (omega (arith, fits, small)) e'))
                        (rw (◌>>=◌, copied, done) at good)
                ]
              ]
        ]
      ]
    ]
