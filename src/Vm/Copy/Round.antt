-- ===== src/Vm/Copy/Round.antt =====
-- kernel/vm.c: one round of copyin, and what it adds to the rounds that follow.
use kali.Prelude.{
  ℕ, zero, suc, ◌+◌, ◌-◌, ◌%◌, ◌≡◌, ◌≢◌, ◌≤◌, ◌<◌, ◌⊎◌, inl, inr, refl, sym, ap, subst, ◌∙◌, true,
  false, Option, some, if◌then◌else◌, ℤ, pos, negsuc, arith, Bool-cases, dec_lt, >>=-some, ne→==,
}
use kali.Strings.{Memory, memmove}
use kali.Strings.Blocks.{within, memmove_lem}
use kali.Kalloc.{Kmem, pgsize}
use kali.Vm.{pgrounddown, walkaddr}
use kali.Vm.Translate.{user_page, physical, walkaddr-user_page}
use kali.Vm.Copy.{chunk, copyin_loop}
use kali.Vm.Copy.Region.{
  SameOutside, chunk_le, chunk_room, page_same, physical-same, within-rest, within-first,
  within-out, within-sub,
}

pub copyin_loop-done :
    (fuel pagetable dst srcva : ℕ) (k : Kmem)
    → copyin_loop fuel pagetable dst srcva 0 k ≡ some (pos 0, k)
unfolding copyin_loop
copyin_loop-done zero pagetable dst srcva k = refl
copyin_loop-done (suc fuel) pagetable dst srcva k = refl

pub moved : Kmem → (pa dst srcva len : ℕ) → Kmem
moved k pa dst srcva len = record k {
  mem = memmove k.mem dst (pa + (srcva - pgrounddown srcva)) (chunk srcva len);
}

pub copyin_loop-unmapped :
    (fuel pagetable dst srcva len : ℕ) (k : Kmem)
    → len ≢ 0
    → user_page k.mem pagetable (pgrounddown srcva) ≡ 0
    → copyin_loop (suc fuel) pagetable dst srcva len k ≡ some (negsuc 0, k)
unfolding copyin_loop
copyin_loop-unmapped fuel pagetable dst srcva len k some_left e = rw (ne→== len 0 some_left) (
    >>=-some (walkaddr pagetable (pgrounddown srcva)) _
      (walkaddr-user_page pagetable (pgrounddown srcva) k)
    ∙ rw e refl)

pub copyin_loop-turn :
    (fuel pagetable dst srcva len pa : ℕ) (k : Kmem)
    → len ≢ 0
    → user_page k.mem pagetable (pgrounddown srcva) ≡ pa
    → pa ≢ 0
    → copyin_loop (suc fuel) pagetable dst srcva len k
      ≡ copyin_loop fuel pagetable
          (dst + chunk srcva len)
          (pgrounddown srcva + pgsize)
          (len - chunk srcva len)
          (moved k pa dst srcva len)
unfolding copyin_loop moved
copyin_loop-turn fuel pagetable dst srcva len pa k some_left e real = rw (ne→== len 0 some_left) (
    >>=-some (walkaddr pagetable (pgrounddown srcva)) _
      (walkaddr-user_page pagetable (pgrounddown srcva) k)
    ∙ rw e (rw (ne→== pa 0 real) refl))

-- The bytes of the user from `srcva` on, found in the pages P of the memory `m`, are at `dst`.
pub record AllCopied (m : Memory) (P : ℕ → ℕ) (dst srcva len : ℕ) (k : Kmem) (r : Option (ℤ × Kmem))
    : Type 0 where
  pub mapped : (i : ℕ) → i < len → P (pgrounddown (srcva + i)) ≢ 0
  pub mem : Memory
  pub result : r ≡ some (pos 0, record k { mem = mem })
  pub bytes :
      (q : ℕ) → mem q ≡ (if within dst len q then m (physical P (srcva + (q - dst))) else k.mem q)

-- A page is missing, and nothing has changed but bytes of the target.
pub record CutShort (P : ℕ → ℕ) (dst srcva len : ℕ) (k : Kmem) (r : Option (ℤ × Kmem))
    : Type 0 where
  pub at : ℕ
  pub early : at < len
  pub missing : P (pgrounddown (srcva + at)) ≡ 0
  pub mem : Memory
  pub result : r ≡ some (negsuc 0, record k { mem = mem })
  pub same : SameOutside dst len k.mem mem

-- The target, of `size` bytes at `base`, holds nothing that the translation or the source reads.
pub record IsApart (m : Memory) (pagetable base size srcva len : ℕ) : Type 0 where
  pub stable :
      (m' : Memory)
      → SameOutside base size m m'
      → (i : ℕ) → i < len
      → user_page m' pagetable (pgrounddown (srcva + i))
        ≡ user_page m pagetable (pgrounddown (srcva + i))
  pub source :
      (i : ℕ)
      → i < len
      → user_page m pagetable (pgrounddown (srcva + i)) ≢ 0
      → within base size (physical (user_page m pagetable) (srcva + i)) ≡ false

-- Either all is copied or a page is missing.
abbrev pub Outcome : Memory → (pagetable dst srcva len : ℕ) (k : Kmem) → Option (ℤ × Kmem) → Type 0
Outcome m pagetable dst srcva len k r =
    AllCopied m (user_page m pagetable) dst srcva len k r
    ⊎ CutShort (user_page m pagetable) dst srcva len k r

add_assoc : (a b c : ℕ) → a + (b + c) ≡ a + b + c
add_assoc a b c = omega arith

add_sub : (a n i : ℕ) → n ≤ i → a + n + (i - n) ≡ a + i
add_sub a n i h = omega arith

offset :
    (srcva dst n len q : ℕ)
    → within (dst + n) (len - n) q ≡ true
    → srcva + n + (q - (dst + n)) ≡ srcva + (q - dst)
offset srcva dst n len q h = ground (arith, h)

module _ (m : Memory) (pagetable base size : ℕ) where
  -- What the loop can rely on when `len` bytes are left.
  pub record IsReady (dst srcva len : ℕ) (k : Kmem) : Type 0 where
    pub low : base ≤ dst
    pub high : dst + len ≤ base + size
    pub outside : SameOutside base size m k.mem
    pub apart : IsApart m pagetable base size srcva len

  module _ (dst srcva len pa : ℕ) (k : Kmem) (ready : IsReady dst srcva len k)
      (found : user_page m pagetable (pgrounddown srcva) ≡ pa) (real : pa ≢ 0) where
    abbrev pub n : ℕ
    n = chunk srcva len

    source_same :
        (i : ℕ)
        → i < n
        → k.mem (pa + (srcva - pgrounddown srcva) + i)
          ≡ m (physical (user_page m pagetable) (srcva + i))
    source_same i small =
        let room = chunk_room srcva len in
        let short : srcva % pgsize + i < pgsize = omega (arith, room, small) in
        let e = physical-same (user_page m pagetable) srcva i short in
        let mapped : user_page m pagetable (pgrounddown (srcva + i)) ≢ 0 =
          λ z. real (sym found ∙ ap (user_page m pagetable) (sym (page_same srcva i short)) ∙ z) in
        let free = ready.apart.source i (omega (arith, small, chunk_le srcva len)) mapped in
        ap k.mem (sym (e ∙ ap (λ v. v + (srcva - pgrounddown srcva) + i) found))
        ∙ ready.outside _ free

    round :
        (q : ℕ)
        → (moved k pa dst srcva len).mem q ≡ (
            if within dst n q
            then m (physical (user_page m pagetable) (srcva + (q - dst)))
            else k.mem q)
    unfolding moved
    round q =
        memmove_lem k.mem dst (pa + (srcva - pgrounddown srcva)) (chunk srcva len) q
        ∙ elim (Bool-cases (within dst (chunk srcva len) q)) [
          | inl inside ↦ rw inside (source_same (q - dst) (ground (arith, inside)))
          | inr outside ↦ rw outside refl
        ]

    here_mapped : (i : ℕ) → i < n → user_page m pagetable (pgrounddown (srcva + i)) ≢ 0
    here_mapped i small z =
        let room = chunk_room srcva len in
        real (
          sym found
          ∙ ap (user_page m pagetable) (sym (page_same srcva i (omega (arith, room, small))))
          ∙ z)

    abbrev pub k1 : Kmem
    k1 = moved k pa dst srcva len

    pub IsReady-next : IsReady (dst + n) (srcva + n) (len - n) k1
    IsReady-next = record {
      low = omega (arith, ready.low);
      high = omega (arith, ready.high, chunk_le srcva len);
      outside = λ q out.
          round q
          ∙ rw
              (within-sub base size dst n q ready.low
                (omega (arith, ready.high, chunk_le srcva len)) out)
              (ready.outside q out);
      apart = record {
        stable = λ m' outside i small.
            subst
              (λ a. user_page m' pagetable (pgrounddown a) ≡ user_page m pagetable (pgrounddown a))
              (add_assoc srcva n i) (ready.apart.stable m' outside (n + i) (omega (arith, small)));
        source = λ i small.
            subst
              (λ a.
                user_page m pagetable (pgrounddown a) ≢ 0
                → within base size (physical (user_page m pagetable) a) ≡ false)
              (add_assoc srcva n i) (ready.apart.source (n + i) (omega (arith, small)));
      };
    }

    -- The last round.
    pub last :
        n ≡ len
        → (r : Option (ℤ × Kmem)) → r ≡ some (pos 0, k1)
        → Outcome m pagetable dst srcva len k r
    unfolding moved
    last all r e = inl (record {
      mapped = λ i small. here_mapped i (omega (arith, small, all));
      mem = (moved k pa dst srcva len).mem;
      result = e;
      bytes = λ q.
          subst
            (λ len'. (moved k pa dst srcva len).mem q ≡ (
              if within dst len' q
              then m (physical (user_page m pagetable) (srcva + (q - dst)))
              else k.mem q))
            all (round q);
    })

    -- The rounds that follow.
    pub more :
        (r : Option (ℤ × Kmem))
        → Outcome m pagetable (dst + n) (srcva + n) (len - n) k1 r
        → Outcome m pagetable dst srcva len k r
    unfolding moved
    more r (inl c) = inl (record {
      mapped = λ i small. elim (dec_lt i n) [
        | yes now ↦ here_mapped i now
        | no later ↦
            subst (λ a. user_page m pagetable (pgrounddown a) ≢ 0)
              (add_sub srcva n i (omega (arith, later)))
              (c.mapped (i - n) (omega (arith, later, small)))
      ];
      mem = c.mem;
      result = c.result;
      bytes = λ q. c.bytes q ∙ elim (Bool-cases (within (dst + n) (len - n) q)) [
        | inl later ↦
            rw (later, within-rest dst n len q later)
              (ap (λ a. m (physical (user_page m pagetable) a)) (offset srcva dst n len q later))
        | inr now ↦ rw now (round q ∙ rw (within-first dst n len q (chunk_le srcva len) now) refl)
      ];
    })
    more r (inr c) = inr (record {
      at = chunk srcva len + c.at;
      early = omega (arith, c.early);
      missing =
          subst (λ a. user_page m pagetable (pgrounddown a) ≡ 0) (sym (add_assoc srcva n c.at))
            c.missing;
      mem = c.mem;
      result = c.result;
      same = λ q out.
          let (first, rest) = within-out dst n len q (chunk_le srcva len) out in
          c.same q rest ∙ round q ∙ rw first refl;
    })
