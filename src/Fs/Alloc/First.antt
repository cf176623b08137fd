-- ===== src/Fs/Alloc/First.antt =====
-- kernel/fs.c: the block that balloc finds.
use kali.Prelude.{
  ℕ, zero, suc, ◌+◌, ◌-◌, ◌*◌, ◌/◌, ◌%◌, ◌≡◌, ◌≢◌, ◌≤◌, ◌<◌, ◌⊎◌, inl, inr, refl, sym, ap, ap₂, ◌∙◌,
  subst, Bool, true, false, ◌||◌, Option, none, some, ◌==◌, if◌then◌else◌, update, arith,
  Bool-cases, Option-cases, dec_lt, >>=-some, update_self, update_ne, pure, M, ◌>>◌, ==→eq,
}
use kali.Buffers.{Block}
use kali.Fs.{Fs, Super, write_block}
use kali.Fs.Writes.{HasRoom, write_block_lem}
use kali.Fs.Alloc.{bpb, bblock, in_use, mark, scan, take_first, bzero, balloc_loop, balloc}
use kali.Fs.Alloc.Scan.{IsFirst, scan-none, scan-some}
use kali.Fs.Alloc.Bits.{in_use-mark}

-- Whether the bitmap says that the block `c` is in use.
abbrev pub used : Fs → (c : ℕ) → Bool
used s c = in_use (s.view.contents (bblock c s.sb)) (c % bpb)

-- The state after the first free block is taken.
record IsTaken (s : Fs) (c : ℕ) (s' : Fs) : Type 0 where
  contents :
      s'.view.contents
      ≡ update
          (update s.view.contents
            (bblock c s.sb)
            (mark (s.view.contents (bblock c s.sb)) (c % bpb)))
          c
          (λ _. 0)
  sb : s'.sb ≡ s.sb
  itable : s'.itable ≡ s.itable

taken_block : (block : ℕ) → Block → (c : ℕ) → M Fs ℕ
taken_block block x c = do write_block block x; bzero c; pure c

taken_block_lem :
    (s : Fs) (block : ℕ) (x : Block) (c : ℕ)
    → HasRoom 2 s
    → (s' : Fs) × (taken_block block x c s ≡ some (c, s'))
      × (s'.view.contents ≡ update (update s.view.contents block x) c (λ _. 0))
      × (s'.sb ≡ s.sb)
      × (s'.itable ≡ s.itable)
unfolding taken_block bzero
taken_block_lem s block x c room =
    let (s1, e1, l1) = write_block_lem s block x 1 room in
    let (s2, e2, l2) = write_block_lem s1 c (λ _. 0) 0 (l1.room 1 room) in
    (
      s2,
      >>=-some (write_block block x) _ e1 ∙ >>=-some (write_block c (λ _. 0)) _ e2,
      l2.contents ∙ ap (λ f. update f c (λ _. 0)) l1.contents,
      l2.sb ∙ l1.sb,
      l2.itable ∙ l1.itable,
    )

turn_none :
    (rounds b : ℕ) (s : Fs)
    → scan s.sb.size (s.view.contents (bblock b s.sb)) b 0 bpb ≡ none
    → balloc_loop (suc rounds) b s ≡ balloc_loop rounds (b + bpb) s
unfolding balloc_loop take_first
turn_none rounds b s e =
    ap
      (λ o.
        take_first (bblock b s.sb) (s.view.contents (bblock b s.sb)) b
          (balloc_loop rounds (b + bpb)) o s)
      e

turn_some :
    (rounds b bi : ℕ) (s : Fs)
    → scan s.sb.size (s.view.contents (bblock b s.sb)) b 0 bpb ≡ some bi
    → balloc_loop (suc rounds) b s
      ≡ taken_block (bblock b s.sb) (mark (s.view.contents (bblock b s.sb)) bi) (b + bi) s
unfolding balloc_loop taken_block take_first
turn_some rounds b bi s e =
    ap
      (λ o.
        take_first (bblock b s.sb) (s.view.contents (bblock b s.sb)) b
          (balloc_loop rounds (b + bpb)) o s)
      e

-- The blocks of one bitmap block.
block_of : (b q : ℕ) (sb : Super) → b % bpb ≡ 0 → b ≤ q → q < b + bpb → bblock q sb ≡ bblock b sb
block_of b q sb al low high = ap (λ k. k + sb.bmapstart) (quotient b q al low high)
  where
    quotient : (b q : ℕ) → b % bpb ≡ 0 → b ≤ q → q < b + bpb → q / bpb ≡ b / bpb
    quotient b q al low high = omega (arith, al, low, high)

bit_of : (b q : ℕ) → b % bpb ≡ 0 → b ≤ q → q < b + bpb → q % bpb ≡ q - b
bit_of b q al low high = omega (arith, al, low, high)

used_here :
    (s : Fs) (b q : ℕ)
    → b % bpb ≡ 0
    → b ≤ q
    → q < b + bpb
    → used s q ≡ in_use (s.view.contents (bblock b s.sb)) (q - b)
used_here s b q al low high =
    ap (λ k. in_use (s.view.contents k) (q % bpb)) (block_of b q s.sb al low high)
    ∙ ap (in_use (s.view.contents (bblock b s.sb))) (bit_of b q al low high)

-- What balloc from block `b` on returns.
data Outcome (s : Fs) (b : ℕ) (r : Option (ℕ × Fs)) : Type 0 where
  out_of_blocks :
      r ≡ some (0, s) → ((q : ℕ) → b ≤ q → q < s.sb.size → used s q ≡ true) → Outcome s b r
  found :
      (c : ℕ) (s' : Fs)
      → r ≡ some (c, s')
      → b ≤ c
      → c < s.sb.size
      → used s c ≡ false
      → ((q : ℕ) → b ≤ q → q < c → used s q ≡ true)
      → IsTaken s c s'
      → Outcome s b r

first_lem :
    (s : Fs) (b bi : ℕ) (r : Option (ℕ × Fs))
    → b % bpb ≡ 0
    → HasRoom 2 s
    → bi < bpb
    → IsFirst s.sb.size (s.view.contents (bblock b s.sb)) b 0 bi
    → r ≡ taken_block (bblock b s.sb) (mark (s.view.contents (bblock b s.sb)) bi) (b + bi) s
    → Outcome s b r
first_lem s b bi r al room small first e =
    let (s', run, contents, sb, itable) =
      taken_block_lem s (bblock b s.sb) (mark (s.view.contents (bblock b s.sb)) bi) (b + bi) room in
    found (b + bi) s' (e ∙ run) (omega arith) first.inside
      (used_here s b (b + bi) al (omega arith) (omega (arith, small))
        ∙ ap (in_use (s.view.contents (bblock b s.sb))) (back b bi)
        ∙ first.free)
      (λ q low high.
        used_here s b q al low (omega (arith, high, small))
        ∙ first.before (q - b) (omega arith) (omega (arith, low, high)))
      (record {
        contents =
            contents
            ∙ sym (
                ap₂
                  (λ k i.
                    update (update s.view.contents k (mark (s.view.contents k) i)) (b + bi)
                      (λ _. 0))
                  (block_of b (b + bi) s.sb al (omega arith) (omega (arith, small)))
                  (bit_of b (b + bi) al (omega arith) (omega (arith, small)) ∙ back b bi));
        sb = sb;
        itable = itable;
      })
  where
    back : (b bi : ℕ) → b + bi - b ≡ bi
    back b bi = omega arith

no_rounds : (b : ℕ) (s : Fs) → balloc_loop zero b s ≡ some (0, s)
unfolding balloc_loop
no_rounds b s = refl

-- A bitmap block without a free block has all its blocks in use.
here_used :
    (s : Fs) (b : ℕ)
    → b % bpb ≡ 0
    → scan s.sb.size (s.view.contents (bblock b s.sb)) b 0 bpb ≡ none
    → (end : ℕ) → end ≤ s.sb.size
    → ((q : ℕ) → b + bpb ≤ q → q < end → used s q ≡ true)
    → (q : ℕ) → b ≤ q
    → q < end
    → used s q ≡ true
here_used s b al e end within later q low high = elim (dec_lt q (b + bpb)) [
  | no far ↦ later q (omega (arith, far)) high
  | yes near ↦
      used_here s b q al low near
      ∙ scan-none s.sb.size (s.view.contents (bblock b s.sb)) b bpb 0 e (q - b) (omega arith)
          (omega (arith, near, low)) (omega (arith, low, high, within))
]

balloc_loop_lem :
    (rounds b : ℕ) (s : Fs)
    → b % bpb ≡ 0
    → s.sb.size ≤ b + rounds * bpb
    → HasRoom 2 s
    → Outcome s b (balloc_loop rounds b s)
balloc_loop_lem zero b s al covers room =
    out_of_blocks (no_rounds b s) (λ q low high. absurd (omega (arith, covers, low, high)))
balloc_loop_lem (suc rounds) b s al covers room =
    elim (Option-cases (scan s.sb.size (s.view.contents (bblock b s.sb)) b 0 bpb)) [
      | inr (bi, e) ↦
          let (first, small) = scan-some s.sb.size (s.view.contents (bblock b s.sb)) b bpb 0 bi e in
          first_lem s b bi (balloc_loop (suc rounds) b s) al room (omega (arith, small)) first
            (turn_some rounds b bi s e)
      | inl e ↦
          elim (balloc_loop_lem rounds (b + bpb) s (omega (arith, al)) (omega (arith, covers))
            room) [
              | out_of_blocks r all ↦
                  out_of_blocks (turn_none rounds b s e ∙ r)
                    (here_used s b al e s.sb.size (omega arith) all)
              | found c s' r low inside free before taken ↦
                  found c s' (turn_none rounds b s e ∙ r) (omega (arith, low)) inside free
                    (here_used s b al e c (omega (arith, inside)) before) taken
            ]
    ]

-- The bitmap's own blocks are in use.
pub record IsReserved (s : Fs) : Type 0 where
  pub bitmap : (q : ℕ) → q < s.sb.size → used s (bblock q s.sb) ≡ true

-- Block `c`, the first free one of `s`, is taken and zeroed in `s'`.
pub record IsAllocated (s : Fs) (c : ℕ) (s' : Fs) : Type 0 where
  pub inside : c < s.sb.size
  pub free : used s c ≡ false
  pub first : (q : ℕ) → q < c → used s q ≡ true
  pub marked : (q : ℕ) → q < s.sb.size → used s' q ≡ (c == q || used s q)
  pub zeroed : s'.view.contents c ≡ (λ _. 0)
  pub others : (d : ℕ) → d ≢ c → d ≢ bblock c s.sb → s'.view.contents d ≡ s.view.contents d
  pub table : s'.itable ≡ s.itable

module _ (s : Fs) (c : ℕ) (s' : Fs) (reserved : IsReserved s) (free : used s c ≡ false)
    (taken : IsTaken s c s') where
  not_bitmap : (q : ℕ) → q < s.sb.size → c ≢ bblock q s.sb
  not_bitmap q inside e =
      let bad = subst (λ k. used s k ≡ true) (sym e) (reserved.bitmap q inside) in cc

  bitmap_after :
      (q : ℕ)
      → q < s.sb.size
      → s'.view.contents (bblock q s.sb) ≡ (
          if bblock c s.sb == bblock q s.sb
          then mark (s.view.contents (bblock c s.sb)) (c % bpb)
          else s.view.contents (bblock q s.sb))
  bitmap_after q inside =
      ap (λ f. f (bblock q s.sb)) taken.contents
      ∙ update_ne
          (update s.view.contents (bblock c s.sb)
            (mark (s.view.contents (bblock c s.sb)) (c % bpb)))
          c (bblock q s.sb) (λ _. 0) (not_bitmap q inside)

  same_bitmap :
      (q : ℕ)
      → (bblock c s.sb == bblock q s.sb) ≡ true
      → (c % bpb == q % bpb || in_use (s.view.contents (bblock c s.sb)) (q % bpb))
        ≡ (c == q || used s q)
  same_bitmap q same =
      ap₂ (λ t k. t || in_use (s.view.contents k) (q % bpb)) (same_place (c / bpb) (q / bpb) same)
        (==→eq (bblock c s.sb) (bblock q s.sb) same)
    where
      same_place :
          (k l : ℕ)
          → (c / bpb + s.sb.bmapstart == q / bpb + s.sb.bmapstart) ≡ true
          → (c % bpb == q % bpb) ≡ (c == q)
      same_place k l same = ground (arith, same)

  other_bitmap : (q : ℕ) → (bblock c s.sb == bblock q s.sb) ≡ false → (c == q) ≡ false
  other_bitmap q other = ground (arith, other)

  marked_lem : (q : ℕ) → q < s.sb.size → used s' q ≡ (c == q || used s q)
  marked_lem q inside =
      ap (λ sb. in_use (s'.view.contents (bblock q sb)) (q % bpb)) taken.sb
      ∙ ap (λ x. in_use x (q % bpb)) (bitmap_after q inside)
      ∙ elim (Bool-cases (bblock c s.sb == bblock q s.sb)) [
        | inl same ↦ rw same (
            in_use-mark (s.view.contents (bblock c s.sb)) (c % bpb) (q % bpb) free
            ∙ same_bitmap q same)
        | inr other ↦ rw (other, other_bitmap q other) refl
      ]

  zeroed_lem : s'.view.contents c ≡ (λ _. 0)
  zeroed_lem =
      ap (λ f. f c) taken.contents
      ∙ update_self
          (update s.view.contents (bblock c s.sb)
            (mark (s.view.contents (bblock c s.sb)) (c % bpb)))
          c (λ _. 0)

  others_lem : (d : ℕ) → d ≢ c → d ≢ bblock c s.sb → s'.view.contents d ≡ s.view.contents d
  others_lem d not_c not_bitmap =
      ap (λ f. f d) taken.contents
      ∙ update_ne
          (update s.view.contents (bblock c s.sb)
            (mark (s.view.contents (bblock c s.sb)) (c % bpb)))
          c d (λ _. 0) (λ e. not_c (sym e))
      ∙ update_ne s.view.contents (bblock c s.sb) d
          (mark (s.view.contents (bblock c s.sb)) (c % bpb)) (λ e. not_bitmap (sym e))

balloc-loop : (s : Fs) → balloc s ≡ balloc_loop ((s.sb.size + bpb - 1) / bpb) 0 s
unfolding balloc
balloc-loop s = refl

-- Where the bitmap marks its own blocks as in use and the running transaction has room for two
-- blocks, balloc returns: either the first free block, which is then marked in the bitmap and
-- full of zeros, with every other mark, every other block and the inode table as before; or 0
-- with nothing changed, and then every block of the file system is in use.
pub balloc_lem :
    (s : Fs)
    → IsReserved s
    → HasRoom 2 s
    → ((c : ℕ) × (s' : Fs) × (balloc s ≡ some (c, s')) × IsAllocated s c s')
      ⊎ ((balloc s ≡ some (0, s)) × ((q : ℕ) → q < s.sb.size → used s q ≡ true))
balloc_lem s reserved room =
    elim (balloc_loop_lem ((s.sb.size + bpb - 1) / bpb) 0 s refl (enough s.sb.size) room) [
      | out_of_blocks r all ↦ inr (balloc-loop s ∙ r, λ q inside. all q (omega arith) inside)
      | found c s' r low inside free before taken ↦ inl (
        c,
        s',
        balloc-loop s ∙ r,
        record {
          inside = inside;
          free = free;
          first = λ q high. before q (omega arith) high;
          marked = marked_lem s c s' reserved free taken;
          zeroed = zeroed_lem s c s' reserved free taken;
          others = others_lem s c s' reserved free taken;
          table = taken.itable;
        },
      )
    ]
  where
    enough : (size : ℕ) → size ≤ 0 + (size + bpb - 1) / bpb * bpb
    enough size = omega arith
