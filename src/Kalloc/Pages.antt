-- ===== src/Kalloc/Pages.antt =====
-- kernel/kalloc.c: the pages of the free list, as a chain through memory.
use kali.Prelude.{
  ℕ, ◌+◌, ◌%◌, ◌≤◌, ◌<◌, ◌≡◌, ◌≢◌, ◌⊎◌, sym, subst, inl, inr, List, [], ◌∷◌, arith, dec_lt,
}
use kali.Strings.{Memory}
use kali.Kalloc.{Kmem, phystop, load_le}
use kali.Kalloc.Words.{load_le-same}

-- The address of a page that kfree takes.
pub record IsPage (end p : ℕ) : Type 0 where
  pub aligned : p % 4096 ≡ 0
  pub above : end ≤ p
  pub below : p < phystop

-- The pages that the list at `head` links, in order.
abbrev pub Chain : Memory → (head : ℕ) → List ℕ → Type 0
Chain m head [] = head ≡ 0
Chain m head (p ∷ ps) = (head ≡ p) × Chain m (load_le m p 8) ps

abbrev pub ArePages : (end : ℕ) → List ℕ → Type 0
ArePages end [] = Unit {0}
ArePages end (p ∷ ps) = IsPage end p × ArePages end ps

abbrev pub IsFresh : (p : ℕ) → List ℕ → Type 0
IsFresh p [] = Unit {0}
IsFresh p (q ∷ qs) = (p ≢ q) × IsFresh p qs

abbrev pub AreDistinct : List ℕ → Type 0
AreDistinct [] = Unit {0}
AreDistinct (p ∷ ps) = IsFresh p ps × AreDistinct ps

-- The free pages, first to last, each in the list once.
pub record IsFreeList (end : ℕ) (k : Kmem) (ps : List ℕ) : Type 0 where
  pub chain : Chain k.mem k.freelist ps
  pub pages : ArePages end ps
  pub distinct : AreDistinct ps

-- Memory that differs in the page `q` at most.
abbrev pub SameBut : (q : ℕ) → (m m' : Memory) → Type 0
SameBut q m m' = (a : ℕ) → (a < q) ⊎ (q + 4096 ≤ a) → m' a ≡ m a

-- Two pages do not overlap.
pub apart :
    (p q i : ℕ) → p % 4096 ≡ 0 → q % 4096 ≡ 0 → q ≢ p → i < 4096 → (p + i < q) ⊎ (q + 4096 ≤ p + i)
apart p q i hp hq ne small = elim (dec_lt (p + i) q) [
  | yes below ↦ inl below
  | no above ↦ inr (ground (arith, hp, hq))
]

pub Chain-same :
    (end q head : ℕ) (m m' : Memory) (ps : List ℕ)
    → q % 4096 ≡ 0
    → SameBut q m m'
    → IsFresh q ps
    → ArePages end ps
    → Chain m head ps
    → Chain m' head ps
Chain-same end q head m m' [] hq same fresh pages chain = chain
Chain-same end q head m m' (p ∷ ps) hq same fresh pages chain =
    let next =
      load_le-same 8 m' m p
        (λ i small. same (p + i) (apart p q i pages.0.aligned hq fresh.0 (omega (arith, small)))) in
    (
      chain.0,
      Chain-same end q (load_le m' p 8) m m' ps hq same fresh.1 pages.1
          (subst (λ h. Chain m h ps) (sym next) chain.1),
    )
