-- ===== src/Kalloc/Words.antt =====
-- kernel/kalloc.c: pointers that are stored in memory.
use kali.Prelude.{
  ℕ, zero, suc, ◌+◌, ◌*◌, ◌/◌, ◌%◌, ◌^◌, ◌≤◌, ◌<◌, ◌≡◌, ◌⊎◌, refl, inl, update, arith,
}
use kali.Strings.{Memory}
use kali.Kalloc.{store_le, load_le}

pub store_le-out :
    (n : ℕ) (m : Memory) (a v q : ℕ) → (q < a) ⊎ (a + n ≤ q) → store_le m a v n q ≡ m q
unfolding store_le
store_le-out zero m a v q h = refl
store_le-out (suc n) m a v q h =
    ground (arith, store_le-out n (update m a (v % 256)) (a + 1) (v / 256) q)

pub load_le-same :
    (n : ℕ) (m m' : Memory) (a : ℕ)
    → ((i : ℕ) → i < n → m (a + i) ≡ m' (a + i))
    → load_le m a n ≡ load_le m' a n
unfolding load_le
load_le-same zero m m' a h = refl
load_le-same (suc n) m m' a h =
    let rest = load_le-same n m m' (a + 1) (λ i small. ground (arith, h (i + 1))) in
    ground (arith, h 0, rest)

pub load_le-store_le :
    (n : ℕ) (m : Memory) (a v : ℕ) → v < 256 ^ n → load_le (store_le m a v n) a n ≡ v
unfolding load_le store_le
load_le-store_le zero m a v h = omega (arith, h)
load_le-store_le (suc n) m a v h =
    let power : 256 ^ suc n ≡ 256 * 256 ^ n = omega arith in
    let first = store_le-out n (update m a (v % 256)) (a + 1) (v / 256) a (inl (omega arith)) in
    let rest =
      load_le-store_le n (update m a (v % 256)) (a + 1) (v / 256) (omega (arith, h, power)) in
    ground (arith, first, rest)
