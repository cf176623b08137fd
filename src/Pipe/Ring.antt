-- ===== src/Pipe/Ring.antt =====
-- kernel/pipe.c: the ring of bytes between `nread` and `nwrite`, which wrap at 2 ^ 32, is a queue.
use kali.Prelude.{
  ℕ, zero, suc, ◌+◌, ◌-◌, ◌%◌, ◌^◌, ◌≤◌, ◌<◌, ◌≡◌, ◌≢◌, refl, ap, ◌∙◌, true, false, ◌↔◌, List, [],
  ◌∷◌, ◌++◌, update, arith, ap₂, update_ne, update_self, length,
}
use kali.Pipe.{pipesize, add32, Pipe, is_full, is_empty, put, front, get}

-- How many bytes the pipe holds: `nwrite - nread` as a `uint`.
abbrev pub count : Pipe → ℕ
count pi = (pi.nwrite + 2 ^ 32 - pi.nread) % 2 ^ 32

-- The `k` bytes from index `r` on.
abbrev pub window : (ℕ → ℕ) → (r k : ℕ) → List ℕ
window bytes r zero = []
window bytes r (suc k) = bytes (r % pipesize) ∷ window bytes (add32 r 1) k

-- The bytes in the pipe, oldest first.
abbrev pub contents : Pipe → List ℕ
contents pi = window pi.bytes pi.nread (count pi)

pub record IsValid (pi : Pipe) : Type 0 where
  pub nread_fits : pi.nread < 2 ^ 32
  pub nwrite_fits : pi.nwrite < 2 ^ 32
  pub bounded : count pi ≤ pipesize

window-update :
    (bytes : ℕ → ℕ) (r k w ch : ℕ)
    → r < 2 ^ 32
    → k < pipesize
    → w ≡ (r + k) % 2 ^ 32
    → window (update bytes (w % pipesize) ch) r (suc k) ≡ window bytes r k ++ (ch ∷ [])
window-update bytes r zero w ch lo hi e =
    ap (λ j. update bytes (w % pipesize) ch j ∷ []) (omega arith)
    ∙ ap (λ c. c ∷ []) (update_self bytes (w % pipesize) ch)
window-update bytes r (suc k) w ch lo hi e =
    ap₂ ◌∷◌ (update_ne bytes (w % pipesize) (r % pipesize) ch (omega arith))
      (window-update bytes (add32 r 1) k w ch (omega arith) (omega arith) (omega arith))

window_of_ne :
    (bytes : ℕ → ℕ) (r k : ℕ)
    → k ≢ 0
    → window bytes r k ≡ bytes (r % pipesize) ∷ window bytes (add32 r 1) (k - 1)
window_of_ne bytes r zero h = absurd (h refl)
window_of_ne bytes r (suc k) h =
    ap (λ j. bytes (r % pipesize) ∷ window bytes (add32 r 1) j) (omega arith)

pub length-window : (bytes : ℕ → ℕ) (r k : ℕ) → length (window bytes r k) ≡ k
length-window bytes r zero = refl
length-window bytes r (suc k) = ap suc (length-window bytes (add32 r 1) k)

module _ (pi : Pipe) (v : IsValid pi) where
  -- The test for a full pipe is right, also where `nwrite` has wrapped round and `nread` has not.
  pub is_full_iff : (is_full pi ≡ true) ↔ (count pi ≡ pipesize)
  is_full_iff = (λ h. ground arith, λ h. ground arith)

  pub is_empty_iff : (is_empty pi ≡ true) ↔ (count pi ≡ 0)
  is_empty_iff = (λ h. ground arith, λ h. ground arith)

  module _ (ch : ℕ) (room : is_full pi ≡ false) where
    not_full : count pi < pipesize
    not_full = ground arith

    pub put-IsValid : IsValid (put pi ch)
    put-IsValid = record {
      nread_fits = v.nread_fits;
      nwrite_fits = omega arith;
      bounded = omega (arith, v.nread_fits, v.nwrite_fits, not_full);
    }

    pub contents-put : contents (put pi ch) ≡ contents pi ++ (ch ∷ [])
    contents-put =
        let more : count (put pi ch) ≡ suc (count pi) =
          omega (arith, v.nread_fits, v.nwrite_fits, not_full) in
        ap (window (put pi ch).bytes pi.nread) more
        ∙ window-update pi.bytes pi.nread (count pi) pi.nwrite ch v.nread_fits not_full
            (omega (arith, v.nread_fits, v.nwrite_fits))

  module _ (some_left : is_empty pi ≡ false) where
    not_empty : count pi ≢ 0
    not_empty = ground arith

    pub get-IsValid : IsValid (get pi)
    get-IsValid = record {
      nread_fits = omega arith;
      nwrite_fits = v.nwrite_fits;
      bounded = omega (arith, v.nread_fits, v.nwrite_fits, v.bounded, not_empty);
    }

    pub contents-get : contents pi ≡ front pi ∷ contents (get pi)
    contents-get =
        let less : count pi - 1 ≡ count (get pi) =
          omega (arith, v.nread_fits, v.nwrite_fits, not_empty) in
        window_of_ne pi.bytes pi.nread (count pi) not_empty
        ∙ ap (λ j. front pi ∷ window pi.bytes (add32 pi.nread 1) j) less
