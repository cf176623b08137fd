-- ===== src/Console/Lines/Ring.antt =====
-- kernel/console.c: the lists that the ring of the console's buffer holds.
use kali.Prelude.{
  ℕ, zero, suc, ◌+◌, ◌-◌, ◌%◌, ◌^◌, ◌≡◌, ◌≢◌, ◌≤◌, ◌<◌, refl, ap, ap₂, ◌∙◌, List, [], ◌∷◌, ◌++◌,
  update, update_ne, arith, length,
}
use kali.Console.{Cons, input_buf_size, next, prev, distance}
use kali.Console.Lines.{Lines, line_ready}

-- The `k` bytes from index `r` on, oldest first.
abbrev pub forwards : (ℕ → ℕ) → (r k : ℕ) → List ℕ
forwards buf r zero = []
forwards buf r (suc k) = buf (r % input_buf_size) ∷ forwards buf (next r) k

-- The `k` bytes before index `e`, newest first.
abbrev pub backwards : (ℕ → ℕ) → (e k : ℕ) → List ℕ
backwards buf e zero = []
backwards buf e (suc k) = buf (prev e % input_buf_size) ∷ backwards buf (prev e) k

abbrev pub lines_of : Cons → Lines
lines_of c = record {
  ready = forwards c.buf c.r (distance c.w c.r);
  edited = backwards c.buf c.e (distance c.e c.w);
}

pub length-forwards : (buf : ℕ → ℕ) (r k : ℕ) → length (forwards buf r k) ≡ k
length-forwards buf r zero = refl
length-forwards buf r (suc k) = ap suc (length-forwards buf (next r) k)

pub length-backwards : (buf : ℕ → ℕ) (e k : ℕ) → length (backwards buf e k) ≡ k
length-backwards buf e zero = refl
length-backwards buf e (suc k) = ap suc (length-backwards buf (prev e) k)

-- A byte that is stored behind a stretch does not change it.
pub forwards-update :
    (buf : ℕ → ℕ) (r k e ch : ℕ)
    → r < 2 ^ 32
    → e < 2 ^ 32
    → k ≤ distance e r
    → distance e r < input_buf_size
    → forwards (update buf (e % input_buf_size) ch) r k ≡ forwards buf r k
forwards-update buf r zero e ch lo hi before room = refl
forwards-update buf r (suc k) e ch lo hi before room =
    ap₂ ◌∷◌ (update_ne buf (e % input_buf_size) (r % input_buf_size) ch (omega arith))
      (forwards-update buf (next r) k e ch (omega arith) hi (omega arith) (omega arith))

pub backwards-update :
    (buf : ℕ → ℕ) (i k e ch : ℕ)
    → i < 2 ^ 32
    → e < 2 ^ 32
    → distance e i + k < input_buf_size
    → backwards (update buf (e % input_buf_size) ch) i k ≡ backwards buf i k
backwards-update buf i zero e ch lo hi room = refl
backwards-update buf i (suc k) e ch lo hi room =
    ap₂ ◌∷◌ (update_ne buf (e % input_buf_size) (prev i % input_buf_size) ch (omega arith))
      (backwards-update buf (prev i) k e ch (omega arith) hi (omega arith))

pub forwards_first :
    (buf : ℕ → ℕ) (r k : ℕ)
    → k ≢ 0
    → forwards buf r k ≡ buf (r % input_buf_size) ∷ forwards buf (next r) (k - 1)
forwards_first buf r zero h = absurd (h refl)
forwards_first buf r (suc k) h =
    ap (λ j. buf (r % input_buf_size) ∷ forwards buf (next r) j) (omega arith)

pub backwards_first :
    (buf : ℕ → ℕ) (e k : ℕ)
    → k ≢ 0
    → backwards buf e k ≡ buf (prev e % input_buf_size) ∷ backwards buf (prev e) (k - 1)
backwards_first buf e zero h = absurd (h refl)
backwards_first buf e (suc k) h =
    ap (λ j. buf (prev e % input_buf_size) ∷ backwards buf (prev e) j) (omega arith)

forwards_last :
    (buf : ℕ → ℕ) (r k i : ℕ)
    → r < 2 ^ 32
    → k < input_buf_size
    → i ≡ (r + k) % 2 ^ 32
    → forwards buf r (suc k) ≡ forwards buf r k ++ (buf (i % input_buf_size) ∷ [])
forwards_last buf r zero i lo hi e = ap (λ j. buf j ∷ []) (omega arith)
forwards_last buf r (suc k) i lo hi e =
    ap (λ l. buf (r % input_buf_size) ∷ l)
      (forwards_last buf (next r) k i (omega arith) (omega arith) (omega arith))

-- Two stretches that meet are one.
pub forwards-backwards :
    (buf : ℕ → ℕ) (r e k j : ℕ)
    → r < 2 ^ 32
    → e < 2 ^ 32
    → k + j ≡ distance e r
    → distance e r ≤ input_buf_size
    → forwards buf r (k + j) ≡ line_ready (forwards buf r k) (backwards buf e j)
forwards-backwards buf r e k zero lo hi meet fits = ap (forwards buf r) (omega arith)
forwards-backwards buf r e k (suc j) lo hi meet fits =
    let more : k + suc j ≡ suc (k + j) = omega arith in
    ap (forwards buf r) more
    ∙ forwards_last buf r (k + j) (prev e) lo (omega arith) (omega arith)
    ∙ ap (λ l. l ++ (buf (prev e % input_buf_size) ∷ []))
        (forwards-backwards buf r (prev e) k j lo (omega arith) (omega arith) (omega arith))
