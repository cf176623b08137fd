-- ===== src/Uart/Order.antt =====
-- kernel/uart.c: any interleaving of writers and interrupts.
use kali.Prelude.{
  ℕ, zero, suc, ◌+◌, ◌-◌, ◌%◌, ◌^◌, ◌≡◌, ◌≢◌, ◌≤◌, ◌<◌, refl, sym, subst, ap, ap₂, ◌∙◌, Bool, true,
  false, none, some, List, [], ◌∷◌, ◌++◌, ◌==◌, if◌then◌else◌, update, update_self, update_ne,
  append_assoc, arith, Bool-cases, inl, inr,
}
use kali.Uart.{Uart, uart_tx_buf_size, add64, oldest, advance, enqueue, uartstart, uartputc}

abbrev pub waiting : Uart → ℕ
waiting u = (u.w + (2 ^ 64 - u.r)) % 2 ^ 64

-- The `k` characters from index `r` on.
abbrev pub stretch : (ℕ → ℕ) → (r k : ℕ) → List ℕ
stretch buf r zero = []
stretch buf r (suc k) = buf (r % uart_tx_buf_size) ∷ stretch buf (add64 r 1) k

-- The characters in the buffer, oldest first.
abbrev pub queued : Uart → List ℕ
queued u = stretch u.buf u.r (waiting u)

pub record IsRing (u : Uart) : Type 0 where
  pub write_index : u.w < 2 ^ 64
  pub read_index : u.r < 2 ^ 64
  pub bounded : waiting u ≤ uart_tx_buf_size

stretch-update :
    (buf : ℕ → ℕ) (r k w c : ℕ)
    → r < 2 ^ 64
    → k < uart_tx_buf_size
    → w ≡ (r + k) % 2 ^ 64
    → stretch (update buf (w % uart_tx_buf_size) c) r (suc k) ≡ stretch buf r k ++ (c ∷ [])
stretch-update buf r zero w c lo hi e =
    ap (λ j. update buf (w % uart_tx_buf_size) c j ∷ []) (omega arith)
    ∙ ap (λ d. d ∷ []) (update_self buf (w % uart_tx_buf_size) c)
stretch-update buf r (suc k) w c lo hi e =
    ap₂ ◌∷◌ (update_ne buf (w % uart_tx_buf_size) (r % uart_tx_buf_size) c (omega arith))
      (stretch-update buf (add64 r 1) k w c (omega arith) (omega arith) (omega arith))

stretch_first :
    (buf : ℕ → ℕ) (r k : ℕ)
    → k ≢ 0
    → stretch buf r k ≡ buf (r % uart_tx_buf_size) ∷ stretch buf (add64 r 1) (k - 1)
stretch_first buf r zero h = absurd (h refl)
stretch_first buf r (suc k) h =
    ap (λ j. buf (r % uart_tx_buf_size) ∷ stretch buf (add64 r 1) j) (omega arith)

module _ (u : Uart) (v : IsRing u) where
  module _ (c : ℕ) (room : (u.w == add64 u.r uart_tx_buf_size) ≡ false) where
    has_room : waiting u < uart_tx_buf_size
    has_room = ground (arith, room, v.bounded, v.write_index, v.read_index)

    enqueue-IsRing : IsRing (enqueue u c)
    enqueue-IsRing = record {
      write_index = omega arith;
      read_index = v.read_index;
      bounded = omega (arith, v.write_index, v.read_index, has_room);
    }

    queued-enqueue : queued (enqueue u c) ≡ queued u ++ (c % 2 ^ 8 ∷ [])
    queued-enqueue =
        let more : waiting (enqueue u c) ≡ suc (waiting u) =
          omega (arith, v.write_index, v.read_index, has_room) in
        ap (stretch (enqueue u c).buf u.r) more
        ∙ stretch-update u.buf u.r (waiting u) u.w (c % 2 ^ 8) v.read_index has_room
            (omega (arith, v.write_index, v.read_index))

  module _ (some_left : (u.w == u.r) ≡ false) where
    not_empty : waiting u ≢ 0
    not_empty = ground (arith, some_left, v.write_index, v.read_index)

    advance-IsRing : IsRing (advance u)
    advance-IsRing = record {
      write_index = v.write_index;
      read_index = omega arith;
      bounded = omega (arith, v.write_index, v.read_index, v.bounded, not_empty);
    }

    queued-advance : queued u ≡ oldest u ∷ queued (advance u)
    queued-advance =
        let less : waiting u - 1 ≡ waiting (advance u) =
          omega (arith, v.write_index, v.read_index, not_empty) in
        stretch_first u.buf u.r (waiting u) not_empty
        ∙ ap (λ j. oldest u ∷ stretch u.buf (add64 u.r 1) j) less

-- What uartstart sends stood in front of what stays in the buffer.
uartstart_lem :
    (idle : ℕ) (u : Uart)
    → IsRing u
    → IsRing (uartstart idle u).1 × (queued u ≡ (uartstart idle u).0 ++ queued (uartstart idle u).1)
unfolding uartstart
uartstart_lem zero u v = (v, refl)
uartstart_lem (suc idle) u v = elim (Bool-cases (u.w == u.r)) [
  | inl empty ↦ rw empty (v, refl)
  | inr some_left ↦
      let (ring, order) = uartstart_lem idle (advance u) (advance-IsRing u v some_left) in
      rw some_left (ring, queued-advance u v some_left ∙ ap (λ l. oldest u ∷ l) order)
]

-- The buffer, with all characters ever given to uartputc, as `char`s, and all that went to the device.
pub record State : Type 0 where
  pub uart : Uart
  pub given : List ℕ
  pub sent : List ℕ

abbrev pub sends : State → (given : List ℕ) → List ℕ × Uart → State
sends s given r = record { uart = r.1; given = given; sent = s.sent ++ r.0 }

-- A writer that finds room, or an interrupt; a writer that sleeps tries again.
pub data Step (s : State) : State → Type 0 where
  puts :
      (idle c : ℕ) (r : List ℕ × Uart)
      → uartputc idle c s.uart ≡ some r
      → Step s (sends s (s.given ++ (c % 2 ^ 8 ∷ [])) r)
  interrupts : (idle : ℕ) → Step s (sends s s.given (uartstart idle s.uart))

pub data Reach : State → Type 0 where
  boots :
      (buf : ℕ → ℕ)
      → Reach (record { uart = record { buf = buf; w = 0; r = 0 }; given = []; sent = [] })
  later : {s t : State} → Reach s → Step s t → Reach t

pub record IsOrdered (s : State) : Type 0 where
  pub ring : IsRing s.uart
  pub order : s.given ≡ s.sent ++ queued s.uart

sends-IsOrdered :
    (s : State) (given : List ℕ) (u : Uart) (idle : ℕ)
    → IsRing u
    → given ≡ s.sent ++ queued u
    → IsOrdered (sends s given (uartstart idle u))
sends-IsOrdered s given u idle v e =
    let (ring, order) = uartstart_lem idle u v in
    record {
      ring = ring;
      order =
          e
          ∙ ap (λ l. s.sent ++ l) order
          ∙ sym (append_assoc s.sent (uartstart idle u).0 (queued (uartstart idle u).1));
    }

uartputc-some :
    (idle c : ℕ) (u : Uart) (r : List ℕ × Uart)
    → uartputc idle c u ≡ some r
    → ((u.w == add64 u.r uart_tx_buf_size) ≡ false) × (uartstart idle (enqueue u c) ≡ r)
unfolding uartputc
uartputc-some idle c u r e = by_room (u.w == add64 u.r uart_tx_buf_size) e
  where
    by_room :
        (b : Bool)
        → (if b then none else some (uartstart idle (enqueue u c))) ≡ some r
        → (b ≡ false) × (uartstart idle (enqueue u c) ≡ r)
    by_room true e = cc
    by_room false e = (refl, cc)

Step-IsOrdered : {s t : State} → Step s t → IsOrdered s → IsOrdered t
Step-IsOrdered {s} (interrupts idle) f = sends-IsOrdered s s.given s.uart idle f.ring f.order
Step-IsOrdered {s} (puts idle c r e) f =
    let (room, same) = uartputc-some idle c s.uart r e in
    subst (λ r. IsOrdered (sends s (s.given ++ (c % 2 ^ 8 ∷ [])) r)) same
      (sends-IsOrdered s (s.given ++ (c % 2 ^ 8 ∷ [])) (enqueue s.uart c) idle
        (enqueue-IsRing s.uart f.ring c room)
        (ap (λ l. l ++ (c % 2 ^ 8 ∷ [])) f.order
          ∙ append_assoc s.sent (queued s.uart) (c % 2 ^ 8 ∷ [])
          ∙ ap (λ l. s.sent ++ l) (sym (queued-enqueue s.uart f.ring c room))))

-- From the boot on, in any order of writers and interrupts and for any device: the characters given to
-- uartputc, as `char`s, are those that went to the device, in this order, and then those in the buffer, of which
-- there are 32 at most. None is lost, doubled or overtaken, also where the indices wrap around.
pub Reach-IsOrdered : {s : State} → Reach s → IsOrdered s
Reach-IsOrdered (boots buf) = record {
  ring = record { write_index = omega arith; read_index = omega arith; bounded = omega arith };
  order = refl;
}
Reach-IsOrdered (later r st) = Step-IsOrdered st (Reach-IsOrdered r)
