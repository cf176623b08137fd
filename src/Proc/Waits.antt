-- ===== src/Proc/Waits.antt =====
-- kernel/proc.c: processes asleep in wait, and how changes of the table bear on them.
use kali.Prelude.{
  ℕ, zero, suc, ◌+◌, ◌≡◌, ◌≢◌, ◌≤◌, ◌<◌, refl, sym, ap, ◌∙◌, Bool, true, false, ◌&&◌, Option, some,
  ◌==◌, if◌then◌else◌, update, arith, Bool-cases, inl, inr, ==→eq, eq→==, ne→==, update_self,
  update_ne, ℕ_discrete,
}
use kali.Proc.{
  Proc, Table, Channel, at_proc, nproc, same_chan, same_proc, is_sleeping, is_zombie, sleeps_on,
  woken, wakeup_loop, wakeup,
}

-- Process `q` with row `p` is asleep in wait.
abbrev pub waits : (q : ℕ) → Proc → Bool
waits q p = is_sleeping p.state && same_chan p.chan (some (at_proc q))

-- Row `p` is that of an exited child of `q`.
abbrev pub left : (q : ℕ) → Proc → Bool
left q p = same_proc p.parent q && is_zombie p.state

-- If `q` is asleep in wait, no child of it has exited.
pub record IsTended (q : ℕ) (ps : Table) : Type 0 where
  pub tended : (c : ℕ) → c < nproc → waits q (ps q) ≡ true → left q (ps c) ≡ false

-- A change of the table that neither puts `q` to sleep in wait nor gives it an exited child.
pub record Calms (q : ℕ) (ps ps' : Table) : Type 0 where
  pub awake : waits q (ps' q) ≡ true → waits q (ps q) ≡ true
  pub children : (c : ℕ) → left q (ps' c) ≡ true → left q (ps c) ≡ true

pub Calms-IsTended : {q : ℕ} {ps ps' : Table} → Calms q ps ps' → IsTended q ps → IsTended q ps'
Calms-IsTended {q} {ps} {ps'} k t = record {
  tended = λ c inside w. elim (Bool-cases (left q (ps' c))) [
    | inl l ↦ l ∙ sym (k.children c l) ∙ t.tended c inside (k.awake w)
    | inr l ↦ l
  ];
}

pub Calms-refl : {q : ℕ} {ps : Table} → Calms q ps ps
Calms-refl = record { awake = λ w. w; children = λ c l. l }

pub Calms-trans :
    {q : ℕ} {ps ps' ps'' : Table} → Calms q ps ps' → Calms q ps' ps'' → Calms q ps ps''
Calms-trans k l = record {
  awake = λ w. k.awake (l.awake w);
  children = λ c x. k.children c (l.children c x);
}

pub update-Calms :
    (q : ℕ) (ps : Table) (i : ℕ) (p : Proc)
    → (q ≡ i → waits q p ≡ true → waits q (ps i) ≡ true)
    → (left q p ≡ true → left q (ps i) ≡ true)
    → Calms q ps (update ps i p)
update-Calms q ps i p awake children = record {
  awake = elim (ℕ_discrete q i) [
    | yes e ↦ λ w.
        ap (λ r. waits q (ps r)) e
        ∙ awake e (sym (ap (waits q) (ap (update ps i p) e ∙ update_self ps i p)) ∙ w)
    | no n ↦ λ w. sym (ap (waits q) (update_ne ps i q p (λ e. n (sym e)))) ∙ w
  ];
  children = λ c. elim (ℕ_discrete c i) [
    | yes e ↦ λ l.
        ap (λ r. left q (ps r)) e
        ∙ children (sym (ap (left q) (ap (update ps i p) e ∙ update_self ps i p)) ∙ l)
    | no n ↦ λ l. sym (ap (left q) (update_ne ps i c p (λ e. n (sym e)))) ∙ l
  ];
}

-- One round of wakeup.
abbrev pub wake_row : (me : Option ℕ) → Option Channel → (i : ℕ) → Table → Table
wake_row me chan i ps = if sleeps_on me chan i (ps i) then update ps i (woken (ps i)) else ps

-- A row of a process with another parent.
pub stranger_left : (q : ℕ) (p : Proc) → same_proc p.parent q ≡ false → left q p ≡ false
stranger_left q p h = rw h refl

pub alive_left : (q : ℕ) (p : Proc) → is_zombie p.state ≡ false → left q p ≡ false
alive_left q p h = rw h (and_false (same_proc p.parent q))
  where
    and_false : (b : Bool) → (b && false) ≡ false
    and_false true = refl
    and_false false = refl

-- What a test that fails implies.
pub never : {b c : Bool} → b ≡ false → b ≡ true → c ≡ true
never fails holds = cc

left-woken : (q : ℕ) (p : Proc) → left q (woken p) ≡ false
left-woken q p = alive_left q (woken p) refl

wake_row-Calms :
    (q : ℕ) (me : Option ℕ) (chan : Option Channel) (i : ℕ) (ps : Table)
    → Calms q ps (wake_row me chan i ps)
wake_row-Calms q me chan i ps = elim (Bool-cases (sleeps_on me chan i (ps i))) [
  | inl s ↦ rw s (update-Calms q ps i (woken (ps i)) (λ e w. cc) (never (left-woken q (ps i))))
  | inr n ↦ rw n Calms-refl
]

wakeup_loop-Calms :
    (q : ℕ) (me : Option ℕ) (chan : Option Channel) (rounds i : ℕ) (ps : Table)
    → Calms q ps (wakeup_loop me chan i rounds ps)
unfolding wakeup_loop
wakeup_loop-Calms q me chan zero i ps = Calms-refl
wakeup_loop-Calms q me chan (suc rounds) i ps =
    Calms-trans (wake_row-Calms q me chan i ps)
      (wakeup_loop-Calms q me chan rounds (i + 1) (wake_row me chan i ps))

pub wakeup-Calms :
    (q : ℕ) (me : Option ℕ) (chan : Option Channel) (ps : Table) → Calms q ps (wakeup me chan ps)
unfolding wakeup
wakeup-Calms q me chan ps = wakeup_loop-Calms q me chan nproc 0 ps

wake_row-parent :
    (me : Option ℕ) (chan : Option Channel) (i c : ℕ) (ps : Table)
    → (wake_row me chan i ps c).parent ≡ (ps c).parent
wake_row-parent me chan i c ps = elim (Bool-cases (sleeps_on me chan i (ps i))) [
  | inr n ↦ rw n refl
  | inl s ↦ rw s (elim (Bool-cases (i == c)) [
    | inl e ↦ rw e (ap (λ r. (ps r).parent) (==→eq i c e))
    | inr n ↦ rw n refl
  ])
]

wakeup_loop-parent :
    (me : Option ℕ) (chan : Option Channel) (c rounds i : ℕ) (ps : Table)
    → (wakeup_loop me chan i rounds ps c).parent ≡ (ps c).parent
unfolding wakeup_loop
wakeup_loop-parent me chan c zero i ps = refl
wakeup_loop-parent me chan c (suc rounds) i ps =
    wakeup_loop-parent me chan c rounds (i + 1) (wake_row me chan i ps)
    ∙ wake_row-parent me chan i c ps

pub wakeup-parent :
    (me : Option ℕ) (chan : Option Channel) (c : ℕ) (ps : Table)
    → (wakeup me chan ps c).parent ≡ (ps c).parent
unfolding wakeup
wakeup-parent me chan c ps = wakeup_loop-parent me chan c nproc 0 ps

-- Round `q` of a wakeup on `q` by another process.
own_round :
    (me q : ℕ) (ps : Table)
    → me ≢ q
    → waits q (wake_row (some me) (some (at_proc q)) q ps q) ≡ false
own_round me q ps other = elim (Bool-cases (waits q (ps q))) [
  | inl w ↦ rw (ne→== me q other) (rw w (rw (eq→== q q refl) refl))
  | inr w ↦ rw (ne→== me q other) (rw w w)
]

stays_awake :
    {q : ℕ} {ps ps' : Table} → Calms q ps ps' → waits q (ps q) ≡ false → waits q (ps' q) ≡ false
stays_awake {q} {ps} {ps'} k h = elim (Bool-cases (waits q (ps' q))) [
  | inl w ↦ let woke = k.awake w in cc
  | inr w ↦ w
]

wakeup_loop-awake :
    (me q rounds i : ℕ) (ps : Table)
    → me ≢ q
    → i ≤ q
    → q < i + rounds
    → waits q (wakeup_loop (some me) (some (at_proc q)) i rounds ps q) ≡ false
unfolding wakeup_loop
wakeup_loop-awake me q zero i ps other low high = absurd (omega (arith, low, high))
wakeup_loop-awake me q (suc rounds) i ps other low high = elim (ℕ_discrete i q) [
  | yes e ↦
      stays_awake
        (wakeup_loop-Calms q (some me) (some (at_proc q)) rounds (i + 1)
          (wake_row (some me) (some (at_proc q)) i ps))
        (ap (λ k. waits q (wake_row (some me) (some (at_proc q)) k ps q)) e
          ∙ own_round me q ps other)
  | no n ↦
      wakeup_loop-awake me q rounds (i + 1) (wake_row (some me) (some (at_proc q)) i ps) other
        (omega (arith, n, low)) (omega (arith, high))
]

-- Behind a wakeup by another process, `q` is not asleep in wait.
pub wakeup-awake :
    (me q : ℕ) (ps : Table)
    → me ≢ q
    → q < nproc
    → waits q (wakeup (some me) (some (at_proc q)) ps q) ≡ false
unfolding wakeup
wakeup-awake me q ps other inside =
    wakeup_loop-awake me q nproc 0 ps other (omega arith) (omega (arith, inside))
