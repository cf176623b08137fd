-- ===== src/Sleep/Progress.antt =====
-- kernel/sleeplock.c: one process at most has the lock, none sleeps for a free lock, and each can have it.
use kali.Prelude.{
  ℕ, ◌≡◌, ◌≢◌, refl, sym, subst, ap, ◌∙◌, none, some, ◌==◌, update, update_self, update_ne, arith,
  ℕ_discrete, Bool-cases, inl, inr, ◌⊎◌,
}
use mathlib.Core.Option.{some-injective}
use kali.Sleep.{
  Sleeplock, initsleeplock, acquire_turn, releasesleep, Mode, outside, trying, dozing, has_lock,
  woken_up, System, idle, moved, Step, call, sleep, take, release, Reach, start, then_step,
}

pub record IsFair (s : System) : Type 0 where
  pub holder : (p : ℕ) → s.doing p ≡ has_lock → (s.lk.locked ≢ 0) × (s.lk.pid ≡ p)
  pub held : s.lk.locked ≢ 0 → s.doing s.lk.pid ≡ has_lock
  pub sleepers : (p : ℕ) → s.doing p ≡ dozing → s.lk.locked ≢ 0

update_at : (f : ℕ → Mode) (p q : ℕ) (m : Mode) → p ≡ q → update f p m q ≡ m
update_at f p q m same = ap (update f p m) (sym same) ∙ update_self f p m

-- A process that has neither the lock nor sleeps moves to where it does neither, or sleeps for a taken lock.
moved-IsFair :
    (s : System) (p : ℕ) (m : Mode)
    → IsFair s
    → s.doing p ≢ has_lock
    → m ≢ has_lock
    → (m ≡ dozing → s.lk.locked ≢ 0)
    → IsFair (moved s p m)
moved-IsFair s p m f not_before not_after taken = record {
  holder = λ q e. elim (ℕ_discrete p q) [
    | yes same ↦ absurd (not_after (sym (update_at s.doing p q m same) ∙ e))
    | no other ↦ f.holder q (sym (update_ne s.doing p q m other) ∙ e)
  ];
  held = λ h.
      update_ne s.doing p s.lk.pid m (λ same. not_before (ap s.doing same ∙ f.held h)) ∙ f.held h;
  sleepers = λ q e. elim (ℕ_discrete p q) [
    | yes same ↦ taken (sym (update_at s.doing p q m same) ∙ e)
    | no other ↦ f.sleepers q (sym (update_ne s.doing p q m other) ∙ e)
  ];
}

take-IsFair :
    (s : System) (p : ℕ) (lk : Sleeplock)
    → IsFair s
    → acquire_turn p s.lk ≡ some lk
    → IsFair (record { lk = lk; doing = update s.doing p has_lock })
unfolding acquire_turn
take-IsFair s p lk f e = elim (Bool-cases (s.lk.locked == 0)) [
  | inr taken ↦ let bad = rw taken at e in cc
  | inl is_free ↦
      let same = some-injective (record { locked = 1; pid = p }) lk (rw is_free at e) in
      subst (λ l. IsFair (record { lk = l; doing = update s.doing p has_lock })) same
        (record {
          holder = λ q h. elim (ℕ_discrete p q) [
            | yes here ↦ (omega arith, here)
            | no other ↦ absurd (
                (f.holder q (sym (update_ne s.doing p q has_lock other) ∙ h)).0
                  (ground (arith, is_free)))
          ];
          held = λ h. update_self s.doing p has_lock;
          sleepers = λ q h. omega arith;
        })
]

not_awake : (m : Mode) → woken_up m ≢ dozing
not_awake outside e = cc
not_awake trying e = cc
not_awake dozing e = cc
not_awake has_lock e = cc

still_holds : (m : Mode) → woken_up m ≡ has_lock → m ≡ has_lock
still_holds outside e = e
still_holds trying e = e
still_holds dozing e = cc
still_holds has_lock e = refl

release-IsFair :
    (s : System) (p : ℕ)
    → IsFair s
    → s.doing p ≡ has_lock
    → IsFair
        (record { lk = releasesleep s.lk; doing = update (λ q. woken_up (s.doing q)) p outside })
release-IsFair s p f h = record {
  holder = λ q e. elim (ℕ_discrete p q) [
    | yes same ↦ cc (update_at (λ q. woken_up (s.doing q)) p q outside same, e)
    | no other ↦
        let held =
          still_holds (s.doing q)
            (sym (update_ne (λ q. woken_up (s.doing q)) p q outside other) ∙ e) in
        absurd (other (sym (f.holder p h).1 ∙ (f.holder q held).1))
  ];
  held = λ taken. absurd (taken refl);
  sleepers = λ q e. elim (ℕ_discrete p q) [
    | yes same ↦ cc (update_at (λ q. woken_up (s.doing q)) p q outside same, e)
    | no other ↦
        absurd (
          not_awake (s.doing q) (sym (update_ne (λ q. woken_up (s.doing q)) p q outside other) ∙ e))
  ];
}

none_taken : (p : ℕ) (lk : Sleeplock) → acquire_turn p lk ≡ none → lk.locked ≢ 0
unfolding acquire_turn
none_taken p lk e z = ground arith

Step-IsFair : {s t : System} → Step s t → IsFair s → IsFair t
Step-IsFair {s} (call p e) f =
    moved-IsFair s p trying f (λ h. cc (e, h)) (λ h. cc h) (λ h. absurd (cc h))
Step-IsFair {s} (sleep p e none_left) f =
    moved-IsFair s p dozing f (λ h. cc (e, h)) (λ h. cc h) (λ h. none_taken p s.lk none_left)
Step-IsFair {s} (take p lk e got) f = take-IsFair s p lk f got
Step-IsFair {s} (release p e) f = release-IsFair s p f e

idle-IsFair : IsFair idle
unfolding initsleeplock
idle-IsFair = record {
  holder = λ p e. absurd (cc e);
  held = λ h. absurd (h refl);
  sleepers = λ p e. absurd (cc e);
}

-- However processes acquire and release the lock, the one that has it is the one whose pid is in it, so there
-- is at most one, and no process sleeps for a lock that is free: no wakeup is lost.
pub Reach-IsFair : {s : System} → Reach idle s → IsFair s
Reach-IsFair start = idle-IsFair
Reach-IsFair (then_step r st) = Step-IsFair st (Reach-IsFair r)

free_turn :
    (p : ℕ) (lk : Sleeplock)
    → lk.locked ≡ 0
    → acquire_turn p lk ≡ some (record { locked = 1; pid = p })
unfolding acquire_turn
free_turn p lk h = ground (arith, h)

-- A process that tries a free lock has it next.
takes_free :
    {s : System} (p : ℕ)
    → Reach idle s
    → s.doing p ≡ trying
    → s.lk.locked ≡ 0
    → (t : System) × Reach s t × (t.doing p ≡ has_lock)
takes_free {s} p r e is_free = (
  _,
  then_step start (take p (record { locked = 1; pid = p }) e (free_turn p s.lk is_free)),
  update_self s.doing p has_lock,
)

pub Reach-Reach : {s t u : System} → Reach s t → Reach t u → Reach s u
Reach-Reach r start = r
Reach-Reach r (then_step q st) = then_step (Reach-Reach r q) st

waiter_tries : (m : Mode) → (m ≡ trying) ⊎ (m ≡ dozing) → (woken_up m ≡ trying) × (m ≢ has_lock)
waiter_tries m (inl e) = (ap woken_up e, λ h. cc (e, h))
waiter_tries m (inr e) = (ap woken_up e, λ h. cc (e, h))

-- The process that has the lock releases it, and then `p` takes it.
takes_released :
    {s : System} (h p : ℕ)
    → Reach idle s
    → s.doing h ≡ has_lock
    → (s.doing p ≡ trying) ⊎ (s.doing p ≡ dozing)
    → (t : System) × Reach s t × (t.doing p ≡ has_lock)
takes_released {s} h p r holder waits =
    let (tries, not_holder) = waiter_tries (s.doing p) waits in
    let other : h ≢ p = λ same. not_holder (ap s.doing (sym same) ∙ holder) in
    let (t, q, e) =
      takes_free p (then_step r (release h holder))
        (update_ne (λ q. woken_up (s.doing q)) h p outside other ∙ tries) refl in
    (t, Reach-Reach (then_step start (release h holder)) q, e)

-- In every state that processes can bring about, each process that waits in acquiresleep, asleep or not, can
-- still come to have the lock: there is a sequence of steps to a state in which it does.
pub Reach-progress :
    {s : System} (p : ℕ)
    → Reach idle s
    → (s.doing p ≡ trying) ⊎ (s.doing p ≡ dozing)
    → (t : System) × Reach s t × (t.doing p ≡ has_lock)
Reach-progress {s} p r waits = elim (Bool-cases (s.lk.locked == 0)) [
  | inl is_free ↦ elim waits [
    | inl tries ↦ takes_free p r tries (ground (arith, is_free))
    | inr sleeps ↦ absurd ((Reach-IsFair r).sleepers p sleeps (ground (arith, is_free)))
  ]
  | inr taken ↦
      let locked : s.lk.locked ≢ 0 = ground (arith, taken) in
      takes_released s.lk.pid p r ((Reach-IsFair r).held locked) waits
]
