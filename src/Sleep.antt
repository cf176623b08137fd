-- ===== src/Sleep.antt =====
-- kernel/sleeplock.c: the lock by itself, for processes that acquire it and release it again. lk->lk is held
-- through each turn; sleep gives it up and falls asleep in one step, as it does in proc.c.
pub mod Progress
mod Tests
use kali.Prelude.{ℕ, ◌≡◌, Bool, ◌&&◌, not, Option, none, some, ◌==◌, if◌then◌else◌, update}

pub record Sleeplock : Type 0 where
  pub locked : ℕ
  pub pid : ℕ

pub initsleeplock : Sleeplock
initsleeplock = record { locked = 0; pid = 0 }

-- A turn of the loop of acquiresleep for the process `me`: it sleeps, or has the lock.
unfoldable pub acquire_turn : (me : ℕ) → Sleeplock → Option Sleeplock
acquire_turn me lk = if lk.locked == 0 then some (record { locked = 1; pid = me }) else none

-- Without its wakeup.
abbrev pub releasesleep : Sleeplock → Sleeplock
releasesleep lk = record { locked = 0; pid = 0 }

abbrev pub is_held_by : (me : ℕ) → Sleeplock → Bool
is_held_by me lk = not (lk.locked == 0) && lk.pid == me

-- Where a process is: out of the lock, in the loop of acquiresleep, asleep there, or with the lock.
pub data Mode : Type 0 where
  outside : Mode
  trying : Mode
  dozing : Mode
  has_lock : Mode

-- wakeup
abbrev pub woken_up : Mode → Mode
woken_up outside = outside
woken_up trying = trying
woken_up dozing = trying
woken_up has_lock = has_lock

pub record System : Type 0 where
  pub lk : Sleeplock
  pub doing : ℕ → Mode

abbrev pub idle : System
idle = record { lk = initsleeplock; doing = λ p. outside }

abbrev pub moved : System → (p : ℕ) → Mode → System
moved s p m = record s { doing = update s.doing p m }

pub data Step (s : System) : System → Type 0 where
  call : (p : ℕ) → s.doing p ≡ outside → Step s (moved s p trying)
  sleep : (p : ℕ) → s.doing p ≡ trying → acquire_turn p s.lk ≡ none → Step s (moved s p dozing)
  take :
      (p : ℕ) (lk : Sleeplock)
      → s.doing p ≡ trying
      → acquire_turn p s.lk ≡ some lk
      → Step s (record { lk = lk; doing = update s.doing p has_lock })
  release :
      (p : ℕ)
      → s.doing p ≡ has_lock
      → Step s
          (record { lk = releasesleep s.lk; doing = update (λ q. woken_up (s.doing q)) p outside })

pub data Reach (s : System) : System → Type 0 where
  start : Reach s s
  then_step : {t u : System} → Reach s t → Step t u → Reach s u
