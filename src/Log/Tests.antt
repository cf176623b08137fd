-- ===== src/Log/Tests.antt =====
-- kernel/log.c: a transaction of one block, and the theorems at it.
use kali.Prelude.{
  ℕ, ◌≡◌, refl, fun_ext, inr, true, false, some, ◌==◌, if◌then◌else◌, [], ◌∷◌, arith,
}
use kali.Buffers.{Disk, View}
use kali.Log.{Log, log_write, begin_op, commit, recover_from_log}
use kali.Log.Effect.{IsHome, IsLogged, All}
use kali.Log.Holds.{reboot, boot, Recovers, installed, Holds}
use kali.Log.Crash.{recover-history, OldOrNew, IsQuiet, commit-history, commit-durable}
use kali.Log.Absorb.{IsRecorded, log_write_lem}
use kali.Log.Reserve.{
  State, Step, Reach, start, later, Reach-IsReserved, IsReserved, log_write-no_panic,
}

-- The log area is blocks 2 to 41; block 50 is logged.
abbrev log : Log
log = record {
  start = 2;
  size = 40;
  outstanding = 0;
  committing = true;
  dev = 1;
  lh = record { n = 1; block = λ i. 50 };
}

-- On the disk every word is 0, and in the buffers every word of a block is its number.
abbrev view : View
view = record {
  contents = λ b w. b;
  disk = λ b w. 0;
  pins = λ b. if b == 50 then 1 else 0;
  history = (λ b w. 0) ∷ [];
}

log-IsLogged : IsLogged log
log-IsLogged = record { home = λ i h. inr (omega arith); room = omega arith }

view-IsQuiet : IsQuiet log view
view-IsQuiet = record { header = refl; history = refl }

committed : (commit log view).1.disk 50 7 ≡ 50
unfolding commit
committed = refl

commit-history_example : All (OldOrNew log view) (commit log view).1.history
commit-history_example = commit-history log log-IsLogged view view-IsQuiet

commit-durable_example :
    let (l', v') = commit log view in
    (l'.lh.n ≡ 0)
    × (v'.disk 2 0 ≡ 0)
    × ((b : ℕ) → IsHome log b → v'.disk b ≡ installed log view.contents view.disk b)
    × Recovers log (installed log view.contents view.disk) v'.disk
commit-durable_example = commit-durable log log-IsLogged view view-IsQuiet

-- The disk after a crash behind the commit point: the header names block 50, and the slot holds it.
abbrev crashed : Disk
crashed b w = if b == 2 then (if w == 0 then 1 else 50) else if b == 3 then 50 else 0

crashed-Holds : Holds log view.contents view.disk crashed
crashed-Holds = record {
  count = refl;
  blocks = λ j h. ground arith;
  slots = λ j h. fun_ext λ w. ground arith;
  home = λ b at_home out. fun_ext λ w. ground arith;
}

recover-history_example :
    All
      (Recovers log (installed log view.contents view.disk))
      (recover_from_log (reboot log) (boot crashed)).1.history
recover-history_example =
    recover-history log view.contents view.disk crashed log-IsLogged crashed-Holds

abbrev idle : Log
idle = record log { committing = false; lh = record { n = 0; block = λ i. 0 } }

abbrev running : Log
running = record idle { outstanding = 1 }

began : State
began = record { log = running; view = view; left = 10 ∷ [] }

began-Reach : Reach idle view began
unfolding began begin_op
began-Reach = later (start refl refl refl) (Step.begins refl)

abbrev written : Log
written = record running { lh = record { n = 1; block = λ i. if 0 == i then 50 else 0 } }

log_write_lem_example :
    IsRecorded running view 50 written
      (record view { pins = λ b. if 50 == b then 2 else view.pins b })
unfolding log_write
log_write_lem_example = log_write_lem running view 50 refl

Reach-IsReserved_example : IsReserved 40 began
Reach-IsReserved_example = Reach-IsReserved idle view began-Reach

log_write-no_panic_example : (p : Log × View) × (log_write running view 50 ≡ some p)
unfolding began
log_write-no_panic_example = log_write-no_panic idle view [] [] began-Reach (omega arith) 9 50 refl
