-- ===== src/Proc/Exits.antt =====
-- kernel/proc.c: exit and wait do not miss each other.
use kali.Prelude.{
  ℕ, zero, suc, ◌+◌, ◌≡◌, ◌≢◌, ◌≤◌, ◌<◌, refl, sym, ap, ◌∙◌, Bool, true, false, not, ◌&&◌, ◌||◌,
  Option, none, some, ◌==◌, if◌then◌else◌, update, arith, Bool-cases, inl, inr, ==→eq, ne→==,
  update_self, update_ne, ℕ_discrete, ℤ,
}
use kali.Proc.{
  Table, State, unused, used, sleeping, runnable, running, zombie, at_proc, nproc, same_proc,
  same_chan, is_sleeping, is_zombie, chan_of, freed, wakeup, reparented, reparent_loop, reparent,
  exited, wake_parent, exit_locked, Scan, exited_child, no_exit, scan, wait_end, wait_round, asleep,
  killed_row, kill_loop, kill,
}
use kali.Proc.Waits.{
  waits, left, IsTended, Calms, Calms-IsTended, Calms-refl, Calms-trans, update-Calms, wakeup-Calms,
  wakeup-parent, wakeup-awake, stranger_left, alive_left, never,
}

awake-IsTended : {q : ℕ} {ps : Table} → waits q (ps q) ≡ false → IsTended q ps
awake-IsTended h = record { tended = λ c inside w. cc }

reparented-Calms : (init q i : ℕ) (ps : Table) → q ≢ init → Calms q ps (reparented init i ps)
reparented-Calms init q i ps other =
    update-Calms q ps i (record (ps i) { parent = some init }) (λ e w. w)
      (never (
        stranger_left q (record (ps i) { parent = some init }) (ne→== init q (λ e. other (sym e)))))

reparent_loop-IsTended :
    (init me : ℕ)
    → me ≢ init
    → init < nproc
    → (q rounds i : ℕ) (ps : Table) → IsTended q ps
    → IsTended q (reparent_loop init me i rounds ps)
unfolding reparent_loop
reparent_loop-IsTended init me other inside q zero i ps t = t
reparent_loop-IsTended init me other inside q (suc rounds) i ps t =
    elim (Bool-cases (same_proc (ps i).parent me)) [
      | inr n ↦ rw n (reparent_loop-IsTended init me other inside q rounds (i + 1) ps t)
      | inl c ↦ rw c (
          reparent_loop-IsTended init me other inside q rounds (i + 1)
            (wakeup (some me) (some (at_proc init)) (reparented init i ps))
            (elim (ℕ_discrete q init) [
              | yes e ↦ awake-IsTended (
                  ap
                    (λ k. waits k (wakeup (some me) (some (at_proc init)) (reparented init i ps) k))
                    e
                  ∙ wakeup-awake me init (reparented init i ps) other inside)
              | no n ↦
                  Calms-IsTended
                    (Calms-trans (reparented-Calms init q i ps n)
                      (wakeup-Calms q (some me) (some (at_proc init)) (reparented init i ps)))
                    t
            ]))
    ]

-- The parent of an exiting process does not wait behind its wakeup.
parent_awake :
    (me q : ℕ) (ps : Table)
    → q ≢ me
    → q < nproc
    → same_proc (ps me).parent q ≡ true
    → waits q (wake_parent me ps q) ≡ false
parent_awake me q ps other inside child =
    ap (λ p. waits q (wakeup (some me) (chan_of p) ps q)) (parent_is (ps me).parent child)
    ∙ wakeup-awake me q ps (λ e. other (sym e)) inside
  where
    parent_is : (p : Option ℕ) → same_proc p q ≡ true → p ≡ some q
    parent_is none h = cc
    parent_is (some k) h = ap some (==→eq k q h)

exit-IsTended :
    (me q : ℕ) (status : ℤ) (ps : Table)
    → q < nproc
    → IsTended q ps
    → IsTended q (update (wake_parent me ps) me (exited status (wake_parent me ps me)))
exit-IsTended me q status ps inside t = elim (ℕ_discrete q me) [
  | yes e ↦ awake-IsTended (
      ap (λ k. waits k (update (wake_parent me ps) me (exited status (wake_parent me ps me)) k)) e
      ∙ ap (waits me) (update_self (wake_parent me ps) me (exited status (wake_parent me ps me))))
  | no n ↦ elim (Bool-cases (same_proc (ps me).parent q)) [
    | inl child ↦ awake-IsTended (
        ap (waits q) (
          update_ne (wake_parent me ps) me q (exited status (wake_parent me ps me))
            (λ e. n (sym e)))
        ∙ parent_awake me q ps n inside child)
    | inr stranger ↦
        Calms-IsTended
          (Calms-trans (wakeup-Calms q (some me) (chan_of (ps me).parent) ps) (
            update-Calms q (wake_parent me ps) me (exited status (wake_parent me ps me))
              (λ e w. absurd (n e))
              (never (
                stranger_left q (exited status (wake_parent me ps me)) (
                  ap (λ p. same_proc p q) (wakeup-parent (some me) (chan_of (ps me).parent) me ps)
                  ∙ stranger)))))
          t
  ]
]

pub exit_locked-IsTended :
    (init me q : ℕ) (status : ℤ) (ps : Table)
    → me ≢ init
    → init < nproc
    → q < nproc
    → IsTended q ps
    → IsTended q (exit_locked init me status ps)
unfolding exit_locked reparent
exit_locked-IsTended init me q status ps other init_in inside t =
    exit-IsTended me q status (reparent init me ps) inside
      (reparent_loop-IsTended init me other init_in q nproc 0 ps t)

-- A scan that finds no exited child has seen none.
scan_all :
    (ps : Table) (me rounds i : ℕ) (havekids h : Bool)
    → scan ps me i rounds havekids ≡ no_exit h
    → (c : ℕ) → i ≤ c
    → c < i + rounds
    → left me (ps c) ≡ false
unfolding scan
scan_all ps me zero i havekids h e c low high = absurd (omega (arith, low, high))
scan_all ps me (suc rounds) i havekids h e c low high = elim (Bool-cases (left me (ps i))) [
  | inl l ↦ absurd (found i h (sym (rw l refl) ∙ e))
  | inr l ↦ elim (ℕ_discrete i c) [
    | yes same ↦ sym (ap (λ k. left me (ps k)) same) ∙ l
    | no n ↦
        scan_all ps me rounds (i + 1) (havekids || same_proc (ps i).parent me) h
          (sym (rw l refl) ∙ e) c (omega (arith, n, low)) (omega (arith, high))
  ]
]
  where
    found : (i : ℕ) (h : Bool) → exited_child i ≢ no_exit h
    found i h e = cc

pub freed-Calms : (q c : ℕ) (ps : Table) → Calms q ps (update ps c (freed (ps c)))
freed-Calms q c ps = update-Calms q ps c (freed (ps c)) (λ e. never refl) (never refl)

wait_end-IsTended :
    (copied : Bool) (me q : ℕ) (ps : Table) (found : Scan)
    → scan ps me 0 nproc false ≡ found
    → IsTended q ps
    → IsTended q (wait_end copied me ps found).1
unfolding wait_end
wait_end-IsTended true me q ps (exited_child c) e t = Calms-IsTended (freed-Calms q c ps) t
wait_end-IsTended false me q ps (exited_child c) e t = t
wait_end-IsTended copied me q ps (no_exit havekids) e t =
    elim (Bool-cases (not havekids || (ps me).killed)) [
      | inl ends ↦ rw ends t
      | inr sleeps ↦ rw sleeps (elim (ℕ_discrete q me) [
        | yes same ↦ record {
          tended = λ c inside w.
              ap (λ k. left k (update ps me (asleep (some (at_proc me)) (ps me)) c)) same
              ∙ none_left havekids e c inside;
        }
        | no other ↦
            Calms-IsTended
              (update-Calms q ps me (asleep (some (at_proc me)) (ps me)) (λ e w. absurd (other e))
                (never (alive_left q (asleep (some (at_proc me)) (ps me)) refl)))
              t
      ])
    ]
  where
    none_left :
        (h : Bool)
        → scan ps me 0 nproc false ≡ no_exit h
        → (c : ℕ) → c < nproc
        → left me (update ps me (asleep (some (at_proc me)) (ps me)) c) ≡ false
    none_left h e c inside = elim (ℕ_discrete c me) [
      | yes same ↦
          ap (λ k. left me (update ps me (asleep (some (at_proc me)) (ps me)) k)) same
          ∙ ap (left me) (update_self ps me (asleep (some (at_proc me)) (ps me)))
          ∙ alive_left me (asleep (some (at_proc me)) (ps me)) refl
      | no other ↦
          ap (left me) (update_ne ps me c (asleep (some (at_proc me)) (ps me)) (λ e. other (sym e)))
          ∙ scan_all ps me nproc 0 false h e c (omega arith) (omega (arith, inside))
    ]

pub wait_round-IsTended :
    (copied : Bool) (me q : ℕ) (ps : Table) → IsTended q ps → IsTended q (wait_round copied me ps).1
unfolding wait_round
wait_round-IsTended copied me q ps t =
    wait_end-IsTended copied me q ps (scan ps me 0 nproc false) refl t

killed_row-Calms : (q i : ℕ) (ps : Table) → Calms q ps (update ps i (killed_row (ps i)))
killed_row-Calms q i ps =
    update-Calms q ps i (killed_row (ps i))
      (λ e. never (awake (ps i).state (same_chan (ps i).chan (some (at_proc q)))))
      (kept (ps i).state (same_proc (ps i).parent q))
  where
    awake :
        (s : State) (b : Bool) → (is_sleeping (if is_sleeping s then runnable else s) && b) ≡ false
    awake unused b = refl
    awake used b = refl
    awake sleeping b = refl
    awake runnable b = refl
    awake running b = refl
    awake zombie b = refl

    kept :
        (s : State) (b : Bool)
        → (b && is_zombie (if is_sleeping s then runnable else s)) ≡ true
        → (b && is_zombie s) ≡ true
    kept unused b h = h
    kept used b h = h
    kept sleeping b h = h
    kept runnable b h = h
    kept running b h = h
    kept zombie b h = h

kill_loop-Calms : (q pid rounds i : ℕ) (ps : Table) → Calms q ps (kill_loop pid i rounds ps).1
unfolding kill_loop
kill_loop-Calms q pid zero i ps = Calms-refl
kill_loop-Calms q pid (suc rounds) i ps = elim (Bool-cases ((ps i).pid == pid)) [
  | inl found ↦ rw found (killed_row-Calms q i ps)
  | inr other ↦ rw other (kill_loop-Calms q pid rounds (i + 1) ps)
]

pub kill-Calms : (q pid : ℕ) (ps : Table) → Calms q ps (kill pid ps).1
unfolding kill
kill-Calms q pid ps = kill_loop-Calms q pid nproc 0 ps
