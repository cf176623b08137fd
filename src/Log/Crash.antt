-- ===== src/Log/Crash.antt =====
-- kernel/log.c: a commit is atomic and durable under a crash after any of its disk writes, and so
-- is a recovery that is itself cut short.
use kali.Prelude.{
  ℕ, ◌<◌, ◌≡◌, refl, ◌∙◌, ap, sym, subst, ◌⊎◌, inl, inr, true, false, List, ◌∷◌, [], if◌then◌else◌,
  arith, lt→ltb, le→ltb, ℕ_discrete,
}
use kali.Buffers.{Disk, View}
use kali.Log.{
  Log, slot, install_trans, read_head, write_head, clear, recover_from_log, write_log, commit,
}
use kali.Log.Effect.{
  IsHome, IsLogged, All, among, write_log_inside, write_log_history, write_head_lem,
}
use kali.Log.Holds.{
  reboot, boot, Recovers, installed, Holds, among_same, Holds-slot, Holds-write_head, read_back,
  read_back-block, finish, finish-Holds, finish-history,
}

module _ (l : Log) (w : IsLogged l) (x f d : Disk) (k : Holds l x f d) where
  abbrev back : Log
  back = read_back l d

  back-IsLogged : IsLogged back
  unfolding read_head
  back-IsLogged =
      let (n, block) = read_back-block l w x f d k in
      record {
        home = λ i h.
            subst (IsHome l) (sym (block i (omega (arith, n)))) (w.home i (omega (arith, n)));
        room = omega (arith, n, w.room);
      }

  back-among : (b : ℕ) → among back.lh.block 0 back.lh.n b ≡ among l.lh.block 0 l.lh.n b
  back-among b =
      let (n, block) = read_back-block l w x f d k in
      ap (λ m. among back.lh.block 0 m b) n
      ∙ among_same back.lh.block l.lh.block 0 l.lh.n b (λ j lo hi. block j (omega arith))

  back-installed : (b : ℕ) → installed back x f b ≡ installed l x f b
  back-installed b = ap (λ t. if t then x b else f b) (back-among b)

  back-Holds : Holds back x f d
  unfolding read_head
  back-Holds =
      let (n, block) = read_back-block l w x f d k in
      record {
        count = refl;
        blocks = λ j h. k.blocks j (omega (arith, n)) ∙ sym (block j (omega (arith, n)));
        slots = λ j h. k.slots j (omega (arith, n)) ∙ ap x (sym (block j (omega (arith, n))));
        home = λ b at_home out. k.home b at_home (sym (back-among b) ∙ out);
      }

  back-ready : (j : ℕ) → j < back.lh.n → (boot d).contents (slot back j) ≡ x (back.lh.block j)
  back-ready j h = back-Holds.slots j h

  -- A recovery from a disk that holds a log installs it, and nothing else.
  pub recover_lem : Recovers l (installed l x f) d
  unfolding recover_from_log install_trans read_head
  recover_lem b at_home =
      (finish-Holds back back-IsLogged x f true (boot d) back-Holds back-ready).home b at_home refl
      ∙ back-installed b

clear-Recovers : (l : Log) (w : IsLogged l) (x f d : Disk) → Holds (clear l) x f d → Recovers l f d
clear-Recovers l w x f d k b at_home =
    recover_lem (clear l)
      (record { home = λ i h. absurd (omega arith); room = omega (arith, w.room) }) x f d k b
      at_home

module _ (l : Log) (w : IsLogged l) (x f d : Disk) (k : Holds l x f d) where
  -- The same for the log as the recovery reads it.
  back_full : (d' : Disk) → Holds (read_back l d) x f d' → Recovers l (installed l x f) d'
  unfolding read_head
  back_full d' k' b at_home =
      recover_lem (read_back l d) (back-IsLogged l w x f d k) x f d' k' b at_home
      ∙ back-installed l w x f d k b

  back_empty :
      (d' : Disk)
      → Holds (clear (read_back l d)) x (installed (read_back l d) x f) d'
      → Recovers l (installed l x f) d'
  unfolding read_head
  back_empty d' k' b at_home =
      clear-Recovers (read_back l d) (back-IsLogged l w x f d k) x (installed (read_back l d) x f)
        d' k' b at_home
      ∙ back-installed l w x f d k b

-- A recovery that a crash cuts short, before or after any of its writes, leaves a disk from which
-- the next one gives the home blocks the contents that this one would have given them.
pub recover-history :
    (l : Log) (x f d : Disk)
    → IsLogged l
    → Holds l x f d
    → All (Recovers l (installed l x f)) (recover_from_log (reboot l) (boot d)).1.history
unfolding recover_from_log install_trans
recover-history l x f d w k =
    finish-history (read_back l d) (back-IsLogged l w x f d k) x f true (boot d)
      (back-Holds l w x f d k) (back-ready l w x f d k) (Recovers l (installed l x f))
      (back_full l w x f d k) (back_empty l w x f d k) (recover_lem l w x f d k, tt)

All-mono : (P Q : Disk → Type 0) (ds : List Disk) → ((d : Disk) → P d → Q d) → All P ds → All Q ds
All-mono P Q [] h a = tt
All-mono P Q (d ∷ ds) h a = (h d a.0, All-mono P Q ds h a.1)

-- What a crash may leave of the commit that `l` and `v` stand before: all of it or nothing.
abbrev pub OldOrNew : Log → View → Disk → Type 0
OldOrNew l v d = Recovers l v.disk d ⊎ Recovers l (installed l v.contents v.disk) d

-- Nothing was written since the last commit ended: the header on the disk says 0.
pub record IsQuiet (l : Log) (v : View) : Type 0 where
  pub header : v.disk l.start 0 ≡ 0
  pub history : v.history ≡ v.disk ∷ []

module _ (l : Log) (w : IsLogged l) (v : View) (q : IsQuiet l v) where
  abbrev Empty : Disk → Type 0
  Empty = Holds (clear l) v.contents v.disk

  start-Empty : Empty v.disk
  start-Empty = record {
    count = q.header;
    blocks = λ j h. absurd (omega arith);
    slots = λ j h. absurd (omega arith);
    home = λ b at_home out. refl;
  }

  logged : Empty (write_log l v).disk × All (OldOrNew l v) (write_log l v).history
  unfolding write_log
  logged =
      let kept =
        write_log_history l Empty (λ d j y. Holds-slot l w v.contents v.disk d j y) 0 l.lh.n v
          (omega arith) start-Empty (subst (All Empty) (sym q.history) (start-Empty, tt)) in
      (kept.0, All-mono Empty (OldOrNew l v) _ (λ d e. inl (old d e)) kept.1)
    where
      old : (d : Disk) → Empty d → Recovers l v.disk d
      old d e = clear-Recovers l w v.contents v.disk d e

  full : Holds l v.contents v.disk (write_head l (write_log l v)).disk
  unfolding write_log
  full =
      Holds-write_head l w v.contents v.disk (write_log l v) logged.0
        (λ j h. (write_log_inside l 0 l.lh.n v j w (omega arith) (omega arith) (omega arith)).1)

  ready :
      (j : ℕ)
      → j < l.lh.n
      → (write_head l (write_log l v)).contents (slot l j) ≡ v.contents (l.lh.block j)
  unfolding write_log
  ready j h =
      (write_head_lem l (write_log l v)).3 (slot l j) (omega arith)
      ∙ (write_log_inside l 0 l.lh.n v j w (omega arith) (omega arith) (omega arith)).0

  new : (d : Disk) → Holds l v.contents v.disk d → OldOrNew l v d
  new d k = inr (recover_lem l w v.contents v.disk d k)

  done :
      (d : Disk)
      → Holds (clear l) v.contents (installed l v.contents v.disk) d
      → Recovers l (installed l v.contents v.disk) d
  done d k = clear-Recovers l w v.contents (installed l v.contents v.disk) d k

  -- The disk after `commit`, where there is something to commit.
  after : View
  after = finish l w v.contents v.disk false (write_head l (write_log l v))

  after-history : All (OldOrNew l v) after.history
  unfolding after
  after-history =
      finish-history l w v.contents v.disk false (write_head l (write_log l v)) full ready
        (OldOrNew l v) new (λ d k. inr (done d k))
        (subst (All (OldOrNew l v)) (sym (write_head_lem l (write_log l v)).4)
          (new _ full, logged.1))

  after-Holds : Holds (clear l) v.contents (installed l v.contents v.disk) after.disk
  unfolding after
  after-Holds = finish-Holds l w v.contents v.disk false (write_head l (write_log l v)) full ready

  after-commit : 0 < l.lh.n → commit l v ≡ (clear l, after)
  unfolding commit install_trans after
  after-commit h = rw (lt→ltb 0 l.lh.n h)

  nothing : l.lh.n ≡ 0 → commit l v ≡ (l, v)
  unfolding commit
  nothing h = rw (le→ltb 0 l.lh.n (omega arith))

  -- From the disk as it is before the commit or after any of its writes, a reboot gives all the
  -- home blocks their contents from before the transaction, or gives all the logged ones the
  -- contents of their buffers and the others those from before.
  pub commit-history : All (OldOrNew l v) (commit l v).1.history
  commit-history = elim (ℕ_discrete l.lh.n 0) [
    | yes e ↦
        subst (λ (r : Log × View). All (OldOrNew l v) r.1.history) (sym (nothing e))
          (subst (All (OldOrNew l v)) (sym q.history)
            (inl (clear-Recovers l w v.contents v.disk v.disk start-Empty), tt))
    | no ne ↦
        subst (λ (r : Log × View). All (OldOrNew l v) r.1.history)
          (sym (after-commit (omega arith))) after-history
  ]

  -- When `commit` has returned, the log in memory and on the disk is empty, each logged home block
  -- is on the disk as its buffer had it, every other home block is as it was, and a reboot
  -- changes none of them.
  pub commit-durable :
      let (l', v') = commit l v in
      (l'.lh.n ≡ 0)
      × (v'.disk l.start 0 ≡ 0)
      × ((b : ℕ) → IsHome l b → v'.disk b ≡ installed l v.contents v.disk b)
      × Recovers l (installed l v.contents v.disk) v'.disk
  commit-durable = elim (ℕ_discrete l.lh.n 0) [
    | yes e ↦ subst Durable (sym (nothing e)) (
      e,
      q.header,
      λ b at_home. sym (same b e),
      λ b at_home.
          clear-Recovers l w v.contents v.disk v.disk start-Empty b at_home ∙ sym (same b e),
    )
    | no ne ↦
        subst Durable (sym (after-commit (omega arith))) (
          refl,
          after-Holds.count,
          λ b at_home. after-Holds.home b at_home refl,
          done _ after-Holds,
        )
  ]
    where
      Durable : Log × View → Type 0
      Durable (l', v') =
          (l'.lh.n ≡ 0)
          × (v'.disk l.start 0 ≡ 0)
          × ((b : ℕ) → IsHome l b → v'.disk b ≡ installed l v.contents v.disk b)
          × Recovers l (installed l v.contents v.disk) v'.disk

      same : (b : ℕ) → l.lh.n ≡ 0 → installed l v.contents v.disk b ≡ v.disk b
      same b e = ap (λ m. if among l.lh.block 0 m b then v.contents b else v.disk b) e
