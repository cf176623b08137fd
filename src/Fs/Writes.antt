-- ===== src/Fs/Writes.antt =====
-- kernel/fs.c: a block that is changed and logged, where the log has room.
use kali.Prelude.{
  ℕ, ◌+◌, ◌-◌, ◌≡◌, ◌≤◌, ◌<◌, refl, true, false, ◌||◌, some, ◌==◌, ltb, leb, update, arith,
  Bool-cases, inl, inr,
}
use kali.Buffers.{Block, View, store, bpin}
use kali.Log
use kali.Log.{Log, log_size, find_block}
use kali.Fs.{Fs, log_block, write_block}

-- A running transaction can log `n` more blocks.
pub record HasRoom (n : ℕ) (s : Fs) : Type 0 where
  pub running : 1 ≤ s.log.outstanding
  pub transaction : s.log.lh.n + n ≤ log_size
  pub area : s.log.lh.n + n < s.log.size

-- Block `b` holds `x` and nothing else that the file system reads has changed.
pub record IsLogged (s : Fs) (b : ℕ) (x : Block) (s' : Fs) : Type 0 where
  pub contents : s'.view.contents ≡ update s.view.contents b x
  pub sb : s'.sb ≡ s.sb
  pub itable : s'.itable ≡ s.itable
  pub room : (n : ℕ) → HasRoom (n + 1) s → HasRoom n s'

recorded : Log → (n b : ℕ) → Log
recorded l n b = record l {
  lh = record { n = n; block = update l.lh.block (find_block l.lh.block b 0 l.lh.n) b };
}

module _ (s : Fs) (b : ℕ) (x : Block) (n : ℕ) (room : HasRoom (n + 1) s) where
  not_full : leb log_size s.log.lh.n || leb (s.log.size - 1) s.log.lh.n ≡ false
  not_full = ground (arith, room.transaction, room.area)

  is_running : ltb s.log.outstanding 1 ≡ false
  is_running = ground (arith, room.running)

  place : ℕ
  place = find_block s.log.lh.block b 0 s.log.lh.n

  log_write-fresh :
      place == s.log.lh.n ≡ true
      → Log.log_write s.log (store b x s.view) b
        ≡ some (recorded s.log (s.log.lh.n + 1) b, bpin b (store b x s.view))
  unfolding Log.log_write recorded place
  log_write-fresh fresh = rw not_full (rw is_running (rw fresh refl))

  log_write-known :
      place == s.log.lh.n ≡ false
      → Log.log_write s.log (store b x s.view) b
        ≡ some (recorded s.log s.log.lh.n b, store b x s.view)
  unfolding Log.log_write recorded place
  log_write-known known = rw not_full (rw is_running (rw known refl))

  write-log :
      {l : Log} {v : View}
      → Log.log_write s.log (store b x s.view) b ≡ some (l, v)
      → write_block b x s ≡ some (tt, record s { log = l; view = v })
  write-log e = rw (e, log_block) refl

  fresh_state : Fs
  fresh_state = record s {
    log = recorded s.log (s.log.lh.n + 1) b;
    view = bpin b (store b x s.view);
  }

  known_state : Fs
  known_state = record s { log = recorded s.log s.log.lh.n b; view = store b x s.view }

  pub write_block_lem : (s' : Fs) × (write_block b x s ≡ some (tt, s')) × IsLogged s b x s'
  unfolding fresh_state known_state recorded
  write_block_lem = elim (Bool-cases (place == s.log.lh.n)) [
    | inl fresh ↦ (
      fresh_state,
      write-log (log_write-fresh fresh),
      record {
        contents = refl;
        sb = refl;
        itable = refl;
        room = λ k r. record {
          running = r.running;
          transaction = omega (arith, r.transaction);
          area = omega (arith, r.area);
        };
      },
    )
    | inr known ↦ (
      known_state,
      write-log (log_write-known known),
      record {
        contents = refl;
        sb = refl;
        itable = refl;
        room = λ k r. record {
          running = r.running;
          transaction = omega (arith, r.transaction);
          area = omega (arith, r.area);
        };
      },
    )
  ]
