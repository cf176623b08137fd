-- ===== src/Log/Reserve.antt =====
-- kernel/log.c: concurrent file-system calls between begin_op and end_op. Each may write
-- MAXOPBLOCKS blocks; begin_op lets no more calls run than the log has room for.
use kali.Prelude.{
  ℕ, suc, ◌+◌, ◌*◌, ◌-◌, ap, subst, ◌∙◌, sym, ◌≤◌, ◌<◌, ◌≡◌, refl, Bool, true, false, List, [], ◌∷◌,
  ◌++◌, some, length, length-append, arith,
}
use kali.Buffers.{View}
use kali.Log.{LogHeader, Log, max_op_blocks, log_size, begin_op, end_op, end_commit, log_write}
use kali.Log.Absorb.{log_write-same, log_write-returns, result}

-- `left` holds, for each call that runs, how many blocks it may still write.
pub record State : Type 0 where
  pub log : Log
  pub view : View
  pub left : List ℕ

pub data Step (s : State) : State → Type 0 where
  begins :
      {l : Log}
      → begin_op s.log ≡ some l
      → Step s (record { log = l; view = s.view; left = max_op_blocks ∷ s.left })
  writes :
      (xs ys : List ℕ) (r b : ℕ) {l : Log} {v : View}
      → s.left ≡ xs ++ (suc r ∷ ys)
      → log_write s.log s.view b ≡ some (l, v)
      → Step s (record { log = l; view = v; left = xs ++ (r ∷ ys) })
  ends :
      (xs ys : List ℕ) (r : ℕ) (do_commit : Bool) {l : Log}
      → s.left ≡ xs ++ (r ∷ ys)
      → end_op s.log ≡ some (l, do_commit)
      → Step s (record { log = l; view = s.view; left = xs ++ ys })
  commits :
      {l : Log} {v : View}
      → s.log.committing ≡ true
      → end_commit s.log s.view ≡ (l, v)
      → Step s (record { log = l; view = v; left = s.left })

-- From the state that `initlog` leaves.
pub data Reach (l : Log) (v : View) : State → Type 0 where
  start :
      l.lh.n ≡ 0
      → l.outstanding ≡ 0
      → l.committing ≡ false
      → Reach l v (record { log = l; view = v; left = [] })
  later : {s t : State} → Reach l v s → Step s t → Reach l v t

abbrev pub sum : List ℕ → ℕ
sum [] = 0
sum (x ∷ xs) = x + sum xs

-- Each call may write MAXOPBLOCKS blocks at most.
abbrev pub EachSmall : List ℕ → Type 0
EachSmall [] = Unit {0}
EachSmall (x ∷ xs) = (x ≤ max_op_blocks) × EachSmall xs

sum-le : (xs : List ℕ) → EachSmall xs → sum xs ≤ length xs * max_op_blocks
sum-le [] h = omega arith
sum-le (x ∷ xs) h = omega (arith, sum-le xs h.1)

EachSmall-drop : (xs ys : List ℕ) (r : ℕ) → EachSmall (xs ++ (r ∷ ys)) → EachSmall (xs ++ ys)
EachSmall-drop [] ys r h = h.1
EachSmall-drop (x ∷ xs) ys r h = (h.0, EachSmall-drop xs ys r h.1)

EachSmall-pred :
    (xs ys : List ℕ) (r : ℕ) → EachSmall (xs ++ (suc r ∷ ys)) → EachSmall (xs ++ (r ∷ ys))
EachSmall-pred [] ys r h = (omega (arith, h.0), h.1)
EachSmall-pred (x ∷ xs) ys r h = (h.0, EachSmall-pred xs ys r h.1)

sum-append : (xs ys : List ℕ) → sum (xs ++ ys) ≡ sum xs + sum ys
sum-append [] ys = omega arith
sum-append (x ∷ xs) ys = omega (arith, sum-append xs ys)

-- The log has room for all that the running calls may still write, and a commit runs alone.
pub record IsReserved (size : ℕ) (s : State) : Type 0 where
  pub room : s.log.lh.n + sum s.left ≤ log_size
  pub count : s.log.outstanding ≡ length s.left
  pub small : EachSmall s.left
  pub alone : s.log.committing ≡ true → s.left ≡ []
  pub area : s.log.size ≡ size

nil_of_length : (xs : List ℕ) → length xs ≡ 0 → xs ≡ []
nil_of_length [] h = refl
nil_of_length (x ∷ xs) h = absurd (omega arith)

end_op-some :
    (l : Log) {l' : Log} {c : Bool}
    → end_op l ≡ some (l', c)
    → (l'.lh ≡ l.lh)
      × (l'.outstanding ≡ l.outstanding - 1)
      × (l'.size ≡ l.size)
      × (l'.committing ≡ true → l'.outstanding ≡ 0)
unfolding end_op
end_op-some l h = ground arith

end_commit_lem :
    (l : Log) (v : View)
    → ((end_commit l v).0.lh.n ≡ 0)
      × ((end_commit l v).0.outstanding ≡ l.outstanding)
      × ((end_commit l v).0.size ≡ l.size)
      × ((end_commit l v).0.committing ≡ false)
unfolding end_commit
end_commit_lem l v = ground arith

module _ (size : ℕ) (s : State) (i : IsReserved size s) where
  begin-IsReserved :
      {l : Log}
      → begin_op s.log ≡ some l
      → IsReserved size (record { log = l; view = s.view; left = max_op_blocks ∷ s.left })
  unfolding begin_op
  begin-IsReserved h = record {
    room = ground (arith, sum-le s.left i.small);
    count = ground arith;
    small = (omega arith, i.small);
    alone = ground arith;
    area = ground arith;
  }

  write-IsReserved :
      (xs ys : List ℕ) (r b : ℕ) {l : Log} {v : View}
      → s.left ≡ xs ++ (suc r ∷ ys)
      → log_write s.log s.view b ≡ some (l, v)
      → IsReserved size (record { log = l; view = v; left = xs ++ (r ∷ ys) })
  write-IsReserved xs ys r b e h =
      let (more, out, locked, sz) = log_write-same s.log s.view b h in
      record {
        room =
            omega
              (arith, i.room, ap sum e, sum-append xs (suc r ∷ ys), sum-append xs (r ∷ ys), more);
        count = omega (
          arith,
          i.count,
          ap length e,
          length-append {0} xs (suc r ∷ ys),
          length-append {0} xs (r ∷ ys),
          out,
        );
        small = EachSmall-pred xs ys r (subst EachSmall e i.small);
        alone = λ c. absurd (
            omega (
              arith,
              ap length (sym e ∙ i.alone (sym locked ∙ c)),
              length-append {0} xs (suc r ∷ ys),
            ));
        area = sz ∙ i.area;
      }

  end-IsReserved :
      (xs ys : List ℕ) (r : ℕ) (do_commit : Bool) {l : Log}
      → s.left ≡ xs ++ (r ∷ ys)
      → end_op s.log ≡ some (l, do_commit)
      → IsReserved size (record { log = l; view = s.view; left = xs ++ ys })
  end-IsReserved xs ys r do_commit e h =
      let (header, out, sz, idle) = end_op-some s.log h in
      let longer = length-append {0} xs (r ∷ ys) in
      let shorter = length-append {0} xs ys in
      record {
        room = omega (
          arith,
          i.room,
          ap sum e,
          sum-append xs (r ∷ ys),
          sum-append xs ys,
          ap (λ (n : LogHeader). n.n) header,
        );
        count = omega (arith, i.count, ap length e, longer, shorter, out);
        small = EachSmall-drop xs ys r (subst EachSmall e i.small);
        alone = λ c.
            nil_of_length (xs ++ ys)
              (omega (arith, i.count, ap length e, longer, shorter, out, idle c));
        area = sz ∙ i.area;
      }

  commit-IsReserved :
      {l : Log} {v : View}
      → s.log.committing ≡ true
      → end_commit s.log s.view ≡ (l, v)
      → IsReserved size (record { log = l; view = v; left = s.left })
  commit-IsReserved {l} {v} c h =
      let (n, out, sz, unlocked) = end_commit_lem s.log s.view in
      let e : (end_commit s.log s.view).0 ≡ l = ap (λ (p : Log × View). p.0) h in
      subst (λ l. IsReserved size (record { log = l; view = v; left = s.left })) e
        (record {
          room = omega (arith, n, i.alone c, ap sum (i.alone c));
          count = out ∙ i.count;
          small = i.small;
          alone = λ t. cc (sym unlocked ∙ t);
          area = sz ∙ i.area;
        })

  Step-IsReserved : {t : State} → Step s t → IsReserved size t
  Step-IsReserved (begins h) = begin-IsReserved h
  Step-IsReserved (writes xs ys r b e h) = write-IsReserved xs ys r b e h
  Step-IsReserved (ends xs ys r do_commit e h) = end-IsReserved xs ys r do_commit e h
  Step-IsReserved (commits c h) = commit-IsReserved c h

-- In every state that the calls can reach, the logged blocks and those that the running calls may
-- still write fit in the log.
pub Reach-IsReserved : (l : Log) (v : View) {s : State} → Reach l v s → IsReserved l.size s
Reach-IsReserved l v (start n out unlocked) = record {
  room = omega (arith, n);
  count = out;
  small = tt;
  alone = λ c. refl;
  area = refl;
}
Reach-IsReserved l v (later {s} r st) = Step-IsReserved l.size s (Reach-IsReserved l v r) st

module _ (l : Log) (v : View) {s : State} (xs ys : List ℕ) (reach : Reach l v s)
    (big : log_size < l.size) where
  -- Where the log area has room for the header and LOGSIZE blocks, log_write does not panic for a
  -- call that has written fewer than MAXOPBLOCKS blocks.
  pub log_write-no_panic :
      (r b : ℕ)
      → s.left ≡ xs ++ (suc r ∷ ys)
      → (p : Log × View) × (log_write s.log s.view b ≡ some p)
  log_write-no_panic r b e =
      let i = Reach-IsReserved l v reach in
      let longer = length-append {0} xs (suc r ∷ ys) in
      let total = sum-append xs (suc r ∷ ys) in
      (
        result s.log s.view b,
        log_write-returns s.log s.view b (omega (arith, i.room, ap sum e, total))
            (omega (arith, i.room, i.area, ap sum e, total))
            (omega (arith, i.count, ap length e, longer)),
      )
