-- ===== src/Bio/Releases.antt =====
-- kernel/bio.c: brelse by the holder of a buffer.
use kali.Prelude.{
  ℕ, ◌+◌, ◌^◌, ◌≤◌, ◌<◌, ◌≡◌, ◌≢◌, refl, sym, subst, none, some, ◌∷◌, ◌==◌, arith, Bool-cases, inl,
  inr,
}
use kali.Bio.{Buf, Cache, has_key, find_cached, get_buf, on_buf, unlink, let_go, released, brelse}
use kali.Bio.Find.{seen, Agrees, key_eq, view-on_buf, copies-on_buf}
use kali.Bio.Contents.{contents, IsWell, SameView, places-on_buf, get_buf-on_buf}
use kali.Bio.Reads.{find_unique}
use kali.Bio.Unlink.{
  places-unlink, copies-unlink, find_cached-unlink, Each-unlink, Each-on_buf_at, get_buf-id,
}
use kali.Bio.Writes.{holder}

-- What brelse of the buffer `b` at `i` makes of the cache `c`.
pub record IsReleased (i : ℕ) (c : Cache) (b : Buf) (c' : Cache) : Type 0 where
  pub well : IsWell c'
  pub same : SameView c c'
  pub buf : Buf
  pub at : get_buf i c'.bufs ≡ some buf
  pub unlocked : buf.owner ≡ none
  pub count : buf.refcnt + 1 ≡ b.refcnt

module _ (pid i : ℕ) (c : Cache) (b : Buf) (w : IsWell c) (g : get_buf i c.bufs ≡ some b)
    (own : b.owner ≡ some pid) (held : 1 ≤ b.refcnt) (small : b.refcnt < 2 ^ 32)
    (agree : b.refcnt ≡ 1 → seen (c.disk b.dev b.blockno) (some b) ≡ c.disk b.dev b.blockno) where
  moved : Cache
  moved = record c { bufs = let_go b ∷ unlink i c.bufs }

  moved-found : (d x : ℕ) → d ≢ 0 → contents moved d x ≡ contents c d x
  unfolding moved find_cached
  moved-found d x ne = elim (Bool-cases (has_key d x b)) [
    | inl key ↦ rw (key, find_unique i d x c.bufs b g key (w.keys d x ne)) refl
    | inr other ↦ rw (other, find_cached-unlink i d x c.bufs b g other) refl
  ]

  moved-IsReleased : b.refcnt ≡ 1 → IsReleased i c b moved
  unfolding moved get_buf
  moved-IsReleased last = record {
    well = record {
      addresses = λ j. subst (λ n. n ≤ 1) (sym (places-unlink i j c.bufs b g)) (w.addresses j);
      keys = λ d x ne. subst (λ n. n ≤ 1) (sym (copies-unlink i d x c.bufs b g)) (w.keys d x ne);
      clean = λ d x. (
        λ key idle.
            let (e1, e2) = key_eq d x b key in
            subst (λ k. seen (c.disk d k) (some b) ≡ c.disk d k) e2
              (subst (λ k. seen (c.disk k b.blockno) (some b) ≡ c.disk k b.blockno) e1
                (agree last)),
        Each-unlink (Agrees d x (c.disk d x)) i c.bufs (w.clean d x),
      );
    };
    same = record { disk = refl; found = moved-found };
    buf = let_go b;
    at = rw (get_buf-id i c.bufs b g) (ground arith);
    unlocked = refl;
    count = omega (arith, last);
  }

  kept : Cache
  kept = record c { bufs = on_buf i let_go c.bufs }

  kept-IsReleased : b.refcnt ≢ 1 → IsReleased i c b kept
  unfolding kept
  kept-IsReleased shared = record {
    well = record {
      addresses = λ j.
          subst (λ n. n ≤ 1) (sym (places-on_buf let_go (λ a. refl) i j c.bufs)) (w.addresses j);
      keys = λ d x ne.
          subst (λ n. n ≤ 1) (sym (copies-on_buf let_go (λ a. refl) (λ a. refl) i d x c.bufs))
            (w.keys d x ne);
      clean = λ d x.
          Each-on_buf_at (Agrees d x (c.disk d x)) let_go i c.bufs b g
            (λ key idle. absurd (shared (omega arith))) (w.clean d x);
    };
    same = record {
      disk = refl;
      found = λ d x ne.
          view-on_buf let_go (λ a. refl) (λ a. refl) i d x (c.disk d x) (λ a key. refl) c.bufs;
    };
    buf = let_go b;
    at = get_buf-on_buf let_go (λ a. refl) i c.bufs b g;
    unlocked = refl;
    count = omega arith;
  }

  brelse-holder : brelse pid i c ≡ some (record c { bufs = released i b c.bufs })
  unfolding brelse
  brelse-holder = rw (g, brelse) (rw (holder pid i c b g own) refl)

  -- The holder of a buffer with references, whose last one goes only once its contents are on the
  -- disk, can release it: brelse does not panic, unlocks the buffer and drops one reference. It
  -- changes what clients find in no block, nor the disk, and the cache stays well-formed.
  pub brelse_lem : (c' : Cache) × (brelse pid i c ≡ some c') × IsReleased i c b c'
  unfolding moved kept
  brelse_lem = (
    record c { bufs = released i b c.bufs },
    brelse-holder,
    elim (Bool-cases ((let_go b).refcnt == 0)) [
      | inl last ↦ rw last (moved-IsReleased (ground arith))
      | inr shared ↦ rw shared (kept-IsReleased (λ e. absurd (ground arith)))
    ],
  )
