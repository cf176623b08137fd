-- ===== src/Log/Holds.antt =====
-- kernel/log.c: which log a disk holds, what keeps it, and what an installation makes of it.
use kali.Prelude.{
  ℕ, zero, suc, ◌+◌, ◌≤◌, ◌<◌, ◌≡◌, refl, ◌∙◌, ap, sym, subst, inl, inr, Bool, true, false, [], ◌∷◌,
  if◌then◌else◌, update, update_ne, arith, Bool-cases, ℕ_discrete,
}
use kali.Buffers.{Block, Disk, View}
use kali.Log.{Log, slot, install_loop, read_head, write_head, clear, recover_from_log}
use kali.Log.Effect.{
  IsHome, IsLogged, All, among, read_blocks_lem, install_lem, install_history, write_head_lem,
}

-- The machine after a crash: nothing is cached, and `struct log` is zero but for what `initlog`
-- takes from the superblock before it recovers.
abbrev pub reboot : Log → Log
reboot l = record {
  start = l.start;
  size = l.size;
  outstanding = 0;
  committing = false;
  dev = l.dev;
  lh = record { n = 0; block = λ _. 0 };
}

abbrev pub boot : Disk → View
boot d = record { contents = d; disk = d; pins = λ _. 0; history = d ∷ [] }

-- A reboot from the disk `d` gives the home blocks the contents `f`.
abbrev pub Recovers : Log → Disk → Disk → Type 0
Recovers l f d = (b : ℕ) → IsHome l b → (recover_from_log (reboot l) (boot d)).1.disk b ≡ f b

-- `f` with the logged blocks replaced by their contents in `x`.
abbrev pub installed : Log → (x f : Disk) → Disk
installed l x f b = if among l.lh.block 0 l.lh.n b then x b else f b

-- The log on the disk `d` is that of `l`, with the contents that `x` gives its blocks, and the home
-- blocks that are not logged are those of `f`.
pub record Holds (l : Log) (x f d : Disk) : Type 0 where
  pub count : d l.start 0 ≡ l.lh.n
  pub blocks : (j : ℕ) → j < l.lh.n → d l.start (j + 1) ≡ l.lh.block j
  pub slots : (j : ℕ) → j < l.lh.n → d (slot l j) ≡ x (l.lh.block j)
  pub home : (b : ℕ) → IsHome l b → among l.lh.block 0 l.lh.n b ≡ false → d b ≡ f b

-- The log that a recovery reads.
abbrev pub read_back : Log → Disk → Log
read_back l d = read_head (reboot l) (boot d)

pub among_same :
    (f g : ℕ → ℕ) (tail k b : ℕ)
    → ((j : ℕ) → tail ≤ j → j < tail + k → f j ≡ g j)
    → among f tail k b ≡ among g tail k b
among_same f g tail zero b h = refl
among_same f g tail (suc k) b h = ground (
  arith,
  h tail (omega arith) (omega arith),
  among_same f g (tail + 1) k b (λ j lo hi. h j (omega arith) (omega arith)),
)

pub among_self : (f : ℕ → ℕ) (tail k j : ℕ) → tail ≤ j → j < tail + k → among f tail k (f j) ≡ true
among_self f tail zero j lo hi = absurd (omega arith)
among_self f tail (suc k) j lo hi = elim (ℕ_discrete tail j) [
  | yes e ↦ ground arith
  | no ne ↦ ground (arith, among_self f (tail + 1) k j (omega arith) (omega arith))
]

module _ (l : Log) (w : IsLogged l) (x f : Disk) where
  -- A write to a slot leaves an empty log empty.
  pub Holds-slot :
      (d : Disk) (j : ℕ) (y : Block)
      → j < l.lh.n
      → Holds (clear l) x f d
      → Holds (clear l) x f (update d (slot l j) y)
  Holds-slot d j y h k = record {
    count = ap (λ g. g 0) (update_ne d (slot l j) l.start y (omega arith)) ∙ k.count;
    blocks = λ i lt. absurd (omega arith);
    slots = λ i lt. absurd (omega arith);
    home =
        λ b at_home out. update_ne d (slot l j) b y (omega (arith, w.room)) ∙ k.home b at_home out;
  }

  pub Holds-install :
      (d : Disk) (j : ℕ)
      → j < l.lh.n
      → Holds l x f d
      → Holds l x f (update d (l.lh.block j) (x (l.lh.block j)))
  Holds-install d j h k = record {
    count = ap (λ g. g 0) off_start ∙ k.count;
    blocks = λ i lt. ap (λ g. g (i + 1)) off_start ∙ k.blocks i lt;
    slots = λ i lt.
        update_ne d (l.lh.block j) (slot l i) y (omega (arith, w.room, w.home j h)) ∙ k.slots i lt;
    home = λ b at_home out.
        update_ne d (l.lh.block j) b y (λ e. ground (arith, among_self l.lh.block 0 l.lh.n j))
        ∙ k.home b at_home out;
  }
    where
      y : Block
      y = x (l.lh.block j)

      off_start : update d (l.lh.block j) y l.start ≡ d l.start
      off_start = update_ne d (l.lh.block j) l.start y (omega (arith, w.room, w.home j h))

  -- Once the slots hold the logged blocks, the header makes the log that of `l`.
  pub Holds-write_head :
      (v : View)
      → Holds (clear l) x f v.disk
      → ((j : ℕ) → j < l.lh.n → v.disk (slot l j) ≡ x (l.lh.block j))
      → Holds l x f (write_head l v).disk
  Holds-write_head v k filled =
      let (count, blocks, others, _, _) = write_head_lem l v in
      record {
        count = count;
        blocks = blocks;
        slots = λ j h. others (slot l j) (omega arith) ∙ filled j h;
        home = λ b at_home out. others b (omega (arith, w.room)) ∙ k.home b at_home refl;
      }

  -- Once the home blocks are installed, clearing the header ends the transaction.
  pub Holds-clear :
      (v : View)
      → ((b : ℕ) → IsHome l b → v.disk b ≡ installed l x f b)
      → Holds (clear l) x (installed l x f) (write_head (clear l) v).disk
  Holds-clear v done =
      let (count, blocks, others, _, _) = write_head_lem (clear l) v in
      record {
        count = count;
        blocks = λ j h. absurd (omega arith);
        slots = λ j h. absurd (omega arith);
        home = λ b at_home out. others b (omega (arith, w.room)) ∙ done b at_home;
      }

  -- It is that of `l`.
  pub read_back-block :
      (d : Disk)
      → Holds l x f d
      → ((read_back l d).lh.n ≡ l.lh.n)
        × ((j : ℕ) → j < l.lh.n → (read_back l d).lh.block j ≡ l.lh.block j)
  unfolding read_head
  read_back-block d k = (
    k.count,
    λ j h.
        read_blocks_lem (d l.start) (λ _. 0) 0 (d l.start 0) j (omega arith)
          (omega (arith, k.count))
        ∙ k.blocks j h,
  )

  module _ (r : Bool) (v : View) where
    -- An installation, with the header cleared behind it.
    abbrev pub finish : View
    finish = write_head (clear l) (install_loop r l 0 l.lh.n v)

  module _ (r : Bool) (v : View) (k : Holds l x f v.disk)
      (ready : (j : ℕ) → j < l.lh.n → v.contents (slot l j) ≡ x (l.lh.block j)) where
    install_done : (b : ℕ) → IsHome l b → (install_loop r l 0 l.lh.n v).disk b ≡ installed l x f b
    install_done b at_home = elim (Bool-cases (among l.lh.block 0 l.lh.n b)) [
      | inl new ↦
          (install_lem l r x 0 l.lh.n v b w (omega arith) (λ j lo hi. ready j (omega arith))).1
          ∙ rw new
      | inr old ↦
          (install_lem l r x 0 l.lh.n v b w (omega arith) (λ j lo hi. ready j (omega arith))).1
          ∙ rw old (k.home b at_home old)
    ]

    -- The disk ends with the empty log and the installed blocks.
    pub finish-Holds : Holds (clear l) x (installed l x f) (finish r v).disk
    finish-Holds = Holds-clear (install_loop r l 0 l.lh.n v) install_done

    -- On the way it holds the full log, or the empty log and the installed blocks.
    pub finish-history :
        (Q : Disk → Type 0)
        → ((d : Disk) → Holds l x f d → Q d)
        → ((d : Disk) → Holds (clear l) x (installed l x f) d → Q d)
        → All Q v.history
        → All Q (finish r v).history
    finish-history Q full empty h =
        let v' = install_loop r l 0 l.lh.n v in
        let (_, _, _, _, after) = write_head_lem (clear l) v' in
        subst (All Q) (sym after) (
          empty _ finish-Holds,
          (install_history l (Holds l x f) Q r x full Holds-install 0 l.lh.n v w (omega arith)
              (λ j lo hi. ready j (omega arith)) k h).1,
        )
