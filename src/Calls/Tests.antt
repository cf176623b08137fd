-- ===== src/Calls/Tests.antt =====
-- kernel/sysfile.c: process 0 has file 2 open as descriptor 0.
use kali.Prelude.{
  ℕ, ◌≡◌, ◌≤◌, subst, sym, ap, ◌∙◌, [], none, some, Option, false, arith, ◌==◌, if◌then◌else◌, pos,
  Bool-cases, inl, inr,
}
use kali.File.{File, fd_none, fd_inode}
use kali.Proc.{Proc, unused, running}
use kali.Proc.Lifecycle.{World}
use kali.Calls.{sys_dup}
use kali.Calls.Dup.{HasRefs, Duplicated, sys_dup_lem}

abbrev no_file : File
no_file = record {
  type = fd_none;
  ref = 0;
  readable = false;
  writable = false;
  pipe = 0;
  ip = 0;
  off = 0;
  major = 0;
}

abbrev no_proc : Proc
no_proc = record {
  state = unused;
  chan = none;
  killed = false;
  xstate = pos 0;
  pid = 0;
  parent = none;
  kstack = 0;
  sz = 0;
  pagetable = 0;
  trapframe = 0;
  context = (0, 0);
  ofile = λ fd. none;
  cwd = none;
  name = λ k. 0;
}

abbrev one_file : World
one_file = record {
  files = record {
    kmem = record { freelist = 0; mem = λ a. 0 };
    fs = record {
      view = record { contents = λ _ _. 0; disk = λ _ _. 0; pins = λ _. 0; history = [] };
      log = record {
        start = 2;
        size = 31;
        outstanding = 0;
        committing = false;
        dev = 1;
        lh = record { n = 0; block = λ _. 0 };
      };
      sb = record {
        magic = 0x10203040;
        size = 2000;
        ninodes = 200;
        nlog = 31;
        logstart = 2;
        inodestart = 33;
        bmapstart = 46;
      };
      itable = λ _. record {
        dev = 0;
        inum = 0;
        ref = 0;
        owner = none;
        valid = false;
        type = 0;
        major = 0;
        minor = 0;
        nlink = 0;
        size = 0;
        addrs = λ _. 0;
      };
    };
    file = λ f. if f == 2 then record no_file { type = fd_inode; ref = 1 } else no_file;
    pipes =
        λ _. record { bytes = λ _. 0; nread = 0; nwrite = 0; readopen = false; writeopen = false };
  };
  table = λ i. record no_proc { state = running; ofile = λ fd. if fd == 0 then some 2 else none };
  nextpid = 2;
  initproc = some 0;
}

one_file-HasRefs : HasRefs one_file 0
one_file-HasRefs = record { refs = λ fd f e. only fd f e }
  where
    is_two : (f : ℕ) → ◌≡◌ {A = Option ℕ} (some 2) (some f) → 2 ≡ f
    is_two f e = cc

    never : (f : ℕ) → none ≡ some f → 1 ≤ (one_file.files.file f).ref
    never f e = cc

    only :
        (fd f : ℕ) → (if fd == 0 then some 2 else none) ≡ some f → 1 ≤ (one_file.files.file f).ref
    only fd f e = elim (Bool-cases (fd == 0)) [
      | inl first ↦
          subst (λ g. 1 ≤ (one_file.files.file g).ref)
            (is_two f (sym (ap (λ b. if b then some 2 else none) first) ∙ e)) (omega arith)
      | inr other ↦ never f (sym (ap (λ b. if b then some 2 else none) other) ∙ e)
    ]

sys_dup_lem_example : Duplicated one_file 0 (pos 0) (sys_dup 0 (pos 0) one_file)
sys_dup_lem_example = sys_dup_lem one_file 0 (pos 0) one_file-HasRefs
