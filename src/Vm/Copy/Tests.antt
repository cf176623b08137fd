-- ===== src/Vm/Copy/Tests.antt =====
-- kernel/vm.c: a page table of one user page, and copies from it.
use kali.Prelude.{ℕ, ◌+◌, ◌%◌, ◌≡◌, ◌<◌, refl, sym, ◌∙◌, arith}
use kali.Strings.{Memory}
use kali.Kalloc.{Kmem, store_le, load_le}
use kali.Kalloc.Words.{load_le-same}
use kali.Vm.{pgrounddown, entry, px}
use kali.Vm.Translate.{user_page, lookup}
use kali.Vm.Copy.{copyin}
use kali.Vm.Copy.Region.{SameOutside}
use kali.Vm.Copy.Round.{IsApart, Outcome}
use kali.Vm.Copy.In.{copyin_lem}

-- Tables at 4096, 8192 and 12288 map the first page of the user to 16384.
abbrev tables : Memory
tables = store_le (store_le (store_le (λ a. a % 256) 4096 2049 8) 8192 3073 8) 12288 4119 8

abbrev mapped : Kmem
mapped = record { freelist = 0; mem = tables }

page : user_page tables 4096 0 ≡ 16384
unfolding user_page lookup px store_le load_le
page = refl

entry_top : entry tables 4096 ≡ 2049
unfolding store_le load_le
entry_top = refl

entry_middle : entry tables 8192 ≡ 3073
unfolding store_le load_le
entry_middle = refl

entry_leaf : entry tables 12288 ≡ 4119
unfolding store_le load_le
entry_leaf = refl

-- Three bytes at 20480 leave the tables alone.
entry-same :
    (m' : Memory) (a : ℕ)
    → SameOutside 20480 3 tables m'
    → a + 8 < 20480
    → entry m' a ≡ entry tables a
entry-same m' a outside h =
    load_le-same 8 m' tables a (λ i small. outside (a + i) (ground (arith, h, small)))

page-same : (m' : Memory) → SameOutside 20480 3 tables m' → user_page m' 4096 0 ≡ 16384
unfolding user_page lookup px
page-same m' outside = rw (entry-same m' 4096 outside (omega arith) ∙ entry_top) (
    rw (entry-same m' 8192 outside (omega arith) ∙ entry_middle)
      (rw (entry-same m' 12288 outside (omega arith) ∙ entry_leaf) refl))

first_page : (i : ℕ) → i < 3 → pgrounddown (5 + i) ≡ 0
first_page i small = omega arith

target-IsApart : IsApart tables 4096 20480 3 5 3
target-IsApart = record {
  stable = λ m' outside i small. rw (first_page i small) (page-same m' outside ∙ sym page);
  source = λ i small _. rw (first_page i small) (rw page (ground arith));
}

copyin_lem_example : Outcome tables 4096 20480 5 3 mapped (copyin 4096 20480 5 3 mapped)
copyin_lem_example = copyin_lem 4096 20480 5 3 mapped target-IsApart
