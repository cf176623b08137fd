-- ===== src/Virtio/Chains.antt =====
-- kernel/virtio_disk.c: the chain of three descriptors of a request, from its formatting to its release.
use Prim.Native.Nat.{bit_and, bit_or}
use kali.Prelude.{
  ℕ, suc, ◌≡◌, ◌≢◌, ◌<◌, inl, inr, refl, sym, ◌∙◌, Bool, true, false, some, if◌then◌else◌, update,
  update_self, update_ne, Bool-cases, >>=-some, pure,
}
use kali.Virtio.{
  Virtio, Desc, num, f_next, zero_desc, release_desc, free_desc, free_chain, Idx, first_desc,
  data_desc, status_desc, submit, rw_end,
}
use kali.Virtio.Alloc.{free_desc_lem}

pub record IsChain (desc : ℕ → Desc) (x : Idx) : Type 0 where
  pub buffer : ℕ
  pub write : Bool
  pub first : desc x.0 ≡ first_desc x
  pub data_part : desc x.1 ≡ data_desc buffer write x
  pub last : desc x.2 ≡ status_desc x

pub record AreApart (x : Idx) : Type 0 where
  pub first_data : x.0 ≢ x.1
  pub first_last : x.0 ≢ x.2
  pub data_last : x.1 ≢ x.2

pub record AreTaken (d : Virtio) (x : Idx) : Type 0 where
  pub low : (x.0 < num) × (x.1 < num) × (x.2 < num)
  pub first : d.free (x.0) ≡ false
  pub data_part : d.free (x.1) ≡ false
  pub last : d.free (x.2) ≡ false

pub submit-IsChain :
    (b blockno : ℕ) (write : Bool) (x : Idx) (d : Virtio)
    → AreApart x
    → IsChain (submit b blockno write x d).desc x
unfolding submit
submit-IsChain b blockno write x d a =
    let f = update d.desc x.0 (first_desc x) in
    let g = update f x.1 (data_desc b write x) in
    record {
      buffer = b;
      write = write;
      first =
          update_ne g x.2 x.0 (status_desc x) (λ e. a.first_last (sym e))
          ∙ update_ne f x.1 x.0 (data_desc b write x) (λ e. a.first_data (sym e))
          ∙ update_self d.desc x.0 (first_desc x);
      data_part =
          update_ne g x.2 x.1 (status_desc x) (λ e. a.data_last (sym e))
          ∙ update_self f x.1 (data_desc b write x);
      last = update_self g x.2 (status_desc x);
    }

-- A chain that goes on, and one that ends.
chain_step :
    (n i : ℕ) (d : Virtio) (e : Desc)
    → d.desc i ≡ e
    → bit_and e.flags f_next ≡ 1
    → i < num
    → d.free i ≡ false
    → free_chain (suc n) i d ≡ free_chain n e.next (release_desc i d)
unfolding free_chain
chain_step n i d e h more low busy =
    >>=-some (free_desc i) _ (free_desc_lem i d low busy) ∙ rw (h, more) refl

chain_end :
    (n i : ℕ) (d : Virtio) (e : Desc)
    → d.desc i ≡ e
    → bit_and e.flags f_next ≡ 0
    → i < num
    → d.free i ≡ false
    → free_chain (suc n) i d ≡ some (tt, release_desc i d)
unfolding free_chain
chain_end n i d e h more low busy =
    >>=-some (free_desc i) _ (free_desc_lem i d low busy) ∙ rw (h, more) refl

abbrev pub forget : Idx → Virtio → Virtio
forget x d = record d { info = update d.info x.0 0 }

abbrev pub ended : Idx → Virtio → Virtio
ended x d = release_desc x.2 (release_desc x.1 (release_desc x.0 (forget x d)))

data_flags : (write : Bool) → bit_and (bit_or (if write then 0 else 2) 1) f_next ≡ 1
data_flags true = refl
data_flags false = refl

pub chain_lem :
    (x : Idx) (d : Virtio)
    → IsChain d.desc x
    → AreApart x
    → AreTaken d x
    → free_chain (suc num) x.0 (forget x d) ≡ some (tt, ended x d)
chain_lem x d c a t =
    chain_step 8 x.0 (forget x d) (first_desc x) c.first refl t.low.0 t.first
    ∙ chain_step 7 x.1 (release_desc x.0 (forget x d)) (data_desc c.buffer c.write x)
        (update_ne d.desc x.0 x.1 zero_desc a.first_data ∙ c.data_part) (data_flags c.write) t.low.1
        (update_ne d.free x.0 x.1 true a.first_data ∙ t.data_part)
    ∙ chain_end 6 x.2 (release_desc x.1 (release_desc x.0 (forget x d))) (status_desc x)
        (update_ne (update d.desc x.0 zero_desc) x.1 x.2 zero_desc a.data_last
          ∙ update_ne d.desc x.0 x.2 zero_desc a.first_last
          ∙ c.last)
        refl t.low.2
        (update_ne (update d.free x.0 true) x.1 x.2 true a.data_last
          ∙ update_ne d.free x.0 x.2 true a.first_last
          ∙ t.last)

pub rw_end_lem :
    (b : ℕ) (x : Idx) (d : Virtio)
    → IsChain d.desc x
    → AreApart x
    → AreTaken d x
    → rw_end b x d ≡ (if d.held b then some (false, d) else some (true, ended x d))
unfolding rw_end
rw_end_lem b x d c a t = elim (Bool-cases (d.held b)) [
  | inl waits ↦ rw waits refl
  | inr done ↦ rw done (>>=-some (free_chain (suc num) x.0) (λ _. pure true) (chain_lem x d c a t))
]
