-- ===== src/Queue/System/Count.antt =====
-- No item is ever lost or made up, except by a failed allocation.
use cryptodev_linux.Prelude.{
  ℕ, ◌+◌, ◌≤◌, ◌<◌, ◌↔◌, ◌≡◌, refl, ap, inl, inr, Bool, true, false, some, List, [], ◌∷◌, ◌++◌,
  length, arith, length-append, Bool-cases, ltb,
}
use cryptodev_linux.Queue.Defs.{
  Item, Priv, Run, crypto_async_run, crypto_async_fetch, take_item, fetch_item, zeroed_item,
  cut_todo, splice_done, max_cop_ringsize, cryptodev_open, cryptodev_release,
}
use cryptodev_linux.Queue.Poll.{alloc_ring_counts}
use cryptodev_linux.Queue.System.{
  Worker, rest, running, System, submit_to, fetch_from, Step, submit, fetch, start, work, finish,
  other_call, opened, Reach, next,
}

abbrev held : {J : Type 0} → Worker J → ℕ
held rest = 0
held (running ran left) = length ran + length left

-- Every counted item is in one of the lists, with the worker, or was never allocated; and there are
-- never more than MAX_COP_RINGSIZE.
pub record IsCounted {J F : Type 0} (s : System J F) : Type 0 where
  pub total :
      length s.pcr.free + length s.pcr.todo + length s.pcr.done + held s.worker + s.lost
      ≡ s.pcr.itemcount
  pub bounded : s.pcr.itemcount ≤ max_cop_ringsize

module _ {J F : Type 0} where
  take_item-IsCounted :
      (kzalloc : Bool) (zeroed : J) (s : System J F) (kcop : J) (free : List (Item J))
      → length s.pcr.free ≡ length free
      → IsCounted s
      → IsCounted (submit_to s kcop (take_item kzalloc zeroed s.pcr kcop free))
  unfolding take_item
  take_item-IsCounted kzalloc zeroed s kcop (item ∷ free) e v = record {
    total = omega (arith, v.total, length-append s.pcr.todo (record item { kcop = kcop } ∷ []));
    bounded = v.bounded;
  }
  take_item-IsCounted true zeroed s kcop [] e v = elim (Bool-cases (ltb s.pcr.itemcount 64)) [
    | inl h ↦ simp h (record {
      total = omega (
        arith,
        v.total,
        length-append s.pcr.todo (record (zeroed_item zeroed) { kcop = kcop } ∷ []),
      );
      bounded = ground arith;
    })
    | inr h ↦ simp h (record { total = v.total; bounded = v.bounded })
  ]
  take_item-IsCounted false zeroed s kcop [] e v = elim (Bool-cases (ltb s.pcr.itemcount 64)) [
    | inl h ↦ simp h (record { total = omega (arith, v.total); bounded = ground arith })
    | inr h ↦ simp h (record { total = v.total; bounded = v.bounded })
  ]

  submit-IsCounted :
      (no_zc : J → Bool) (kzalloc : Bool) (zeroed : J) (s : System J F) (kcop : J)
      → IsCounted s
      → IsCounted (submit_to s kcop (crypto_async_run no_zc kzalloc zeroed s.pcr kcop))
  unfolding crypto_async_run
  submit-IsCounted no_zc kzalloc zeroed s kcop v = elim (Bool-cases (no_zc kcop)) [
    | inl h ↦ simp h (record { total = v.total; bounded = v.bounded })
    | inr h ↦ simp h (take_item-IsCounted kzalloc zeroed s kcop s.pcr.free refl v)
  ]

  fetch_item-IsCounted :
      (s : System J F) (done : List (Item J))
      → length s.pcr.done ≡ length done
      → IsCounted s
      → IsCounted (fetch_from s (fetch_item s.pcr done))
  unfolding fetch_item
  fetch_item-IsCounted s [] e v = record { total = v.total; bounded = v.bounded }
  fetch_item-IsCounted s (item ∷ done) e v = record {
    total = omega (arith, v.total, length-append s.pcr.free (item ∷ []));
    bounded = v.bounded;
  }

  -- Every step of a client or of the worker keeps the count.
  pub Step-IsCounted :
      (crypto_run : Run J F) (no_zc : J → Bool) (zeroed : J) (s t : System J F)
      → IsCounted s
      → Step crypto_run no_zc zeroed s t
      → IsCounted t
  unfolding cut_todo splice_done crypto_async_fetch
  Step-IsCounted crypto_run no_zc zeroed s t v (submit kcop kzalloc e) =
      rw e (submit-IsCounted no_zc kzalloc zeroed s kcop v)
  Step-IsCounted crypto_run no_zc zeroed s t v (fetch e) =
      rw e (fetch_item-IsCounted s s.pcr.done refl v)
  Step-IsCounted crypto_run no_zc zeroed s t v (start w e) =
      rw e (record { total = omega (arith, v.total, ap held w); bounded = v.bounded })
  Step-IsCounted crypto_run no_zc zeroed s t v (work ran left item item' f w r e) = rw e (record {
    total = omega (arith, v.total, ap held w, length-append ran (item' ∷ []));
    bounded = v.bounded;
  })
  Step-IsCounted crypto_run no_zc zeroed s t v (finish ran w e) = rw e (record {
    total = omega (arith, v.total, ap held w, length-append s.pcr.done ran);
    bounded = v.bounded;
  })
  Step-IsCounted crypto_run no_zc zeroed s t v (other_call f e) =
      rw e (record { total = v.total; bounded = v.bounded })

  Reach-IsCounted :
      (crypto_run : Run J F) (no_zc : J → Bool) (zeroed : J) (pcr : Priv J F) (s : System J F)
      → IsCounted (opened pcr)
      → Reach crypto_run no_zc zeroed pcr s
      → IsCounted s
  Reach-IsCounted crypto_run no_zc zeroed pcr s v start = v
  Reach-IsCounted crypto_run no_zc zeroed pcr s v (next {s = r} h st) =
      Step-IsCounted crypto_run no_zc zeroed r s (Reach-IsCounted crypto_run no_zc zeroed pcr r v h)
        st

  -- `cryptodev_open` leaves a queue of DEF_COP_RINGSIZE free items.
  open-IsCounted :
      (priv_ok : Bool) (kzalloc : ℕ → Bool) (zeroed : J) (fcrypt : F) (pcr : Priv J F)
      → (cryptodev_open priv_ok kzalloc zeroed fcrypt).private ≡ some pcr
      → IsCounted (opened pcr) × (pcr.itemcount ≡ 16)
  unfolding cryptodev_open
  open-IsCounted priv_ok kzalloc zeroed fcrypt pcr e =
      ground (arith, alloc_ring_counts kzalloc zeroed 16 0 [])

  -- After any history of an opened queue, when the worker is at rest, `cryptodev_release` frees
  -- every item that was allocated, and complains of their number exactly if some allocation of
  -- `crypto_async_run` has failed.
  pub cryptodev_release_frees :
      (crypto_run : Run J F) (no_zc : J → Bool) (zeroed : J) (priv_ok : Bool) (kzalloc : ℕ → Bool)
      (fcrypt : F) (finish_all : F → F) (pcr : Priv J F) (s : System J F)
      → (cryptodev_open priv_ok kzalloc zeroed fcrypt).private ≡ some pcr
      → Reach crypto_run no_zc zeroed pcr s
      → s.worker ≡ rest
      → ((cryptodev_release finish_all s.pcr).items_freed + s.lost ≡ s.pcr.itemcount)
        × (s.pcr.itemcount ≤ max_cop_ringsize)
        × (((cryptodev_release finish_all s.pcr).complains ≡ true) ↔ (0 < s.lost))
  unfolding cryptodev_release
  cryptodev_release_frees crypto_run no_zc zeroed priv_ok kzalloc fcrypt finish_all pcr s o r w =
      let v =
        Reach-IsCounted crypto_run no_zc zeroed pcr s
          (open-IsCounted priv_ok kzalloc zeroed fcrypt pcr o).0 r in
      let n = length-append s.pcr.free (s.pcr.todo ++ s.pcr.done) in
      let m = length-append s.pcr.todo s.pcr.done in
      let t : length (s.pcr.free ++ (s.pcr.todo ++ s.pcr.done)) + s.lost ≡ s.pcr.itemcount =
        omega (arith, v.total, ap held w) in
      (t, v.bounded, ((λ h. ground arith), λ h. ground arith))
