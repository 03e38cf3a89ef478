-- ===== src/Queue/Poll.antt =====
-- Opening, polling and releasing the queue.
use cryptodev_linux.Prelude.{
  ℕ, zero, suc, ◌+◌, ◌≡◌, refl, inl, inr, Bool, true, false, none, some, List, [], ◌∷◌, fail, ebusy,
  success, ltb, length, arith, Bool-cases, test_bit,
}
use cryptodev_linux.Queue.Defs.{
  Item, Priv, zeroed_item, alloc_ring, crypto_async_run, crypto_async_fetch, take_item, fetch_item,
  cryptodev_poll,
}

module _ {J : Type 0} where
  pub alloc_ring_counts :
      (kzalloc : ℕ → Bool) (zeroed : J) (rounds n : ℕ) (free : List (Item J))
      → length free ≡ n
      → let r = alloc_ring kzalloc zeroed rounds n free in
        (length r.1 ≡ r.2) × ((r.0 ≡ true) → r.2 ≡ n + rounds)
  unfolding alloc_ring
  alloc_ring_counts kzalloc zeroed zero n free h = (h, λ _. omega arith)
  alloc_ring_counts kzalloc zeroed (suc rounds) n free h =
      ground (arith, alloc_ring_counts kzalloc zeroed rounds (n + 1) (zeroed_item zeroed ∷ free))

module _ {J F : Type 0} where
  fetch_when_in :
      (pcr : Priv J F) (done : List (Item J))
      → pcr.done ≡ done
      → ((test_bit 0 (cryptodev_poll pcr) ≡ true)
          → (item : Item J) × ((crypto_async_fetch pcr).0 ≡ item.result)
            × ((crypto_async_fetch pcr).1 ≡ some item.kcop))
        × ((test_bit 0 (cryptodev_poll pcr) ≡ false)
            → crypto_async_fetch pcr ≡ (fail ebusy, none, pcr))
  unfolding cryptodev_poll crypto_async_fetch fetch_item
  fetch_when_in pcr [] e = simp e ((λ h. absurd (ground arith)), λ h. refl)
  fetch_when_in pcr (item ∷ done) e = simp e ((λ h. (item, refl, refl)), λ h. absurd (ground arith))

  submit_when_out :
      (no_zc : J → Bool) (zeroed : J) (pcr : Priv J F) (kcop : J) (free : List (Item J))
      → no_zc kcop ≡ false
      → pcr.free ≡ free
      → ((test_bit 2 (cryptodev_poll pcr) ≡ true)
          → (crypto_async_run no_zc true zeroed pcr kcop).0 ≡ success)
        × ((test_bit 2 (cryptodev_poll pcr) ≡ false)
            → (kzalloc : Bool) → crypto_async_run no_zc kzalloc zeroed pcr kcop ≡ (fail ebusy, pcr))
  unfolding cryptodev_poll crypto_async_run take_item
  submit_when_out no_zc zeroed pcr kcop [] z e = elim (Bool-cases (ltb pcr.itemcount 64)) [
    | inl h ↦ simp (z, e, h) ((λ _. refl), λ b k. absurd (ground arith))
    | inr h ↦ simp (z, e, h) ((λ b. absurd (ground arith)), λ b k. refl)
  ]
  submit_when_out no_zc zeroed pcr kcop (item ∷ free) z e =
      simp (z, e) ((λ h. refl), λ h k. absurd (ground arith))

  -- `cryptodev_poll` tells a client what the queue will do with a fetch, and with a job that does not
  -- have COP_FLAG_NO_ZC: with POLLIN a fetch takes a job and without it is refused with -EBUSY; with
  -- POLLOUT the job is accepted with 0 if an allocation of an item succeeds, without it the job is
  -- refused with -EBUSY whether one would succeed or not.
  pub cryptodev_poll_lem :
      (no_zc : J → Bool) (zeroed : J) (pcr : Priv J F) (kcop : J)
      → no_zc kcop ≡ false
      → ((test_bit 0 (cryptodev_poll pcr) ≡ true)
          → (item : Item J) × ((crypto_async_fetch pcr).0 ≡ item.result)
            × ((crypto_async_fetch pcr).1 ≡ some item.kcop))
        × ((test_bit 0 (cryptodev_poll pcr) ≡ false)
            → crypto_async_fetch pcr ≡ (fail ebusy, none, pcr))
        × ((test_bit 2 (cryptodev_poll pcr) ≡ true)
            → (crypto_async_run no_zc true zeroed pcr kcop).0 ≡ success)
        × ((test_bit 2 (cryptodev_poll pcr) ≡ false)
            → (kzalloc : Bool) → crypto_async_run no_zc kzalloc zeroed pcr kcop ≡ (fail ebusy, pcr))
  cryptodev_poll_lem no_zc zeroed pcr kcop z =
      let i = fetch_when_in pcr pcr.done refl in
      let o = submit_when_out no_zc zeroed pcr kcop pcr.free z refl in (i.0, i.1, o.0, o.1)
