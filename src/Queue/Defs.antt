-- ===== src/Queue/Defs.antt =====
-- `struct crypt_priv` and the operations of ioctl.c on its three lists of job items.
use cryptodev_linux.Prelude.{
  ℕ, zero, suc, ◌+◌, Bool, true, false, ◌||◌, not, Option, none, some, List, [], ◌∷◌, ◌++◌, Code,
  fail, einval, enomem, efault, ebusy, success, ltb, ◌==◌, if◌then◌else◌, length, ◌>>=◌,
}

abbrev pub def_cop_ringsize : ℕ
def_cop_ringsize = 16

abbrev pub max_cop_ringsize : ℕ
max_cop_ringsize = 64

-- `struct todo_list_item`. `J` is the type of `struct kernel_crypt_op`.
pub record Item (J : Type 0) : Type 0 where
  pub kcop : J
  pub result : Code

-- `struct crypt_priv`. `F` is the type of `struct fcrypt`.
pub record Priv (J F : Type 0) : Type 0 where
  pub fcrypt : F
  pub free : List (Item J)
  pub todo : List (Item J)
  pub done : List (Item J)
  pub itemcount : ℕ

-- What `cryptodev_open` leaves: its result, `filp->private_data`, and how many items it freed.
pub record Opened (J F : Type 0) : Type 0 where
  pub code : Code
  pub private : Option (Priv J F)
  pub freed : ℕ

-- What `cryptodev_release` does: the items freed, whether it complains of their number, and the
-- sessions after `crypto_finish_all_sessions`.
pub record Released (F : Type 0) : Type 0 where
  pub items_freed : ℕ
  pub complains : Bool
  pub fcrypt : F

-- `crypto_run` on the sessions and a job; `none` if it never returns.
abbrev pub Run : Type 0 → Type 0 → Type 0
Run J F = F → J → Option (Code × J × F)

abbrev pub is_empty {ℓ} : {A : Type ℓ} → List A → Bool
is_empty [] = true
is_empty (x ∷ xs) = false

module _ {J : Type 0} where
  abbrev pub zeroed_item : J → Item J
  zeroed_item zeroed = record { kcop = zeroed; result = success }

  -- The loop of `cryptodev_open` over the rounds left: `kzalloc i` says whether the `i`-th
  -- allocation succeeds. `false` is the jump to `err_ringalloc`. Then the list and the item count.
  unfoldable pub alloc_ring : (ℕ → Bool) → J → ℕ → ℕ → List (Item J) → Bool × List (Item J) × ℕ
  alloc_ring kzalloc zeroed zero itemcount free = (true, free, itemcount)
  alloc_ring kzalloc zeroed (suc rounds) itemcount free =
      let rest = alloc_ring kzalloc zeroed rounds (itemcount + 1) (zeroed_item zeroed ∷ free) in
      if kzalloc itemcount then rest else (false, free, itemcount)

module _ {J F : Type 0} where
  -- `priv_ok` says whether the first `kzalloc` succeeds.
  unfoldable pub cryptodev_open : Bool → (ℕ → Bool) → J → F → Opened J F
  unfolding alloc_ring
  cryptodev_open priv_ok kzalloc zeroed fcrypt =
      let ring = alloc_ring kzalloc zeroed def_cop_ringsize 0 [] in
      if not priv_ok
      then record { code = fail enomem; private = none; freed = 0 }
      else if ring.0
      then record {
        code = success;
        private =
            some
              (record { fcrypt = fcrypt; free = ring.1; todo = []; done = []; itemcount = ring.2 });
        freed = 0;
      }
      else record { code = fail enomem; private = none; freed = length ring.1 }

  -- The worker is at rest: `cancel_work_sync` has waited for it.
  unfoldable pub cryptodev_release : (F → F) → Priv J F → Released F
  cryptodev_release finish_all pcr =
      let items_freed = length (pcr.free ++ (pcr.todo ++ pcr.done)) in
      record {
        items_freed = items_freed;
        complains = not (items_freed == pcr.itemcount);
        fcrypt = finish_all pcr.fcrypt;
      }

  -- The end of `crypto_async_run`, once there is an item.
  abbrev pub enqueue : Priv J F → J → Item J → Priv J F
  enqueue pcr kcop item = record pcr { todo = pcr.todo ++ (record item { kcop = kcop } ∷ []) }

  -- `crypto_async_run` from the test of the free list on; `kzalloc` is the allocation's success.
  unfoldable pub take_item : Bool → J → Priv J F → J → List (Item J) → Code × Priv J F
  take_item kzalloc zeroed pcr kcop (item ∷ free) =
      (success, enqueue (record pcr { free = free }) kcop item)
  take_item kzalloc zeroed pcr kcop [] =
      let grown : Priv J F = record pcr { itemcount = pcr.itemcount + 1 } in
      if ltb pcr.itemcount max_cop_ringsize
      then (if kzalloc
          then (success, enqueue grown kcop (zeroed_item zeroed))
          else (fail efault, grown))
      else (fail ebusy, pcr)

  -- `no_zc` is COP_FLAG_NO_ZC of a job.
  unfoldable pub crypto_async_run : (J → Bool) → Bool → J → Priv J F → J → Code × Priv J F
  crypto_async_run no_zc kzalloc zeroed pcr kcop =
      if no_zc kcop then (fail einval, pcr) else take_item kzalloc zeroed pcr kcop pcr.free

  -- `crypto_async_fetch`: the result, the job copied out, the new state.
  unfoldable pub fetch_item : Priv J F → List (Item J) → Code × Option J × Priv J F
  fetch_item pcr [] = (fail ebusy, none, pcr)
  fetch_item pcr (item ∷ done) =
      (item.result, some item.kcop, record pcr { done = done; free = pcr.free ++ (item ∷ []) })

  unfoldable pub crypto_async_fetch : Priv J F → Code × Option J × Priv J F
  crypto_async_fetch pcr = fetch_item pcr pcr.done

  -- The three parts of `cryptask_routine`: take all pending jobs, run one of them, hand all over.
  unfoldable pub cut_todo : Priv J F → List (Item J) × Priv J F
  cut_todo pcr = (pcr.todo, record pcr { todo = [] })

  unfoldable pub run_item : Run J F → F → Item J → Option (Item J × F)
  run_item crypto_run fcrypt item =
      crypto_run fcrypt item.kcop >>= λ r. some (record { kcop = r.1; result = r.0 }, r.2)

  unfoldable pub splice_done : List (Item J) → Priv J F → Priv J F
  splice_done tmp pcr = record pcr { done = pcr.done ++ tmp }

  unfoldable pub run_items : Run J F → F → List (Item J) → Option (List (Item J) × F)
  unfolding run_item
  run_items crypto_run fcrypt [] = some ([], fcrypt)
  run_items crypto_run fcrypt (item ∷ tmp) = run_item crypto_run fcrypt item >>= λ r.
      run_items crypto_run r.1 tmp >>= λ rest. some (r.0 ∷ rest.0, rest.1)

  -- `cryptask_routine` with nothing in between.
  unfoldable pub cryptask_routine : Run J F → Priv J F → Option (Priv J F)
  unfolding cut_todo run_items splice_done
  cryptask_routine crypto_run pcr =
      let cut = cut_todo pcr in
      run_items crypto_run cut.1.fcrypt cut.0 >>= λ r.
      some (splice_done r.0 (record (cut.1) { fcrypt = r.1 }))

  -- `cryptodev_poll`: POLLIN | POLLRDNORM is 0x41, POLLOUT | POLLWRNORM is 0x104.
  unfoldable pub cryptodev_poll : Priv J F → ℕ
  cryptodev_poll pcr =
      (if not (is_empty pcr.done) then 0x41 else 0)
      + (if not (is_empty pcr.free) || ltb pcr.itemcount max_cop_ringsize then 0x104 else 0)
