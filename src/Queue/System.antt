-- ===== src/Queue/System.antt =====
-- The queue with its clients and the worker, interleaved in any order, and what they have done.
pub mod Order
pub mod Count
pub mod Spec
use cryptodev_linux.Prelude.{
  ℕ, ◌+◌, ◌≡◌, Bool, true, false, Option, none, some, List, [], ◌∷◌, ◌++◌, map, Code, value, fail,
  efault, zero, suc, if◌then◌else◌, success,
}
use cryptodev_linux.Queue.Defs.{
  Item, Priv, Run, crypto_async_run, crypto_async_fetch, cut_todo, run_item, splice_done,
}

-- Where the worker stands in `cryptask_routine`: at rest, or with its list `tmp`, of which it has
-- run the first part.
pub data Worker (J : Type 0) : Type 0 where
  rest : Worker J
  running : List (Item J) → List (Item J) → Worker J

-- `submitted` and `fetched` record what `crypto_async_run` has accepted and `crypto_async_fetch`
-- given back, in order; `lost` counts the failed allocations.
pub record System (J F : Type 0) : Type 0 where
  pub pcr : Priv J F
  pub worker : Worker J
  pub submitted : List J
  pub fetched : List (Code × J)
  pub lost : ℕ

module _ {J F : Type 0} where
  abbrev pub submit_to : System J F → J → Code × Priv J F → System J F
  submit_to s kcop (value zero, pcr) = record s {
    pcr = pcr;
    submitted = s.submitted ++ (kcop ∷ []);
  }
  submit_to s kcop (value (suc n), pcr) = record s { pcr = pcr }
  submit_to s kcop (fail efault, pcr) = record s { pcr = pcr; lost = s.lost + 1 }
  submit_to s kcop (fail e, pcr) = record s { pcr = pcr }

  abbrev pub fetch_from : System J F → Code × Option J × Priv J F → System J F
  fetch_from s (code, none, pcr) = record s { pcr = pcr }
  fetch_from s (code, some kcop, pcr) = record s {
    pcr = pcr;
    fetched = s.fetched ++ ((code, kcop) ∷ []);
  }

-- One step of a client or of the worker. Each takes the locks that it needs, so it is atomic; the
-- other calls of the driver may change the sessions at any time.
pub data Step {J F : Type 0} (crypto_run : Run J F) (no_zc : J → Bool) (zeroed : J)
    (s t : System J F) : Type 0 where
  submit :
      (kcop : J) (kzalloc : Bool)
      → t ≡ submit_to s kcop (crypto_async_run no_zc kzalloc zeroed s.pcr kcop)
      → Step crypto_run no_zc zeroed s t
  fetch : t ≡ fetch_from s (crypto_async_fetch s.pcr) → Step crypto_run no_zc zeroed s t
  start :
      s.worker ≡ rest
      → t ≡ record s { pcr = (cut_todo s.pcr).1; worker = running [] (cut_todo s.pcr).0 }
      → Step crypto_run no_zc zeroed s t
  work :
      (ran left : List (Item J)) (item item' : Item J) (fcrypt : F)
      → s.worker ≡ running ran (item ∷ left)
      → run_item crypto_run s.pcr.fcrypt item ≡ some (item', fcrypt)
      → t ≡ record s {
        pcr = record (s.pcr) { fcrypt = fcrypt };
        worker = running (ran ++ (item' ∷ [])) left;
      }
      → Step crypto_run no_zc zeroed s t
  finish :
      (ran : List (Item J))
      → s.worker ≡ running ran []
      → t ≡ record s { pcr = splice_done ran s.pcr; worker = rest }
      → Step crypto_run no_zc zeroed s t
  other_call :
      (fcrypt : F)
      → t ≡ record s { pcr = record (s.pcr) { fcrypt = fcrypt } }
      → Step crypto_run no_zc zeroed s t

-- What can be reached from a queue as `cryptodev_open` leaves it.
abbrev pub opened : {J F : Type 0} → Priv J F → System J F
opened pcr = record { pcr = pcr; worker = rest; submitted = []; fetched = []; lost = 0 }

pub data Reach {J F : Type 0} (crypto_run : Run J F) (no_zc : J → Bool) (zeroed : J)
    (pcr : Priv J F) : System J F → Type 0 where
  start : Reach crypto_run no_zc zeroed pcr (opened pcr)
  next :
      {s t : System J F}
      → Reach crypto_run no_zc zeroed pcr s
      → Step crypto_run no_zc zeroed s t
      → Reach crypto_run no_zc zeroed pcr t
