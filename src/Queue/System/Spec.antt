-- ===== src/Queue/System/Spec.antt =====
-- What the queue promises its clients: jobs wait, are run one by one in order, and their outcomes are
-- given back in order. The three lists, the ring of items and the worker's own list are details.
use cryptodev_linux.Prelude.{
  ◌≡◌, refl, sym, ap, ◌∙◌, inl, inr, Bool, true, false, List, [], ◌∷◌, ◌++◌, Code, Bool-cases, ltb,
  append_assoc, append-nil,
}
use mathlib.Core.List.{map-append}
use cryptodev_linux.Queue.Defs.{
  Item, Run, crypto_async_run, crypto_async_fetch, take_item, fetch_item, zeroed_item, cut_todo,
  splice_done,
}
use cryptodev_linux.Queue.System.{
  rest, running, System, submit_to, fetch_from, Step, submit, fetch, start, work, finish,
  other_call,
}
use cryptodev_linux.Queue.System.Order.{jobs, results, ran_of, left_of, pending, Ran, run_item-Ran}

-- The jobs accepted so far, those waiting, the outcomes ready, and the outcomes given back so far.
pub record FifoState (J : Type 0) : Type 0 where
  pub accepted : List J
  pub waiting : List J
  pub ready : List (Code × J)
  pub given : List (Code × J)

-- A step of the specification. `idle` is a call that is refused, or a step that no client sees.
pub data FifoStep {J F : Type 0} (crypto_run : Run J F) (s t : FifoState J) : Type 0 where
  idle : t ≡ s → FifoStep crypto_run s t
  accept :
      (kcop : J)
      → t ≡ record s { accepted = s.accepted ++ (kcop ∷ []); waiting = s.waiting ++ (kcop ∷ []) }
      → FifoStep crypto_run s t
  run_first :
      (kcop : J) (others : List J) (outcome : Code × J)
      → s.waiting ≡ kcop ∷ others
      → Ran crypto_run kcop outcome
      → t ≡ record s { waiting = others; ready = s.ready ++ (outcome ∷ []) }
      → FifoStep crypto_run s t
  give_first :
      (outcome : Code × J) (others : List (Code × J))
      → s.ready ≡ outcome ∷ others
      → t ≡ record s { ready = others; given = s.given ++ (outcome ∷ []) }
      → FifoStep crypto_run s t

module _ {J F : Type 0} where
  -- The state of the specification that the lists and the worker stand for.
  abbrev pub view : System J F → FifoState J
  view s = record {
    accepted = s.submitted;
    waiting = pending s;
    ready = results s.pcr.done ++ results (ran_of s.worker);
    given = s.fetched;
  }

  same_view :
      (crypto_run : Run J F) (s t : System J F)
      → t.submitted ≡ s.submitted
      → pending t ≡ pending s
      → results t.pcr.done ++ results (ran_of t.worker)
        ≡ results s.pcr.done ++ results (ran_of s.worker)
      → t.fetched ≡ s.fetched
      → FifoStep crypto_run (view s) (view t)
  same_view crypto_run s t a b c d = idle (rw (a, b, c, d) refl)

  accepted_lem :
      (crypto_run : Run J F) (s : System J F) (kcop : J) (item : Item J)
      → jobs (left_of s.worker) ++ jobs (s.pcr.todo ++ (record item { kcop = kcop } ∷ []))
        ≡ pending s ++ (kcop ∷ [])
  accepted_lem crypto_run s kcop item =
      ap (◌++◌ (jobs (left_of s.worker)))
        (map-append (λ (i : Item J). i.kcop) s.pcr.todo (record item { kcop = kcop } ∷ []))
      ∙ sym (append_assoc (jobs (left_of s.worker)) (jobs s.pcr.todo) (kcop ∷ []))

  take_item-FifoStep :
      (crypto_run : Run J F) (kzalloc : Bool) (zeroed : J) (s : System J F) (kcop : J)
      (free : List (Item J))
      → FifoStep crypto_run
          (view s)
          (view (submit_to s kcop (take_item kzalloc zeroed s.pcr kcop free)))
  unfolding take_item
  take_item-FifoStep crypto_run kzalloc zeroed s kcop (item ∷ free) =
      accept kcop (rw (accepted_lem crypto_run s kcop item) refl)
  take_item-FifoStep crypto_run true zeroed s kcop [] = elim (Bool-cases (ltb s.pcr.itemcount 64)) [
    | inl h ↦ simp h (accept kcop (rw (accepted_lem crypto_run s kcop (zeroed_item zeroed)) refl))
    | inr h ↦ simp h (idle refl)
  ]
  take_item-FifoStep crypto_run false zeroed s kcop [] =
      elim (Bool-cases (ltb s.pcr.itemcount 64)) [
        | inl h ↦ simp h (idle refl)
        | inr h ↦ simp h (idle refl)
      ]

  submit-FifoStep :
      (crypto_run : Run J F) (no_zc : J → Bool) (kzalloc : Bool) (zeroed : J) (s : System J F)
      (kcop : J)
      → FifoStep crypto_run
          (view s)
          (view (submit_to s kcop (crypto_async_run no_zc kzalloc zeroed s.pcr kcop)))
  unfolding crypto_async_run
  submit-FifoStep crypto_run no_zc kzalloc zeroed s kcop = elim (Bool-cases (no_zc kcop)) [
    | inl h ↦ simp h (idle refl)
    | inr h ↦ simp h (take_item-FifoStep crypto_run kzalloc zeroed s kcop s.pcr.free)
  ]

  fetch_item-FifoStep :
      (crypto_run : Run J F) (s : System J F) (done : List (Item J))
      → s.pcr.done ≡ done
      → FifoStep crypto_run (view s) (view (fetch_from s (fetch_item s.pcr done)))
  unfolding fetch_item
  fetch_item-FifoStep crypto_run s [] e = idle refl
  fetch_item-FifoStep crypto_run s (item ∷ done) e =
      give_first (item.result, item.kcop) (results done ++ results (ran_of s.worker))
        (ap (λ d. results d ++ results (ran_of s.worker)) e) refl

  work-FifoStep :
      (crypto_run : Run J F) (s : System J F) (ran left : List (Item J)) (item item' : Item J)
      (f : F)
      → s.worker ≡ running ran (item ∷ left)
      → Ran crypto_run item.kcop (item'.result, item'.kcop)
      → FifoStep crypto_run (view s) (
          view (record s {
            pcr = record (s.pcr) { fcrypt = f };
            worker = running (ran ++ (item' ∷ [])) left;
          }))
  work-FifoStep crypto_run s ran left item item' f w r =
      run_first item.kcop (jobs left ++ jobs s.pcr.todo) (item'.result, item'.kcop)
        (ap (λ k. jobs (left_of k) ++ jobs s.pcr.todo) w) r
        (ap (λ l. record (view s) { waiting = jobs left ++ jobs s.pcr.todo; ready = l })
          (ap (◌++◌ (results s.pcr.done))
              (map-append (λ (i : Item J). (i.result, i.kcop)) ran (item' ∷ []))
            ∙ sym
                (append_assoc (results s.pcr.done) (results ran) ((item'.result, item'.kcop) ∷ []))
            ∙ ap
                (λ k.
                  (results s.pcr.done ++ results (ran_of k)) ++ ((item'.result, item'.kcop) ∷ []))
                (sym w)))

  -- The queue implements its specification: each step of a client or of the worker, seen through
  -- `view`, is a step of the specification, or changes nothing there. A submission accepts its job at
  -- the end or is refused; a job that the worker has run is the first that waits; a fetch gives the
  -- first outcome or is refused; what the worker takes and hands over is not seen.
  pub Step-FifoStep :
      (crypto_run : Run J F) (no_zc : J → Bool) (zeroed : J) (s t : System J F)
      → Step crypto_run no_zc zeroed s t
      → FifoStep crypto_run (view s) (view t)
  unfolding cut_todo splice_done crypto_async_fetch
  Step-FifoStep crypto_run no_zc zeroed s t (submit kcop kzalloc e) =
      rw e (submit-FifoStep crypto_run no_zc kzalloc zeroed s kcop)
  Step-FifoStep crypto_run no_zc zeroed s t (fetch e) =
      rw e (fetch_item-FifoStep crypto_run s s.pcr.done refl)
  Step-FifoStep crypto_run no_zc zeroed s t (start w e) = rw e (
      same_view crypto_run s
        (record s { pcr = (cut_todo s.pcr).1; worker = running [] (cut_todo s.pcr).0 }) refl
        (append-nil (jobs s.pcr.todo) ∙ sym (ap (λ k. jobs (left_of k) ++ jobs s.pcr.todo) w))
        (sym (ap (λ k. results s.pcr.done ++ results (ran_of k)) w)) refl)
  Step-FifoStep crypto_run no_zc zeroed s t (work ran left item item' f w r e) = rw e (
      work-FifoStep crypto_run s ran left item item' f w
        (run_item-Ran crypto_run s.pcr.fcrypt f item item' r))
  Step-FifoStep crypto_run no_zc zeroed s t (finish ran w e) = rw e (
      same_view crypto_run s (record s { pcr = splice_done ran s.pcr; worker = rest }) refl
        (sym (ap (λ k. jobs (left_of k) ++ jobs s.pcr.todo) w))
        (append-nil (results (s.pcr.done ++ ran))
          ∙ map-append (λ (i : Item J). (i.result, i.kcop)) s.pcr.done ran
          ∙ sym (ap (λ k. results s.pcr.done ++ results (ran_of k)) w))
        refl)
  Step-FifoStep crypto_run no_zc zeroed s t (other_call f e) = rw e (idle refl)
