-- ===== src/Queue/System/Order.antt =====
-- The queue gives jobs back in the order in which they came in, each with what `crypto_run` made
-- of it.
use cryptodev_linux.Prelude.{
  ◌≡◌, refl, sym, ap, ◌∙◌, inl, inr, Bool, true, false, some, List, [], ◌∷◌, ◌++◌, map, Code, arith,
  Bool-cases, ltb, append_assoc, append-nil,
}
use mathlib.Core.List.{map-append}
use cryptodev_linux.Queue.Defs.{
  Item, Priv, Run, crypto_async_run, crypto_async_fetch, take_item, fetch_item, zeroed_item,
  cut_todo, run_item, splice_done,
}
use cryptodev_linux.Queue.System.{
  Worker, rest, running, System, submit_to, fetch_from, Step, submit, fetch, start, work, finish,
  other_call, Reach, next,
}

module _ {J : Type 0} where
  abbrev pub jobs : List (Item J) → List J
  jobs = map λ item. item.kcop

  abbrev pub results : List (Item J) → List (Code × J)
  results = map λ item. (item.result, item.kcop)

  abbrev pub ran_of : Worker J → List (Item J)
  ran_of rest = []
  ran_of (running ran left) = ran

  abbrev pub left_of : Worker J → List (Item J)
  left_of rest = []
  left_of (running ran left) = left

module _ {J F : Type 0} where
  -- The outcomes so far, oldest first: those fetched, those to be fetched, those with the worker.
  abbrev pub finished : System J F → List (Code × J)
  finished s = s.fetched ++ (results s.pcr.done ++ results (ran_of s.worker))

  -- The jobs that still have to be run, oldest first.
  abbrev pub pending : System J F → List J
  pending s = jobs (left_of s.worker) ++ jobs s.pcr.todo

  -- `crypto_run` turned the job into this outcome, on some state of the sessions.
  abbrev pub Ran : Run J F → J → Code × J → Type 0
  Ran crypto_run kcop r = (f f' : F) × (crypto_run f kcop ≡ some (r.0, r.1, f'))

  -- The first jobs are turned into the outcomes, one by one, and the others are left.
  abbrev pub Explains : Run J F → List J → List (Code × J) → List J → Type 0
  Explains crypto_run js [] left = js ≡ left
  Explains crypto_run [] (r ∷ rs) left = ⊥
  Explains crypto_run (j ∷ js) (r ∷ rs) left = Ran crypto_run j r × Explains crypto_run js rs left

  Explains-submit :
      (crypto_run : Run J F) (js : List J) (rs : List (Code × J)) (left : List J) (j : J)
      → Explains crypto_run js rs left
      → Explains crypto_run (js ++ (j ∷ [])) rs (left ++ (j ∷ []))
  Explains-submit crypto_run [] [] left j e = ap (λ l. l ++ (j ∷ [])) e
  Explains-submit crypto_run (i ∷ js) [] left j e = ap (λ l. l ++ (j ∷ [])) e
  Explains-submit crypto_run [] (r ∷ rs) left j e = absurd e
  Explains-submit crypto_run (i ∷ js) (r ∷ rs) left j e =
      (e.0, Explains-submit crypto_run js rs left j e.1)

  Explains-run :
      (crypto_run : Run J F) (js : List J) (rs : List (Code × J)) (left : List J) (j : J)
      (r : Code × J)
      → Ran crypto_run j r
      → Explains crypto_run js rs (j ∷ left)
      → Explains crypto_run js (rs ++ (r ∷ [])) left
  Explains-run crypto_run [] [] left j r ran e = cc
  Explains-run crypto_run (i ∷ js) [] left j r ran e =
      let p : i ≡ j = cc in let q : js ≡ left = cc in (rw p ran, q)
  Explains-run crypto_run [] (x ∷ rs) left j r ran e = absurd e
  Explains-run crypto_run (i ∷ js) (x ∷ rs) left j r ran e =
      (e.0, Explains-run crypto_run js rs left j r ran e.1)

  -- First in, first out: the outcomes are those of the jobs submitted, in their order, and what is
  -- pending are the other jobs submitted, in their order.
  abbrev pub IsFifo : Run J F → System J F → Type 0
  IsFifo crypto_run s = Explains crypto_run s.submitted (finished s) (pending s)

  carry :
      (crypto_run : Run J F) (js : List J) (rs rs' : List (Code × J)) (left left' : List J)
      → rs ≡ rs'
      → left ≡ left'
      → Explains crypto_run js rs left
      → Explains crypto_run js rs' left'
  carry crypto_run js rs rs' left left' p q v = rw (← p, ← q) v

  accepted :
      (crypto_run : Run J F) (s : System J F) (kcop : J) (item : Item J)
      → IsFifo crypto_run s
      → Explains crypto_run
          (s.submitted ++ (kcop ∷ []))
          (finished s)
          (jobs (left_of s.worker) ++ jobs (s.pcr.todo ++ (record item { kcop = kcop } ∷ [])))
  accepted crypto_run s kcop item v =
      carry crypto_run _ (finished s) (finished s) (pending s ++ (kcop ∷ [])) _ refl
        (append_assoc (jobs (left_of s.worker)) (jobs s.pcr.todo) (kcop ∷ [])
          ∙ ap (◌++◌ (jobs (left_of s.worker))) (
              sym (
                map-append (λ (i : Item J). i.kcop) s.pcr.todo (record item { kcop = kcop } ∷ []))))
        (Explains-submit crypto_run s.submitted (finished s) (pending s) kcop v)

  take_item-IsFifo :
      (crypto_run : Run J F) (kzalloc : Bool) (zeroed : J) (s : System J F) (kcop : J)
      (free : List (Item J))
      → IsFifo crypto_run s
      → IsFifo crypto_run (submit_to s kcop (take_item kzalloc zeroed s.pcr kcop free))
  unfolding take_item
  take_item-IsFifo crypto_run kzalloc zeroed s kcop (item ∷ free) v =
      accepted crypto_run s kcop item v
  take_item-IsFifo crypto_run true zeroed s kcop [] v = elim (Bool-cases (ltb s.pcr.itemcount 64)) [
    | inl h ↦ simp h (accepted crypto_run s kcop (zeroed_item zeroed) v)
    | inr h ↦ simp h v
  ]
  take_item-IsFifo crypto_run false zeroed s kcop [] v =
      elim (Bool-cases (ltb s.pcr.itemcount 64)) [ inl h ↦ simp h v | inr h ↦ simp h v ]

  submit-IsFifo :
      (crypto_run : Run J F) (no_zc : J → Bool) (kzalloc : Bool) (zeroed : J) (s : System J F)
      (kcop : J)
      → IsFifo crypto_run s
      → IsFifo crypto_run (submit_to s kcop (crypto_async_run no_zc kzalloc zeroed s.pcr kcop))
  unfolding crypto_async_run
  submit-IsFifo crypto_run no_zc kzalloc zeroed s kcop v = elim (Bool-cases (no_zc kcop)) [
    | inl h ↦ simp h v
    | inr h ↦ simp h (take_item-IsFifo crypto_run kzalloc zeroed s kcop s.pcr.free v)
  ]

  fetch_item-IsFifo :
      (crypto_run : Run J F) (s : System J F) (done : List (Item J))
      → s.pcr.done ≡ done
      → IsFifo crypto_run s
      → IsFifo crypto_run (fetch_from s (fetch_item s.pcr done))
  unfolding fetch_item
  fetch_item-IsFifo crypto_run s [] e v = v
  fetch_item-IsFifo crypto_run s (item ∷ done) e v =
      carry crypto_run s.submitted (finished s) _ (pending s) _
        (ap (λ d. s.fetched ++ (results d ++ results (ran_of s.worker))) e
          ∙ sym (
              append_assoc s.fetched ((item.result, item.kcop) ∷ [])
                (results done ++ results (ran_of s.worker))))
        refl v

  pub run_item-Ran :
      (crypto_run : Run J F) (f f' : F) (item item' : Item J)
      → run_item crypto_run f item ≡ some (item', f')
      → Ran crypto_run item.kcop (item'.result, item'.kcop)
  unfolding run_item
  run_item-Ran crypto_run f f' item item' e = (f, f', ground arith)

  work-IsFifo :
      (crypto_run : Run J F) (s : System J F) (ran left : List (Item J)) (item item' : Item J)
      (f : F)
      → s.worker ≡ running ran (item ∷ left)
      → Ran crypto_run item.kcop (item'.result, item'.kcop)
      → IsFifo crypto_run s
      → IsFifo crypto_run (record s {
        pcr = record (s.pcr) { fcrypt = f };
        worker = running (ran ++ (item' ∷ [])) left;
      })
  work-IsFifo crypto_run s ran left item item' f w r v =
      carry crypto_run s.submitted
        ((s.fetched ++ (results s.pcr.done ++ results ran)) ++ ((item'.result, item'.kcop) ∷ [])) _
        (jobs left ++ jobs s.pcr.todo) _
        (append_assoc s.fetched (results s.pcr.done ++ results ran) _
          ∙ ap (◌++◌ s.fetched) (
              append_assoc (results s.pcr.done) (results ran) _
              ∙ ap (◌++◌ (results s.pcr.done))
                  (sym (map-append (λ (i : Item J). (i.result, i.kcop)) ran (item' ∷ [])))))
        refl
        (Explains-run crypto_run s.submitted _ (jobs left ++ jobs s.pcr.todo) item.kcop
          (item'.result, item'.kcop) r
          (carry crypto_run s.submitted (finished s) _ (pending s) _
            (ap (λ k. s.fetched ++ (results s.pcr.done ++ results (ran_of k))) w)
            (ap (λ k. jobs (left_of k) ++ jobs s.pcr.todo) w) v))

  pub Step-IsFifo :
      (crypto_run : Run J F) (no_zc : J → Bool) (zeroed : J) (s t : System J F)
      → IsFifo crypto_run s
      → Step crypto_run no_zc zeroed s t
      → IsFifo crypto_run t
  unfolding cut_todo splice_done crypto_async_fetch
  Step-IsFifo crypto_run no_zc zeroed s t v (submit kcop kzalloc e) =
      rw e (submit-IsFifo crypto_run no_zc kzalloc zeroed s kcop v)
  Step-IsFifo crypto_run no_zc zeroed s t v (fetch e) =
      rw e (fetch_item-IsFifo crypto_run s s.pcr.done refl v)
  Step-IsFifo crypto_run no_zc zeroed s t v (start w e) = rw e (
      carry crypto_run s.submitted (finished s) _ (pending s) _
        (ap (λ k. s.fetched ++ (results s.pcr.done ++ results (ran_of k))) w)
        (ap (λ k. jobs (left_of k) ++ jobs s.pcr.todo) w ∙ sym (append-nil (jobs s.pcr.todo))) v)
  Step-IsFifo crypto_run no_zc zeroed s t v (work ran left item item' f w r e) = rw e (
      work-IsFifo crypto_run s ran left item item' f w
        (run_item-Ran crypto_run s.pcr.fcrypt f item item' r) v)
  Step-IsFifo crypto_run no_zc zeroed s t v (finish ran w e) = rw e (
      carry crypto_run s.submitted (finished s) _ (pending s) _
        (ap (λ k. s.fetched ++ (results s.pcr.done ++ results (ran_of k))) w
          ∙ ap (◌++◌ s.fetched) (
              sym (map-append (λ (i : Item J). (i.result, i.kcop)) s.pcr.done ran)
              ∙ sym (append-nil (results (s.pcr.done ++ ran)))))
        (ap (λ k. jobs (left_of k) ++ jobs s.pcr.todo) w) v)
  Step-IsFifo crypto_run no_zc zeroed s t v (other_call f e) = rw e v

  -- However clients, worker and other calls interleave, a queue that was opened empty is first in,
  -- first out: the outcomes fetched, waiting to be fetched and with the worker are, in this order,
  -- what `crypto_run` made of the first jobs submitted, and the jobs left are the others in order.
  pub Reach-IsFifo :
      (crypto_run : Run J F) (no_zc : J → Bool) (zeroed : J) (pcr : Priv J F) (s : System J F)
      → pcr.todo ≡ []
      → pcr.done ≡ []
      → Reach crypto_run no_zc zeroed pcr s
      → IsFifo crypto_run s
  Reach-IsFifo crypto_run no_zc zeroed pcr s t d start =
      carry crypto_run [] [] _ [] _ (ap (λ l. results l ++ []) (sym d)) (ap jobs (sym t)) refl
  Reach-IsFifo crypto_run no_zc zeroed pcr s t d (next {s = r} h st) =
      Step-IsFifo crypto_run no_zc zeroed r s (Reach-IsFifo crypto_run no_zc zeroed pcr r t d h) st
