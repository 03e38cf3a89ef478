-- ===== src/Tests/Files.antt =====
-- Runs of ioctl.c: the queue of an open file, and its sessions.
use cryptodev_linux.Prelude.{
  ℕ, ◌+◌, ◌≤◌, ◌<◌, ◌≡◌, ◌↔◌, refl, Bool, true, false, some, none, List, [], ◌∷◌, Code, value, fail,
  ebusy, success, ◌==◌, replicate, test_bit, Always,
}
use cryptodev_linux.Queue.Defs.{
  Item, Priv, Run, zeroed_item, cryptodev_open, cryptodev_release, crypto_async_run,
  crypto_async_fetch, take_item, cut_todo, run_item, splice_done, cryptodev_poll, max_cop_ringsize,
}
use cryptodev_linux.Queue.Poll.{cryptodev_poll_lem}
use cryptodev_linux.Queue.System.{
  rest, running, System, submit_to, submit, start, work, finish, opened, Reach, next,
}
use cryptodev_linux.Queue.System.Order.{IsFifo, Reach-IsFifo}
use cryptodev_linux.Queue.System.Spec.{FifoStep, view, Step-FifoStep}
use cryptodev_linux.Queue.System.Count.{cryptodev_release_frees}
use cryptodev_linux.Cryptlib.Keys.{SessionOp}
use cryptodev_linux.Session.Defs.{
  Session, Memory, has_sid, crypto_create_session, crypto_finish_session,
  crypto_finish_all_sessions, crypto_get_session_by_sid, crypto_put_session, crypto_copy_hash_state,
}
use cryptodev_linux.Session.Objects.{objects}
use cryptodev_linux.Session.Create.{CreatedFrom, crypto_create_session_cases}
use cryptodev_linux.Session.Finish.{
  IsTable, Unlocked, crypto_finish_session_removes, crypto_finish_all_sessions_frees,
}
use cryptodev_linux.Session.Locks.{
  Kept, here, held, sids, crypto_put_session-crypto_get_session_by_sid,
  crypto_copy_hash_state_blocks, crypto_copy_hash_state-Kept,
}
use cryptodev_linux.Tests.Toy.{toy, toy_session, hash_session, toy_space}

-- A job is a number, and running it adds one.
abbrev add_one : Run ℕ ℕ
add_one = λ fcrypt kcop. some (success, kcop + 1, fcrypt)

abbrev never : ℕ → Bool
never = λ kcop. false

abbrev ring : Priv ℕ ℕ
ring = record {
  fcrypt = 0;
  free = replicate 16 (zeroed_item 0);
  todo = [];
  done = [];
  itemcount = 16;
}

abbrev submitted_one : System ℕ ℕ
submitted_one = submit_to (opened ring) 5 (crypto_async_run never true 0 ring 5)

abbrev started : System ℕ ℕ
started = record submitted_one {
  pcr = (cut_todo submitted_one.pcr).1;
  worker = running [] (cut_todo submitted_one.pcr).0;
}

abbrev ran_one : System ℕ ℕ
ran_one = record started { worker = running (record { kcop = 6; result = success } ∷ []) [] }

abbrev finished_one : System ℕ ℕ
finished_one = record ran_one {
  pcr = splice_done (record { kcop = 6; result = success } ∷ []) ran_one.pcr;
  worker = rest;
}

history : Reach add_one never 0 ring finished_one
unfolding crypto_async_run take_item cut_todo run_item
history =
    next {s = ran_one}
      (next {s = started}
        (next {s = submitted_one} (next {s = opened ring} start (submit 5 true refl))
          (start refl refl))
        (work [] [] (record { kcop = 5; result = value 0 }) (record { kcop = 6; result = success })
          0 refl refl refl))
      (finish (record { kcop = 6; result = success } ∷ []) refl refl)

Reach-IsFifo_example : IsFifo add_one finished_one
Reach-IsFifo_example = Reach-IsFifo add_one never 0 ring finished_one refl refl history

Step-FifoStep_example : FifoStep add_one (view started) (view ran_one)
unfolding run_item cut_todo crypto_async_run take_item
Step-FifoStep_example = Step-FifoStep add_one never 0 started ran_one (
    work [] [] (record { kcop = 5; result = value 0 }) (record { kcop = 6; result = success }) 0
      refl refl refl)

ring_opened : (cryptodev_open true (λ i. true) 0 0).private ≡ some ring
unfolding cryptodev_open
ring_opened = refl

release_example :
    ((cryptodev_release (λ f. f) finished_one.pcr).items_freed + finished_one.lost
      ≡ finished_one.pcr.itemcount)
    × (finished_one.pcr.itemcount ≤ max_cop_ringsize)
    × (((cryptodev_release (λ f. f) finished_one.pcr).complains ≡ true) ↔ (0 < finished_one.lost))
release_example =
    cryptodev_release_frees add_one never 0 true (λ i. true) 0 (λ f. f) ring finished_one
      ring_opened history refl

poll_example :
    ((test_bit 0 (cryptodev_poll ring) ≡ true)
      → (item : Item ℕ) × ((crypto_async_fetch ring).0 ≡ item.result)
        × ((crypto_async_fetch ring).1 ≡ some item.kcop))
    × ((test_bit 0 (cryptodev_poll ring) ≡ false)
        → crypto_async_fetch ring ≡ (fail ebusy, none, ring))
    × ((test_bit 2 (cryptodev_poll ring) ≡ true)
        → (crypto_async_run never true 0 ring 5).0 ≡ success)
    × ((test_bit 2 (cryptodev_poll ring) ≡ false)
        → (kzalloc : Bool) → crypto_async_run never kzalloc 0 ring 5 ≡ (fail ebusy, ring))
poll_example = cryptodev_poll_lem never 0 ring 5 refl

-- CRYPTO_NULL with CRYPTO_SHA1.
abbrev pub null_sha1 : SessionOp
null_sha1 = record {
  cipher = 16;
  mac = 14;
  keylen = 0;
  key = 0;
  mackeylen = 0;
  mackey = 0;
  ses = 0;
}

abbrev pub plenty : Memory
plenty = record {
  ses_ok = true;
  cipher_request_ok = true;
  hash_request_ok = true;
  pages_ok = true;
  sg_ok = true;
  stack = [];
}

create_example :
    Always
      (CreatedFrom toy (toy_session ∷ []) null_sha1 7)
      (crypto_create_session toy plenty toy_space 3 (λ n. 7 + n) 0 7 (toy_session ∷ []) null_sha1)
create_example =
    crypto_create_session_cases toy plenty toy_space 3 (λ n. 7 + n) 0 7 (toy_session ∷ []) null_sha1

abbrev two_sessions : List (Session toy)
two_sessions = toy_session ∷ (hash_session ∷ [])

two_sessions-IsTable : IsTable toy two_sessions (objects toy two_sessions)
unfolding has_sid
two_sessions-IsTable = record {
  distinct = (refl, (refl, tt));
  unlocked = (refl, (refl, tt));
  counted = refl;
}

finish_example :
    (fcr' : List (Session toy)) × (live' : ℕ) × (crypto_finish_session toy two_sessions 8
        (objects toy two_sessions)
      ≡ some (success, fcr', live'))
    × IsTable toy fcr' live'
    × (has_sid toy 8 fcr' ≡ false)
    × ((other : ℕ) → (other == 8) ≡ false → has_sid toy other fcr' ≡ has_sid toy other two_sessions)
finish_example =
    crypto_finish_session_removes toy two_sessions 8 (objects toy two_sessions) two_sessions-IsTable

finish_all_example :
    crypto_finish_all_sessions toy two_sessions (3 + objects toy two_sessions) ≡ some 3
finish_all_example =
    crypto_finish_all_sessions_frees toy two_sessions (objects toy two_sessions) 3
      two_sessions-IsTable

get_put_example :
    (fcr' : List (Session toy)) × (crypto_get_session_by_sid toy two_sessions 7
      ≡ some (some (held toy toy_session), fcr'))
    × Unlocked toy (crypto_put_session toy fcr' (record toy_session { alignmask = 3 }))
    × (sids toy (crypto_put_session toy fcr' (record toy_session { alignmask = 3 }))
        ≡ sids toy two_sessions)
get_put_example =
    crypto_put_session-crypto_get_session_by_sid toy two_sessions toy_session
      (record toy_session { alignmask = 3 }) (refl, (refl, tt)) refl here refl

copy_blocks_example : crypto_copy_hash_state toy true two_sessions 7 7 ≡ none
copy_blocks_example = crypto_copy_hash_state_blocks toy true two_sessions toy_session refl here

copy_example :
    Always
      (λ (r : Code × List (Session toy)). Kept toy two_sessions r.1)
      (crypto_copy_hash_state toy true two_sessions 7 8)
copy_example = crypto_copy_hash_state-Kept toy true two_sessions 7 8 (refl, (refl, tt))
