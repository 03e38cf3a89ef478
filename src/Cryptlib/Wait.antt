-- ===== src/Cryptlib/Wait.antt =====
-- Waiting for an asynchronous request: `cryptodev_complete` and `waitfor`.
use cryptodev_linux.Prelude.{
  ℕ, zero, suc, ◌≡◌, ap, ◌≢◌, ◌⊎◌, inl, inr, refl, Option, none, some, List, [], ◌∷◌, ◌++◌, Code,
  value, fail, einprogress, ebusy, success, is_nonzero, if◌then◌else◌, ◌>>=◌, replicate,
}

-- `struct cryptodev_result`: nothing until it is completed, then `err`.
abbrev pub CryptodevResult : Type 0
CryptodevResult = Option Code

-- The callback. -EINPROGRESS says only that the request has left the backlog.
unfoldable pub cryptodev_complete : CryptodevResult → Code → CryptodevResult
cryptodev_complete res (fail einprogress) = res
cryptodev_complete res err = some err

-- `wait_for_completion`, and the read of `err`: `none` if nothing completes the request.
unfoldable pub wait_for_completion : List Code → Option Code
wait_for_completion [] = none
wait_for_completion (err ∷ callbacks) = elim (cryptodev_complete none err) [
  | some err ↦ some err
  | none ↦ wait_for_completion callbacks
]

unfoldable pub waitfor : Code → List Code → Option Code
waitfor (value zero) callbacks = some success
waitfor (value (suc n)) callbacks = some (value (suc n))
waitfor (fail einprogress) callbacks =
    wait_for_completion callbacks >>= λ err. some (if is_nonzero err then err else success)
waitfor (fail ebusy) callbacks =
    wait_for_completion callbacks >>= λ err. some (if is_nonzero err then err else success)
waitfor (fail e) callbacks = some (fail e)

-- The API took the request and will finish it later.
abbrev pub IsQueued : Code → Type 0
IsQueued ret = (ret ≡ fail einprogress) ⊎ (ret ≡ fail ebusy)

complete-final : (err : Code) → err ≢ fail einprogress → cryptodev_complete none err ≡ some err
unfolding cryptodev_complete
complete-final (fail einprogress) h = absurd (h refl)
complete-final _ h = refl

or_success : (err : Code) → (if is_nonzero err then err else success) ≡ err
or_success (value zero) = refl
or_success (value (suc n)) = refl
or_success (fail e) = refl

wait_final :
    (err : Code) (later : List Code)
    → err ≢ fail einprogress
    → wait_for_completion (err ∷ later) ≡ some err
unfolding wait_for_completion
wait_final err later h = rw (complete-final err h, wait_for_completion)

wait_for_completion_lem :
    (notices : ℕ) (err : Code) (later : List Code)
    → err ≢ fail einprogress
    → wait_for_completion (replicate notices (fail einprogress) ++ (err ∷ later)) ≡ some err
unfolding wait_for_completion cryptodev_complete
wait_for_completion_lem zero err later h = wait_final err later h
wait_for_completion_lem (suc n) err later h = wait_for_completion_lem n err later h

-- A queued request is waited for until it is finished, however often the callback only announces
-- that it has left the backlog; the result is the error of the finishing call.
pub waitfor_queued :
    (ret : Code) (notices : ℕ) (err : Code) (later : List Code)
    → IsQueued ret
    → err ≢ fail einprogress
    → waitfor ret (replicate notices (fail einprogress) ++ (err ∷ later)) ≡ some err
unfolding waitfor
waitfor_queued ret notices err later (inl q) h =
    rw (q, wait_for_completion_lem notices err later h) (ap some (or_success err))
waitfor_queued ret notices err later (inr q) h =
    rw (q, wait_for_completion_lem notices err later h) (ap some (or_success err))
