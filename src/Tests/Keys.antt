-- ===== src/Tests/Keys.antt =====
-- Runs of cryptlib.c: the keys of a composite cipher, and a wait.
use cryptodev_linux.Prelude.{
  ℕ, ◌≤◌, ◌≡◌, refl, inr, true, some, List, [], ◌∷◌, ◌++◌, fail, einprogress, ebusy, ebadmsg,
  success, arith, length, replicate,
}
use cryptodev_linux.User.{user_bytes, copy_from_user}
use cryptodev_linux.Cryptlib.Wait.{waitfor, waitfor_queued}
use cryptodev_linux.Cryptlib.Keys.{
  SessionOp, key_space, auth_header, append_cipher_key, cryptodev_get_cipher_keylen,
  cryptodev_get_cipher_key, split_key, length-cryptodev_get_cipher_key,
  split_key-cryptodev_get_cipher_key,
}
use cryptodev_linux.Tests.Toy.{toy_space}

abbrev composite : SessionOp
composite = record {
  cipher = 11;
  mac = 0;
  keylen = 2;
  key = 300;
  mackeylen = 3;
  mackey = 500;
  ses = 0;
}

abbrev composite_bytes : List ℕ
composite_bytes = auth_header 2 ++ (user_bytes toy_space 500 3 ++ user_bytes toy_space 300 2)

keylen_run : cryptodev_get_cipher_keylen composite true ≡ (success, 13)
unfolding cryptodev_get_cipher_keylen
keylen_run = refl

key_run : cryptodev_get_cipher_key toy_space composite true ≡ (success, composite_bytes)
unfolding cryptodev_get_cipher_key append_cipher_key copy_from_user
key_run = refl

get_cipher_key_length_example : (length composite_bytes ≡ 13) × (13 ≤ key_space)
get_cipher_key_length_example =
    length-cryptodev_get_cipher_key toy_space composite true 13 composite_bytes keylen_run key_run

split_key_example :
    split_key composite_bytes ≡ some (user_bytes toy_space 500 3, user_bytes toy_space 300 2)
split_key_example =
    split_key-cryptodev_get_cipher_key toy_space composite 13 composite_bytes (ground arith)
      keylen_run key_run

waitfor_example :
    waitfor (fail ebusy) (replicate 1 (fail einprogress) ++ (fail ebadmsg ∷ []))
    ≡ some (fail ebadmsg)
waitfor_example = waitfor_queued (fail ebusy) 1 (fail ebadmsg) [] (inr refl) (ground arith)
