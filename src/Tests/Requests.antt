-- ===== src/Tests/Requests.antt =====
-- Runs of the requests of ioctl.c on an open file.
use cryptodev_linux.Prelude.{
  ◌+◌, ◌≡◌, refl, true, false, Option, none, some, List, [], ◌∷◌, success, replicate, Always,
}
use cryptodev_linux.Session.Defs.{
  Session, crypto_finish_all_sessions, crypto_create_session, start_session, set_up, set_up_cipher,
  load_cipher, set_up_hash, load_hash, reset_new_hash, get_mackey, set_up_arrays, add_session,
  fresh_sid, has_sid,
}
use cryptodev_linux.User.{copy_from_user}
use cryptodev_linux.Session.Algorithms.{cipher_alg, hash_alg}
use cryptodev_linux.Session.Finish.{IsTable}
use cryptodev_linux.Cryptlib.Keys.{
  cryptodev_get_cipher_keylen, cryptodev_get_cipher_key, append_cipher_key, check_key_size,
}
use cryptodev_linux.Cryptlib.Cipher.{cryptodev_cipher_init, init_blkcipher, finish_init}
use cryptodev_linux.Cryptlib.Hash.{cryptodev_hash_init, init_ahash, cryptodev_hash_reset}
use cryptodev_linux.Run.Defs.{KernelCryptOp}
use cryptodev_linux.Queue.Defs.{Priv, Run, zeroed_item, cryptodev_open, cut_todo}
use cryptodev_linux.Queue.System.{running}
use cryptodev_linux.Ioctl.Info.{Tfms}
use cryptodev_linux.Ioctl.File.{ciocgsession, ciocasynccrypt, nothing, File, Kernel, zeroed_kcop}
use cryptodev_linux.Ioctl.Dispatch.{Reply, session_back, ioctl_session, cryptodev_ioctl}
use cryptodev_linux.Ioctl.Sequence.{
  LiveFile, request, cut, opened_file, FileReach, begin, then_step, FileReach-frees,
}
use cryptodev_linux.Ioctl.Steps.{Moves, cryptodev_ioctl-Moves}
use cryptodev_linux.Tests.Toy.{toy, toy_space, toy_paging}
use cryptodev_linux.Tests.Streams.{kernel_op, two_sessions}
use cryptodev_linux.Tests.Auth.{tls_kcaop}
use cryptodev_linux.Tests.Files.{null_sha1, plenty}

abbrev toy_tfms : Tfms toy
toy_tfms = record {
  blkcipher_tfm =
      λ s. record { alg_name = 110 ∷ []; driver_name = 110 ∷ []; kernel_driver_only = false };
  aead_tfm = λ s. record { alg_name = 97 ∷ []; driver_name = 97 ∷ []; kernel_driver_only = true };
  ahash_tfm =
      λ s. record { alg_name = 104 ∷ []; driver_name = 104 ∷ []; kernel_driver_only = false };
}

abbrev toy_kernel : Kernel
toy_kernel = record {
  paging = toy_paging;
  memory = plenty;
  page_ok = true;
  item_ok = true;
  arg_ok = true;
  uncopied = 0;
  junk = success;
  stack = replicate 64 9;
  kcop = kernel_op;
  kcaop = tls_kcaop;
  random = λ n. 7 + n;
  draws = 3;
  fd = success;
}

abbrev toy_ring : Priv KernelCryptOp (List (Session toy))
toy_ring = record {
  fcrypt = [];
  free = replicate 16 (zeroed_item zeroed_kcop);
  todo = [];
  done = [];
  itemcount = 16;
}

toy_ring_opened : (cryptodev_open true (λ i. true) zeroed_kcop []).private ≡ some toy_ring
unfolding cryptodev_open
toy_ring_opened = refl

abbrev reply_or : Option (Reply toy toy_tfms) → Reply toy toy_tfms → Reply toy toy_tfms
reply_or none d = d
reply_or (some r) d = r

-- The file as it is opened, and with a new session.
abbrev first : LiveFile toy
first = opened_file toy toy_tfms toy_ring toy_space 0

abbrev made : Option (Reply toy toy_tfms)
made = cryptodev_ioctl toy toy_tfms toy_kernel first.file (ciocgsession (some null_sha1))

abbrev made_reply : Reply toy toy_tfms
made_reply = reply_or made (success, first.file, nothing)

made_lem : made ≡ some made_reply
unfolding cryptodev_ioctl ioctl_session session_back crypto_create_session start_session set_up
    set_up_cipher load_cipher set_up_hash load_hash reset_new_hash get_mackey set_up_arrays
    add_session fresh_sid has_sid cipher_alg hash_alg cryptodev_get_cipher_keylen
    cryptodev_get_cipher_key append_cipher_key check_key_size cryptodev_cipher_init init_blkcipher
    finish_init cryptodev_hash_init init_ahash cryptodev_hash_reset copy_from_user
made_lem = refl

abbrev second : LiveFile toy
second = record first { file = made_reply.1 }

abbrev third : LiveFile toy
third = record {
  file = record (second.file) { pcr = (cut_todo second.file.pcr).1 };
  worker = running [] (cut_todo second.file.pcr).0;
}

toy_history : FileReach toy toy_tfms first third
toy_history =
    then_step {t = second}
      (then_step {t = first} begin
        (request toy_kernel (ciocgsession (some null_sha1)) made_reply made_lem refl))
      (cut refl refl)

FileReach_example :
    IsTable toy third.file.pcr.fcrypt third.file.live
    × (crypto_finish_all_sessions toy third.file.pcr.fcrypt third.file.live ≡ some 0)
FileReach_example =
    FileReach-frees toy toy_tfms true (λ i. true) toy_ring toy_space 0 third toy_ring_opened
      toy_history

abbrev busy_file : File toy
busy_file = record (first.file) { pcr = record toy_ring { fcrypt = two_sessions } }

abbrev run_nothing : Run KernelCryptOp (List (Session toy))
run_nothing = λ fcr kcop. some (success, kcop, fcr)

cryptodev_ioctl-Moves_example :
    Always
      (λ (r : Reply toy toy_tfms).
        Moves toy toy_tfms (ciocasynccrypt (some kernel_op.cop)) run_nothing busy_file r.1)
      (cryptodev_ioctl toy toy_tfms toy_kernel busy_file (ciocasynccrypt (some kernel_op.cop)))
cryptodev_ioctl-Moves_example =
    cryptodev_ioctl-Moves toy toy_tfms run_nothing toy_kernel busy_file
      (ciocasynccrypt (some kernel_op.cop))
