-- ===== src/Tests/Pages.antt =====
-- Runs of zc.c, util.c, main.c and authenc.c.
use cryptodev_linux.Prelude.{
  ◌+◌, ◌≤◌, ◌<◌, ◌≡◌, refl, true, false, some, List, [], ◌∷◌, success, arith, take, drop, ◌%◌, ◌*◌,
}
use cryptodev_linux.Sg.{SgEntry, page_size, sg_addrs, sg_advance, sg_copy}
use cryptodev_linux.Sg.Laws.{sg_addrs-sg_advance, sg_copy_covers}
use cryptodev_linux.Zc.Defs.{
  UserPages, UserBuf, Userbuf, pagecount, get_userbuf, release_user_pages, read_pages,
}
use cryptodev_linux.Zc.Cover.{pagecount_least}
use cryptodev_linux.Zc.Arrays.{HasRoom}
use cryptodev_linux.Zc.Release.{puts, flushes, release_user_pages_lem}
use cryptodev_linux.Zc.Buffers.{IsBuffer, Covers, get_userbuf-Covers, get_userbuf-Covers_inplace}
use cryptodev_linux.Session.Defs.{Session}
use cryptodev_linux.User.{user_bytes}
use cryptodev_linux.Run.Defs.{CryptOp, crypto_run_std, crypto_run_zc}
use cryptodev_linux.Run.Chunks.{IsHash, hashed, crypto_run_std_hashes, crypto_run_zc-crypto_run_std}
use cryptodev_linux.Tests.Toy.{
  toy, toy-IsIncremental, toy_session, hash_session, toy_space, toy_paging,
}

abbrev buf : UserBuf
buf = record { src = 4000; src_len = 5000; dst = 20000; dst_len = 5000 }

abbrev src_IsBuffer : IsBuffer 4000 5000
src_IsBuffer = record {
  not_null = omega arith;
  not_empty = omega arith;
  word = omega arith;
  in_space = omega arith;
}

abbrev dst_IsBuffer : IsBuffer 20000 5000
dst_IsBuffer = record {
  not_null = omega arith;
  not_empty = omega arith;
  word = omega arith;
  in_space = omega arith;
}

abbrev toy_HasRoom : HasRoom toy_session.user
toy_HasRoom = record { some_room = omega arith; in_array = omega arith }

get_userbuf-Covers_example :
    (got : Userbuf) × (get_userbuf toy_paging buf toy_session.user ≡ some got)
    × Covers toy_space.frame buf (pagecount 4000 5000) got
get_userbuf-Covers_example =
    get_userbuf-Covers toy_paging toy_space.frame buf toy_session.user src_IsBuffer dst_IsBuffer
      (ground arith) toy_HasRoom refl refl refl refl

get_userbuf-Covers_inplace_example :
    (got : Userbuf) × (get_userbuf toy_paging
        (record { src = 4000; src_len = 3000; dst = 4000; dst_len = 5000 })
        toy_session.user
      ≡ some got)
    × Covers toy_space.frame
        (record { src = 4000; src_len = 5000; dst = 4000; dst_len = 5000 })
        0
        got
get_userbuf-Covers_inplace_example =
    get_userbuf-Covers_inplace toy_paging toy_space.frame
      (record { src = 4000; src_len = 3000; dst = 4000; dst_len = 5000 }) toy_session.user
      src_IsBuffer refl toy_HasRoom refl refl refl

pagecount_least_example :
    (4000 % page_size + 5000 ≤ pagecount 4000 5000 * page_size)
    × (pagecount 4000 5000 * page_size < 4000 % page_size + 5000 + page_size)
pagecount_least_example = pagecount_least 4000 5000 (omega arith) (omega arith) (omega arith)

abbrev pinned : UserPages
pinned = record {
  array_size = 4;
  used_pages = 3;
  readonly_pages = 1;
  pages = 5 ∷ (6 ∷ (7 ∷ (8 ∷ [])));
}

release_user_pages_example :
    let (ops, ses') = release_user_pages (λ page. false) pinned in
    (puts ops ≡ read_pages pinned.pages 3)
    × (flushes ops ≡ drop 1 (read_pages pinned.pages 3))
    × (ses'.used_pages ≡ 0)
    × (ses'.array_size ≡ 4)
    × (ses'.pages ≡ pinned.pages)
release_user_pages_example = release_user_pages_lem (λ page. false) pinned

abbrev table : List SgEntry
table =
    record { page = 3; offset = 4000; length = 96 }
    ∷ (record { page = 9; offset = 0; length = 50 } ∷ [])

sg_advance_example : sg_addrs (sg_advance table 100) ≡ drop 100 (sg_addrs table)
sg_advance_example = sg_addrs-sg_advance table 100

sg_copy_example :
    ((sg_copy table table 100).0 ≡ success)
    × (sg_addrs (sg_copy table table 100).1 ≡ take 100 (sg_addrs table))
sg_copy_example = sg_copy_covers table table 100 (omega arith) (omega arith) (omega arith)

abbrev hash_op : CryptOp
hash_op = record { ses = 8; op = 0; flags = 0; len = 5000; src = 4000; dst = 0; mac = 0; iv = 0 }

abbrev hash_session_IsHash : IsHash toy toy-IsIncremental hash_session []
hash_session_IsHash = record { no_cipher = refl; hashes = refl; state = refl }

crypto_run_std_example :
    crypto_run_std toy true hash_session hash_op toy_space
    ≡ some (
      success,
      hashed toy toy-IsIncremental hash_session [] (user_bytes toy_space 4000 5000),
      toy_space,
    )
crypto_run_std_example =
    crypto_run_std_hashes toy toy-IsIncremental hash_session [] hash_op toy_space
      hash_session_IsHash (omega arith) (λ a n l m. refl)

crypto_run_zc_example :
    (zc std : Session toy) × (crypto_run_zc toy toy_paging false hash_session hash_op toy_space
      ≡ some (success, zc, toy_space))
    × (crypto_run_std toy true hash_session hash_op toy_space ≡ some (success, std, toy_space))
    × (zc.hdata ≡ std.hdata)
    × (std ≡ hashed toy toy-IsIncremental hash_session [] (user_bytes toy_space 4000 5000))
crypto_run_zc_example =
    crypto_run_zc-crypto_run_std toy toy-IsIncremental toy_paging false hash_session [] hash_op
      toy_space hash_session_IsHash refl refl src_IsBuffer (λ a n l m. refl) toy_HasRoom refl refl
      refl
