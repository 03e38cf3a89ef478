-- ===== src/Authenc/Pages.antt =====
-- The pages of an authenticated encryption: `get_userbuf_tls` and `get_userbuf_srtp` (authenc.c).
pub mod Cover
pub mod Srtp
pub mod Held
use cryptodev_linux.Prelude.{
  ℕ, ◌+◌, ◌-◌, ◌*◌, ◌%◌, ◌^◌, Bool, true, false, ◌&&◌, ◌||◌, Option, some, List, [], ◌∷◌, replicate,
  Code, fail, einval, success, is_nonzero, ltb, ◌==◌, if◌then◌else◌, ◌>>=◌,
}
use cryptodev_linux.Sg.{SgEntry, sg_advance, sg_copy}
use cryptodev_linux.Zc.Defs.{
  pagecount, UserPages, Userbuf, Paging, Mapped, blank, splice, adjust_sg_array, get_userbuf_pages,
  release_user_pages,
}
use cryptodev_linux.Authenc.Defs.{CryptAuthOp}
use cryptodev_linux.Authenc.Request.{KernelCryptAuthOp}

-- What a refusal leaves before a page is pinned.
abbrev pub nothing_got : Code → UserPages → Userbuf
nothing_got code ses = record {
  code = code;
  ses = ses;
  src_sg = [];
  dst_sg = [];
  pinned = [];
  released = [];
}

-- The end of `get_userbuf_tls`, once the arrays are large enough.
unfoldable pub map_tls : Paging → KernelCryptAuthOp → ℕ → Code × UserPages → Option Userbuf
map_tls env kcaop pgcount (ret, ses) =
    if is_nonzero ret
    then some (nothing_got ret ses)
    else get_userbuf_pages env.get_user_pages (env.stale 0) kcaop.caop.dst kcaop.dst_len true
        pgcount ses.array_size
      >>= λ m. some (record {
        code = if is_nonzero m.code then fail einval else success;
        ses = record ses { pages = splice 0 m.pinned ses.pages };
        src_sg = [];
        dst_sg = m.sg;
        pinned = m.pinned;
        released = [];
      })

unfoldable pub get_userbuf_tls : Paging → KernelCryptAuthOp → UserPages → Option Userbuf
get_userbuf_tls env kcaop ses =
    let pgcount = pagecount kcaop.caop.dst kcaop.dst_len in
    let counted : UserPages = record ses { used_pages = pgcount; readonly_pages = 0 } in
    if kcaop.caop.dst == 0 || kcaop.dst_len == 0
    then some (nothing_got (fail einval) ses)
    else adjust_sg_array env.pages_ok env.sg_ok counted pgcount >>= map_tls env kcaop pgcount

-- MAX_SRTP_AUTH_DATA_DIFF.
abbrev pub max_srtp_auth_data_diff : ℕ
max_srtp_auth_data_diff = 256

-- The end of `get_userbuf_srtp`: the table of the destination, if `sg_advance` finds one. `src_sg` is
-- `auth_sg`.
unfoldable pub srtp_table : Paging → UserPages → Mapped → List SgEntry → Userbuf
srtp_table env ses m [] =
    let undone = release_user_pages env.reserved ses in
    record {
      code = fail einval;
      ses = undone.1;
      src_sg = m.sg;
      dst_sg = [];
      pinned = m.pinned;
      released = undone.0;
    }
srtp_table env ses m (sg ∷ sgs) = record {
  code = success;
  ses = ses;
  src_sg = m.sg;
  dst_sg = sg ∷ sgs;
  pinned = m.pinned;
  released = [];
}

-- `get_userbuf_srtp` once the arrays are large enough.
unfoldable pub map_srtp : Paging → CryptAuthOp → ℕ → ℕ → Code × UserPages → Option Userbuf
map_srtp env caop pgcount diff (ret, ses) =
    if is_nonzero ret
    then some (nothing_got ret ses)
    else get_userbuf_pages env.get_user_pages (env.stale 0) caop.auth_src caop.auth_len true pgcount
        ses.array_size
      >>= λ m.
          let written : UserPages = record ses { pages = splice 0 m.pinned ses.pages } in
          let counted : UserPages = record written { used_pages = pgcount; readonly_pages = 0 } in
          let copied = sg_copy m.sg (replicate pgcount blank) caop.auth_len in
          some (
            if is_nonzero m.code
            then record {
              code = fail einval;
              ses = written;
              src_sg = [];
              dst_sg = [];
              pinned = m.pinned;
              released = [];
            }
            else srtp_table env counted m (sg_advance copied.1 diff))

-- The difference of the pointers is an `int`; a negative one is above the bound here.
unfoldable pub get_userbuf_srtp : Paging → KernelCryptAuthOp → UserPages → Option Userbuf
get_userbuf_srtp env kcaop ses =
    let caop = kcaop.caop in
    let pgcount = pagecount caop.auth_src caop.auth_len in
    let diff = (caop.src + 2 ^ 64 - caop.auth_src) % 2 ^ 32 in
    if caop.dst == 0 && caop.auth_src == 0
    then some (nothing_got (fail einval) ses)
    else if kcaop.dst_len == 0 || caop.auth_len == 0
    then some (nothing_got (fail einval) ses)
    else if ltb max_srtp_auth_data_diff diff
    then some (nothing_got (fail einval) ses)
    else adjust_sg_array env.pages_ok env.sg_ok ses (pgcount * 2) >>= map_srtp env caop pgcount diff
