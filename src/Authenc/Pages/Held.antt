-- ===== src/Authenc/Pages/Held.antt =====
-- What becomes of the pages that `get_userbuf_tls` and `get_userbuf_srtp` pin (authenc.c).
use cryptodev_linux.Prelude.{
  ℕ, inl, inr, ◌+◌, ◌-◌, ◌*◌, ◌%◌, ◌^◌, ◌<◌, ◌≡◌, refl, sym, ◌∙◌, true, false, ◌&&◌, ◌||◌, List, [],
  ◌∷◌, replicate, Code, fail, einval, is_nonzero, ltb, ◌==◌, arith, Always, Always-bind,
  Always-chain, Always-if, Always-cases,
}
use cryptodev_linux.Sg.{SgEntry, sg_advance, sg_copy}
use cryptodev_linux.Zc.Defs.{
  GetUserPages, pagecount, UserPages, Paging, Mapped, blank, splice, adjust_sg_array,
  get_userbuf_pages, read_pages,
}
use cryptodev_linux.Zc.Release.{release_user_pages_lem}
use cryptodev_linux.Zc.Balance.{
  get_userbuf_pages-Pins, balanced, short-IsHeld, SameCounts, adjust_sg_array-SameCounts, IsHeld,
  splice-held, count_lem,
}
use cryptodev_linux.Authenc.Defs.{CryptAuthOp}
use cryptodev_linux.Authenc.Request.{KernelCryptAuthOp}
use cryptodev_linux.Authenc.Pages.{
  nothing_got, map_tls, get_userbuf_tls, srtp_table, map_srtp, get_userbuf_srtp,
  max_srtp_auth_data_diff,
}

nothing-IsHeld :
    (get_user_pages : GetUserPages) (code : Code) (ses : UserPages)
    → is_nonzero code ≡ true
    → IsHeld get_user_pages (nothing_got code ses)
nothing-IsHeld get_user_pages code ses e = record {
  held = λ h. absurd (ground (arith, h, e));
  undone = λ h. balanced refl;
}

map_tls-IsHeld :
    (env : Paging) (kcaop : KernelCryptAuthOp) (n : ℕ) (grown : Code × UserPages)
    → (kcaop.caop.dst == 0) ≡ false
    → (kcaop.dst_len == 0) ≡ false
    → grown.1.used_pages ≡ n
    → Always (IsHeld env.get_user_pages) (map_tls env kcaop n grown)
unfolding map_tls
map_tls-IsHeld env kcaop n (ret, ses) d l u =
    let gup = env.get_user_pages in
    let addr = kcaop.caop.dst in
    let len = kcaop.dst_len in
    Always-cases (IsHeld gup) (is_nonzero ret) _ _ (nothing-IsHeld gup ret ses) (λ e.
      Always-chain _ (IsHeld gup)
        (get_userbuf_pages gup (env.stale 0) addr len true n ses.array_size) _
        (get_userbuf_pages-Pins gup (env.stale 0) addr len true n ses.array_size)
        (λ m p. elim p [
          | inl q ↦ rw q.0 (record {
            held = λ h. splice-held m.pinned ses.pages ses.used_pages (
                q.1
                ∙ count_lem addr len n (λ g. absurd (ground (arith, g, d)))
                    (λ g. absurd (ground (arith, g, l)))
                ∙ sym u);
            undone = λ h. absurd (ground (arith, h));
          })
          | inr q ↦ rw q.0 (short-IsHeld gup addr n true m _ q refl refl refl)
        ]))

pub get_userbuf_tls-IsHeld :
    (env : Paging) (kcaop : KernelCryptAuthOp) (ses : UserPages)
    → Always (IsHeld env.get_user_pages) (get_userbuf_tls env kcaop ses)
unfolding get_userbuf_tls
get_userbuf_tls-IsHeld env kcaop ses =
    let gup = env.get_user_pages in
    let n = pagecount kcaop.caop.dst kcaop.dst_len in
    let counted : UserPages = record ses { used_pages = n; readonly_pages = 0 } in
    Always-cases (IsHeld gup) (kcaop.caop.dst == 0 || kcaop.dst_len == 0) _ _
      (λ e. nothing-IsHeld gup (fail einval) ses refl)
      (λ e.
        Always-chain (SameCounts counted) (IsHeld gup)
          (adjust_sg_array env.pages_ok env.sg_ok counted n) _
          (adjust_sg_array-SameCounts env.pages_ok env.sg_ok counted n)
          (λ grown g. map_tls-IsHeld env kcaop n grown (ground (arith, e)) (ground (arith, e)) g.0))

table-IsHeld :
    (env : Paging) (ses : UserPages) (m : Mapped) (table : List SgEntry)
    → read_pages ses.pages ses.used_pages ≡ m.pinned
    → IsHeld env.get_user_pages (srtp_table env ses m table)
unfolding srtp_table
table-IsHeld env ses m [] h = record {
  held = λ e. absurd (ground (arith, e));
  undone = λ e. balanced ((release_user_pages_lem env.reserved ses).0 ∙ h);
}
table-IsHeld env ses m (sg ∷ sgs) h = record {
  held = λ e. h;
  undone = λ e. absurd (ground (arith, e));
}

map_srtp-IsHeld :
    (env : Paging) (caop : CryptAuthOp) (n diff : ℕ) (grown : Code × UserPages)
    → 0 < caop.auth_src
    → (caop.auth_len == 0) ≡ false
    → Always (IsHeld env.get_user_pages) (map_srtp env caop n diff grown)
unfolding map_srtp
map_srtp-IsHeld env caop n diff (ret, ses) a l =
    let gup = env.get_user_pages in
    let addr = caop.auth_src in
    let len = caop.auth_len in
    Always-cases (IsHeld gup) (is_nonzero ret) _ _ (nothing-IsHeld gup ret ses) (λ e.
      Always-chain _ (IsHeld gup)
        (get_userbuf_pages gup (env.stale 0) addr len true n ses.array_size) _
        (get_userbuf_pages-Pins gup (env.stale 0) addr len true n ses.array_size)
        (λ m p. elim p [
          | inl q ↦ rw q.0 (
              table-IsHeld env
                (record ses {
                  pages = splice 0 m.pinned ses.pages;
                  used_pages = n;
                  readonly_pages = 0;
                })
                m (sg_advance (sg_copy m.sg (replicate n blank) len).1 diff)
                (splice-held m.pinned ses.pages n (
                  q.1
                  ∙ count_lem addr len n (λ g. absurd (ground (arith, g, a)))
                      (λ g. absurd (ground (arith, g, l))))))
          | inr q ↦ rw q.0 (short-IsHeld gup addr n true m _ q refl refl refl)
        ]))

pub get_userbuf_srtp-IsHeld :
    (env : Paging) (kcaop : KernelCryptAuthOp) (ses : UserPages)
    → 0 < kcaop.caop.auth_src
    → Always (IsHeld env.get_user_pages) (get_userbuf_srtp env kcaop ses)
unfolding get_userbuf_srtp
get_userbuf_srtp-IsHeld env kcaop ses a =
    let gup = env.get_user_pages in
    let caop = kcaop.caop in
    let n = pagecount caop.auth_src caop.auth_len in
    let diff = (caop.src + 2 ^ 64 - caop.auth_src) % 2 ^ 32 in
    let bad = nothing-IsHeld gup (fail einval) ses refl in
    Always-if (IsHeld gup) (caop.dst == 0 && caop.auth_src == 0) _ _ bad (
      Always-cases (IsHeld gup) (kcaop.dst_len == 0 || caop.auth_len == 0) _ _ (λ e. bad)
        (λ e. Always-if (IsHeld gup) (ltb max_srtp_auth_data_diff diff) _ _ bad (
          Always-bind (IsHeld gup) (adjust_sg_array env.pages_ok env.sg_ok ses (n * 2)) _
            (λ grown. map_srtp-IsHeld env caop n diff grown a (ground (arith, e))))))
