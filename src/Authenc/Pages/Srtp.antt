-- ===== src/Authenc/Pages/Srtp.antt =====
-- The destination of SRTP lies in the authenticated data (`get_userbuf_srtp` of authenc.c).
use cryptodev_linux.Prelude.{
  ℕ, zero, suc, ◌+◌, ◌-◌, ◌*◌, ◌/◌, ◌%◌, ◌^◌, ◌≤◌, ◌<◌, ◌≡◌, refl, sym, ap, ◌∙◌, true, false, ◌&&◌,
  ◌||◌, some, List, [], ◌∷◌, map, replicate, length, take, drop, success, fail, einval, ltb, ◌==◌,
  arith, range, drop-range, length-replicate,
}
use cryptodev_linux.Sg.{SgEntry, sg_addrs, sg_advance, sg_copy, page_size}
use cryptodev_linux.Sg.Laws.{sg_addrs-sg_advance, sg_advance-eq-nil, sg_copy_covers}
use cryptodev_linux.Zc.Defs.{
  pagecount, UserPages, Userbuf, Paging, Mapped, blank, splice, read_pages,
}
use cryptodev_linux.Zc.Cover.{
  Pins, phys, frames, length-frames, pagecount_least, get_userbuf_pages_covers,
}
use cryptodev_linux.Zc.Arrays.{HasRoom, adjust_sg_array-Adjusted}
use cryptodev_linux.Zc.Buffers.{IsBuffer, pagecount_bounds}
use cryptodev_linux.Zc.Release.{puts, release_user_pages_lem}
use cryptodev_linux.Authenc.Request.{KernelCryptAuthOp}
use cryptodev_linux.Authenc.Pages.{srtp_table, map_srtp, get_userbuf_srtp, max_srtp_auth_data_diff}
use cryptodev_linux.Authenc.Pages.Cover.{Mapping, spliced_lem}

length-map-range : (f : ℕ → ℕ) (a n : ℕ) → length (map f (range a n)) ≡ n
length-map-range f a zero = refl
length-map-range f a (suc n) = ap suc (length-map-range f (a + 1) n)

take-map-range : (f : ℕ → ℕ) (a n : ℕ) → take n (map f (range a n)) ≡ map f (range a n)
take-map-range f a zero = refl
take-map-range f a (suc n) = ap (λ xs. f a ∷ xs) (take-map-range f (a + 1) n)

drop-map : (f : ℕ → ℕ) (n : ℕ) (xs : List ℕ) → drop n (map f xs) ≡ map f (drop n xs)
drop-map f zero xs = refl
drop-map f (suc n) [] = refl
drop-map f (suc n) (x ∷ xs) = drop-map f n xs

-- The copy of a table of a buffer covers that buffer.
copied_lem :
    (frame : ℕ → ℕ) (sg : List SgEntry) (addr len n : ℕ)
    → length sg ≡ n
    → 0 < len
    → sg_addrs sg ≡ map (phys frame) (range addr len)
    → sg_addrs (sg_copy sg (replicate n blank) len).1 ≡ map (phys frame) (range addr len)
copied_lem frame sg addr len n e p covers =
    let size : length (sg_addrs sg) ≡ len =
      ap length covers ∙ length-map-range (phys frame) addr len in
    let copy =
      sg_copy_covers sg (replicate n blank) len (omega (arith, length-replicate n blank)) p
        (omega (arith, size)) in
    copy.1 ∙ ap (take len) covers ∙ take-map-range (phys frame) addr len

-- A table of a buffer, moved on by `diff` bytes: it covers the rest of the buffer, and is NULL if
-- there is none.
moved_lem :
    (frame : ℕ → ℕ) (table : List SgEntry) (addr len diff : ℕ)
    → sg_addrs table ≡ map (phys frame) (range addr len)
    → (sg_addrs (sg_advance table diff) ≡ map (phys frame) (range (addr + diff) (len - diff)))
      × (len ≤ diff → sg_advance table diff ≡ [])
moved_lem frame table addr len diff e = (
  sg_addrs-sg_advance table diff
      ∙ ap (drop diff) e
      ∙ drop-map (phys frame) diff (range addr len)
      ∙ ap (map (phys frame)) (drop-range diff addr len),
  λ h.
      (sg_advance-eq-nil table diff).1
        (omega (arith, h, ap length e ∙ length-map-range (phys frame) addr len)),
)

-- What `get_userbuf_srtp` promises for authenticated data of `len` bytes from `addr` on: as long as
-- `diff` is less than `len`, the two tables; otherwise an error, with every pinned page put.
pub record SrtpMapping (frame : ℕ → ℕ) (addr len diff : ℕ) (got : Userbuf) : Type 0 where
  pub inside : diff < len → Mapping frame (addr + diff) (len - diff) got
  pub auth : diff < len → sg_addrs got.src_sg ≡ map (phys frame) (range addr len)
  pub outside : len ≤ diff → (got.code ≡ fail einval) × (puts got.released ≡ got.pinned)

table_lem :
    (env : Paging) (frame : ℕ → ℕ) (addr len diff : ℕ) (ses : UserPages) (m : Mapped)
    → sg_addrs m.sg ≡ map (phys frame) (range addr len)
    → read_pages ses.pages ses.used_pages ≡ m.pinned
    → (table : List SgEntry) → sg_addrs table ≡ map (phys frame) (range (addr + diff) (len - diff))
    → (len ≤ diff → table ≡ [])
    → SrtpMapping frame addr len diff (srtp_table env ses m table)
unfolding srtp_table
table_lem env frame addr len diff ses m covers holds [] e z =
    let size = ap length e ∙ length-map-range (phys frame) (addr + diff) (len - diff) in
    record {
      inside = λ h. absurd (omega (arith, h, size));
      auth = λ h. absurd (omega (arith, h, size));
      outside = λ h. (refl, (release_user_pages_lem env.reserved ses).0 ∙ holds);
    }
table_lem env frame addr len diff ses m covers holds (sg ∷ sgs) e z = record {
  inside = λ h. record { succeeds = refl; writes = e; holds_pinned = holds; none_released = refl };
  auth = λ h. covers;
  outside = λ h. absurd (ground (arith, z h));
}

-- If the authenticated data is a buffer whose pages the kernel pins, the arrays can be grown to
-- twice their number, `src` lies at most 256 bytes behind its start, and the destination's length
-- is not 0, then `get_userbuf_srtp` neither waits nor leaves its arrays. If `src` is in the
-- authenticated data, it succeeds: one table covers that data, the other its bytes from `src` on,
-- and the session counts exactly the frames pinned. If `src` lies behind it, the result is -EINVAL
-- and every frame pinned is put again.
pub get_userbuf_srtp-SrtpMapping :
    (env : Paging) (frame : ℕ → ℕ) (kcaop : KernelCryptAuthOp) (ses : UserPages) (diff : ℕ)
    → IsBuffer kcaop.caop.auth_src kcaop.caop.auth_len
    → 0 < kcaop.dst_len
    → kcaop.caop.src ≡ kcaop.caop.auth_src + diff
    → diff ≤ max_srtp_auth_data_diff
    → HasRoom ses
    → env.pages_ok ≡ true
    → env.sg_ok ≡ true
    → Pins env.get_user_pages frame kcaop.caop.auth_src
        (pagecount kcaop.caop.auth_src kcaop.caop.auth_len)
        true
    → (got : Userbuf) × (get_userbuf_srtp env kcaop ses ≡ some got)
      × SrtpMapping frame kcaop.caop.auth_src kcaop.caop.auth_len diff got
unfolding get_userbuf_srtp map_srtp
get_userbuf_srtp-SrtpMapping env frame kcaop ses diff buf d e near room p s pins =
    let caop = kcaop.caop in
    let addr = caop.auth_src in
    let len = caop.auth_len in
    let n = pagecount addr len in
    let bounds = pagecount_bounds addr len buf in
    let a =
      adjust_sg_array-Adjusted env.pages_ok env.sg_ok ses (n * 2) room (omega (arith, bounds)) in
    let c : a.0.0 ≡ success = a.2.code ∙ rw (p, s) refl in
    let fs = frames frame (addr / page_size) n in
    let m =
      get_userbuf_pages_covers env.get_user_pages frame (env.stale 0) addr len n true
        a.0.1.array_size buf.not_null buf.not_empty bounds.0
        (pagecount_least addr len buf.not_empty buf.word buf.in_space).0
        (omega (arith, a.2.enough c)) pins in
    let nulls : (caop.dst == 0 && addr == 0) ≡ false = ground (arith, buf.not_null) in
    let empty : (kcaop.dst_len == 0 || len == 0) ≡ false = ground (arith, buf.not_empty) in
    let dist : (caop.src + 2 ^ 64 - addr) % 2 ^ 32 ≡ diff = omega (arith, e) in
    let close : ltb max_srtp_auth_data_diff diff ≡ false = ground arith in
    let counted : UserPages = record (a.0.1) {
      pages = splice 0 fs a.0.1.pages;
      used_pages = n;
      readonly_pages = 0;
    } in
    let got : Mapped = record { code = success; pinned = fs; sg = m.0 } in
    let table = sg_advance (sg_copy m.0 (replicate n blank) len).1 diff in
    let moved =
      moved_lem frame (sg_copy m.0 (replicate n blank) len).1 addr len diff
        (copied_lem frame m.0 addr len n m.2 buf.not_empty m.3) in
    rw (nulls, empty, dist, close, a.1, c, m.1)
      (
        srtp_table env counted got table,
        refl,
        table_lem env frame addr len diff counted got m.3
            (spliced_lem fs a.0.1.pages n (sym (length-frames frame (addr / page_size) n))) table
            moved.0 moved.1,
      )
