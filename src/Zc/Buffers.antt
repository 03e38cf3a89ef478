-- ===== src/Zc/Buffers.antt =====
-- `get_userbuf` as a whole: the tables cover the two buffers, and what it pinned is what
-- `release_user_pages` puts.
mod Parts
pub use Parts.*
use cryptodev_linux.Prelude.{
  ℕ, ◌+◌, ◌-◌, ◌/◌, ◌^◌, ◌≤◌, ◌<◌, ◌≡◌, ◌≢◌, refl, ap, ◌∙◌, sym, inl, inr, true, false, max, some,
  List, [], ◌++◌, map, arith, ltb, leb, leb→le, ◌==◌, Bool-cases, length, take, success,
  length-append, length-take, take-length_append, take-append_le, if◌then◌else◌, range,
}
use cryptodev_linux.Sg.{SgEntry, sg_addrs, page_size}
use cryptodev_linux.Zc.Defs.{
  UserPages, UserBuf, Userbuf, Paging, pagecount, adjust_sg_array, splice, get_inplace, get_input,
  get_output, get_separate, get_userbuf, read_pages,
}
use cryptodev_linux.Zc.Cover.{
  Pins, phys, frames, length-frames, pagecount_least, get_userbuf_pages_covers,
}
use cryptodev_linux.Zc.Arrays.{HasRoom, adjust_sg_array-Adjusted, take-splice}

get_separate-Covers :
    (env : Paging) (frame : ℕ → ℕ) (b : UserBuf) (ses : UserPages)
    → IsBuffer b.src b.src_len
    → IsBuffer b.dst b.dst_len
    → ses.readonly_pages ≡ pagecount b.src b.src_len
    → ses.used_pages ≡ ses.readonly_pages + pagecount b.dst b.dst_len
    → ses.used_pages ≤ ses.array_size
    → Pins env.get_user_pages frame b.src (pagecount b.src b.src_len) false
    → Pins env.get_user_pages frame b.dst (pagecount b.dst b.dst_len) true
    → (got : Userbuf) × (get_separate env b ses ≡ some got)
      × Covers frame b (pagecount b.src b.src_len) got
unfolding get_separate
get_separate-Covers env frame b ses bs bd ro used room ps pd =
    let fs = frames frame (b.src / page_size) ses.readonly_pages in
    let fd = frames frame (b.dst / page_size) (pagecount b.dst b.dst_len) in
    let i = get_input_covers env frame b ses bs ro (omega arith) ps in
    let got : Userbuf = record {
      code = success;
      ses = record ses { pages = splice 0 fs ses.pages };
      src_sg = i.0;
      dst_sg = [];
      pinned = fs;
      released = [];
    } in
    let o = get_output_covers env frame b got bd used room pd in
    rw (i.1, o.1)
      (
        record got {
          ses = record ses { pages = splice ses.readonly_pages fd (splice 0 fs ses.pages) };
          dst_sg = o.0;
          pinned = fs ++ fd;
        },
        refl,
        record {
          succeeds = refl;
          reads = i.2;
          writes = o.2;
          holds_pinned =
              read_pages_prefix (fs ++ fd) _ ses.used_pages
                (omega (
                  arith,
                  length-append fs fd,
                  length-frames frame (b.src / page_size) ses.readonly_pages,
                  length-frames frame (b.dst / page_size) (pagecount b.dst b.dst_len),
                ))
                (take-splice fs fd ses.pages ses.readonly_pages ses.used_pages
                  (omega (arith, length-frames frame (b.src / page_size) ses.readonly_pages))
                  (omega (
                    arith,
                    length-frames frame (b.src / page_size) ses.readonly_pages,
                    length-frames frame (b.dst / page_size) (pagecount b.dst b.dst_len),
                  )));
          in_array = room;
          readonly_first = ro;
          none_released = refl;
        },
      )

get_inplace-Covers :
    (env : Paging) (frame : ℕ → ℕ) (b : UserBuf) (ses : UserPages) (len : ℕ)
    → IsBuffer b.src len
    → len ≡ max b.src_len b.dst_len
    → ses.readonly_pages ≡ 0
    → ses.used_pages ≡ pagecount b.src len
    → ses.used_pages ≤ ses.array_size
    → Pins env.get_user_pages frame b.src (pagecount b.src len) true
    → (got : Userbuf) × (get_inplace env b ses ≡ some got)
      × Covers frame (record b { src_len = len; dst = b.src; dst_len = len }) 0 got
unfolding get_inplace
get_inplace-Covers env frame b ses len bs longest ro used room ps =
    let fs = frames frame (b.src / page_size) ses.used_pages in
    let n = pagecount_bounds b.src len bs in
    let m =
      get_userbuf_pages_covers env.get_user_pages frame (env.stale 0) b.src len ses.used_pages true
        ses.array_size bs.not_null bs.not_empty (omega arith)
        (omega (arith, pagecount_least b.src len bs.not_empty bs.word bs.in_space)) room
        (rw used ps) in
    let l : (if ltb b.src_len b.dst_len then b.dst_len else b.src_len) ≡ len = ground arith in
    rw (l, m.1)
      (
        record {
          code = success;
          ses = record ses { pages = splice 0 fs ses.pages };
          src_sg = m.0;
          dst_sg = m.0;
          pinned = fs;
          released = [];
        },
        refl,
        record {
          succeeds = refl;
          reads = m.3;
          writes = m.3;
          holds_pinned =
              read_pages_prefix fs _ ses.used_pages
                (sym (length-frames frame (b.src / page_size) ses.used_pages))
                (ap (λ k. take k (splice 0 fs ses.pages))
                    (sym (length-frames frame (b.src / page_size) ses.used_pages))
                  ∙ take-length_append fs _);
          in_array = room;
          readonly_first = ro;
          none_released = refl;
        },
      )

-- Given two separate buffers whose pages the kernel pins, and room for them, `get_userbuf` succeeds
-- without leaving its arrays; its two tables cover the source and the destination byte by byte, the
-- session's array begins with exactly the pinned frames, those of the source first.
pub get_userbuf-Covers :
    (env : Paging) (frame : ℕ → ℕ) (b : UserBuf) (ses : UserPages)
    → IsBuffer b.src b.src_len
    → IsBuffer b.dst b.dst_len
    → b.src ≢ b.dst
    → HasRoom ses
    → env.pages_ok ≡ true
    → env.sg_ok ≡ true
    → Pins env.get_user_pages frame b.src (pagecount b.src b.src_len) false
    → Pins env.get_user_pages frame b.dst (pagecount b.dst b.dst_len) true
    → (got : Userbuf) × (get_userbuf env b ses ≡ some got)
      × Covers frame b (pagecount b.src b.src_len) got
unfolding get_userbuf
get_userbuf-Covers env frame b ses bs bd ne room p s ps pd =
    let zs : (b.src == 0) ≡ false = ground (arith, bs.not_null) in
    let zd : (b.dst == 0) ≡ false = ground (arith, bd.not_null) in
    let e : (b.src == b.dst) ≡ false = ground arith in
    let nsrc = pagecount_bounds b.src b.src_len bs in
    let ndst = pagecount_bounds b.dst b.dst_len bd in
    let counted : UserPages = record ses {
      used_pages = pagecount b.src b.src_len + pagecount b.dst b.dst_len;
      readonly_pages = pagecount b.src b.src_len;
    } in
    let g =
      make_room env counted (record { some_room = room.some_room; in_array = room.in_array })
        (omega arith) p s in
    rw (zs, zd, e, g.1)
      (get_separate-Covers env frame b g.0 bs bd g.5
        (g.4 ∙ ap (λ k. k + pagecount b.dst b.dst_len) (sym g.5)) (omega (arith, g.3, g.4)) ps pd)

pagecount_mono : (addr m n : ℕ) → m ≤ n → IsBuffer addr n → pagecount addr m ≤ pagecount addr n
unfolding pagecount
pagecount_mono addr m n h b = ground (arith, b.word, b.in_space, b.not_empty)

pagecount-max :
    (addr m n : ℕ)
    → IsBuffer addr (max m n)
    → max (pagecount addr m) (pagecount addr n) ≡ pagecount addr (max m n)
pagecount-max addr m n b = elim (Bool-cases (leb m n)) [
  | inl h ↦
      let w : max m n ≡ n = ground arith in
      rw w (omega (arith, pagecount_mono addr m n (leb→le m n h) (rw w at b)))
  | inr h ↦
      let w : max m n ≡ m = ground arith in
      rw w (omega (arith, pagecount_mono addr n m (ground arith) (rw w at b)))
]

-- Given one buffer as source and destination, whose pages for the longer of the two lengths the
-- kernel pins, and room for them, `get_userbuf` succeeds without leaving its arrays, and both tables
-- cover that length of the buffer byte by byte; no page counts as read-only.
pub get_userbuf-Covers_inplace :
    (env : Paging) (frame : ℕ → ℕ) (b : UserBuf) (ses : UserPages)
    → IsBuffer b.src (max b.src_len b.dst_len)
    → b.src ≡ b.dst
    → HasRoom ses
    → env.pages_ok ≡ true
    → env.sg_ok ≡ true
    → Pins env.get_user_pages frame b.src (pagecount b.src (max b.src_len b.dst_len)) true
    → (got : Userbuf) × (get_userbuf env b ses ≡ some got)
      × Covers frame
          (record {
            src = b.src;
            src_len = max b.src_len b.dst_len;
            dst = b.src;
            dst_len = max b.src_len b.dst_len;
          })
          0
          got
unfolding get_userbuf
get_userbuf-Covers_inplace env frame b ses bs same room p s ps =
    let zs : (b.src == 0) ≡ false = ground (arith, bs.not_null) in
    let zd : (b.dst == 0) ≡ false = ground (arith, bs.not_null) in
    let e : (b.src == b.dst) ≡ true = ground arith in
    let n = pagecount_bounds b.src (max b.src_len b.dst_len) bs in
    let c : max (pagecount b.src b.src_len) (pagecount b.dst b.dst_len)
        ≡ pagecount b.src (max b.src_len b.dst_len) =
      ap (λ k. max (pagecount b.src b.src_len) (pagecount k b.dst_len)) (sym same)
      ∙ pagecount-max b.src b.src_len b.dst_len bs in
    let counted : UserPages = record ses {
      used_pages = pagecount b.src (max b.src_len b.dst_len);
      readonly_pages = 0;
    } in
    let g =
      make_room env counted (record { some_room = room.some_room; in_array = room.in_array })
        (omega arith) p s in
    rw (zs, zd, e, c, g.1)
      (get_inplace-Covers env frame b g.0 (max b.src_len b.dst_len) bs refl g.5 g.4
        (omega (arith, g.3, g.4)) ps)
