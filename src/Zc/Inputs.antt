-- ===== src/Zc/Inputs.antt =====
-- `get_userbuf` for an operation without output: a hash, whose `dst` is NULL.
use cryptodev_linux.Prelude.{
  ℕ, ◌+◌, ◌≤◌, ◌≡◌, refl, true, false, some, [], map, range, ◌==◌, arith, success,
}
use cryptodev_linux.Sg.{sg_addrs}
use cryptodev_linux.Zc.Defs.{
  pagecount, UserPages, Paging, UserBuf, Userbuf, get_output, get_separate, get_userbuf,
}
use cryptodev_linux.Zc.Cover.{phys, Pins}
use cryptodev_linux.Zc.Arrays.{HasRoom}
use cryptodev_linux.Zc.Buffers.{IsBuffer, pagecount_bounds, make_room, get_input_covers}

separate_lem :
    (env : Paging) (frame : ℕ → ℕ) (b : UserBuf) (ses : UserPages)
    → IsBuffer b.src b.src_len
    → b.dst ≡ 0
    → ses.readonly_pages ≡ pagecount b.src b.src_len
    → ses.readonly_pages ≤ ses.array_size
    → Pins env.get_user_pages frame b.src (pagecount b.src b.src_len) false
    → (got : Userbuf) × (get_separate env b ses ≡ some got)
      × (got.code ≡ success)
      × (sg_addrs got.src_sg ≡ map (phys frame) (range b.src b.src_len))
      × (got.dst_sg ≡ [])
unfolding get_separate get_output
separate_lem env frame b ses buf d ro room pins =
    let i = get_input_covers env frame b ses buf ro room pins in
    let z : (b.dst == 0) ≡ true = ground arith in simp (i.1, z) (_, refl, refl, i.2, refl)

pagecount_zero : (buf : ℕ) → pagecount buf 0 ≡ 0
unfolding pagecount
pagecount_zero buf = refl

pub get_userbuf_reads :
    (env : Paging) (frame : ℕ → ℕ) (b : UserBuf) (ses : UserPages)
    → IsBuffer b.src b.src_len
    → b.dst ≡ 0
    → HasRoom ses
    → env.pages_ok ≡ true
    → env.sg_ok ≡ true
    → Pins env.get_user_pages frame b.src (pagecount b.src b.src_len) false
    → (got : Userbuf) × (get_userbuf env b ses ≡ some got)
      × (got.code ≡ success)
      × (sg_addrs got.src_sg ≡ map (phys frame) (range b.src b.src_len))
      × (got.dst_sg ≡ [])
unfolding get_userbuf
get_userbuf_reads env frame b ses bs d room p s ps =
    let zs : (b.src == 0) ≡ false = ground (arith, bs.not_null) in
    let zd : (b.dst == 0) ≡ true = ground arith in
    let e : (b.src == b.dst) ≡ false = ground (arith, bs.not_null) in
    let n = pagecount_bounds b.src b.src_len bs in
    let none_out : pagecount b.dst 0 ≡ 0 = pagecount_zero b.dst in
    let counted : UserPages = record ses {
      used_pages = pagecount b.src b.src_len + pagecount b.dst 0;
      readonly_pages = pagecount b.src b.src_len;
    } in
    let g =
      make_room env counted (record { some_room = room.some_room; in_array = room.in_array })
        (omega arith) p s in
    rw (zs, zd, e, g.1)
      (separate_lem env frame (record b { dst_len = 0 }) g.0 bs d g.5 (omega (arith, g.3, g.5)) ps)
