-- ===== src/Zc/Buffers/Parts.antt =====
-- The parts of `get_userbuf` when the kernel pins the pages: room in the arrays, input and output
-- (zc.c).
use cryptodev_linux.Prelude.{
  ℕ, ◌+◌, ◌-◌, ◌/◌, ◌^◌, ◌≤◌, ◌<◌, ◌≡◌, refl, ap, ◌∙◌, inl, inr, true, false, some, List, [], ◌++◌,
  map, arith, ltb, ◌==◌, Bool-cases, length, take, success, length-take, take-append_le,
  if◌then◌else◌, range,
}
use cryptodev_linux.Sg.{SgEntry, sg_addrs, page_size}
use cryptodev_linux.Zc.Defs.{
  UserPages, UserBuf, Userbuf, Paging, pagecount, adjust_sg_array, splice, get_input, get_output,
  read_pages,
}
use cryptodev_linux.Zc.Cover.{Pins, phys, frames, pagecount_least, get_userbuf_pages_covers}
use cryptodev_linux.Zc.Arrays.{HasRoom, adjust_sg_array-Adjusted}

-- A buffer that the driver can be given: not NULL, not empty, and inside the address space.
pub record IsBuffer (addr len : ℕ) : Type 0 where
  pub not_null : 0 < addr
  pub not_empty : 0 < len
  pub word : len < 2 ^ 32
  pub in_space : addr + len ≤ 2 ^ 64

pub pagecount_bounds :
    (addr len : ℕ) → IsBuffer addr len → (0 < pagecount addr len) × (pagecount addr len < 2 ^ 21)
pagecount_bounds addr len b = omega (arith, pagecount_least addr len b.not_empty b.word b.in_space)

-- The session after its arrays have been made large enough.
pub make_room :
    (env : Paging) (ses : UserPages)
    → HasRoom ses
    → ses.used_pages < 2 ^ 30
    → env.pages_ok ≡ true
    → env.sg_ok ≡ true
    → (ses' : UserPages) × ((if ltb ses.array_size ses.used_pages
          then adjust_sg_array env.pages_ok env.sg_ok ses ses.used_pages
          else some (success, ses))
        ≡ some (success, ses'))
      × HasRoom ses'
      × (ses.used_pages ≤ ses'.array_size)
      × (ses'.used_pages ≡ ses.used_pages)
      × (ses'.readonly_pages ≡ ses.readonly_pages)
make_room env ses room small p s = elim (Bool-cases (ltb ses.array_size ses.used_pages)) [
  | inl more ↦
      let a = adjust_sg_array-Adjusted env.pages_ok env.sg_ok ses ses.used_pages room small in
      let c : a.0.0 ≡ success = a.2.code ∙ rw (p, s) in
      rw more
        (a.0.1, a.1 ∙ ap (λ k. some (k, a.0.1)) c, a.2.room, a.2.enough c, a.2.used, a.2.readonly)
  | inr fits ↦ rw fits (ses, refl, room, ground arith, refl, refl)
]

-- The input half of `get_userbuf` when the pages are there.
pub get_input_covers :
    (env : Paging) (frame : ℕ → ℕ) (b : UserBuf) (ses : UserPages)
    → IsBuffer b.src b.src_len
    → ses.readonly_pages ≡ pagecount b.src b.src_len
    → ses.readonly_pages ≤ ses.array_size
    → Pins env.get_user_pages frame b.src (pagecount b.src b.src_len) false
    → (sg : List SgEntry) × (get_input env b ses
        ≡ some (record {
          code = success;
          ses = record ses {
            pages = splice 0 (frames frame (b.src / page_size) ses.readonly_pages) ses.pages;
          };
          src_sg = sg;
          dst_sg = [];
          pinned = frames frame (b.src / page_size) ses.readonly_pages;
          released = [];
        }))
      × (sg_addrs sg ≡ map (phys frame) (range b.src b.src_len))
unfolding get_input
get_input_covers env frame b ses buf e room pins =
    let n = pagecount_bounds b.src b.src_len buf in
    let m =
      get_userbuf_pages_covers env.get_user_pages frame (env.stale 0) b.src b.src_len
        ses.readonly_pages false ses.array_size buf.not_null buf.not_empty (omega arith)
        (omega (arith, pagecount_least b.src b.src_len buf.not_empty buf.word buf.in_space)) room
        (rw e pins) in
    let z : (b.src == 0) ≡ false = ground (arith, buf.not_null) in rw (z, m.1) (m.0, refl, m.3)

pub get_output_covers :
    (env : Paging) (frame : ℕ → ℕ) (b : UserBuf) (got : Userbuf)
    → IsBuffer b.dst b.dst_len
    → got.ses.used_pages ≡ got.ses.readonly_pages + pagecount b.dst b.dst_len
    → got.ses.used_pages ≤ got.ses.array_size
    → Pins env.get_user_pages frame b.dst (pagecount b.dst b.dst_len) true
    → (sg : List SgEntry) × (get_output env b got
        ≡ some (record got {
          code = success;
          ses = record (got.ses) {
            pages =
                splice got.ses.readonly_pages
                  (frames frame (b.dst / page_size) (pagecount b.dst b.dst_len))
                  got.ses.pages;
          };
          dst_sg = sg;
          pinned = got.pinned ++ frames frame (b.dst / page_size) (pagecount b.dst b.dst_len);
        }))
      × (sg_addrs sg ≡ map (phys frame) (range b.dst b.dst_len))
unfolding get_output
get_output_covers env frame b got buf e room pins =
    let n = pagecount_bounds b.dst b.dst_len buf in
    let m =
      get_userbuf_pages_covers env.get_user_pages frame (env.stale got.ses.readonly_pages) b.dst
        b.dst_len (pagecount b.dst b.dst_len) true (got.ses.array_size - got.ses.readonly_pages)
        buf.not_null buf.not_empty (n.0)
        (pagecount_least b.dst b.dst_len buf.not_empty buf.word buf.in_space).0 (omega arith)
        pins in
    let z : (b.dst == 0) ≡ false = ground (arith, buf.not_null) in
    let w : got.ses.used_pages - got.ses.readonly_pages ≡ pagecount b.dst b.dst_len = omega arith in
    rw (z, w, m.1) (m.0, refl, m.3)

-- What `get_userbuf` promises when the kernel pins the pages of both buffers.
pub record Covers (frame : ℕ → ℕ) (b : UserBuf) (readonly : ℕ) (got : Userbuf) : Type 0 where
  pub succeeds : got.code ≡ success
  pub reads : sg_addrs got.src_sg ≡ map (phys frame) (range b.src b.src_len)
  pub writes : sg_addrs got.dst_sg ≡ map (phys frame) (range b.dst b.dst_len)
  pub holds_pinned : read_pages got.ses.pages got.ses.used_pages ≡ got.pinned
  pub in_array : got.ses.used_pages ≤ got.ses.array_size
  pub readonly_first : got.ses.readonly_pages ≡ readonly
  pub none_released : got.released ≡ []

-- Reading `n` entries of an array that begins with `n` known ones.
pub read_pages_prefix :
    (xs pages : List ℕ) (n : ℕ) → n ≡ length xs → take n pages ≡ xs → read_pages pages n ≡ xs
read_pages_prefix xs pages n e h =
    take-append_le n pages _ (omega (arith, length-take n pages, ap length h)) ∙ h
