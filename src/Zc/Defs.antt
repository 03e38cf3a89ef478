-- ===== src/Zc/Defs.antt =====
-- The definitions of zc.c and zc.h. `none` stands for undefined behaviour: an access past a table.
use cryptodev_linux.Prelude.{
  ℕ, zero, suc, ◌+◌, ◌-◌, ◌*◌, ◌/◌, ◌%◌, ◌^◌, min, max, Bool, true, false, ◌||◌, not, Option, none,
  some, List, [], ◌∷◌, ◌++◌, Code, fail, einval, enomem, success, is_nonzero, ltb, ◌==◌,
  if◌then◌else◌, length, take, drop, replicate, ◌>>=◌,
}
use cryptodev_linux.Sg.{SgEntry, page_size}

-- PAGECOUNT(buf, buflen), as the `int` that it is assigned to. `buf` is an `unsigned long`.
unfoldable pub pagecount : ℕ → ℕ → ℕ
pagecount buf buflen =
    if buflen == 0
    then 0
    else ((buf + buflen - 1) % 2 ^ 64 / page_size + 2 ^ 64 - buf / page_size + 1) % 2 ^ 32

-- The fields of `struct csession` that zc.c uses. `pages` is the array's memory; the entries of
-- `sg` are given by the tables that the functions return.
pub record UserPages : Type 0 where
  pub array_size : ℕ
  pub used_pages : ℕ
  pub readonly_pages : ℕ
  pub pages : List ℕ

-- What the loop of `__get_userbuf` leaves of a table of blank entries, one for each page in `pg`.
abbrev pub blank : SgEntry
blank = record { page = 0; offset = 0; length = 0 }

unfoldable pub fill_pages : List ℕ → ℕ → Option (List SgEntry)
fill_pages [] len = if len == 0 then some [] else none
fill_pages (page ∷ pg) len =
    let pglen = min page_size len in
    let rest = fill_pages pg (len - pglen) in
    if len == 0
    then some (blank ∷ replicate (length pg) blank)
    else rest >>= λ sg. some (record { page = page; offset = 0; length = pglen } ∷ sg)

-- The part of `__get_userbuf` after the pages are fetched: the first entry, then the loop.
unfoldable pub fill_table : ℕ → ℕ → List ℕ → Option (List SgEntry)
unfolding fill_pages
fill_table addr len [] = none
fill_table addr len (page ∷ pg) =
    let pglen = min (page_size - addr % page_size) len in
    fill_pages pg (len - pglen) >>= λ sg.
    some (record { page = page; offset = addr % page_size; length = pglen } ∷ sg)

-- What `get_user_pages` pins: the frames of the pages from `addr` on, fewer than asked if it fails.
abbrev pub GetUserPages : Type 0
GetUserPages = (addr pgcount : ℕ) (write : Bool) → List ℕ

pub record Mapped : Type 0 where
  pub code : Code
  pub pinned : List ℕ
  pub sg : List SgEntry

-- `__get_userbuf`; `room` is the number of entries that the table `sg` has from its start on, and
-- `stale` what its first entry holds before the call.
unfoldable pub get_userbuf_pages : GetUserPages → SgEntry → ℕ → ℕ → Bool → ℕ → ℕ → Option Mapped
get_userbuf_pages get_user_pages stale addr len write pgcount room =
    let pg = get_user_pages addr pgcount write in
    if pgcount == 0 || (len == 0 || addr == 0)
    then if room == 0 then none else some (record { code = success; pinned = []; sg = stale ∷ [] })
    else if not (length pg == pgcount)
    then some (record { code = fail einval; pinned = pg; sg = [] })
    else if ltb room pgcount
    then none
    else fill_table addr len pg >>= λ sg. some (record { code = success; pinned = pg; sg = sg })

-- The loop of `adjust_sg_array`, which doubles an `int`.
unfoldable pub double_until : ℕ → ℕ → ℕ → Option ℕ
double_until zero array_size pagecount = none
double_until (suc fuel) array_size pagecount =
    let rest = double_until fuel (array_size * 2 % 2 ^ 32) pagecount in
    if ltb array_size pagecount then rest else some array_size

-- `krealloc` keeps the array's contents; the new part is indeterminate (0 here).
abbrev pub krealloc : List ℕ → ℕ → List ℕ
krealloc pages size = take size (pages ++ replicate (size - length pages) 0)

-- The two allocations of `adjust_sg_array`; the Booleans say whether they succeed.
unfoldable pub resize : Bool → Bool → UserPages → ℕ → Code × UserPages
resize false sg_ok ses array_size = (fail enomem, ses)
resize true false ses array_size =
    (fail enomem, record ses { pages = krealloc ses.pages array_size })
resize true true ses array_size =
    (success, record ses { pages = krealloc ses.pages array_size; array_size = array_size })

-- The doublings take at most as many rounds as there are pages.
unfoldable pub adjust_sg_array : Bool → Bool → UserPages → ℕ → Option (Code × UserPages)
unfolding double_until resize
adjust_sg_array pages_ok sg_ok ses pagecount =
    double_until (suc pagecount) ses.array_size pagecount >>= λ array_size.
    some (resize pages_ok sg_ok ses array_size)

-- What `release_user_pages` does to one page.
pub data PageOp : Type 0 where
  set_dirty flush_dcache put_page : ℕ → PageOp

-- The loop of `release_user_pages` over `pages[i]`, `i < used_pages`.
unfoldable pub release_each : (ℕ → Bool) → List ℕ → ℕ → List PageOp × ℕ
release_each reserved [] readonly_pages = ([], readonly_pages)
release_each reserved (page ∷ pages) readonly_pages =
    let rest = release_each reserved pages (readonly_pages - 1) in
    (
      (if reserved page then [] else set_dirty page ∷ [])
          ++ ((if readonly_pages == 0 then flush_dcache page ∷ [] else [])
              ++ (put_page page ∷ rest.0)),
      rest.1,
    )

abbrev pub read_pages : List ℕ → ℕ → List ℕ
read_pages pages n = take n (pages ++ replicate (n - length pages) 0)

unfoldable pub release_user_pages : (ℕ → Bool) → UserPages → List PageOp × UserPages
unfolding release_each
release_user_pages reserved ses =
    let done = release_each reserved (read_pages ses.pages ses.used_pages) ses.readonly_pages in
    (done.0, record ses { used_pages = 0; readonly_pages = done.1 })

-- `src == dst`, `src`, `dst` and the rest of the arguments of `get_userbuf`.
pub record UserBuf : Type 0 where
  pub src : ℕ
  pub src_len : ℕ
  pub dst : ℕ
  pub dst_len : ℕ

-- The lengths that `get_userbuf` goes on with: a NULL buffer has none.
abbrev pub clip : UserBuf → UserBuf
clip b = record b {
  src_len = if b.src == 0 then 0 else b.src_len;
  dst_len = if b.dst == 0 then 0 else b.dst_len;
}

-- What `get_userbuf` leaves: its result, the session's fields, the two tables (NULL is the empty
-- list), the frames that it pinned, and what it did to pages that it released.
pub record Userbuf : Type 0 where
  pub code : Code
  pub ses : UserPages
  pub src_sg : List SgEntry
  pub dst_sg : List SgEntry
  pub pinned : List ℕ
  pub released : List PageOp

-- What the driver gets from the kernel's memory management.
pub record Paging : Type 0 where
  pub get_user_pages : GetUserPages
  pub reserved : ℕ → Bool
  pub pages_ok : Bool
  pub sg_ok : Bool
  pub stale : ℕ → SgEntry

-- A write of `pg` into the array `pages` from index `i` on.
abbrev pub splice : ℕ → List ℕ → List ℕ → List ℕ
splice i pg pages = take i pages ++ (pg ++ drop (i + length pg) pages)

-- The in-place branch of `get_userbuf`.
unfoldable pub get_inplace : Paging → UserBuf → UserPages → Option Userbuf
get_inplace env b ses = do
  let len = if ltb b.src_len b.dst_len then b.dst_len else b.src_len
  m ←
      get_userbuf_pages env.get_user_pages (env.stale 0) b.src len true ses.used_pages
        ses.array_size
  some (record {
    code = m.code;
    ses = record ses { pages = splice 0 m.pinned ses.pages };
    src_sg = m.sg;
    dst_sg = m.sg;
    pinned = m.pinned;
    released = [];
  })

-- The input half of the other branch.
unfoldable pub get_input : Paging → UserBuf → UserPages → Option Userbuf
get_input env b ses =
    if b.src == 0
    then some
        (record { code = success; ses = ses; src_sg = []; dst_sg = []; pinned = []; released = [] })
    else get_userbuf_pages env.get_user_pages (env.stale 0) b.src b.src_len false ses.readonly_pages
        ses.array_size
      >>= λ m. some (record {
        code = m.code;
        ses = record ses { pages = splice 0 m.pinned ses.pages };
        src_sg = m.sg;
        dst_sg = [];
        pinned = m.pinned;
        released = [];
      })

-- The output half, which releases every page of the session if it fails.
unfoldable pub get_output : Paging → UserBuf → Userbuf → Option Userbuf
get_output env b got =
    let at = got.ses.readonly_pages in
    if b.dst == 0
    then some got
    else get_userbuf_pages env.get_user_pages (env.stale at) b.dst b.dst_len true
        (got.ses.used_pages - at) (got.ses.array_size - at)
      >>= λ m.
          let ses = record (got.ses) { pages = splice at m.pinned got.ses.pages } in
          let undone = release_user_pages env.reserved ses in
          some (
            if is_nonzero m.code
            then record got {
              code = m.code;
              ses = undone.1;
              dst_sg = [];
              pinned = got.pinned ++ m.pinned;
              released = undone.0;
            }
            else record got {
              code = m.code;
              ses = ses;
              dst_sg = m.sg;
              pinned = got.pinned ++ m.pinned;
            })

-- Both halves.
unfoldable pub get_separate : Paging → UserBuf → UserPages → Option Userbuf
get_separate env b ses =
    get_input env b ses >>= λ got. if is_nonzero got.code then some got else get_output env b got

-- The numbers of pages, as `get_userbuf` sets them.
abbrev pub count_pages : UserBuf → UserPages → UserPages
count_pages b ses =
    let src_pagecount = pagecount b.src b.src_len in
    let dst_pagecount = pagecount b.dst b.dst_len in
    record ses {
      used_pages =
          if b.src == b.dst then max src_pagecount dst_pagecount else src_pagecount + dst_pagecount;
      readonly_pages = if b.src == b.dst then 0 else src_pagecount;
    }

unfoldable pub get_userbuf : Paging → UserBuf → UserPages → Option Userbuf
get_userbuf env buf ses0 = do
  let b = clip buf
  let ses1 = count_pages b ses0
  grown ←
      (if ltb ses1.array_size ses1.used_pages
        then adjust_sg_array env.pages_ok env.sg_ok ses1 ses1.used_pages
        else some (success, ses1))
  if is_nonzero grown.0
      then some (record {
        code = grown.0;
        ses = grown.1;
        src_sg = [];
        dst_sg = [];
        pinned = [];
        released = [];
      })
      else if b.src == b.dst
      then get_inplace env b grown.1
      else get_separate env b grown.1
