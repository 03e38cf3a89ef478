-- ===== src/Zc/Balance.antt =====
-- What becomes of the pages that `get_userbuf` pins, whatever the buffers are (zc.c).
mod Counts
pub use Counts.*
use cryptodev_linux.Prelude.{
  ℕ, suc, ◌⊎◌, inl, inr, [], ◌+◌, ◌-◌, ◌≤◌, ◌≡◌, refl, sym, ap, ◌∙◌, true, false, Bool, ◌||◌, not,
  max, some, List, ◌++◌, length, take, Code, success, is_nonzero, ltb, ◌==◌, if◌then◌else◌, arith,
  Always, Always-bind, Always-chain, Always-if, Always-cases, length-append, take-length_append,
}
use cryptodev_linux.Sg.{SgEntry}
use cryptodev_linux.Zc.Defs.{
  GetUserPages, Mapped, UserPages, UserBuf, Userbuf, Paging, pagecount, fill_table,
  get_userbuf_pages, double_until, resize, adjust_sg_array, splice, clip, count_pages, get_inplace,
  get_input, get_output, release_user_pages, get_separate, get_userbuf, read_pages,
}
use cryptodev_linux.Zc.Arrays.{take-splice}
use cryptodev_linux.Zc.Buffers.{read_pages_prefix}
use cryptodev_linux.Zc.Release.{puts, release_user_pages_lem}

-- The lengths after `clip`.
abbrev Clipped : UserBuf → Type 0
Clipped b =
    ((b.src == 0) ≡ true → (b.src_len == 0) ≡ true)
    × ((b.dst == 0) ≡ true → (b.dst_len == 0) ≡ true)

clip-Clipped : (b : UserBuf) → Clipped (clip b)
clip-Clipped b = (λ e. rw e refl, λ e. rw e refl)

inplace-IsHeld :
    (env : Paging) (b : UserBuf) (ses : UserPages)
    → Clipped b
    → (b.src == b.dst) ≡ true
    → ses.used_pages ≡ max (pagecount b.src b.src_len) (pagecount b.dst b.dst_len)
    → Always (IsHeld env.get_user_pages) (get_inplace env b ses)
unfolding get_inplace
inplace-IsHeld env b ses c e u =
    let len = if ltb b.src_len b.dst_len then b.dst_len else b.src_len in
    let none_of : (b.src_len == 0) ≡ true → (b.dst_len == 0) ≡ true → ses.used_pages ≡ 0 =
      λ f g. omega (arith, u, pagecount_none b.src b.src_len f, pagecount_none b.dst b.dst_len g) in
    let some_lem : (len == 0) ≡ true → ses.used_pages ≡ 0 =
      λ h. none_of (ground arith) (ground arith) in
    let null_lem : (b.src == 0) ≡ true → ses.used_pages ≡ 0 =
      λ h. none_of (c.0 h) (c.1 (ground (arith, h, e))) in
    Always-chain _ (IsHeld env.get_user_pages)
      (get_userbuf_pages env.get_user_pages (env.stale 0) b.src len true ses.used_pages
        ses.array_size)
      _
      (get_userbuf_pages-Pins env.get_user_pages (env.stale 0) b.src len true ses.used_pages
        ses.array_size)
      (λ m p. elim p [
        | inl q ↦ record {
          held = λ h.
              splice-held m.pinned ses.pages ses.used_pages
                (q.1 ∙ count_lem b.src len ses.used_pages null_lem some_lem);
          undone = λ h. absurd (ground (arith, h, q.0));
        }
        | inr q ↦ short-IsHeld env.get_user_pages b.src ses.used_pages true m _ q q.0 refl refl
      ])

-- What the input half leaves for the output half.
record InputHeld (ses : UserPages) (got : Userbuf) : Type 0 where
  fine : is_nonzero got.code ≡ false
  spliced : (pages : List ℕ) × (got.ses.pages ≡ splice 0 got.pinned pages)
  count : length got.pinned ≡ ses.readonly_pages
  used : got.ses.used_pages ≡ ses.used_pages
  readonly : got.ses.readonly_pages ≡ ses.readonly_pages

-- The input half may also have failed.
abbrev InputDone : GetUserPages → UserPages → Userbuf → Type 0
InputDone get_user_pages ses got =
    InputHeld ses got ⊎ (is_nonzero got.code ≡ true) × IsHeld get_user_pages got

input-InputDone :
    (env : Paging) (b : UserBuf) (ses : UserPages)
    → Clipped b
    → ses.readonly_pages ≡ pagecount b.src b.src_len
    → Always (InputDone env.get_user_pages ses) (get_input env b ses)
unfolding get_input
input-InputDone env b ses c r =
    Always-cases (InputDone env.get_user_pages ses) (b.src == 0) _ _
      (λ e. inl (record {
        fine = refl;
        spliced = (ses.pages, refl);
        count = sym (r ∙ pagecount_none b.src b.src_len (c.0 e));
        used = refl;
        readonly = refl;
      }))
      (λ e.
        Always-chain _ (InputDone env.get_user_pages ses)
          (get_userbuf_pages env.get_user_pages (env.stale 0) b.src b.src_len false
            ses.readonly_pages ses.array_size)
          _
          (get_userbuf_pages-Pins env.get_user_pages (env.stale 0) b.src b.src_len false
            ses.readonly_pages ses.array_size)
          (λ m p. elim p [
            | inl q ↦ inl (record {
              fine = q.0;
              spliced = (ses.pages, refl);
              count =
                  q.1
                  ∙ count_lem b.src b.src_len ses.readonly_pages
                      (λ h. absurd (ground (arith, h, e)))
                      (λ h. r ∙ pagecount_none b.src b.src_len h);
              used = refl;
              readonly = refl;
            })
            | inr q ↦ inr (
              q.0,
              short-IsHeld env.get_user_pages b.src ses.readonly_pages false m _ q q.0 refl refl,
            )
          ]))

-- Both writes into the array.
both_lem :
    (xs ys pages pages0 : List ℕ) (at used : ℕ)
    → pages ≡ splice 0 xs pages0
    → length xs ≡ at
    → length ys ≡ used - at
    → at ≤ used
    → read_pages (splice at ys pages) used ≡ xs ++ ys
both_lem xs ys pages pages0 at used e x y le =
    let n : used ≡ length xs + length ys = omega (arith, x, y) in
    ap (λ p. read_pages (splice at ys p) used) e
    ∙ read_pages_prefix (xs ++ ys) (splice at ys (splice 0 xs pages0)) used
        (n ∙ sym (length-append xs ys)) (take-splice xs ys pages0 at used (sym x) n)

-- What the release after a failure of the output half puts.
short_lem :
    (get_user_pages : GetUserPages) (reserved : ℕ → Bool) (ses : UserPages) (xs pages0 : List ℕ)
    (addr : ℕ) (m : Mapped)
    → AtMost get_user_pages
    → ses.pages ≡ splice 0 xs pages0
    → length xs ≡ ses.readonly_pages
    → ses.readonly_pages ≤ ses.used_pages
    → PinsShort get_user_pages addr (ses.used_pages - ses.readonly_pages) true m
    → Undone get_user_pages
        (xs ++ m.pinned)
        (release_user_pages reserved
          (record ses { pages = splice ses.readonly_pages m.pinned ses.pages })).0
short_lem get_user_pages reserved ses xs pages0 addr m most e x le (bad, short, n) =
    let at = ses.readonly_pages in
    let written : UserPages = record ses { pages = splice at m.pinned ses.pages } in
    let few : length m.pinned ≤ ses.used_pages - at =
      omega (arith, ap length short, most addr (ses.used_pages - at) true) in
    let sum = length-append xs m.pinned in
    let front : take (length (xs ++ m.pinned)) written.pages ≡ xs ++ m.pinned =
      ap (λ p. take (length (xs ++ m.pinned)) (splice at m.pinned p)) e
      ∙ take-splice xs m.pinned pages0 at (length (xs ++ m.pinned)) (sym x) sum in
    let behind =
      read_pages_behind (xs ++ m.pinned) written.pages ses.used_pages (omega (arith, sum, x, few))
        front in
    overrun xs m.pinned behind.0 addr (ses.used_pages - at) true refl short n
      ((release_user_pages_lem reserved written).0 ∙ behind.1) (omega (arith, behind.2, sum, x))

output-IsHeld :
    (env : Paging) (b : UserBuf) (ses : UserPages) (got : Userbuf)
    → AtMost env.get_user_pages
    → Clipped b
    → ses.used_pages ≡ ses.readonly_pages + pagecount b.dst b.dst_len
    → InputHeld ses got
    → Always (IsHeld env.get_user_pages) (get_output env b got)
unfolding get_output
output-IsHeld env b ses got most c u i =
    let gup = env.get_user_pages in
    let at = got.ses.readonly_pages in
    let n = got.ses.used_pages - at in
    let count : n ≡ pagecount b.dst b.dst_len = omega (arith, i.used, i.readonly, u) in
    let le : at ≤ got.ses.used_pages = omega (arith, i.used, i.readonly, u) in
    Always-cases (IsHeld gup) (b.dst == 0) _ _
      (λ e. record {
        held = λ h.
            ap (λ p. read_pages p got.ses.used_pages) i.spliced.1
            ∙ splice-held got.pinned i.spliced.0 got.ses.used_pages
                (omega (arith, i.count, i.used, u, pagecount_none b.dst b.dst_len (c.1 e)));
        undone = λ h. absurd (ground (arith, h, i.fine));
      })
      (λ e.
        Always-chain _ (IsHeld gup)
          (get_userbuf_pages gup (env.stale at) b.dst b.dst_len true n (got.ses.array_size - at)) _
          (get_userbuf_pages-Pins gup (env.stale at) b.dst b.dst_len true n
            (got.ses.array_size - at))
          (λ m p. elim p [
            | inl q ↦ rw q.0 (record {
              held = λ h.
                  both_lem got.pinned m.pinned got.ses.pages i.spliced.0 at got.ses.used_pages
                    i.spliced.1 (i.count ∙ sym i.readonly)
                    (q.1
                      ∙ count_lem b.dst b.dst_len n (λ g. absurd (ground (arith, g, e)))
                          (λ g. count ∙ pagecount_none b.dst b.dst_len g))
                    le;
              undone = λ h. absurd (ground (arith, h, q.0));
            })
            | inr q ↦ rw q.0 (record {
              held = λ h. absurd (ground (arith, h, q.0));
              undone = λ h.
                  short_lem gup env.reserved got.ses got.pinned i.spliced.0 b.dst m most i.spliced.1
                    (i.count ∙ sym i.readonly) le q;
            })
          ]))

separate-IsHeld :
    (env : Paging) (b : UserBuf) (ses : UserPages)
    → AtMost env.get_user_pages
    → Clipped b
    → ses.readonly_pages ≡ pagecount b.src b.src_len
    → ses.used_pages ≡ ses.readonly_pages + pagecount b.dst b.dst_len
    → Always (IsHeld env.get_user_pages) (get_separate env b ses)
unfolding get_separate
separate-IsHeld env b ses most c r u =
    Always-chain (InputDone env.get_user_pages ses) (IsHeld env.get_user_pages)
      (get_input env b ses) _ (input-InputDone env b ses c r)
      (λ got i. elim i [
        | inl h ↦ rw (h.fine) (output-IsHeld env b ses got most c u h)
        | inr h ↦ rw (h.0) (h.1)
      ])

-- If `get_user_pages` never pins more pages than asked for, then however `get_userbuf` returns, and
-- whatever its buffers are (NULL, empty, equal or not): if it succeeds, the session counts exactly
-- the pages that it has pinned. If it fails, it has put every page that it has pinned, in order and
-- once, unless the failure is a call of `get_user_pages` that pins fewer pages than asked for. Then
-- either the pages of that call are all that is pinned, and nothing is put; or all pages pinned are
-- put, those of that call last, and after them as many further entries, of whatever value, as pages
-- are missing.
pub get_userbuf-IsHeld :
    (env : Paging) (buf : UserBuf) (ses : UserPages)
    → AtMost env.get_user_pages
    → Always (IsHeld env.get_user_pages) (get_userbuf env buf ses)
unfolding get_userbuf
get_userbuf-IsHeld env buf ses w =
    let b = clip buf in
    let counted = count_pages b ses in
    Always-chain (SameCounts counted) (IsHeld env.get_user_pages)
      (if ltb counted.array_size counted.used_pages
        then adjust_sg_array env.pages_ok env.sg_ok counted counted.used_pages
        else some (success, counted))
      _
      (Always-if (SameCounts counted) (ltb counted.array_size counted.used_pages) _ _
        (adjust_sg_array-SameCounts env.pages_ok env.sg_ok counted counted.used_pages) (refl, refl))
      (λ grown g.
        Always-cases (IsHeld env.get_user_pages) (is_nonzero grown.0) _ _
          (λ e. record { held = λ h. absurd (ground (arith, h, e)); undone = λ h. balanced refl })
          (λ e.
            Always-cases (IsHeld env.get_user_pages) (b.src == b.dst) _ _
              (λ f. inplace-IsHeld env b grown.1 (clip-Clipped buf) f (g.0 ∙ rw f refl))
              (λ f.
                let n = pagecount b.src b.src_len in
                let readonly : grown.1.readonly_pages ≡ n = g.1 ∙ rw f refl in
                let used : grown.1.used_pages ≡ n + pagecount b.dst b.dst_len = g.0 ∙ rw f refl in
                separate-IsHeld env b grown.1 w (clip-Clipped buf) readonly (rw readonly used))))
