-- ===== src/Zc/Balance/Counts.antt =====
-- What one call of `__get_userbuf` and `adjust_sg_array` do to the counts of a session (zc.c).
use cryptodev_linux.Prelude.{
  ℕ, suc, ◌+◌, ◌-◌, ◌≤◌, ◌⊎◌, inl, inr, ◌++◌, [], drop, replicate, length-append, length-take,
  length-replicate, length-drop, take-append-drop, take-append_le, ◌≡◌, refl, sym, ap, ◌∙◌, true,
  false, Bool, ◌||◌, not, List, length, take, Code, is_nonzero, ltb, ◌==◌, if◌then◌else◌, arith,
  Always, Always-bind, Always-if, Always-cases, take-length_append,
}
use cryptodev_linux.Sg.{SgEntry}
use cryptodev_linux.Zc.Defs.{
  GetUserPages, Mapped, UserPages, Userbuf, pagecount, fill_table, get_userbuf_pages, double_until,
  resize, adjust_sg_array, splice, read_pages,
}
use cryptodev_linux.Zc.Buffers.{read_pages_prefix}
use cryptodev_linux.Zc.Release.{puts}
use cryptodev_linux.Zc.Defs.{PageOp}

-- `get_user_pages` never pins more pages than asked for.
abbrev pub AtMost : GetUserPages → Type 0
AtMost get_user_pages =
    (addr pgcount : ℕ) (write : Bool) → length (get_user_pages addr pgcount write) ≤ pgcount

-- How many pages `__get_userbuf` pins: none if there is nothing to do.
abbrev pub pinned_pages : ℕ → ℕ → ℕ → ℕ
pinned_pages addr len pgcount = if pgcount == 0 || (len == 0 || addr == 0) then 0 else pgcount

-- It fails if `get_user_pages` pins fewer pages than asked for, and otherwise has pinned them all.
abbrev pub PinsWhole : ℕ → ℕ → ℕ → Mapped → Type 0
PinsWhole addr len pgcount m =
    (is_nonzero m.code ≡ false) × (length m.pinned ≡ pinned_pages addr len pgcount)

abbrev pub PinsShort : GetUserPages → ℕ → ℕ → Bool → Mapped → Type 0
PinsShort get_user_pages addr pgcount write m =
    (is_nonzero m.code ≡ true)
    × (m.pinned ≡ get_user_pages addr pgcount write)
    × ((length m.pinned == pgcount) ≡ false)

same_lem : (a b : ℕ) → a ≡ b → (a == b) ≡ true
same_lem a b e = ground arith

pub get_userbuf_pages-Pins :
    (get_user_pages : GetUserPages) (stale : SgEntry) (addr len : ℕ) (write : Bool)
    (pgcount room : ℕ)
    → Always
        (λ m. PinsWhole addr len pgcount m ⊎ PinsShort get_user_pages addr pgcount write m)
        (get_userbuf_pages get_user_pages stale addr len write pgcount room)
unfolding get_userbuf_pages
get_userbuf_pages-Pins get_user_pages stale addr len write pgcount room =
    let pg = get_user_pages addr pgcount write in
    let P : Mapped → Type 0 =
      λ m. PinsWhole addr len pgcount m ⊎ PinsShort get_user_pages addr pgcount write m in
    Always-cases P (pgcount == 0 || (len == 0 || addr == 0)) _ _
      (λ e. Always-if P (room == 0) _ _ tt (inl (refl, rw e refl)))
      (λ e.
        Always-cases P (not (length pg == pgcount)) _ _ (λ f. inr (refl, refl, ground (arith, f)))
          (λ f. Always-if P (ltb room pgcount) _ _ tt (
            Always-bind P (fill_table addr len pg) _ (λ sg. inl (refl, rw e (ground (arith, f)))))))

-- `adjust_sg_array` keeps the counts.
abbrev pub SameCounts : UserPages → Code × UserPages → Type 0
SameCounts ses r = (r.1.used_pages ≡ ses.used_pages) × (r.1.readonly_pages ≡ ses.readonly_pages)

resize-SameCounts :
    (pages_ok sg_ok : Bool) (ses : UserPages) (n : ℕ) → SameCounts ses (resize pages_ok sg_ok ses n)
unfolding resize
resize-SameCounts false sg_ok ses n = (refl, refl)
resize-SameCounts true false ses n = (refl, refl)
resize-SameCounts true true ses n = (refl, refl)

pub adjust_sg_array-SameCounts :
    (pages_ok sg_ok : Bool) (ses : UserPages) (n : ℕ)
    → Always (SameCounts ses) (adjust_sg_array pages_ok sg_ok ses n)
unfolding adjust_sg_array
adjust_sg_array-SameCounts pages_ok sg_ok ses n =
    Always-bind (SameCounts ses) (double_until (suc n) ses.array_size n) _
      (λ size. resize-SameCounts pages_ok sg_ok ses size)

-- What becomes of pinned pages. They are put; or a call of `get_user_pages` has pinned fewer pages
-- than asked for: either its pages, all that is pinned, leak; or every page pinned is put, and
-- behind them as many entries as the call has missed, whatever they are.
pub data Undone (get_user_pages : GetUserPages) (pinned : List ℕ) (released : List PageOp)
    : Type 0 where
  balanced : puts released ≡ pinned → Undone get_user_pages pinned released
  leaked :
      (addr pgcount : ℕ) (write : Bool)
      → pinned ≡ get_user_pages addr pgcount write
      → (length pinned == pgcount) ≡ false
      → released ≡ []
      → Undone get_user_pages pinned released
  overrun :
      (first short stale : List ℕ) (addr pgcount : ℕ) (write : Bool)
      → pinned ≡ first ++ short
      → short ≡ get_user_pages addr pgcount write
      → (length short == pgcount) ≡ false
      → puts released ≡ pinned ++ stale
      → length short + length stale ≡ pgcount
      → Undone get_user_pages pinned released

-- If `get_userbuf` or its kind succeeds, the session counts exactly the pages pinned.
pub record IsHeld (get_user_pages : GetUserPages) (got : Userbuf) : Type 0 where
  pub held : is_nonzero got.code ≡ false → read_pages got.ses.pages got.ses.used_pages ≡ got.pinned
  pub undone : is_nonzero got.code ≡ true → Undone get_user_pages got.pinned got.released

-- A failure of the first call: what it has pinned stays pinned.
pub short-IsHeld :
    (get_user_pages : GetUserPages) (addr pgcount : ℕ) (write : Bool) (m : Mapped) (got : Userbuf)
    → PinsShort get_user_pages addr pgcount write m
    → is_nonzero got.code ≡ true
    → got.pinned ≡ m.pinned
    → got.released ≡ []
    → IsHeld get_user_pages got
short-IsHeld get_user_pages addr pgcount write m got (c, e, n) bad p r = record {
  held = λ h. absurd (ground (arith, h, bad));
  undone = λ h. leaked addr pgcount write (p ∙ e) (ap (λ k. length k == pgcount) p ∙ n) r;
}

-- The entries of the array from `k` on, of which the first `k` are known.
pub read_pages_behind :
    (xs pages : List ℕ) (n : ℕ)
    → length xs ≤ n
    → take (length xs) pages ≡ xs
    → (stale : List ℕ) × (read_pages pages n ≡ xs ++ stale) × (length xs + length stale ≡ n)
read_pages_behind xs pages n le e =
    let all = pages ++ replicate (n - length pages) 0 in
    let k = length xs in
    let in_pages : k ≤ length pages = omega (arith, length-take k pages, ap length e) in
    let size : length (take n all) ≡ n = omega (
      arith,
      length-take n all,
      length-append pages (replicate (n - length pages) 0),
      length-replicate {A = ℕ} (n - length pages) 0,
    ) in
    let front : take k (take n all) ≡ xs =
      sym (take-append_le k (take n all) (drop n all) (omega (arith, size, le)))
      ∙ ap (take k) (take-append-drop n all)
      ∙ take-append_le k pages (replicate (n - length pages) 0) in_pages
      ∙ e in
    (
      drop k (take n all),
      sym (take-append-drop k (take n all)) ∙ ap (λ x. x ++ drop k (take n all)) front,
      omega (arith, length-drop k (take n all), size, le),
    )

pub splice-held :
    (fs pages : List ℕ) (n : ℕ) → length fs ≡ n → read_pages (splice 0 fs pages) n ≡ fs
splice-held fs pages n e =
    read_pages_prefix fs (splice 0 fs pages) n (sym e)
      (ap (λ k. take k (splice 0 fs pages)) (sym e) ∙ take-length_append fs _)

-- As `pinned_pages` counts, the pages of a buffer whose length is 0 if it is NULL.
pub count_lem :
    (addr len n : ℕ)
    → ((addr == 0) ≡ true → n ≡ 0)
    → ((len == 0) ≡ true → n ≡ 0)
    → pinned_pages addr len n ≡ n
count_lem addr len n a l = ground (arith, a, l)

pub pagecount_none : (buf len : ℕ) → (len == 0) ≡ true → pagecount buf len ≡ 0
unfolding pagecount
pagecount_none buf len e = rw e refl

pagecount_null : (buf len : ℕ) → (buf == 0) ≡ true → pagecount buf (if buf == 0 then 0 else len) ≡ 0
pagecount_null buf len e = rw e (pagecount_none buf 0 refl)
