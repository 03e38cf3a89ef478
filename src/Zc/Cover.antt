-- ===== src/Zc/Cover.antt =====
-- The tables that `__get_userbuf` builds cover the user's buffer, byte by byte.
use cryptodev_linux.Prelude.{
  ℕ, zero, suc, Bool, sym, ◌+◌, ◌-◌, ◌*◌, ◌/◌, ◌%◌, ◌^◌, ◌≤◌, ◌<◌, ◌≡◌, refl, ap, ◌∙◌, inl, inr,
  min, true, false, some, List, [], ◌∷◌, ◌++◌, map, arith, ◌==◌, ltb, Bool-cases, length, replicate,
  range, range-add, length-replicate, success,
}
use mathlib.Core.List.{map-append}
use cryptodev_linux.Sg.{SgEntry, sg_addrs, page_size}
use cryptodev_linux.Zc.Defs.{
  pagecount, fill_pages, fill_table, blank, get_userbuf_pages, GetUserPages,
}

-- PAGECOUNT of a buffer with at least one and less than 2 ^ 32 bytes, within the 64-bit addresses, is
-- the least number of pages from the buffer's first that holds it.
pub pagecount_least :
    (buf len : ℕ)
    → 0 < len
    → len < 2 ^ 32
    → buf + len ≤ 2 ^ 64
    → (buf % page_size + len ≤ pagecount buf len * page_size)
      × (pagecount buf len * page_size < buf % page_size + len + page_size)
unfolding pagecount
pagecount_least buf len p q r = ground arith

-- Where the kernel keeps the byte at a user address, if `frame` gives the frame of each page.
abbrev pub phys : (ℕ → ℕ) → ℕ → ℕ
phys frame a = frame (a / page_size) * page_size + a % page_size

-- The frames of `n` pages from the one numbered `v` on.
abbrev pub frames : (ℕ → ℕ) → ℕ → ℕ → List ℕ
frames frame v n = map frame (range v n)

pub length-frames : (frame : ℕ → ℕ) (v n : ℕ) → length (frames frame v n) ≡ n
length-frames frame v zero = refl
length-frames frame v (suc n) = ap suc (length-frames frame (v + 1) n)

range-phys :
    (frame : ℕ → ℕ) (v off n : ℕ)
    → off + n ≤ page_size
    → range (frame v * page_size + off) n ≡ map (phys frame) (range (v * page_size + off) n)
range-phys frame v off zero h = refl
range-phys frame v off (suc n) h =
    let q : (v * page_size + off) / page_size ≡ v = omega arith in
    let r : (v * page_size + off) % page_size ≡ off = omega arith in
    let s : frame v * page_size + off + 1 ≡ frame v * page_size + (off + 1) = omega arith in
    let t : v * page_size + off + 1 ≡ v * page_size + (off + 1) = omega arith in
    rw (q, r, s, t)
      (ap (◌∷◌ (frame v * page_size + off)) (range-phys frame v (off + 1) n (omega arith)))

-- The bytes behind the first `n` of a buffer begin the next page, if there are any.
next_page :
    (v off n len : ℕ)
    → n ≡ min (page_size - off) len
    → off < page_size
    → range (v * page_size + off + n) (len - n) ≡ range ((v + 1) * page_size) (len - n)
next_page v off n len h p = elim (Bool-cases (ltb n len)) [
  | inl e ↦ ap (λ a. range a (len - n)) (ground arith)
  | inr e ↦ let z : len - n ≡ 0 = ground arith in rw z
]

-- One entry, and a table that covers the rest of the buffer from the next page on.
entry_covers :
    (frame : ℕ → ℕ) (v off n len : ℕ) (sg : List SgEntry)
    → n ≡ min (page_size - off) len
    → off < page_size
    → sg_addrs sg ≡ map (phys frame) (range ((v + 1) * page_size) (len - n))
    → range (frame v * page_size + off) n ++ sg_addrs sg
      ≡ map (phys frame) (range (v * page_size + off) len)
entry_covers frame v off n len sg h p e =
    let s : len ≡ n + (len - n) = omega arith in
    rw (e, range-phys frame v off n (omega arith), ← next_page v off n len h p)
      (sym (
          map-append (phys frame) (range (v * page_size + off) n)
            (range (v * page_size + off + n) (len - n)))
        ∙ ap (map (phys frame)) (
            sym (range-add (v * page_size + off) n (len - n))
            ∙ ap (range (v * page_size + off)) (sym s)))

sg_addrs-blank : (n : ℕ) → sg_addrs (replicate n blank) ≡ []
sg_addrs-blank zero = refl
sg_addrs-blank (suc n) = sg_addrs-blank n

fill_pages_covers :
    (frame : ℕ → ℕ) (v k len : ℕ)
    → len ≤ k * page_size
    → (sg : List SgEntry) × (fill_pages (frames frame v k) len ≡ some sg)
      × (length sg ≡ k)
      × (sg_addrs sg ≡ map (phys frame) (range (v * page_size) len))
unfolding fill_pages
fill_pages_covers frame v zero len h = let z : len ≡ 0 = omega arith in rw z ([], refl, refl, refl)
fill_pages_covers frame v (suc k) len h = elim (Bool-cases (len == 0)) [
  | inl e ↦
      let z : len ≡ 0 = ground arith in
      rw z (
        blank ∷ replicate (length (frames frame (v + 1) k)) blank,
        refl,
        ap suc (length-replicate _ blank ∙ length-frames frame (v + 1) k),
        sg_addrs-blank (length (frames frame (v + 1) k)),
      )
  | inr e ↦
      let ih = fill_pages_covers frame (v + 1) k (len - min page_size len) (omega arith) in
      let z : v * page_size + 0 ≡ v * page_size = omega arith in
      rw (e, ih.1)
        (
          record { page = frame v; offset = 0; length = min page_size len } ∷ ih.0,
          refl,
          ap suc ih.2,
          entry_covers frame v 0 (min page_size len) len ih.0 (omega arith) (omega arith) ih.3
              ∙ ap (λ a. map (phys frame) (range a len)) z,
        )
]

fill_table_covers :
    (frame : ℕ → ℕ) (addr k len : ℕ)
    → 0 < k
    → addr % page_size + len ≤ k * page_size
    → (sg : List SgEntry) × (fill_table addr len (frames frame (addr / page_size) k) ≡ some sg)
      × (length sg ≡ k)
      × (sg_addrs sg ≡ map (phys frame) (range addr len))
unfolding fill_table
fill_table_covers frame addr zero len p h = absurd (omega arith)
fill_table_covers frame addr (suc k) len p h =
    let n = min (page_size - addr % page_size) len in
    let ih = fill_pages_covers frame (addr / page_size + 1) k (len - n) (omega arith) in
    let z : addr / page_size * page_size + addr % page_size ≡ addr = omega arith in
    rw ih.1 (
      record { page = frame (addr / page_size); offset = addr % page_size; length = n } ∷ ih.0,
      refl,
      ap suc ih.2,
      entry_covers frame (addr / page_size) (addr % page_size) n len ih.0 refl (omega arith) ih.3
          ∙ ap (λ a. map (phys frame) (range a len)) z,
    )

-- The documented result of `get_user_pages` when it succeeds: the frames of the pages asked for.
abbrev pub Pins : GetUserPages → (ℕ → ℕ) → ℕ → ℕ → Bool → Type 0
Pins get_user_pages frame addr pgcount write =
    get_user_pages addr pgcount write ≡ frames frame (addr / page_size) pgcount

-- With as many pages as PAGECOUNT says, `__get_userbuf` does not run over its table, and what it
-- builds has one entry for each page and covers the buffer.
pub get_userbuf_pages_covers :
    (get_user_pages : GetUserPages) (frame : ℕ → ℕ) (stale : SgEntry) (addr len pgcount : ℕ)
    (write : Bool) (room : ℕ)
    → 0 < addr
    → 0 < len
    → 0 < pgcount
    → addr % page_size + len ≤ pgcount * page_size
    → pgcount ≤ room
    → Pins get_user_pages frame addr pgcount write
    → (sg : List SgEntry) × (get_userbuf_pages get_user_pages stale addr len write pgcount room
        ≡ some
            (record { code = success; pinned = frames frame (addr / page_size) pgcount; sg = sg }))
      × (length sg ≡ pgcount)
      × (sg_addrs sg ≡ map (phys frame) (range addr len))
unfolding get_userbuf_pages
get_userbuf_pages_covers get_user_pages frame stale addr len pgcount write room pa pl pc cover fits
      pins =
    let t = fill_table_covers frame addr pgcount len pc cover in
    let a0 : (addr == 0) ≡ false = ground arith in
    let l0 : (len == 0) ≡ false = ground arith in
    let p0 : (pgcount == 0) ≡ false = ground arith in
    let eq : (length (frames frame (addr / page_size) pgcount) == pgcount) ≡ true =
      ground (arith, length-frames frame (addr / page_size) pgcount) in
    let rm : ltb room pgcount ≡ false = ground arith in
    rw (p0, l0, a0, pins, eq, rm, t.1) (t.0, refl, t.2, t.3)
