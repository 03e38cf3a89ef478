-- ===== src/Sg/Laws.antt =====
-- What `sg_advance` and `sg_copy` do to the bytes that a table covers.
use cryptodev_linux.Prelude.{
  ℕ, zero, suc, ◌-◌, ◌≤◌, ◌<◌, ◌≡◌, refl, ap, ◌↔◌, inl, inr, false, List, [], ◌∷◌, ◌++◌, success,
  ltb, leb, leb→le, ◌==◌, Bool-cases, range, length, take, drop, arith, length-append, length-range,
  drop-append_le, drop-append_ge, take-append_ge, take-append_le, drop-range, take-range,
  append-nil,
}
use cryptodev_linux.Sg.{SgEntry, entry_addrs, sg_addrs, in_first_page, sg_advance, sg_copy}

-- Moving an entry to its first page changes none of its addresses.
in_first_page-addrs : (e : SgEntry) → entry_addrs (in_first_page e) ≡ entry_addrs e
unfolding in_first_page
in_first_page-addrs e = elim (Bool-cases (leb 4096 e.offset)) [
  | inl h ↦ rw h (ap (λ a. range a e.length) (omega arith))
  | inr h ↦ rw h
]

length-entry_addrs : (e : SgEntry) → length (entry_addrs e) ≡ e.length
length-entry_addrs e = length-range _ e.length

-- `sg_advance` drops the first `consumed` bytes of what the table covers.
pub sg_addrs-sg_advance :
    (sg : List SgEntry) (consumed : ℕ)
    → sg_addrs (sg_advance sg consumed) ≡ drop consumed (sg_addrs sg)
unfolding sg_advance
sg_addrs-sg_advance [] zero = refl
sg_addrs-sg_advance [] (suc n) = refl
sg_addrs-sg_advance (sg ∷ rest) consumed = elim (Bool-cases (leb sg.length consumed)) [
  | inl h ↦
      rw
        (
          h,
          drop-append_ge consumed (entry_addrs sg) (sg_addrs rest)
              (omega (arith, leb→le sg.length consumed, length-entry_addrs sg)),
          length-entry_addrs sg,
        )
        (sg_addrs-sg_advance rest (consumed - sg.length))
  | inr h ↦
      rw
        (
          h,
          in_first_page-addrs,
          drop-append_le consumed (entry_addrs sg) (sg_addrs rest)
              (ground (arith, length-entry_addrs sg)),
          drop-range consumed,
        )
        (ap (λ a. range a (sg.length - consumed) ++ sg_addrs rest) (omega arith))
]

-- The result is NULL exactly when that is all of them.
pub sg_advance-eq-nil :
    (sg : List SgEntry) (consumed : ℕ)
    → (sg_advance sg consumed ≡ []) ↔ (length (sg_addrs sg) ≤ consumed)
unfolding sg_advance
sg_advance-eq-nil [] consumed = (λ h. omega arith, λ h. refl)
sg_advance-eq-nil (sg ∷ rest) consumed = ground (
  arith,
  sg_advance-eq-nil rest (consumed - sg.length),
  length-append (entry_addrs sg) (sg_addrs rest),
  length-entry_addrs sg,
)

-- `sg_copy` of a length above 0 that the source covers, into a table with as many entries, succeeds
-- and leaves a table that covers the first `len` bytes of what the source covers.
pub sg_copy_covers :
    (sg_from sg_to : List SgEntry) (len : ℕ)
    → length sg_from ≤ length sg_to
    → 0 < len
    → len ≤ length (sg_addrs sg_from)
    → ((sg_copy sg_from sg_to len).0 ≡ success)
      × (sg_addrs (sg_copy sg_from sg_to len).1 ≡ take len (sg_addrs sg_from))
unfolding sg_copy
sg_copy_covers [] sg_to len h p q = absurd (omega arith)
sg_copy_covers (from ∷ sg_from) [] len h p q = absurd (omega arith)
sg_copy_covers (from ∷ sg_from) (to ∷ sg_to) len h p q = elim (Bool-cases (ltb from.length len)) [
  | inl more ↦ rw more (
      let ih = sg_copy_covers sg_from sg_to (len - from.length) (omega arith) (ground arith) (
        ground
          (arith, length-append (entry_addrs from) (sg_addrs sg_from), length-entry_addrs from)) in
      (
        ih.0,
        rw (
          ih.1,
          take-append_ge len (entry_addrs from) (sg_addrs sg_from)
              (ground (arith, length-entry_addrs from)),
          length-entry_addrs from,
        ),
      ))
  | inr last ↦ rw last (
      let ne : (len == 0) ≡ false = ground arith in
      rw ne (
        refl,
        rw
            (
              append-nil,
              take-append_le len (entry_addrs from) (sg_addrs sg_from)
                  (ground (arith, length-entry_addrs from)),
              take-range,
            )
            (ap (range _) (ground arith)),
      ))
]
