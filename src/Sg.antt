-- ===== src/Sg.antt =====
-- util.c: scatterlists. A table is the list of its entries, the end mark being the list's end.
pub mod Laws
use cryptodev_linux.Prelude.{
  ℕ, ◌+◌, ◌-◌, ◌*◌, ◌/◌, ◌%◌, List, [], ◌∷◌, ◌++◌, Code, fail, enomem, success, ltb, leb, ◌==◌,
  if◌then◌else◌, range,
}

-- PAGE_SHIFT is 12.
abbrev pub page_size : ℕ
page_size = 4096

-- A page is known by its frame number.
pub record SgEntry : Type 0 where
  pub page : ℕ
  pub offset : ℕ
  pub length : ℕ

-- The addresses of the bytes that a table covers, in order.
abbrev pub entry_addrs : SgEntry → List ℕ
entry_addrs e = range (e.page * page_size + e.offset) e.length

abbrev pub sg_addrs : List SgEntry → List ℕ
sg_addrs [] = []
sg_addrs (e ∷ es) = entry_addrs e ++ sg_addrs es

-- The last step of `sg_advance`: an offset past the page's end moves on to a later page.
pub in_first_page : SgEntry → SgEntry
in_first_page e =
    if leb page_size e.offset
    then record e { page = e.page + e.offset / page_size; offset = e.offset % page_size }
    else e

-- NULL is the empty list.
pub sg_advance : List SgEntry → ℕ → List SgEntry
unfolding in_first_page
sg_advance [] consumed = []
sg_advance (sg ∷ rest) consumed =
    if leb sg.length consumed
    then sg_advance rest (consumed - sg.length)
    else in_first_page (record sg { offset = sg.offset + consumed; length = sg.length - consumed })
      ∷ rest

-- The table `sg_to` as the call leaves it. The entry at which it is marked as ended is its last.
pub sg_copy : List SgEntry → List SgEntry → ℕ → Code × List SgEntry
sg_copy [] sg_to len = (fail enomem, sg_to)
sg_copy (from ∷ sg_from) [] len = (fail enomem, [])
sg_copy (from ∷ sg_from) (to ∷ sg_to) len =
    let rest = sg_copy sg_from sg_to (len - from.length) in
    if ltb from.length len
    then (rest.0, from ∷ rest.1)
    else if len == 0
    then (success, to ∷ [])
    else (success, record from { length = len } ∷ [])
