-- ===== src/Zc/Release.antt =====
-- `release_user_pages`: every page that the session holds is put once.
use cryptodev_linux.Prelude.{ℕ, zero, suc, ◌-◌, ◌≡◌, refl, Bool, List, [], ◌∷◌, arith, drop}
use cryptodev_linux.Zc.Defs.{
  UserPages, PageOp, set_dirty, flush_dcache, put_page, release_each, read_pages,
  release_user_pages,
}

abbrev pub puts : List PageOp → List ℕ
puts [] = []
puts (set_dirty p ∷ ops) = puts ops
puts (flush_dcache p ∷ ops) = puts ops
puts (put_page p ∷ ops) = p ∷ puts ops

abbrev pub flushes : List PageOp → List ℕ
flushes [] = []
flushes (set_dirty p ∷ ops) = flushes ops
flushes (flush_dcache p ∷ ops) = p ∷ flushes ops
flushes (put_page p ∷ ops) = flushes ops

puts-release_each :
    (reserved : ℕ → Bool) (pages : List ℕ) (ro : ℕ)
    → puts (release_each reserved pages ro).0 ≡ pages
unfolding release_each
puts-release_each reserved [] ro = refl
puts-release_each reserved (p ∷ ps) ro = ground (arith, puts-release_each reserved ps (ro - 1))

flushes-release_each :
    (reserved : ℕ → Bool) (pages : List ℕ) (ro : ℕ)
    → flushes (release_each reserved pages ro).0 ≡ drop ro pages
unfolding release_each
flushes-release_each reserved [] zero = refl
flushes-release_each reserved [] (suc ro) = refl
flushes-release_each reserved (p ∷ ps) zero =
    ground (arith, flushes-release_each reserved ps (0 - 1))
flushes-release_each reserved (p ∷ ps) (suc ro) =
    ground (arith, flushes-release_each reserved ps (suc ro - 1))

-- `release_user_pages` puts each page that the session counts, in order and once, flushes exactly
-- those behind the read-only ones, and leaves none counted.
pub release_user_pages_lem :
    (reserved : ℕ → Bool) (ses : UserPages)
    → let (ops, ses') = release_user_pages reserved ses in
      (puts ops ≡ read_pages ses.pages ses.used_pages)
      × (flushes ops ≡ drop ses.readonly_pages (read_pages ses.pages ses.used_pages))
      × (ses'.used_pages ≡ 0)
      × (ses'.array_size ≡ ses.array_size)
      × (ses'.pages ≡ ses.pages)
unfolding release_user_pages
release_user_pages_lem reserved ses = (
  puts-release_each reserved _ ses.readonly_pages,
  flushes-release_each reserved _ ses.readonly_pages,
  refl,
  refl,
  refl,
)
