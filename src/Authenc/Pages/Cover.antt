-- ===== src/Authenc/Pages/Cover.antt =====
-- The pages of an authenticated encryption are those of the user's buffers, and all are put again
-- (authenc.c).
use cryptodev_linux.Prelude.{
  ℕ, ◌≡◌, ap, ◌∙◌, List, [], map, length, take, success, range, take-length_append,
}
use cryptodev_linux.Sg.{sg_addrs}
use cryptodev_linux.Zc.Defs.{Userbuf, splice, read_pages}
use cryptodev_linux.Zc.Cover.{phys}
use cryptodev_linux.Zc.Buffers.{read_pages_prefix}

-- What both functions promise when they succeed: the session counts exactly the pages pinned, none of
-- them is put yet, and the destination's table covers `len` bytes from `addr` on.
pub record Mapping (frame : ℕ → ℕ) (addr len : ℕ) (got : Userbuf) : Type 0 where
  pub succeeds : got.code ≡ success
  pub writes : sg_addrs got.dst_sg ≡ map (phys frame) (range addr len)
  pub holds_pinned : read_pages got.ses.pages got.ses.used_pages ≡ got.pinned
  pub none_released : got.released ≡ []

pub spliced_lem :
    (fs pages : List ℕ) (n : ℕ) → n ≡ length fs → read_pages (splice 0 fs pages) n ≡ fs
spliced_lem fs pages n e =
    read_pages_prefix fs (splice 0 fs pages) n e
      (ap (λ k. take k (splice 0 fs pages)) e ∙ take-length_append fs _)
