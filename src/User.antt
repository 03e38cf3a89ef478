-- ===== src/User.antt =====
-- The memory of user processes, and the kernel's calls that copy from it and to it.
use cryptodev_linux.Prelude.{
  ℕ, zero, suc, ◌+◌, ◌≡◌, refl, ap, Bool, ◌||◌, Option, none, some, List, [], ◌∷◌, map, ◌==◌,
  if◌then◌else◌, length, range,
}
use cryptodev_linux.Zc.Cover.{phys}
use cryptodev_linux.Sg.{SgEntry, sg_addrs}

-- The bytes of memory by physical address, the frame behind each page of the process, and the parts
-- of its address space that a copy may read or write.
pub record UserSpace : Type 0 where
  pub ram : ℕ → ℕ
  pub frame : ℕ → ℕ
  pub readable : ℕ → ℕ → Bool
  pub writable : ℕ → ℕ → Bool

abbrev pub user_bytes : UserSpace → ℕ → ℕ → List ℕ
user_bytes u addr n = map u.ram (map (phys u.frame) (range addr n))

abbrev pub poke : (ℕ → ℕ) → ℕ → ℕ → ℕ → ℕ
poke ram a b x = if x == a then b else ram x

abbrev pub write_ram : (ℕ → ℕ) → List ℕ → List ℕ → ℕ → ℕ
write_ram ram [] bytes = ram
write_ram ram (a ∷ addrs) [] = ram
write_ram ram (a ∷ addrs) (b ∷ bytes) = write_ram (poke ram a b) addrs bytes

abbrev pub write_user : UserSpace → ℕ → List ℕ → UserSpace
write_user u addr bytes = record u {
  ram = write_ram u.ram (map (phys u.frame) (range addr (length bytes))) bytes;
}

-- A copy fails as a whole (what it copies before a fault is not modelled).
unfoldable pub copy_from_user : UserSpace → ℕ → ℕ → Option (List ℕ)
copy_from_user u addr n = if n == 0 || u.readable addr n then some (user_bytes u addr n) else none

unfoldable pub copy_to_user : UserSpace → ℕ → List ℕ → Option UserSpace
copy_to_user u addr bytes =
    if length bytes == 0 || u.writable addr (length bytes)
    then some (write_user u addr bytes)
    else none

-- What the hardware or a software cipher reads and writes through a scatterlist.
abbrev pub sg_read : UserSpace → List SgEntry → List ℕ
sg_read u sg = map u.ram (sg_addrs sg)

abbrev pub sg_write : UserSpace → List SgEntry → List ℕ → UserSpace
sg_write u sg bytes = record u { ram = write_ram u.ram (sg_addrs sg) bytes }

pub length-user_bytes : (u : UserSpace) (addr n : ℕ) → length (user_bytes u addr n) ≡ n
length-user_bytes u addr zero = refl
length-user_bytes u addr (suc n) = ap suc (length-user_bytes u (addr + 1) n)
