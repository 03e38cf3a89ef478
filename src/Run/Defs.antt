-- ===== src/Run/Defs.antt =====
-- main.c: one operation on a session, in chunks through a kernel page or on the user's pages.
-- `none` is a wait that nothing ends, or undefined behaviour.
mod Types
pub use Types.*
use cryptodev_linux.Prelude.{
  ℕ, zero, suc, ◌+◌, ◌-◌, ◌%◌, min, Bool, true, false, ◌&&◌, ◌||◌, not, Option, none, some, List,
  [], ◌∷◌, Code, fail, einval, enomem, efault, success, is_nonzero, ltb, ◌==◌, if◌then◌else◌, ◌>>=◌,
  test_bit, set_bit, take,
}
use cryptodev_linux.Sg.{SgEntry, page_size}
use cryptodev_linux.User.{UserSpace, copy_from_user, copy_to_user, sg_read, sg_write}
use cryptodev_linux.Zc.Defs.{Paging, Userbuf, get_userbuf, release_user_pages}
use cryptodev_linux.Cryptlib.Api.{CryptoApi}
use cryptodev_linux.Cryptlib.Cipher.{
  cryptodev_cipher_encrypt, cryptodev_cipher_decrypt, cryptodev_cipher_set_iv,
  cryptodev_cipher_get_iv,
}
use cryptodev_linux.Cryptlib.Hash.{
  cryptodev_hash_reset, cryptodev_hash_update, cryptodev_hash_final,
}
use cryptodev_linux.Session.Defs.{Session, crypto_get_session_by_sid, crypto_put_session}

module _ (api : CryptoApi) where
  -- What `hash_n_crypt` leaves: its result, the session, and the contents of the output. A buffer is
  -- `none` if it has no scatterlist.
  abbrev pub Crypted : Type 0
  Crypted = Code × Session api × Option (List ℕ)

  unfoldable pub update_hash : Session api → Option (List ℕ) → Option (Code × Session api)
  update_hash ses sg =
      if ses.hdata.init
      then (sg >>= λ bytes.
          cryptodev_hash_update api ses.hdata bytes >>= λ h. some (h.0, record ses { hdata = h.1 }))
      else some (success, ses)

  unfoldable pub crypt : Bool → Session api → Option (List ℕ) → Option (List ℕ) → Option Crypted
  crypt encrypt ses src_sg dst_sg =
      if ses.cdata.init
      then (src_sg >>= λ src. dst_sg >>= λ dst.
          (if encrypt
            then cryptodev_cipher_encrypt api ses.cdata src
            else cryptodev_cipher_decrypt api ses.cdata src)
          >>= λ c. some (c.0, record ses { cdata = c.1 }, some c.2))
      else some (success, ses, dst_sg)

  unfoldable pub hash_n_crypt : Session api → ℕ → Option (List ℕ) → Option (List ℕ) → Option Crypted
  hash_n_crypt ses op src_sg dst_sg =
      if op == cop_encrypt
      then (update_hash ses src_sg >>= λ h.
          if is_nonzero h.0 then some (h.0, h.1, dst_sg) else crypt true h.1 src_sg dst_sg)
      else crypt false ses src_sg dst_sg >>= λ c.
          if is_nonzero c.0 then some c else update_hash c.1 c.2 >>= λ h. some (h.0, h.1, c.2)

  -- A result, the session, and the user's memory.
  abbrev pub Ran : Type 0
  Ran = Code × Session api × UserSpace

  -- The end of a round of the loop of `__crypto_run_std`: `page` is what the page holds.
  unfoldable pub write_chunk : ℕ → UserSpace → Crypted → Option Ran
  write_chunk dst u (ret, ses, page) =
      if is_nonzero ret
      then some (ret, ses, u)
      else if ses.cdata.init
      then (page >>= λ bytes. elim (copy_to_user u dst bytes) [
        | none ↦ some (fail efault, ses, u)
        | some u' ↦ some (success, ses, u')
      ])
      else some (success, ses, u)

  -- A round of the loop; a nonzero result is a `break`.
  unfoldable pub run_chunk : ℕ → ℕ → ℕ → ℕ → Session api → UserSpace → Option Ran
  run_chunk op src dst current_len ses u = elim (copy_from_user u src current_len) [
    | none ↦ some (fail efault, ses, u)
    | some page ↦ hash_n_crypt ses op (some page) (some page) >>= write_chunk dst u
  ]

  -- The loop of `__crypto_run_std`; a round handles at least one byte, so `nbytes` rounds are enough.
  unfoldable pub run_chunks : ℕ → ℕ → ℕ → ℕ → ℕ → ℕ → Session api → UserSpace → Option Ran
  run_chunks zero op bufsize src dst nbytes ses u =
      if nbytes == 0 then some (success, ses, u) else none
  run_chunks (suc fuel) op bufsize src dst nbytes ses u =
      let current_len = if ltb bufsize nbytes then bufsize else nbytes in
      let round = run_chunk op src dst current_len ses u >>= λ r.
      (if is_nonzero r.0
        then some r
        else run_chunks fuel op bufsize (src + current_len) (dst + current_len)
            (nbytes - current_len) r.1 r.2) in
      if nbytes == 0 then some (success, ses, u) else round

  -- `__crypto_run_std`; `page_ok` says whether the page can be allocated.
  unfoldable pub crypto_run_std : Bool → Session api → CryptOp → UserSpace → Option Ran
  crypto_run_std page_ok ses cop u =
      if page_ok
      then run_chunks cop.len cop.op (min page_size cop.len) cop.src cop.dst cop.len ses u
      else some (fail enomem, ses, u)

  -- What a scatterlist reads, if there is one.
  abbrev pub sg_bytes : UserSpace → List SgEntry → ℕ → Option (List ℕ)
  sg_bytes u [] len = none
  sg_bytes u (sg ∷ sgs) len = some (take len (sg_read u (sg ∷ sgs)))

  abbrev pub sg_store : UserSpace → List SgEntry → Option (List ℕ) → UserSpace
  sg_store u sg none = u
  sg_store u sg (some bytes) = sg_write u sg bytes

  -- The part of `__crypto_run_zc` after the pages are there.
  unfoldable pub run_mapped : Paging → Session api → CryptOp → UserSpace → Userbuf → Option Ran
  run_mapped env ses cop u got =
      hash_n_crypt ses cop.op (sg_bytes u got.src_sg cop.len) (sg_bytes u got.dst_sg cop.len)
      >>= λ c. some (
        c.0,
        record (c.1) { user = (release_user_pages env.reserved got.ses).1 },
        (if c.1.cdata.init then sg_store u got.dst_sg c.2 else u),
      )

  unfoldable pub crypto_run_zc : Paging → Bool → Session api → CryptOp → UserSpace → Option Ran
  crypto_run_zc env page_ok ses cop u =
      get_userbuf env
        (record { src = cop.src; src_len = cop.len; dst = cop.dst; dst_len = cop.len }) ses.user
      >>= λ got.
          if is_nonzero got.code
          then crypto_run_std page_ok (record ses { user = got.ses }) cop u
          else run_mapped env ses cop u got

  -- The variables of `crypto_run` while it holds the session.
  pub record Job : Type 0 where
    pub ret : Code
    pub held : Session api
    pub kcop : KernelCryptOp
    pub space : UserSpace

  -- A part of `crypto_run`: whether it jumps to `out_unlock`, and the variables.
  abbrev pub Part : Type 0
  Part = Option (Bool × Job)

  infixl 4 ◌then_run◌
  abbrev pub ◌then_run◌ : Part → (Job → Part) → Part
  p then_run f = p >>= λ r. if r.0 then some r else f r.1

  unfoldable pub reset_part : Job → Part
  reset_part j =
      if j.held.hdata.init && (j.kcop.cop.flags == 0 || test_bit flag_reset j.kcop.cop.flags)
      then (cryptodev_hash_reset api j.held.hdata >>= λ r.
          some (is_nonzero r.0, record j { ret = r.0; held = record (j.held) { hdata = r.1 } }))
      else some (false, j)

  unfoldable pub iv_part : Job → Part
  iv_part j =
      let cdata =
        cryptodev_cipher_set_iv api j.held.cdata j.kcop.iv (min j.held.cdata.ivsize j.kcop.ivlen) in
      some (
        if j.held.cdata.init
        then if j.kcop.cop.len % j.held.cdata.blocksize == 0
          then (false, record j { held = record (j.held) { cdata = cdata } })
          else (true, record j { ret = fail einval })
        else (false, j))

  -- IS_ALIGNED(addr, alignmask + 1); the mask is one less than a power of two.
  abbrev pub misaligned : ℕ → ℕ → Bool
  misaligned alignmask addr = not (alignmask == 0) && not (addr % (alignmask + 1) == 0)

  -- The flags after the two checks of the alignment.
  unfoldable pub zc_flags : ℕ → CryptOp → ℕ
  zc_flags alignmask cop =
      if not (test_bit flag_no_zc cop.flags)
        && (misaligned alignmask cop.src || misaligned alignmask cop.dst)
      then set_bit flag_no_zc cop.flags
      else cop.flags

  unfoldable pub data_part : Paging → Bool → Job → Part
  data_part env page_ok j =
      let cop = record (j.kcop.cop) { flags = zc_flags j.held.alignmask j.kcop.cop } in
      let ran =
        if test_bit flag_no_zc cop.flags
        then crypto_run_std page_ok j.held cop j.space
        else crypto_run_zc env page_ok j.held cop j.space in
      if j.kcop.cop.len == 0
      then some (false, j)
      else ran >>= λ r. some (
        is_nonzero r.0,
        record { ret = r.0; held = r.1; kcop = record (j.kcop) { cop = cop }; space = r.2 },
      )

  unfoldable pub final_part : Job → Part
  final_part j =
      let iv =
        if j.held.cdata.init
        then cryptodev_cipher_get_iv api j.held.cdata j.kcop.iv
            (min j.held.cdata.ivsize j.kcop.ivlen)
        else j.kcop.iv in
      let kcop : KernelCryptOp = record (j.kcop) { iv = iv } in
      if j.held.hdata.init
        && (test_bit flag_final j.kcop.cop.flags
            || (not (test_bit flag_update j.kcop.cop.flags) || j.kcop.cop.len == 0))
      then (cryptodev_hash_final api j.held.hdata >>= λ r. some (
        true,
        record j {
          ret = r.0;
          held = record (j.held) { hdata = r.1 };
          kcop =
              if is_nonzero r.0
              then record kcop { hash_output = r.2 }
              else record kcop { hash_output = r.2; digestsize = r.1.digestsize };
        },
      ))
      else some (false, record j { kcop = kcop })

  unfoldable pub run_held : Paging → Bool → Job → Part
  run_held env page_ok j =
      reset_part j then_run iv_part then_run data_part env page_ok then_run final_part

  -- What `crypto_run` leaves.
  abbrev pub Result : Type 0
  Result = Code × List (Session api) × KernelCryptOp × UserSpace

  -- `junk` is what `ret` holds before it is assigned.
  unfoldable pub crypto_run :
      Paging → Bool → Code → List (Session api) → KernelCryptOp → UserSpace → Option Result
  crypto_run env page_ok junk fcr kcop u =
      let found = crypto_get_session_by_sid api fcr kcop.cop.ses in
      if not (kcop.cop.op == cop_encrypt) && not (kcop.cop.op == cop_decrypt)
      then some (fail einval, fcr, kcop, u)
      else found >>= λ f. elim (f.0) [
        | none ↦ some (fail einval, f.1, kcop, u)
        | some ses ↦
            run_held env page_ok (record { ret = junk; held = ses; kcop = kcop; space = u })
            >>= λ r. some (r.1.ret, crypto_put_session api f.1 r.1.held, r.1.kcop, r.1.space)
      ]
