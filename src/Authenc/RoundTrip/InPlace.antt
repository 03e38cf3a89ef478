-- ===== src/Authenc/RoundTrip/InPlace.antt =====
-- A record that is encrypted or decrypted in place (authenc.c).
use cryptodev_linux.Prelude.{
  ℕ, ◌≡◌, refl, ap, ◌∙◌, Bool, true, false, ◌||◌, not, some, List, [], ◌++◌, success, if◌then◌else◌,
  length,
}
use cryptodev_linux.Cryptlib.Api.{CryptoApi}
use cryptodev_linux.Cryptlib.Cipher.{Cipher, cryptodev_cipher_encrypt, cryptodev_cipher_decrypt}
use cryptodev_linux.Authenc.Buffer.{sg_get, sg_put}
use cryptodev_linux.Authenc.Pad.{sg_get_part, sg_put_part}
use cryptodev_linux.Authenc.Defs.{Sealed, crypt_in_place}

-- The second cipher decrypts what the first encrypts, and neither changes the length.
pub record Deciphers (api : CryptoApi) (first second : Cipher api) (plain : List ℕ) : Type 0 where
  pub out : List ℕ
  pub after_encrypt : Cipher api
  pub after_decrypt : Cipher api
  pub encrypts : cryptodev_cipher_encrypt api first plain ≡ some (success, after_encrypt, out)
  pub same_length : length out ≡ length plain
  pub decrypts : cryptodev_cipher_decrypt api second out ≡ some (success, after_decrypt, plain)
  pub same_blocks : after_decrypt.blocksize ≡ second.blocksize

pub otherwise {ℓ} :
    {A : Type ℓ} (x y : A) (b : Bool) → b ≡ true → (if false || not b then x else y) ≡ y
otherwise x y b h = rw h refl

pub neither {ℓ} :
    {A : Type ℓ} (x y : A) (a b : Bool) → a ≡ false → b ≡ false → (if a || b then x else y) ≡ y
neither x y a b h k = rw (h, k) refl

module _ (api : CryptoApi) where
  pub crypt_lem :
      (encrypt : Bool) (s : Sealed api) (plain rest out : List ℕ) (c : Cipher api)
      → s.buf ≡ plain ++ rest
      → s.len ≡ length plain
      → length out ≡ length plain
      → (if encrypt
          then cryptodev_cipher_encrypt api s.ses.cdata plain
          else cryptodev_cipher_decrypt api s.ses.cdata plain)
        ≡ some (success, c, out)
      → crypt_in_place api encrypt s
        ≡ some (record s { ret = success; ses = record (s.ses) { cdata = c }; buf = out ++ rest })
  unfolding crypt_in_place
  crypt_lem encrypt s plain rest out c b l o e =
      let got : sg_get s.buf 0 s.len ≡ some plain =
        ap (λ k. sg_get k 0 s.len) b ∙ sg_get_part [] plain rest 0 s.len refl l in
      let put : sg_put s.buf 0 out ≡ some (out ++ rest) =
        ap (λ k. sg_put k 0 out) b ∙ sg_put_part [] plain out rest 0 refl o in
      simp (got, e, put)
