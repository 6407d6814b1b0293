-- ===== src/Common/Crypto.antt =====
-- common/crypto.py: secrets at rest, with the Fernet cipher as an argument.
use Prim.Native.String.{slice, len, ◌++◌ as append}
use text.Mathlib.Text.{◌==◌ as str_eq, starts_with}
use text.Mathlib.TextPositions.{starts_with-append, slice-append_right, len-append}
use postgres_s3_warehouse_sy.Prelude.{
  ◌≡◌, refl, String, Option, none, some, true, false, truthy, given, Bool, eq_iff, not, ◌∙◌, ap,
  arith,
}
use postgres_s3_warehouse_sy.Prelude.Result.{Result, ok, err, runtime_error, ◌>>=◌}

-- A Fernet key: what it encrypts it decrypts; `none` is an InvalidToken.
pub record Fernet : Type 0 where
  pub encrypt_text : String → String
  pub decrypt_text : String → Option String
  pub decrypt_text-encrypt_text : (s : String) → decrypt_text (encrypt_text s) ≡ some s

abbrev enc_prefix : String
enc_prefix = "enc:v1:"

or_crypto_error : Option String → Result (Option String)
or_crypto_error none = err runtime_error
or_crypto_error (some s) = ok (some s)

-- `fernet` is what `_fernet()` returns, or raises where the key is not set or is malformed.
module _ (fernet : Result Fernet) where
  encrypt_secret : Bool → String → Result (Option String)
  encrypt_secret true plaintext = do
    f ← fernet
    ok (some (append enc_prefix (f.encrypt_text plaintext)))
  encrypt_secret false plaintext = ok (some plaintext)

  unfoldable pub encrypt : Option String → Result (Option String)
  unfolding encrypt_secret
  encrypt none = ok none
  encrypt (some plaintext) = encrypt_secret (truthy plaintext) plaintext

  decrypt_token : Bool → String → Result (Option String)
  unfolding or_crypto_error
  decrypt_token true stored = do
    f ← fernet
    or_crypto_error (f.decrypt_text (slice stored (len enc_prefix) (len stored)))
  decrypt_token false stored = ok (some stored)

  unfoldable pub decrypt : Option String → Result (Option String)
  unfolding decrypt_token
  decrypt none = ok none
  decrypt (some stored) = decrypt_token (starts_with stored enc_prefix) stored

module _ (f : Fernet) where
  decrypt-append :
      (token : String)
      → decrypt (ok f) (some (append enc_prefix token)) ≡ or_crypto_error (f.decrypt_text token)
  unfolding decrypt decrypt_token
  decrypt-append token = rw (starts_with-append enc_prefix token) (
      ap (λ t. or_crypto_error (f.decrypt_text t))
        (ap (λ n. slice (append enc_prefix token) (len enc_prefix) n) (len-append enc_prefix token)
          ∙ slice-append_right enc_prefix token))

  stored_empty : decrypt (ok f) (some "") ≡ ok (some "")
  unfolding decrypt decrypt_token
  stored_empty = refl

  not-false : (b : Bool) → not b ≡ false → b ≡ true
  not-false b e = ground arith

  -- A secret in its stored form.
  abbrev pub Stored : Option String → Option String → Type 0
  Stored secret stored = decrypt (ok f) stored ≡ ok secret

  encrypt_secret-Stored :
      (s : String) (nonempty : Bool)
      → truthy s ≡ nonempty
      → (c : Option String) × (encrypt_secret (ok f) nonempty s ≡ ok c)
        × Stored (some s) c
        × (given c ≡ true)
  unfolding encrypt_secret or_crypto_error
  encrypt_secret-Stored s true e = (
    some (append enc_prefix (f.encrypt_text s)),
    refl,
    decrypt-append (f.encrypt_text s) ∙ ap or_crypto_error (f.decrypt_text-encrypt_text s),
    refl,
  )
  encrypt_secret-Stored s false e = (some s, refl, empty_Stored, refl)
    where
      is_empty : s ≡ ""
      is_empty = (eq_iff s "").0 (not-false (str_eq s "") e)

      empty_Stored : Stored (some s) (some s)
      empty_Stored = rw is_empty stored_empty

  -- What is stored of a secret is decrypted to it, where the key is set.
  pub encrypt-Stored :
      (secret : Option String)
      → (c : Option String) × (encrypt (ok f) secret ≡ ok c)
        × Stored secret c
        × (given c ≡ given secret)
  unfolding encrypt decrypt
  encrypt-Stored none = (none, refl, refl, refl)
  encrypt-Stored (some s) = encrypt_secret-Stored s (truthy s) refl
