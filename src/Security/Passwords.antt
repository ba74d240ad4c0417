-- ===== src/Security/Passwords.antt =====
-- The stored form of a password (app/core/security.py), written and read.
use mathlib.Core.Path.{ap₂}
use Prim.Native.Char.{Char, code}
use Prim.Native.String.{◌++◌}
use Prim.Native.String.append
use text.Mathlib.Text.{◌==◌ as str_eq}
use assignment_cloud_instanc.Prelude.{
  ℕ, zero, suc, ◌+◌, ◌*◌, ◌/◌, ◌%◌, ◌<◌, ◌≡◌, refl, sym, ap, ◌∙◌, ◌↔◌, not, ◌&&◌, Bool, true, false,
  Option, some, String, List, [], ◌∷◌, All, arith, Bool-cases, inl, inr,
}
use assignment_cloud_instanc.Prelude.Text.{show}
use assignment_cloud_instanc.Store.Keys.{str_eq_self, str_eq→eq}
use assignment_cloud_instanc.Security.{
  Kdf, dollar, onto_first, split, nibble, hex, is_space, unhex, byte_then, from_hex, iterations,
  hash_password, verify_password,
}

unhex-nibble : (n : ℕ) → n < 16 → unhex (code (nibble n)) ≡ some n
unhex-nibble zero h = refl
unhex-nibble (suc zero) h = refl
unhex-nibble (suc (suc zero)) h = refl
unhex-nibble (suc (suc (suc zero))) h = refl
unhex-nibble (suc (suc (suc (suc zero)))) h = refl
unhex-nibble (suc (suc (suc (suc (suc zero))))) h = refl
unhex-nibble (suc (suc (suc (suc (suc (suc zero)))))) h = refl
unhex-nibble (suc (suc (suc (suc (suc (suc (suc zero))))))) h = refl
unhex-nibble (suc (suc (suc (suc (suc (suc (suc (suc zero)))))))) h = refl
unhex-nibble (suc (suc (suc (suc (suc (suc (suc (suc (suc zero))))))))) h = refl
unhex-nibble (suc (suc (suc (suc (suc (suc (suc (suc (suc (suc zero)))))))))) h = refl
unhex-nibble (suc (suc (suc (suc (suc (suc (suc (suc (suc (suc (suc zero))))))))))) h = refl
unhex-nibble (suc (suc (suc (suc (suc (suc (suc (suc (suc (suc (suc (suc zero)))))))))))) h = refl
unhex-nibble (suc (suc (suc (suc (suc (suc (suc (suc (suc (suc (suc (suc (suc zero))))))))))))) h =
    refl
unhex-nibble
      (suc (suc (suc (suc (suc (suc (suc (suc (suc (suc (suc (suc (suc (suc zero)))))))))))))) h =
    refl
unhex-nibble
      (suc (suc (suc (suc (suc (suc (suc (suc (suc (suc (suc (suc (suc (suc (suc zero)))))))))))))))
      h =
    refl
unhex-nibble
      (suc
        (suc (suc (suc (suc (suc (suc (suc (suc (suc (suc (suc (suc (suc (suc (suc n))))))))))))))))
      h =
    absurd (omega arith)

-- A character that is a hexadecimal digit is no separator and no white space.
not_dollar : (c n : ℕ) → unhex c ≡ some n → dollar c ≡ false
not_dollar c n h = ground (arith, h)

not_space : (c n : ℕ) → unhex c ≡ some n → is_space c ≡ false
not_space c n h = ground (arith, h)

-- No separator.
abbrev plain : String → Bool
plain String.[] = true
plain (String.◌∷◌ c s) = not (dollar (code c)) && plain s

split-plain : (s : String) → plain s ≡ true → split s ≡ s ∷ []
unfolding split
split-plain String.[] h = refl
split-plain (String.◌∷◌ c s) h = elim (Bool-cases (dollar (code c))) [
  | inl sep ↦ absurd (ground (arith, sep, h))
  | inr other ↦ rw other (ap (onto_first c) (split-plain s (ground (arith, other, h))))
]

split_sep : (rest : String) → split ("$" ++ rest) ≡ String.[] ∷ split rest
unfolding split
split_sep rest =
    ap split (append.cons (Char.char 36 tt) String.[] rest)
    ∙ ap (λ s. split (String.◌∷◌ (Char.char 36 tt) s)) (append.nil rest)

split_until : (s rest : String) → plain s ≡ true → split (s ++ "$" ++ rest) ≡ s ∷ split rest
unfolding split
split_until String.[] rest h = ap split (append.nil ("$" ++ rest)) ∙ split_sep rest
split_until (String.◌∷◌ c s) rest h =
    ap split (append.cons c s ("$" ++ rest)) ∙ elim (Bool-cases (dollar (code c))) [
      | inl sep ↦ absurd (ground (arith, sep, h))
      | inr other ↦ rw other (ap (onto_first c) (split_until s rest (ground (arith, other, h))))
    ]

high_lt : (b : ℕ) → b < 256 → b / 16 < 16
high_lt b h = omega arith

low_lt : (b : ℕ) → b % 16 < 16
low_lt b = omega arith

plain-hex : (bs : List ℕ) → All (λ b. b < 256) bs → plain (hex bs) ≡ true
unfolding hex
plain-hex [] h = refl
plain-hex (b ∷ bs) h =
    rw
      (
        not_dollar _ (b / 16) (unhex-nibble (b / 16) (high_lt b h.0)),
        not_dollar _ (b % 16) (unhex-nibble (b % 16) (low_lt b)),
      )
      (plain-hex bs h.1)

byte_whole : (b : ℕ) (bs : List ℕ) → ((b / 16) * 16 + b % 16) ∷ bs ≡ b ∷ bs
byte_whole b bs = ap (λ c. c ∷ bs) (omega arith)

from_hex-step :
    (c d : Char) (s : String)
    → is_space (code c) ≡ false
    → from_hex (String.◌∷◌ c (String.◌∷◌ d s))
      ≡ byte_then (unhex (code c)) (unhex (code d)) (from_hex s)
unfolding from_hex
from_hex-step c d s h =
    ap
      (λ b. elim b as (λ _. Option (List ℕ)) [
        | true ↦ from_hex (String.◌∷◌ d s)
        | false ↦ byte_then (unhex (code c)) (unhex (code d)) (from_hex s)
      ])
      h

from_hex-hex : (bs : List ℕ) → All (λ b. b < 256) bs → from_hex (hex bs) ≡ some bs
unfolding hex from_hex
from_hex-hex [] h = refl
from_hex-hex (b ∷ bs) h =
    let high = unhex-nibble (b / 16) (high_lt b h.0) in
    let low = unhex-nibble (b % 16) (low_lt b) in
    from_hex-step (nibble (b / 16)) (nibble (b % 16)) (hex bs)
      (not_space (code (nibble (b / 16))) (b / 16) high)
    ∙ ap₂ (λ x y. byte_then x y (from_hex (hex bs))) high low
    ∙ ap (byte_then (some (b / 16)) (some (b % 16))) (from_hex-hex bs h.1)
    ∙ ap some (byte_whole b bs)

hex-injective :
    (cs bs : List ℕ) → All (λ b. b < 256) cs → All (λ b. b < 256) bs → hex cs ≡ hex bs → cs ≡ bs
hex-injective cs bs ha hb e =
    ground (arith, sym (from_hex-hex cs ha) ∙ ap from_hex e ∙ from_hex-hex bs hb)

module _ (kdf : Kdf) (int : String → Option ℕ) (password : String) (salt : List ℕ) where
  abbrev derived : String → List ℕ
  derived candidate = kdf.derive candidate salt iterations

  split-hash_password :
      All (λ b. b < 256) salt
      → split (hash_password kdf password salt)
        ≡ "pbkdf2_sha256" ∷ show iterations ∷ hex salt ∷ hex (derived password) ∷ []
  unfolding hash_password show
  split-hash_password bytes =
      split_until "pbkdf2_sha256" _ refl
      ∙ ap (λ l. "pbkdf2_sha256" ∷ l)
          (split_until (show iterations) _ refl
            ∙ ap (λ l. show iterations ∷ l)
                (split_until (hex salt) _ (plain-hex salt bytes)
                  ∙ ap (λ l. hex salt ∷ l)
                      (split-plain (hex (derived password)) (
                        plain-hex (derived password) (kdf.derive_bytes password salt iterations)))))

  verify-hash :
      (candidate : String)
      → int (show iterations) ≡ some iterations
      → All (λ b. b < 256) salt
      → verify_password kdf int candidate (hash_password kdf password salt)
        ≡ str_eq (hex (derived candidate)) (hex (derived password))
  unfolding verify_password
  verify-hash candidate reads bytes =
      rw (split-hash_password bytes, reads, from_hex-hex salt bytes) refl

  -- If `int` reads the iteration count that was written and the salt is bytes, a candidate
  -- verifies against the stored form of a password exactly if both derive the same key with
  -- that salt; so the password itself does.
  pub verify_password-hash_password :
      (candidate : String)
      → int (show iterations) ≡ some iterations
      → All (λ b. b < 256) salt
      → (verify_password kdf int candidate (hash_password kdf password salt) ≡ true)
        ↔ (kdf.derive candidate salt iterations ≡ kdf.derive password salt iterations)
  verify_password-hash_password candidate reads bytes = (
    λ h.
        hex-injective (derived candidate) (derived password)
          (kdf.derive_bytes candidate salt iterations) (kdf.derive_bytes password salt iterations)
          (str_eq→eq (sym (verify-hash candidate reads bytes) ∙ h)),
    λ same.
        verify-hash candidate reads bytes
        ∙ ap (λ d. str_eq (hex d) (hex (derived password))) same
        ∙ str_eq_self (hex (derived password)),
  )
