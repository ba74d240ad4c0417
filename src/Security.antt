-- ===== src/Security.antt =====
-- app/core/security.py: the stored form of passwords, and the tokens. The key derivation
-- (`hashlib.pbkdf2_hmac`) and the signed encoding (`jwt`) are not in the repository: they are parameters.
pub mod Passwords
use Prim.Native.Char.{Char, code}
use Prim.Native.String.{◌++◌, char_at}
use text.Mathlib.Text.{◌==◌ as str_eq}
use assignment_cloud_instanc.Prelude.{
  ℕ, ◌+◌, ◌-◌, ◌*◌, ◌/◌, ◌%◌, ◌<◌, ◌≤◌, ◌≡◌, Bool, true, false, ◌&&◌, ◌||◌, Option, none, some,
  String, List, [], ◌∷◌, All, leb, ltb, ◌==◌, if◌then◌else◌,
}
use assignment_cloud_instanc.Prelude.Text.{show}
use assignment_cloud_instanc.Models.{Role}
use assignment_cloud_instanc.Config.{Settings}
use assignment_cloud_instanc.Store.{seconds}
use assignment_cloud_instanc.Revocation.{Claims, Decoded, decoded}

-- `pbkdf2_hmac("sha256", password, salt, iterations)`: bytes from a password, a salt and a count.
pub record Kdf : Type 0 where
  pub derive : String → List ℕ → ℕ → List ℕ
  pub derive_bytes :
      (password : String) (salt : List ℕ) (n : ℕ) → All (λ b. b < 256) (derive password salt n)

abbrev pub dollar : ℕ → Bool
dollar c = c == b'$'

-- One more character at the front of the first part.
abbrev pub onto_first : Char → List String → List String
onto_first c [] = String.◌∷◌ c String.[] ∷ []
onto_first c (w ∷ ws) = String.◌∷◌ c w ∷ ws

-- `s.split("$")`
unfoldable pub split : String → List String
split String.[] = String.[] ∷ []
split (String.◌∷◌ c s) =
    let rest = split s in if dollar (code c) then String.[] ∷ rest else onto_first c rest

-- `b.hex()`
abbrev pub nibble : ℕ → Char
nibble n = char_at "0123456789abcdef" n

unfoldable pub hex : List ℕ → String
hex [] = String.[]
hex (b ∷ bs) = String.◌∷◌ (nibble (b / 16)) (String.◌∷◌ (nibble (b % 16)) (hex bs))

abbrev pub is_space : ℕ → Bool
is_space c = c == 32 || (leb 9 c && leb c 13)

abbrev pub unhex : ℕ → Option ℕ
unhex c =
    if leb b'0' c && leb c b'9'
    then some (c - b'0')
    else if leb b'a' c && leb c b'f'
    then some (c - 87)
    else if leb b'A' c && leb c b'F'
    then some (c - 55)
    else none

abbrev pub byte_then : Option ℕ → Option ℕ → Option (List ℕ) → Option (List ℕ)
byte_then (some h) (some l) (some bs) = some ((h * 16 + l) ∷ bs)
byte_then _ _ _ = none

-- `bytes.fromhex(s)`: white space may stand between the bytes. `none` is the ValueError.
unfoldable pub from_hex : String → Option (List ℕ)
from_hex String.[] = some []
from_hex (String.◌∷◌ c String.[]) = if is_space (code c) then some [] else none
from_hex (String.◌∷◌ c (String.◌∷◌ d s)) = elim (is_space (code c)) [
  | true ↦ from_hex (String.◌∷◌ d s)
  | false ↦ byte_then (unhex (code c)) (unhex (code d)) (from_hex s)
]

-- `_PBKDF2_ITERATIONS`
abbrev pub iterations : ℕ
iterations = 260_000

-- `salt` is `os.urandom(16)`.
unfoldable pub hash_password : Kdf → String → List ℕ → String
unfolding show
hash_password kdf password salt =
    "pbkdf2_sha256"
    ++ "$"
    ++ show iterations
    ++ "$"
    ++ hex salt
    ++ "$"
    ++ hex (kdf.derive password salt iterations)

-- The counts that `int` reads and the derivation takes. `int` is a parameter of `verify_password`: the source
-- uses it on what `hash_password` wrote.
abbrev pub matches : Kdf → String → String → Option ℕ → Option (List ℕ) → Bool
matches kdf password digest_hex (some n) (some salt) =
    leb 1 n && str_eq (hex (kdf.derive password salt n)) digest_hex
matches kdf password digest_hex _ _ = false

-- The four parts of a stored password; any other number of parts is a ValueError.
abbrev pub verify_parts : Kdf → (String → Option ℕ) → String → List String → Bool
verify_parts kdf int password (_ ∷ n ∷ salt_hex ∷ digest_hex ∷ []) =
    matches kdf password digest_hex (int n) (from_hex salt_hex)
verify_parts kdf int password _ = false

unfoldable pub verify_password : Kdf → (String → Option ℕ) → String → String → Bool
unfolding split hex from_hex
verify_password kdf int password stored = verify_parts kdf int password (split stored)

-- The payload of a token; times are in whole seconds.
pub record Payload : Type 0 where
  pub sub : ℕ
  pub email : String
  pub role : Role
  pub iat : ℕ
  pub exp : ℕ
  pub jti : String

abbrev pub claims_of : Payload → Claims
claims_of p = record { sub = p.sub; jti = p.jti; exp = p.exp }

-- `jwt.encode` and `jwt.decode` with the key of the settings, and the wall clock in microseconds: a token
-- decodes to what was encoded from the second it was issued, until it expires.
pub record Jwt : Type 0 where
  pub encode : Payload → String
  pub decode : String → ℕ → Decoded
  pub decode_encode :
      (p : Payload) (wall : ℕ)
      → seconds p.iat ≤ wall
      → wall < seconds p.exp
      → decode (encode p) wall ≡ decoded (claims_of p)

-- `now` is the wall clock, and `jti` is `uuid.uuid4().hex`.
abbrev pub payload : Settings → ℕ → String → Role → ℕ → String → Payload
payload settings member_id email role now jti = record {
  sub = member_id;
  email = email;
  role = role;
  iat = now / 1_000_000;
  exp = (now + seconds (settings.access_token_expire_minutes * 60)) / 1_000_000;
  jti = jti;
}

unfoldable pub create_access_token : Jwt → Settings → ℕ → String → Role → ℕ → String → String
create_access_token jwt settings member_id email role now jti =
    jwt.encode (payload settings member_id email role now jti)
