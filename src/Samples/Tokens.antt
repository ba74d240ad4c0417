-- ===== src/Samples/Tokens.antt =====
-- Concrete parameters: tokens that hold their claims in unary, a key derivation, and the services of a log in.
use Prim.Native.Char.{Char, code}
use Prim.Native.String.{count as characters}
use assignment_cloud_instanc.Prelude.{
  ℕ, zero, suc, ◌%◌, ◌<◌, ◌≤◌, ◌≡◌, refl, ap, some, String, List, [], ◌∷◌, All, arith, ltb, lt→ltb,
  ◌==◌, if◌then◌else◌,
}
use assignment_cloud_instanc.Store.{seconds}
use assignment_cloud_instanc.Revocation.{Decoded, decoded, expired_signature}
use assignment_cloud_instanc.Security.{Kdf, Jwt, Payload, claims_of, iterations}
use assignment_cloud_instanc.Controllers.AuthRoutes.{Services}

abbrev ones : ℕ → String → String
ones zero rest = String.◌∷◌ (Char.char b'.' tt) rest
ones (suc n) rest = String.◌∷◌ (Char.char b'1' tt) (ones n rest)

abbrev one_more : ℕ × String → ℕ × String
one_more (n, rest) = (suc n, rest)

abbrev read_ones : String → ℕ × String
read_ones String.[] = (0, String.[])
read_ones (String.◌∷◌ c s) =
    let more = read_ones s in if code c == b'1' then one_more more else (0, s)

pub read_ones-ones : (n : ℕ) (rest : String) → read_ones (ones n rest) ≡ (n, rest)
read_ones-ones zero rest = refl
read_ones-ones (suc n) rest = ap one_more (read_ones-ones n rest)

abbrev encode : Payload → String
encode p = ones p.sub (ones p.exp p.jti)

abbrev decode_parts : ℕ × String → ℕ × String → ℕ → Decoded
decode_parts (sub, rest) (exp, jti) wall =
    if ltb wall (seconds exp)
    then decoded (record { sub = sub; jti = jti; exp = exp })
    else expired_signature

abbrev decode : String → ℕ → Decoded
decode token wall = decode_parts (read_ones token) (read_ones (read_ones token).1) wall

pub decode-encode :
    (p : Payload) (wall : ℕ)
    → seconds p.iat ≤ wall
    → wall < seconds p.exp
    → decode (encode p) wall ≡ decoded (claims_of p)
decode-encode p wall issued h =
    rw (read_ones-ones p.sub (ones p.exp p.jti))
      (rw (read_ones-ones p.exp p.jti) (rw (lt→ltb wall (seconds p.exp) h) refl))

abbrev pub jwt : Jwt
jwt = record { encode = encode; decode = decode; decode_encode = decode-encode }

abbrev derive : String → List ℕ → ℕ → List ℕ
derive password salt n = (characters password % 256) ∷ (n % 256) ∷ []

pub derive-bytes :
    (password : String) (salt : List ℕ) (n : ℕ) → All (λ b. b < 256) (derive password salt n)
derive-bytes password salt n = (omega arith, (omega arith, tt))

abbrev pub kdf : Kdf
kdf = record { derive = derive; derive_bytes = derive-bytes }

abbrev pub services : Services
services = record { strip_lower = λ s. s; int = λ s. some iterations; kdf = kdf; jwt = jwt }
