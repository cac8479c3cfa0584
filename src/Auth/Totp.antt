-- ===== src/Auth/Totp.antt =====
-- app/services/totp.py: the time-based codes. `hmac` gives the bytes of the digest of a counter under
-- a base32 secret.
use tetra_host.Prelude.{
  ℕ, zero, suc, String, Bool, false, ◌&&◌, ◌||◌, ◌+◌, ◌-◌, ◌*◌, ◌/◌, ◌%◌, ◌==◌, List, [], ◌∷◌, leb,
  eqb, drop, take, if◌then◌else◌,
}
use tetra_host.Prelude.Text
use tetra_host.Prelude.Text.{strip, lower, decimal}
use Prim.Native.Char.{Char, code}
use Prim.Native.String.{◌++◌}

abbrev pub digit_count : ℕ
digit_count = 6

abbrev pub period : ℕ
period = 30

last : List ℕ → ℕ
last [] = 0
last (b ∷ []) = b
last (b ∷ c ∷ bytes) = last (c ∷ bytes)

-- struct.unpack(">I", …)
big_endian : ℕ → List ℕ → ℕ
big_endian acc [] = acc
big_endian acc (b ∷ bytes) = big_endian (acc * 256 + b) bytes

zeros : ℕ → String
zeros zero = ""
zeros (suc n) = "0" ++ zeros n

-- s.zfill(n), of a text with no sign
zfill : ℕ → String → String
unfolding zeros
zfill n s = zeros (n - Text.length s) ++ s

module _ (hmac : String → ℕ → List ℕ) where
  unfoldable pub hotp : String → ℕ → String
  unfolding last big_endian zfill
  hotp secret counter =
      let digest = hmac secret counter in
      let offset = last digest % 16 in
      zfill digit_count
        (decimal (big_endian 0 (take 4 (drop offset digest)) % 2147483648 % 1000000))

is_digit : Char → Bool
is_digit c = leb 48 (code c) && leb (code c) 57

unfoldable pub normalize_code : String → String
unfolding is_digit
normalize_code String.[] = String.[]
normalize_code (String.◌∷◌ c s) =
    let rest = normalize_code s in if is_digit c then String.◌∷◌ c rest else rest

module _ (hmac : String → ℕ → List ℕ) where
  -- the drifts -1, 0 and 1
  unfoldable pub verify : String → String → ℕ → Bool
  verify secret code now =
      let normalized = normalize_code code in
      let counter = now / period in
      if eqb (Text.length normalized) digit_count
      then (hotp hmac secret (counter - 1) == normalized
          || hotp hmac secret counter == normalized
          || hotp hmac secret (counter + 1) == normalized)
      else false

-- s.replace(" ", "")
remove_spaces : String → String
remove_spaces String.[] = String.[]
remove_spaces (String.◌∷◌ c s) =
    let rest = remove_spaces s in if eqb (code c) 32 then rest else String.◌∷◌ c rest

unfoldable pub hash_backup_code : (String → String) → String → String
unfolding remove_spaces
hash_backup_code sha256 code = sha256 (lower (remove_spaces (strip code)))
