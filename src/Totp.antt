-- ===== src/Totp.antt =====
-- backend/internal/admin/totp.go: the one-time codes of an admin's login. Base32 and the hashes are
-- parameters; a text is the list of its code points.
pub mod Steps
pub mod Recovery
pub mod Tests
use mootd.Prelude.{
  ℕ, zero, suc, ◌+◌, ◌-◌, ◌*◌, ◌/◌, ◌%◌, ◌^◌, Bool, true, false, not, Option, none, some, List, [],
  ◌∷◌, ◌++◌, map, ltb, ◌==◌, if◌then◌else◌, get_or, length, Text, text_eq, trim_space,
}

-- len(s), which counts bytes
abbrev pub byte_length : Text → ℕ
byte_length [] = 0
byte_length (c ∷ s) =
    (if ltb c 0x80 then 1 else if ltb c 0x800 then 2 else if ltb c 0x10000 then 3 else 4)
    + byte_length s

abbrev pub totp_digits : ℕ
totp_digits = 6

-- "%0*d", of a number that has at most `n` digits
abbrev pub padded : ℕ → ℕ → Text
padded zero v = []
padded (suc n) v = padded n (v / 10) ++ ((48 + v % 10) ∷ [])

-- `mac` is the HMAC-SHA1 of the counter's 8 bytes under the key, as its 20 bytes.
module _ {K : Type 0} (mac : K → ℕ → List ℕ) where
  unfoldable pub hotp : K → ℕ → Text
  hotp key counter =
      let sum = mac key counter in
      let off = get_or sum (length sum - 1) 0 % 16 in
      let bin =
        get_or sum off 0 % 128 * 2 ^ 24
        + get_or sum (off + 1) 0 * 2 ^ 16
        + get_or sum (off + 2) 0 * 2 ^ 8
        + get_or sum (off + 3) 0 in
      padded totp_digits (bin % 10 ^ totp_digits)

  -- The step with each offset from -1 to 1, on 64 bits.
  abbrev pub candidates : ℕ → List ℕ
  candidates step = (step + (2 ^ 64 - 1)) % 2 ^ 64 ∷ step % 2 ^ 64 ∷ (step + 1) % 2 ^ 64 ∷ []

  abbrev pub first_match : K → Text → List ℕ → Option ℕ
  first_match key code [] = none
  first_match key code (c ∷ cs) =
      let rest = first_match key code cs in if text_eq (hotp key c) code then some c else rest

  -- `decode` is the base32 decoding of the secret in upper case, and `none` is (0, false); `now` is the
  -- Unix time.
  unfoldable pub verify_totp_step : (Text → Option K) → Text → Text → ℕ → Option ℕ
  verify_totp_step decode secret presented now =
      let code = trim_space presented in
      if not (byte_length code == totp_digits) then none else elim (decode secret) [
        | none ↦ none
        | some key ↦ first_match key code (candidates (now / 30))
      ]

  unfoldable pub verify_totp : (Text → Option K) → Text → Text → ℕ → Bool
  verify_totp decode secret code now = elim (verify_totp_step decode secret code now) [
    | none ↦ false
    | some c ↦ true
  ]

-- strings.ReplaceAll(s, "-", "")
abbrev pub without_dashes : Text → Text
without_dashes [] = []
without_dashes (c ∷ s) = let rest = without_dashes s in if c == 45 then rest else c ∷ rest

-- `lower` is unicode.ToLower, and `hex_sum256` prints the SHA-256 of a text.
module _ (lower : ℕ → ℕ) (hex_sum256 : Text → Text) where
  unfoldable pub hash_recovery_code : Text → Text
  hash_recovery_code code = hex_sum256 (map lower (without_dashes (trim_space code)))

  abbrev pub remove_first : Text → List Text → Option (List Text)
  remove_first want [] = none
  remove_first want (h ∷ hs) =
      let rest : Option (List Text) = elim (remove_first want hs) [
        | none ↦ none
        | some out ↦ some (h ∷ out)
      ] in
      if text_eq h want then some hs else rest

  unfoldable pub consume_recovery_code : List Text → Text → Bool × List Text
  consume_recovery_code stored presented =
      elim (remove_first (hash_recovery_code presented) stored) [
        | none ↦ (false, stored)
        | some out ↦ (true, out)
      ]
