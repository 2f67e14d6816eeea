-- ===== src/Uuid.antt =====
-- src/core/uuidv7.ts: identifiers of version 7. `now` is `Date.now()` and `random i` the byte that
-- `getRandomValues` puts at the index `i`.
use adonisjs_audit_trail.Common.{
  ℕ, ◌+◌, ◌-◌, ◌*◌, ◌/◌, ◌%◌, ◌^◌, ◌<◌, ◌≡◌, refl, ap, some, List, [], ◌∷◌, ◌++◌, arith,
  if◌then◌else◌, ltb, length, take, drop, get_elem?, All,
}
use adonisjs_audit_trail.Common.Text.{Text, text}

-- `(timestamp >> 8k) & 0xff`
abbrev pub time_byte : ℕ → ℕ → ℕ
time_byte now k = now / 2 ^ (8 * k) % 256

-- `byte & 0x0f | 0x70` and `byte & 0x3f | 0x80`, whose two parts have no bit in common.
abbrev pub with_version : ℕ → ℕ
with_version byte = byte % 16 + 112

abbrev pub with_variant : ℕ → ℕ
with_variant byte = byte % 64 + 128

abbrev pub uuid_bytes : ℕ → (ℕ → ℕ) → List ℕ
uuid_bytes now random =
    time_byte now 5
    ∷ time_byte now 4
    ∷ time_byte now 3
    ∷ time_byte now 2
    ∷ time_byte now 1
    ∷ time_byte now 0
    ∷ with_version (random 6)
    ∷ random 7
    ∷ with_variant (random 8)
    ∷ random 9
    ∷ random 10
    ∷ random 11
    ∷ random 12
    ∷ random 13
    ∷ random 14
    ∷ random 15
    ∷ []

abbrev pub hex_digit : ℕ → ℕ
hex_digit d = if ltb d 10 then 48 + d else 87 + d

-- `b.toString(16).padStart(2, '0')` of a byte.
abbrev pub hex_bytes : List ℕ → Text
hex_bytes [] = []
hex_bytes (b ∷ bs) = hex_digit (b / 16) ∷ hex_digit (b % 16) ∷ hex_bytes bs

-- `hex.slice(from, to)`
abbrev pub slice : ℕ → ℕ → Text → Text
slice from to hex = take (to - from) (drop from hex)

abbrev pub with_dashes : Text → Text
with_dashes hex =
    take 8 hex
    ++ 45 ∷ slice 8 12 hex
    ++ 45 ∷ slice 12 16 hex
    ++ 45 ∷ slice 16 20 hex
    ++ 45 ∷ drop 20 hex

unfoldable pub uuidv7 : ℕ → (ℕ → ℕ) → Text
uuidv7 now random = with_dashes (hex_bytes (uuid_bytes now random))

-- The number that the first six bytes are, the highest first.
abbrev pub leading : ℕ → List ℕ → ℕ
leading value [] = value
leading value (b ∷ bs) = leading (value * 256 + b) bs

time_byte-small : (now k : ℕ) → time_byte now k < 256
time_byte-small now k = omega arith

leading_time :
    (now : ℕ)
    → (((((0 + time_byte now 5) * 256 + time_byte now 4) * 256 + time_byte now 3) * 256
                + time_byte now 2)
              * 256
            + time_byte now 1)
          * 256
        + time_byte now 0
      ≡ now % 281474976710656
leading_time now = omega arith

version_digit : (byte : ℕ) → with_version byte / 16 ≡ 7
version_digit byte = omega arith

-- With random bytes below 256 every byte is below 256, so that two digits hold it; the first six are the
-- lower 48 bits of the time; and the text has 36 characters, the fifteenth of them a 7.
pub uuidv7-layout :
    (now : ℕ) (random : ℕ → ℕ)
    → ((i : ℕ) → random i < 256)
    → All (λ b. b < 256) (uuid_bytes now random)
      × (leading 0 (take 6 (uuid_bytes now random)) ≡ now % 2 ^ 48)
      × (length (uuidv7 now random) ≡ 36)
      × (get_elem? (uuidv7 now random) 14 ≡ get_elem? (text "7") 0)
unfolding uuidv7
uuidv7-layout now random small = (
  (
    time_byte-small now 5,
    (
      time_byte-small now 4,
      (
        time_byte-small now 3,
        (
          time_byte-small now 2,
          (
            time_byte-small now 1,
            (
              time_byte-small now 0,
              (
                omega arith,
                (
                  small 7,
                  (
                    omega arith,
                    (
                      small 9,
                      (small 10, (small 11, (small 12, (small 13, (small 14, (small 15, tt)))))),
                    ),
                  ),
                ),
              ),
            ),
          ),
        ),
      ),
    ),
  ),
  leading_time now,
  refl,
  ap (λ d. some (hex_digit d)) (version_digit (random 6)),
)
