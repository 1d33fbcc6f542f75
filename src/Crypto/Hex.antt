-- ===== src/Crypto/Hex.antt =====
-- encoding/hex: two lower-case digits for each byte; both cases are read.
use Prim.Native.String as Str
use Prim.Native.String.count as Count
use Prim.Native.Char.{Char, code}
use logryph.Base.{
  ℕ, zero, suc, ◌+◌, ◌-◌, ◌*◌, ◌/◌, ◌%◌, ◌<◌, ◌≡◌, refl, ap, Bool, true, false, ◌&&◌, Option, none,
  some, List, [], ◌∷◌, String, arith, leb, nat_eq, if◌then◌else◌, get_elem?, length, is_set,
}
use logryph.Externals.{Bytes, IsBytes}

abbrev digits : List Char
digits =
    "0" ∷ "1" ∷ "2" ∷ "3" ∷ "4" ∷ "5" ∷ "6" ∷ "7" ∷ "8" ∷ "9" ∷ "a" ∷ "b" ∷ "c" ∷ "d" ∷ "e" ∷ "f"
    ∷ []

or_first : Option Char → Char
or_first none = "0"
or_first (some c) = c

hex_digit : ℕ → Char
unfolding or_first
hex_digit n = or_first (get_elem? digits n)

digit_value : ℕ → Option ℕ
digit_value k =
    if leb b'0' k && leb k b'9'
    then some (k - b'0')
    else if leb b'a' k && leb k b'f'
    then some (k - b'a' + 10)
    else if leb b'A' k && leb k b'F'
    then some (k - b'A' + 10)
    else none

-- `hex.EncodeToString`
unfoldable pub hex_encode : Bytes → String
unfolding hex_digit
hex_encode [] = ""
hex_encode (b ∷ bs) =
    String.◌∷◌ (hex_digit (b / 16)) (String.◌∷◌ (hex_digit (b % 16)) (hex_encode bs))

join : Option ℕ → Option ℕ → Option Bytes → Option Bytes
join (some hi) (some lo) (some bs) = some ((hi * 16 + lo) ∷ bs)
join _ _ _ = none

-- `hex.DecodeString`: `none` for a character that is no digit, or an odd length.
unfoldable pub hex_decode : String → Option Bytes
unfolding digit_value join
hex_decode String.[] = some []
hex_decode (String.◌∷◌ c String.[]) = none
hex_decode (String.◌∷◌ c (String.◌∷◌ d s)) =
    join (digit_value (code c)) (digit_value (code d)) (hex_decode s)

reads_back : ℕ → Bool
reads_back d = elim (digit_value (code (hex_digit d))) [ none ↦ false | some v ↦ nat_eq v d ]

all_read_back : ℕ → Bool
all_read_back zero = true
all_read_back (suc n) = reads_back n && all_read_back n

all_read_back-reads_back : (n d : ℕ) → all_read_back n ≡ true → d < n → reads_back d ≡ true
unfolding all_read_back
all_read_back-reads_back zero d h lt = absurd (omega arith)
all_read_back-reads_back (suc n) d h lt = ground (arith, all_read_back-reads_back n d)

digit_table : all_read_back 16 ≡ true
unfolding all_read_back reads_back digit_value hex_digit
digit_table = refl

digit_value-hex_digit : (d : ℕ) → d < 16 → digit_value (code (hex_digit d)) ≡ some d
unfolding reads_back
digit_value-hex_digit d h = ground (arith, all_read_back-reads_back 16 d digit_table)

-- A sequence of bytes is read back from its text.
pub hex_decode-hex_encode : (bs : Bytes) → IsBytes bs → hex_decode (hex_encode bs) ≡ some bs
unfolding hex_decode hex_encode
hex_decode-hex_encode [] h = refl
hex_decode-hex_encode (b ∷ bs) h =
    rw
      (
        digit_value-hex_digit (b / 16) (omega arith),
        digit_value-hex_digit (b % 16) (omega arith),
        hex_decode-hex_encode bs h.1,
      )
      (ap (λ c. some (c ∷ bs)) (omega arith))

-- The text of at least one byte is not empty.
pub is_set-hex_encode : (bs : Bytes) → 0 < length bs → is_set (hex_encode bs) ≡ true
unfolding hex_encode
is_set-hex_encode [] h = absurd (omega arith)
is_set-hex_encode (b ∷ bs) h = refl

count-cons : (c : Char) (s : String) → Str.count (String.◌∷◌ c s) ≡ suc (Str.count s)
count-cons c s = λ i. Count.cons c s i

pub count-hex_encode : (bs : Bytes) → Str.count (hex_encode bs) ≡ 2 * length bs
unfolding hex_encode
count-hex_encode [] = refl
count-hex_encode (b ∷ bs) = omega (arith, count-hex_encode bs, count-cons)
