-- ===== src/Audit/Hex.antt =====
-- encoding/hex as audit_hash.go uses it, and `isAuditHash`.
use Prim.Native.Char.{code}
use Prim.Native.String.{count}
use text.Mathlib.TextLemmas.{length-nil, length-cons}
use ano_pki_community.Common.{
  ℕ, suc, ◌+◌, ◌-◌, ◌*◌, ◌/◌, ◌%◌, String, ◌≡◌, ap, ◌∙◌, Bool, true, false, ◌&&◌, Option, none,
  some, List, [], ◌∷◌, arith, leb, eqb, if◌then◌else◌, length,
}

-- The code points of a text. They are its bytes where all are below 128; a text with another code
-- point holds a byte that is no hexadecimal digit, and none of its code points past 127 is one.
abbrev pub codes : String → List ℕ
codes String.[] = []
codes (String.◌∷◌ c s) = code c ∷ codes s

pub count-codes : (s : String) → count s ≡ length (codes s)
count-codes String.[] = length-nil
count-codes (String.◌∷◌ c s) = length-cons c s ∙ ap suc (count-codes s)

-- The value of a digit of hex.DecodeString, which takes both cases.
unfoldable pub from_hex_char : ℕ → Option ℕ
from_hex_char c =
    if leb b'0' c && leb c b'9'
    then some (c - b'0')
    else if leb b'a' c && leb c b'f'
    then some (c - b'a' + 10)
    else if leb b'A' c && leb c b'F'
    then some (c - b'A' + 10)
    else none

abbrev pub hex_byte : Option ℕ → Option ℕ → Option ℕ
hex_byte none y = none
hex_byte (some x) none = none
hex_byte (some x) (some y) = some (x * 16 + y)

abbrev pub cons_byte : Option ℕ → Option (List ℕ) → Option (List ℕ)
cons_byte none bs = none
cons_byte (some b) none = none
cons_byte (some b) (some bs) = some (b ∷ bs)

-- hex.DecodeString: `none` is its error, for a bad digit and for an odd length.
unfoldable pub hex_decode : List ℕ → Option (List ℕ)
unfolding from_hex_char
hex_decode [] = some []
hex_decode (a ∷ []) = none
hex_decode (a ∷ b ∷ cs) = cons_byte (hex_byte (from_hex_char a) (from_hex_char b)) (hex_decode cs)

-- A digit of hex.EncodeToString, in lower case.
unfoldable pub to_hex_char : ℕ → ℕ
to_hex_char x = if leb x 9 then x + b'0' else x - 10 + b'a'

unfoldable pub hex_encode : List ℕ → List ℕ
unfolding to_hex_char
hex_encode [] = []
hex_encode (b ∷ bs) = to_hex_char (b / 16) ∷ to_hex_char (b % 16) ∷ hex_encode bs

abbrev pub same_codes : List ℕ → List ℕ → Bool
same_codes [] [] = true
same_codes [] (y ∷ ys) = false
same_codes (x ∷ xs) [] = false
same_codes (x ∷ xs) (y ∷ ys) = eqb x y && same_codes xs ys

abbrev pub decodes_back : List ℕ → Option (List ℕ) → Bool
decodes_back cs none = false
decodes_back cs (some bs) = eqb (length bs) 32 && same_codes cs (hex_encode bs)

unfoldable pub is_audit_hash : String → Bool
unfolding hex_decode hex_encode
is_audit_hash value =
    if eqb (length (codes value)) 64
    then decodes_back (codes value) (hex_decode (codes value))
    else false

length_of_test : (n : ℕ) (b : Bool) → (if eqb n 64 then b else false) ≡ true → n ≡ 64
length_of_test n b h = ground arith

pub count-is_audit_hash : (s : String) → is_audit_hash s ≡ true → count s ≡ 64
unfolding is_audit_hash
count-is_audit_hash s h = count-codes s ∙ length_of_test (length (codes s)) _ h
