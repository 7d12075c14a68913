-- ===== src/RequestId.antt =====
-- bits/src/request_id.rs: the 26 character request id. A string is the list of its code points, and
-- a byte array the list of its bytes. The proofs stand in the child modules.
pub mod Digits
pub mod Tags
pub mod Base32
pub mod Codec
pub mod Samples
mod Tests
use bits_broker.Prelude.{
  ℕ, zero, suc, ◌+◌, ◌-◌, ◌*◌, ◌/◌, ◌%◌, ◌^◌, ◌≡◌, Bool, false, true, not, ◌&&◌, ◌||◌, Option, none,
  some, List, [], ◌∷◌, ◌++◌, ltb, leb, ◌==◌, if◌then◌else◌, length, get_or, set, take, drop, Result,
  ok, err, panic, ◌>>=◌, ok_or, traverse, Text,
}

abbrev pub id_version : ℕ
id_version = 1

-- CROCKFORD_ALPHABET, the bytes of "0123456789abcdefghjkmnpqrstvwxyz".
abbrev pub crockford_alphabet : Text
crockford_alphabet =
    b'0' ∷ b'1' ∷ b'2' ∷ b'3' ∷ b'4' ∷ b'5' ∷ b'6' ∷ b'7' ∷ b'8' ∷ b'9' ∷ b'a' ∷ b'b' ∷ b'c' ∷ b'd'
    ∷ b'e' ∷ b'f' ∷ b'g' ∷ b'h' ∷ b'j' ∷ b'k' ∷ b'm' ∷ b'n' ∷ b'p' ∷ b'q' ∷ b'r' ∷ b's' ∷ b't'
    ∷ b'v' ∷ b'w' ∷ b'x' ∷ b'y' ∷ b'z' ∷ []

abbrev pub id_len : ℕ
id_len = 26

abbrev pub packed_len : ℕ
packed_len = 16

abbrev pub base37_sentinel : ℕ
base37_sentinel = 36

abbrev pub base37_radix : ℕ
base37_radix = 37

abbrev pub base37_max : ℕ
base37_max = base37_radix * base37_radix * base37_radix

pub data DecodeError : Type 0 where
  wrong_length : ℕ → DecodeError
  disallowed_crockford_character : ℕ → DecodeError
  base32_value_out_of_range : DecodeError
  unknown_version : ℕ → DecodeError
  tag_packed_value_out_of_range : ℕ → DecodeError
  empty_tag : DecodeError
  embedded_sentinel : DecodeError

pub data EncodeError : Type 0 where
  empty_tag : EncodeError
  tag_too_long : ℕ → EncodeError
  invalid_tag_character : ℕ → EncodeError
  timestamp_before_custom_epoch : EncodeError
  timestamp_too_large : EncodeError

-- What the code takes from the crate chrono: instants, their order, whole seconds between them.
pub record Chrono : Type 1 where
  pub Time : Type 0
  pub custom_epoch : Time
  pub is_before : Time → Time → Bool
  pub num_seconds : Time → Time → ℕ  -- from the second to the first, if that is not before it
  pub add_seconds : Time → ℕ → Time
  pub add_std : Time → ℕ → Option Time  -- plus a std duration, if chrono's duration can hold that
  pub add_not_before : (t : Time) (n : ℕ) → is_before (add_seconds t n) t ≡ false
  pub num_seconds-add : (t : Time) (n : ℕ) → num_seconds (add_seconds t n) t ≡ n

-- u16 arithmetic, with its wrap-around.
abbrev pub u16 : ℕ → ℕ
u16 n = n % 65536

abbrev pub u128_mod : ℕ
u128_mod = 2 ^ 128

unfoldable pub tag_char_value : ℕ → Result EncodeError ℕ
tag_char_value ch =
    if leb b'0' ch && leb ch b'9'
    then ok (ch - b'0')
    else if leb b'a' ch && leb ch b'z'
    then ok (ch - b'a' + 10)
    else err (invalid_tag_character ch)

-- The last arm is `unreachable!`.
unfoldable pub value_char : ℕ → Result DecodeError ℕ
value_char value =
    if leb value 9
    then ok (b'0' + value)
    else if leb 10 value && leb value 35
    then ok (b'a' + (value - 10))
    else panic

-- The loop of `pack_tag` over the characters and their indices.
unfoldable pub fill_digits : ℕ → Text → List ℕ → Result EncodeError (List ℕ)
fill_digits index [] digits = ok digits
fill_digits index (ch ∷ tag) digits =
    tag_char_value ch >>= λ value. fill_digits (suc index) tag (set digits index value)

unfoldable pub pack_digits : List ℕ → ℕ
pack_digits digits = u16 (
    u16 (get_or digits 0 0 * base37_radix * base37_radix)
    + u16 (get_or digits 1 0 * base37_radix)
    + get_or digits 2 0)

unfoldable pub pack_tag : Text → Result EncodeError ℕ
unfolding fill_digits
pack_tag tag =
    let len = length tag in
    if len == 0
    then err empty_tag
    else if ltb 3 len
    then err (tag_too_long len)
    else fill_digits 0 tag (base37_sentinel ∷ base37_sentinel ∷ base37_sentinel ∷ []) >>= λ digits.
        ok (pack_digits digits)

abbrev pub is_sentinel : ℕ → Bool
is_sentinel digit = digit == base37_sentinel

-- `iter().position(p)` and `iter().any(p)`.
unfoldable pub position : (ℕ → Bool) → List ℕ → Option ℕ
position p [] = none
position p (x ∷ xs) =
    if p x then some 0 else elim (position p xs) [ none ↦ none | some i ↦ some (suc i) ]

unfoldable pub any : (ℕ → Bool) → List ℕ → Bool
any p [] = false
any p (x ∷ xs) = p x || any p xs

unfoldable pub unpack_digits : List ℕ → Option ℕ → Result DecodeError Text
unpack_digits digits none = traverse value_char digits
unpack_digits digits (some zero) = err empty_tag
unpack_digits digits (some (suc i)) =
    if any (λ digit. not (is_sentinel digit)) (drop (suc (suc i)) digits)
    then err embedded_sentinel
    else traverse value_char (take (suc i) digits)

unfoldable pub unpack_tag : ℕ → Result DecodeError Text
unfolding position any unpack_digits
unpack_tag value =
    if leb base37_max value
    then err (tag_packed_value_out_of_range value)
    else let digits =
        value / (base37_radix * base37_radix)
        ∷ (value / base37_radix) % base37_radix
        ∷ value % base37_radix
        ∷ [] in
      unpack_digits digits (position is_sentinel digits)

-- The integer of a list of digits, and the last n digits of an integer, the most significant first.
unfoldable pub from_digits : ℕ → ℕ → List ℕ → ℕ
from_digits base value [] = value
from_digits base value (d ∷ ds) = from_digits base (value * base + d) ds

unfoldable pub to_digits : ℕ → ℕ → ℕ → List ℕ
to_digits base zero value = []
to_digits base (suc n) value = to_digits base n (value / base) ++ value % base ∷ []

-- `to_be_bytes` of an integer of n bytes.
abbrev pub to_be_bytes : ℕ → ℕ → List ℕ
to_be_bytes = to_digits 256

abbrev pub from_be_bytes : List ℕ → ℕ
from_be_bytes = from_digits 256 0

-- The loop of `encode_crockford_base32`, from the last place to the first.
unfoldable pub encode_places : ℕ → ℕ → Text → Text
encode_places zero value encoded = encoded
encode_places (suc n) value encoded =
    encode_places n (value / 32) (get_or crockford_alphabet (value % 32) 0 ∷ encoded)

unfoldable pub encode_crockford_base32 : List ℕ → Text
encode_crockford_base32 packed = encode_places id_len (from_be_bytes packed) []

unfoldable pub crockford_value : ℕ → Option ℕ
unfolding position
crockford_value ch =
    if ltb ch 128 then position (λ candidate. candidate == ch) crockford_alphabet else none

unfoldable pub checked_mul_add : ℕ → ℕ → Option ℕ
checked_mul_add value digit =
    if ltb (value * 32) u128_mod
    then if ltb (value * 32 + digit) u128_mod then some (value * 32 + digit) else none
    else none

-- The loop of `decode_crockford_base32`.
unfoldable pub decode_places : ℕ → Text → Result DecodeError ℕ
decode_places value [] = ok value
decode_places value (ch ∷ id) =
    ok_or (crockford_value ch) (disallowed_crockford_character ch) >>= λ digit.
    ok_or (checked_mul_add value digit) base32_value_out_of_range >>= λ next. decode_places next id

unfoldable pub decode_crockford_base32 : Text → Result DecodeError (List ℕ)
decode_crockford_base32 id =
    if length id == id_len
    then (decode_places 0 id >>= λ value. ok (to_be_bytes packed_len value))
    else err (wrong_length (length id))

-- packed[first..last].
abbrev pub slice : ℕ → ℕ → List ℕ → List ℕ
slice first last packed = take (last - first) (drop first packed)

module _ (chrono : Chrono) where
  open chrono use {Time, custom_epoch, is_before, num_seconds, add_seconds}

  pub record DecodedId : Type 0 where
    pub version : ℕ
    pub site : Text
    pub env : Text
    pub timestamp : Time
    pub broker_slot : ℕ
    pub random : List ℕ

  unfoldable pub timestamp_seconds : Time → Result EncodeError ℕ
  timestamp_seconds timestamp =
      if is_before timestamp custom_epoch
      then err timestamp_before_custom_epoch
      else let seconds = num_seconds timestamp custom_epoch in
        if ltb seconds (2 ^ 32) then ok seconds else err timestamp_too_large

  unfoldable pub encode_with_fixed_random :
      Text → Text → ℕ → Time → List ℕ → Result EncodeError Text
  encode_with_fixed_random site env broker_slot timestamp random = pack_tag site >>= λ site_packed.
      pack_tag env >>= λ env_packed. timestamp_seconds timestamp >>= λ timestamp_sec. ok (
        encode_crockford_base32 (
          id_version ∷ to_be_bytes 2 site_packed
          ++ (to_be_bytes 2 env_packed
              ++ (to_be_bytes 4 timestamp_sec ++ (to_be_bytes 2 broker_slot ++ random)))))

  -- The fields of the 16 bytes of an id.
  unfoldable pub decode_packed : List ℕ → Result DecodeError DecodedId
  decode_packed packed =
      let version = get_or packed 0 0 in
      if version == id_version
      then (unpack_tag (from_be_bytes (slice 1 3 packed)) >>= λ site.
          unpack_tag (from_be_bytes (slice 3 5 packed)) >>= λ env. ok (record {
            version = version;
            site = site;
            env = env;
            timestamp = add_seconds custom_epoch (from_be_bytes (slice 5 9 packed));
            broker_slot = from_be_bytes (slice 9 11 packed);
            random = slice 11 16 packed;
          }))
      else err (unknown_version version)

  unfoldable pub decode : Text → Result DecodeError DecodedId
  unfolding decode_packed
  decode id = decode_crockford_base32 id >>= decode_packed
