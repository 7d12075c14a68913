-- ===== src/RequestId/Tests.antt =====
-- The ids of the source's own tests, and the theorems of this component at concrete inputs.
use bits_broker.Prelude.{◌+◌, ◌*◌, ◌≡◌, refl, arith, ok, err}
use bits_broker.RequestId.{
  pack_tag, unpack_tag, encode_with_fixed_random, decode, timestamp_seconds, embedded_sentinel,
  tag_char_value, value_char, fill_digits, pack_digits, encode_crockford_base32, from_digits,
  to_digits, encode_places,
}
use bits_broker.RequestId.Samples.{unix_nanos, bol, dev, random, known_vector, known_time, known_id}
use bits_broker.RequestId.Codec.{decode-encode_with_fixed_random, encode_with_fixed_random-decode}

known_vector_encodes :
    encode_with_fixed_random unix_nanos bol dev 42 known_time random ≡ ok known_vector
unfolding encode_with_fixed_random pack_tag fill_digits pack_digits tag_char_value timestamp_seconds
    encode_crockford_base32 encode_places from_digits to_digits
known_vector_encodes = refl

known_seconds : timestamp_seconds unix_nanos known_time ≡ ok 97445
unfolding timestamp_seconds
known_seconds = refl

embedded_sentinel_rejected : unpack_tag (10 * 1369 + 36 * 37 + 12) ≡ err embedded_sentinel
unfolding unpack_tag
embedded_sentinel_rejected = refl

bol_packs : pack_tag bol ≡ ok 15968
unfolding pack_tag fill_digits pack_digits tag_char_value
bol_packs = refl

bol_unpacks : unpack_tag 15968 ≡ ok bol
unfolding unpack_tag value_char
bol_unpacks = refl

decode-encode_with_fixed_random_example : decode unix_nanos known_vector ≡ ok known_id
decode-encode_with_fixed_random_example =
    decode-encode_with_fixed_random unix_nanos bol dev 42 known_time random (omega arith) refl
      (omega arith) known_seconds known_vector_encodes

encode_with_fixed_random-decode_example :
    encode_with_fixed_random unix_nanos bol dev 42 known_time random ≡ ok known_vector
encode_with_fixed_random-decode_example =
    encode_with_fixed_random-decode unix_nanos known_vector {d = known_id}
      decode-encode_with_fixed_random_example
