-- ===== src/RequestId/Samples.antt =====
-- Concrete ids and times, and a clock that meets what the code takes from chrono.
use bits_broker.Prelude.{ℕ, ◌+◌, ◌-◌, ◌*◌, ◌/◌, ◌≡◌, ltb, List, [], ◌∷◌, arith, some, Text, false}
use bits_broker.RequestId.{Chrono, DecodedId}

abbrev pub nanos : ℕ
nanos = 1000000000

pub seconds_back : (t n : ℕ) → (t + n * nanos - t) / nanos ≡ n
seconds_back t n = omega arith

pub not_before : (t n : ℕ) → ltb (t + n * nanos) t ≡ false
not_before t n = ground arith

-- Nanoseconds since 1970.
abbrev pub unix_nanos : Chrono
unix_nanos = record {
  Time = ℕ;
  custom_epoch = 1735689600 * nanos;
  is_before = ltb;
  num_seconds = λ t s. (t - s) / nanos;
  add_seconds = λ t n. t + n * nanos;
  add_std = λ t d. some (t + d);
  add_not_before = not_before;
  num_seconds-add = seconds_back;
}

abbrev pub bol : Text
bol = b'b' ∷ b'o' ∷ b'l' ∷ []

abbrev pub dev : Text
dev = b'd' ∷ b'e' ∷ b'v' ∷ []

abbrev pub random : List ℕ
random = 0x01 ∷ 0x23 ∷ 0x45 ∷ 0x67 ∷ 0x89 ∷ []

-- "017sg4fag005yaa01a04hmasw9"
abbrev pub known_vector : Text
known_vector =
    b'0' ∷ b'1' ∷ b'7' ∷ b's' ∷ b'g' ∷ b'4' ∷ b'f' ∷ b'a' ∷ b'g' ∷ b'0' ∷ b'0' ∷ b'5' ∷ b'y' ∷ b'a'
    ∷ b'a' ∷ b'0' ∷ b'1' ∷ b'a' ∷ b'0' ∷ b'4' ∷ b'h' ∷ b'm' ∷ b'a' ∷ b's' ∷ b'w' ∷ b'9' ∷ []

-- 2025-01-02T03:04:05Z
abbrev pub known_time : ℕ
known_time = (1735689600 + 97445) * nanos

abbrev pub known_id : DecodedId unix_nanos
known_id = record {
  version = 1;
  site = bol;
  env = dev;
  timestamp = known_time;
  broker_slot = 42;
  random = random;
}
