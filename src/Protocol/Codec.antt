-- ===== src/Protocol/Codec.antt =====
-- internal/fskitproto/codec.go: the `Encoder`, which appends to a byte buffer, and the `Decoder`,
-- which walks one. A Go string is its bytes, a `time.Time` is the pair that `Unix` and
-- `Nanosecond` give, and a byte is a number below 256.
use codexfold.Prelude.{
  ℕ, zero, suc, ◌+◌, ◌-◌, ◌*◌, ◌/◌, ◌%◌, Bool, ◌&&◌, not, [], ◌∷◌, ◌++◌, ltb, leb, ◌==◌,
  if◌then◌else◌, length, take, drop, get_or, Outcome, Action, ok, err,
}
use codexfold.Prelude.Bytes.{Bytes}
use codexfold.Prelude.Int.{ℤ, pos, negsuc, eq_ℤ, to_uint64, of_uint64}
use Prim.Native.Nat.{bit_and}

pub data Error : Type 0 where
  truncated timestamp trailing : Error
  over_limit : ℕ → Error
  bad_magic bad_generation bad_socket bad_token : Error
  bad_version : ℕ → Error
  end_of_stream short_stream short_write out_of_fuel : Error

-- `binary.LittleEndian`: `k` bytes of `v`, the lowest first.
unfoldable pub le_bytes : ℕ → ℕ → Bytes
le_bytes zero v = []
le_bytes (suc k) v = (v % 256) ∷ le_bytes k (v / 256)

unfoldable pub of_le : Bytes → ℕ
of_le [] = 0
of_le (b ∷ bs) = b + 256 * of_le bs

pub record Time : Type 0 where
  pub seconds : ℤ
  pub nanosecond : ℕ

-- `time.Time{}`: the first of January of the year 1.
abbrev pub zero_time : Time
zero_time = record { seconds = negsuc 62135596799; nanosecond = 0 }

abbrev pub is_zero : Time → Bool
is_zero t = eq_ℤ t.seconds (negsuc 62135596799) && t.nanosecond == 0

pub record Encoder : Type 0 where
  pub buffer : Bytes

abbrev pub new_encoder : Encoder
new_encoder = record { buffer = [] }

-- What each method of the encoder does to it.
abbrev pub Write : Type 0
Write = Encoder → Encoder

unfoldable pub put_raw : Bytes → Write
put_raw value e = record { buffer = e.buffer ++ value }

unfoldable pub put_uint8 : ℕ → Write
put_uint8 value e = record { buffer = e.buffer ++ value ∷ [] }

unfoldable pub put_uint16 : ℕ → Write
put_uint16 value e = record { buffer = e.buffer ++ le_bytes 2 value }

unfoldable pub put_uint32 : ℕ → Write
put_uint32 value e = record { buffer = e.buffer ++ le_bytes 4 value }

unfoldable pub put_uint64 : ℕ → Write
put_uint64 value e = record { buffer = e.buffer ++ le_bytes 8 value }

unfoldable pub put_int64 : ℤ → Write
put_int64 value = put_uint64 (to_uint64 value)

-- The length goes through `uint32`.
unfoldable pub put_bytes : Bytes → Write
put_bytes value e = put_raw value (put_uint32 (length value % 4294967296) e)

unfoldable pub put_string : Bytes → Write
put_string value = put_bytes value

unfoldable pub put_time : Time → Write
put_time t e =
    if is_zero t
    then put_uint32 0 (put_int64 (pos 0) e)
    else put_uint32 t.nanosecond (put_int64 t.seconds e)

pub record Decoder : Type 0 where
  pub input : Bytes
  pub offset : ℕ

abbrev pub new_decoder : Bytes → Decoder
new_decoder bytes = record { input = bytes; offset = 0 }

-- A method of the decoder: its result, and the decoder as the method leaves it, also on an error.
abbrev pub Read {ℓ} : Type ℓ → Type ℓ
Read = Action Error Decoder

abbrev pub continue {ℓ κ μ} :
    {S : Type μ} {A : Type ℓ} {B : Type κ}
    → Outcome Error A
    → (A → Action Error S B)
    → Action Error S B
continue (ok a) f s = f a s
continue (err e) f s = (err e, s)

infixl 5 ◌>>=◌ ◌>>◌
unfoldable pub ◌>>=◌ {ℓ κ μ} :
    {S : Type μ} {A : Type ℓ} {B : Type κ}
    → Action Error S A
    → (A → Action Error S B)
    → Action Error S B
◌>>=◌ m f s = let (r, s') = m s in continue r f s'

abbrev pub ◌>>◌ {ℓ κ μ} :
    {S : Type μ} {A : Type ℓ} {B : Type κ} → Action Error S A → Action Error S B → Action Error S B
m >> n = m >>= λ _. n

unfoldable pub pure {ℓ μ} : {S : Type μ} {A : Type ℓ} → A → Action Error S A
pure a s = (ok a, s)

unfoldable pub fail {ℓ μ} : {S : Type μ} {A : Type ℓ} → Error → Action Error S A
fail e s = (err e, s)

-- A result that does not depend on the state.
unfoldable pub lift {ℓ μ} : {S : Type μ} {A : Type ℓ} → Outcome Error A → Action Error S A
lift r s = (r, s)

abbrev pub accept {ℓ} : {A : Type ℓ} → (A → Bool) → Error → Outcome Error A → Outcome Error A
accept good e (ok a) = if good a then ok a else err e
accept good e (err _) = err e

-- `x, err := m` with a test that answers its own error, whatever went wrong before.
unfoldable pub require {ℓ μ} :
    {S : Type μ} {A : Type ℓ} → Action Error S A → (A → Bool) → Error → Action Error S A
require m good e s = let (r, s') = m s in (accept good e r, s')

unfoldable pub remaining : Decoder → ℕ
remaining d = length d.input - d.offset

unfoldable pub get_raw : ℕ → Read Bytes
unfolding remaining
get_raw n d =
    if ltb (remaining d) n
    then (err truncated, d)
    else (ok (take n (drop d.offset d.input)), record d { offset = d.offset + n })

unfoldable pub get_uint8 : Read ℕ
get_uint8 = do value ← get_raw 1; pure (get_or value 0 0)

unfoldable pub get_uint16 : Read ℕ
get_uint16 = do value ← get_raw 2; pure (of_le value)

unfoldable pub get_uint32 : Read ℕ
get_uint32 = do value ← get_raw 4; pure (of_le value)

unfoldable pub get_uint64 : Read ℕ
get_uint64 = do value ← get_raw 8; pure (of_le value)

unfoldable pub get_int64 : Read ℤ
get_int64 = do value ← get_uint64; pure (of_uint64 value)

-- A limit of 0 is no limit; a 32-bit length always fits an `int`.
unfoldable pub get_bytes : ℕ → Read Bytes
get_bytes limit = do
  n ← get_uint32
  if ltb 0 limit && ltb limit n then fail (over_limit n) else get_raw n

unfoldable pub get_string : ℕ → Read Bytes
get_string limit = get_bytes limit

-- What `(*Decoder).Time` does with the two numbers that it has read.
unfoldable pub time_of : ℤ → ℕ → Read Time
time_of seconds nanoseconds =
    if eq_ℤ seconds (pos 0) && nanoseconds == 0
    then pure zero_time
    else if leb 1000000000 nanoseconds
    then fail timestamp
    else pure (record { seconds = seconds; nanosecond = nanoseconds })

unfoldable pub get_time : Read Time
get_time = do seconds ← get_int64; nanoseconds ← get_uint32; time_of seconds nanoseconds

unfoldable pub done : Read (Unit {0})
unfolding remaining
done d = if remaining d == 0 then (ok tt, d) else (err trailing, d)

-- `capabilities & CapabilityContentGeneration != 0`
unfoldable pub has_content_generation : ℕ → Bool
has_content_generation capabilities = not (bit_and capabilities 16 == 0)
