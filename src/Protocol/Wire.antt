-- ===== src/Protocol/Wire.antt =====
-- What the encoder's methods append, and what the decoder's read back: the rules by which the
-- round trips of whole structures are composed.
use codexfold.Prelude.{
  ℕ, zero, suc, ◌+◌, ◌-◌, ◌/◌, ◌%◌, ◌^◌, ◌<◌, ◌≤◌, ◌≡◌, refl, sym, ap, ◌∙◌, subst, Bool, true,
  false, [], ◌∷◌, ◌++◌, ltb, leb, ◌==◌, if◌then◌else◌, length, drop, get_or, ok, arith,
  length-append, take-append, drop-append, drop-drop, length-drop, ◌&&◌, Bool-cases, inl, inr,
  append_assoc, append-nil,
}
use codexfold.Prelude.Int.{
  ℤ, pos, eq_ℤ, IsInt64, to_uint64, of_uint64, to_uint64-lt, of_uint64-to_uint64,
}
use codexfold.Prelude.Bytes.{Bytes}
use codexfold.Protocol.Codec.{
  Error, le_bytes, of_le, Time, zero_time, is_zero, Decoder, Read, ◌>>=◌, pure, remaining, get_raw,
  get_uint8, get_uint16, get_uint32, get_uint64, get_int64, get_bytes, get_string, new_decoder,
  require, ◌>>◌, time_of, get_time, done,
}

pub length-le_bytes : (k v : ℕ) → length (le_bytes k v) ≡ k
unfolding le_bytes
length-le_bytes zero v = refl
length-le_bytes (suc k) v = ap suc (length-le_bytes k (v / 256))

pub of_le-le_bytes : (k v : ℕ) → v < 256 ^ k → of_le (le_bytes k v) ≡ v
unfolding le_bytes of_le
of_le-le_bytes zero v h = omega arith
of_le-le_bytes (suc k) v h = omega (arith, of_le-le_bytes k (v / 256) (omega arith))

-- The bytes that are still to be read.
abbrev pub unread : Decoder → Bytes
unread d = drop d.offset d.input

abbrev pub skip : Decoder → ℕ → Decoder
skip d n = record d { offset = d.offset + n }

-- `m` takes the bytes `front` off any input and returns `a`.
pub record Reads {ℓ} {A : Type ℓ} (m : Read A) (front : Bytes) (a : A) : Type ℓ where
  pub at :
      (d : Decoder) (rest : Bytes) → unread d ≡ front ++ rest → m d ≡ (ok a, skip d (length front))

unread-skip :
    (d : Decoder) (front rest : Bytes)
    → unread d ≡ front ++ rest
    → unread (skip d (length front)) ≡ rest
unread-skip d front rest e =
    sym (drop-drop d.offset (length front) d.input)
    ∙ ap (drop (length front)) e
    ∙ drop-append front rest

module _ {ℓ κ} {A : Type ℓ} {B : Type κ} where
  pub Reads-bind :
      {m : Read A} (f : A → Read B) {front back : Bytes} {a : A} {b : B}
      → Reads m front a
      → Reads (f a) back b
      → Reads (m >>= f) (front ++ back) b
  unfolding ◌>>=◌
  Reads-bind {m} f {front} {back} {a} {b} r s = record {
    at = λ d rest e.
        let e' : unread d ≡ front ++ (back ++ rest) = e ∙ append_assoc front back rest in
        rw (r.at d (back ++ rest) e') (
          s.at (skip d (length front)) rest (unread-skip d front (back ++ rest) e')
          ∙ ap (λ (n : ℕ). (ok b, record d { offset = n }))
              (omega (arith, length-append {0} front back)));
  }

pub Reads-pure {ℓ} : {A : Type ℓ} (a : A) → Reads (pure a) [] a
unfolding pure
Reads-pure a = record {
  at = λ d rest e. ap (λ (n : ℕ). (ok a, record d { offset = n })) (omega arith);
}

module _ {ℓ κ} {A : Type ℓ} {B : Type κ} where
  pub Reads-last :
      {m : Read A} (f : A → Read B) {front : Bytes} {a : A} {b : B}
      → Reads m front a
      → Reads (f a) [] b
      → Reads (m >>= f) front b
  Reads-last {m} f {front} {a} {b} r s =
      subst (λ bs. Reads (m >>= f) bs b) (append-nil front) (Reads-bind f r s)

  pub Reads-map :
      {m : Read A} (f : A → B) {front : Bytes} {a : A}
      → Reads m front a
      → Reads (m >>= λ x. pure (f x)) front (f a)
  Reads-map f {front} {a} r = Reads-last (λ x. pure (f x)) r (Reads-pure (f a))

pub Reads-get_raw : (n : ℕ) (bs : Bytes) → length bs ≡ n → Reads (get_raw n) bs bs
unfolding get_raw remaining
Reads-get_raw n bs h = record {
  at = λ d rest e. ground (
    arith,
    length-drop d.offset d.input,
    ap length e,
    length-append bs rest,
    take-append bs rest,
  );
}

pub Reads-get_uint8 : (v : ℕ) → Reads get_uint8 (v ∷ []) v
unfolding get_uint8
Reads-get_uint8 v = Reads-map (λ bs. get_or bs 0 0) (Reads-get_raw 1 (v ∷ []) refl)

pub Reads-get_uint16 : (v : ℕ) → v < 65536 → Reads get_uint16 (le_bytes 2 v) v
unfolding get_uint16
Reads-get_uint16 v h =
    rw (of_le-le_bytes 2 v h) at
      (Reads-map of_le (Reads-get_raw 2 (le_bytes 2 v) (length-le_bytes 2 v)))

pub Reads-get_uint32 : (v : ℕ) → v < 4294967296 → Reads get_uint32 (le_bytes 4 v) v
unfolding get_uint32
Reads-get_uint32 v h =
    rw (of_le-le_bytes 4 v h) at
      (Reads-map of_le (Reads-get_raw 4 (le_bytes 4 v) (length-le_bytes 4 v)))

pub Reads-get_uint64 : (v : ℕ) → v < 18446744073709551616 → Reads get_uint64 (le_bytes 8 v) v
unfolding get_uint64
Reads-get_uint64 v h =
    rw (of_le-le_bytes 8 v h) at
      (Reads-map of_le (Reads-get_raw 8 (le_bytes 8 v) (length-le_bytes 8 v)))

pub Reads-get_int64 : (v : ℤ) → IsInt64 v → Reads get_int64 (le_bytes 8 (to_uint64 v)) v
unfolding get_int64
Reads-get_int64 v h =
    rw (of_uint64-to_uint64 v h) at
      (Reads-map of_uint64 (Reads-get_uint64 (to_uint64 v) (to_uint64-lt v)))

-- A length and the bytes themselves.
abbrev pub field_wire : Bytes → Bytes
field_wire bs = le_bytes 4 (length bs % 4294967296) ++ bs

pub Reads-get_bytes :
    (limit : ℕ) (bs : Bytes)
    → limit < 4294967296
    → length bs ≤ limit
    → Reads (get_bytes limit) (field_wire bs) bs
unfolding get_bytes
Reads-get_bytes limit bs h k =
    let fits : length bs % 4294967296 ≡ length bs = omega arith in
    let allowed : (ltb 0 limit && ltb limit (length bs)) ≡ false = ground arith in
    rw fits (
      Reads-bind _ (Reads-get_uint32 (length bs) (omega arith))
        (rw allowed (Reads-get_raw (length bs) bs refl)))

pub Reads-get_string :
    (limit : ℕ) (bs : Bytes)
    → limit < 4294967296
    → length bs ≤ limit
    → Reads (get_string limit) (field_wire bs) bs
unfolding get_string
Reads-get_string = Reads-get_bytes

abbrev pub time_wire : Time → Bytes
time_wire t =
    if is_zero t
    then le_bytes 8 (to_uint64 (pos 0)) ++ le_bytes 4 0
    else le_bytes 8 (to_uint64 t.seconds) ++ le_bytes 4 t.nanosecond

abbrev pub is_epoch : Time → Bool
is_epoch t = eq_ℤ t.seconds (pos 0) && t.nanosecond == 0

abbrev zero_epoch : Time
zero_epoch = record { seconds = pos 0; nanosecond = 0 }

-- What the other side sees of a time: the Unix epoch arrives as the zero time.
abbrev pub received : Time → Time
received t = if is_epoch t then zero_time else t

abbrev pub IsTime : Time → Type 0
IsTime t = IsInt64 t.seconds × (t.nanosecond < 1000000000)

zero_time-received : (t : Time) → is_zero t ≡ true → received t ≡ received zero_epoch
zero_time-received t h = ground arith

checked :
    (t : Time) → t.nanosecond < 1000000000 → Reads (time_of t.seconds t.nanosecond) [] (received t)
unfolding time_of
checked t h =
    let small : leb 1000000000 t.nanosecond ≡ false = ground arith in
    elim (Bool-cases (is_epoch t)) [
      | inl e ↦ rw e (Reads-pure zero_time)
      | inr e ↦ rw (e, small) (Reads-pure t)
    ]

Reads-fields :
    (t : Time)
    → IsTime t
    → Reads get_time (le_bytes 8 (to_uint64 t.seconds) ++ le_bytes 4 t.nanosecond) (received t)
unfolding get_time
Reads-fields t (h, k) =
    Reads-bind _ (Reads-get_int64 t.seconds h)
      (Reads-last _ (Reads-get_uint32 t.nanosecond (omega arith)) (checked t k))

pub Reads-get_time : (t : Time) → IsTime t → Reads get_time (time_wire t) (received t)
Reads-get_time t h = elim (Bool-cases (is_zero t)) [
  | inl z ↦ rw (z, zero_time-received t z) (Reads-fields zero_epoch (omega arith))
  | inr other ↦ rw other (Reads-fields t h)
]

-- On a fresh decoder.
pub Reads-new {ℓ} :
    {A : Type ℓ} (m : Read A) {front : Bytes} {a : A} (rest : Bytes)
    → Reads m front a
    → m (new_decoder (front ++ rest))
      ≡ (ok a, record { input = front ++ rest; offset = length front })
Reads-new m {front} {a} rest r =
    r.at (new_decoder (front ++ rest)) rest refl
    ∙ ap (λ (n : ℕ). (ok a, record { input = front ++ rest; offset = n })) (omega arith)

pub Reads-require {ℓ} :
    {A : Type ℓ} {m : Read A} (good : A → Bool) (e : Error) {front : Bytes} {a : A}
    → Reads m front a
    → good a ≡ true
    → Reads (require m good e) front a
unfolding require
Reads-require good e {front} {a} r h = record { at = λ d rest p. rw (r.at d rest p) (rw h refl) }

-- A structure that fills its input: the check for trailing bytes passes.
pub Reads-done {ℓ} :
    {A : Type ℓ} {m : Read A} {bytes : Bytes} {a : A}
    → Reads m bytes a
    → ((m >>= λ x. done >> pure x) (new_decoder bytes)).0 ≡ ok a
unfolding ◌>>=◌ done remaining pure
Reads-done {m} {bytes} {a} r =
    let at_end : (length bytes - (0 + length bytes) == 0) ≡ true = ground arith in
    rw (r.at (new_decoder bytes) [] (sym (append-nil bytes))) (rw at_end refl)
