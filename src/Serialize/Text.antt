-- ===== src/Serialize/Text.antt =====
-- svr/library/networking/Serialization.h: serialize_string, and the other macros that are made of
-- the simple ones. A float or a double is the number that its bytes write down.
pub mod RoundTrip
use rudp_network.Prelude.{
  ℕ, ◌+◌, ◌-◌, List, [], ◌∷◌, Option, none, some, Bool, true, false, not, ◌||◌, ◌&&◌, ◌>>=◌, assert,
  ltb, leb, Step, if◌then◌else◌, ◌==◌, u32, suc, set, length,
}
use rudp_network.Prelude.Int.{ℤ, pos, negsuc, ltb_ℤ, leb_ℤ}
use rudp_network.Stream.{Stream}
use rudp_network.Serialize.{
  Serializer, serialize_int, serialize_bits, serialize_uint64, serialize_bytes,
}

-- strlen of the memory from the string on; it runs out where no byte is zero.
unfoldable pub strlen : List ℕ → Option ℕ
strlen [] = none
strlen (c ∷ cs) = let rest = strlen cs in if c == 0 then some 0 else (rest >>= λ n. some (suc n))

-- An int that is used as a number of bytes.
abbrev pub as_size : ℤ → Option ℕ
as_size (pos n) = some n
as_size (negsuc n) = none

module _ (S : Stream) where
  open S use {is_writing, is_reading}

  unfoldable pub serialize_uint32 : Serializer S.State ℕ
  unfolding serialize_bits
  serialize_uint32 = serialize_bits S (λ v. v) 32

  -- A reading stream is left with the variable that it was given: the source assigns `(type) value`.
  unfoldable pub serialize_enum : ℕ → Serializer S.State ℤ
  unfolding serialize_int
  serialize_enum num_entries s value = do
    r ← serialize_int S (λ z. z) (pos 0) (pos (num_entries - 1)) s value
    some (record { ok = r.ok; stream = r.stream; value = value })

  -- The four bytes of the float. They are indeterminate in the source when the call fails.
  unfoldable pub serialize_float : Serializer S.State ℕ
  serialize_float s value = do
    r ← S.serialize_bits s value 32
    some (record { ok = r.ok; stream = r.stream; value = if is_reading then r.value else value })

  -- The eight bytes of the double.
  unfoldable pub serialize_double : Serializer S.State ℕ
  unfolding serialize_uint64
  serialize_double s value = do
    r ← serialize_uint64 S s value
    some (record {
      ok = r.ok;
      stream = r.stream;
      value = if r.ok && is_reading then r.value else value;
    })

  -- The length, then the bytes; a reading stream ends the string behind them. `string` is the buffer
  -- that is passed. A reading stream does not look at the length that is passed to serialize_int.
  unfoldable pub serialize_string : ℕ → Serializer S.State (List ℕ)
  unfolding strlen serialize_int serialize_bytes
  serialize_string buffer_size s string = do
    length_ref ←
        if is_writing
        then (strlen string >>= λ n. assert (ltb (n + 1) buffer_size) (some n))
        else some 0
    l ← serialize_int S (λ z. z) (pos 0) (pos (buffer_size - 1)) s (pos length_ref)
    if not l.ok then some (record { ok = false; stream = l.stream; value = string }) else do
      n ← as_size l.value
      b ← serialize_bytes S n l.stream string
      if not b.ok
          then some (record { ok = false; stream = b.stream; value = b.value })
          else if is_reading
          then assert (ltb n (length b.value))
              (some (record { ok = true; stream = b.stream; value = set b.value n 0 }))
          else some (record { ok = true; stream = b.stream; value = b.value })

  -- read_bits and read_int, for code that only reads. `store` is the conversion to the variable.
  unfoldable pub read_bits : (ℕ → ℕ) → ℕ → Serializer S.State ℕ
  read_bits store bits s value = assert (ltb 0 bits) (
      assert (leb bits 32) do
        r ← S.serialize_bits s value bits
        some (record {
          ok = r.ok;
          stream = r.stream;
          value = if r.ok then store r.value else value;
        }))

  unfoldable pub read_int : (ℤ → ℤ) → ℤ → ℤ → Serializer S.State ℤ
  read_int store min max s value = assert (ltb_ℤ min max) do
    r ← S.serialize_integer s value min max
    if not r.ok
        then some (record { ok = false; stream = r.stream; value = value })
        else let value' = store r.value in
          some (record {
            ok = not (ltb_ℤ value' min || ltb_ℤ max value');
            stream = r.stream;
            value = value';
          })

  -- write_bits and write_int, for code that only writes.
  unfoldable pub write_bits : ℕ → Serializer S.State ℕ
  write_bits bits s value = assert (ltb 0 bits) (
      assert (leb bits 32) do
        r ← S.serialize_bits s (u32 value) bits
        some (record { ok = r.ok; stream = r.stream; value = value }))

  unfoldable pub write_int : ℤ → ℤ → Serializer S.State ℤ
  write_int min max s value = assert (ltb_ℤ min max) (
      assert (leb_ℤ min value) (
        assert (leb_ℤ value max) do
          r ← S.serialize_integer s value min max
          some (record { ok = r.ok; stream = r.stream; value = value })))
