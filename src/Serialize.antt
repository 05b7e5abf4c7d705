-- ===== src/Serialize.antt =====
-- svr/library/networking/Serialization.h: the serialize_ macros and templates, over any stream.
-- `return false` in a macro leaves the whole Serialize function, with what was stored so far.
-- A `_ref` argument is passed by the caller's value; a reading stream does not look at it.
pub mod Fields
pub mod Text
pub mod Returns
use rudp_network.Prelude.{
  ℕ, ◌+◌, ◌-◌, ◌*◌, ◌/◌, ◌%◌, ◌^◌, List, Option, some, Bool, true, false, not, ◌||◌, ◌&&◌, ◌>>=◌,
  assert, ltb, leb, Step, if◌then◌else◌, bit_and, bit_or, ◌<<◌, ◌>>◌, u64, u32, ◌==◌,
}
use rudp_network.Prelude.Int.{ℤ, pos, ltb_ℤ, leb_ℤ}
use rudp_network.Stream.{Stream}

-- A function that runs on a stream and the object that it reads or fills.
abbrev pub Serializer : Type 0 → Type 0 → Type 0
Serializer St P = St → P → Option (Step St P)

-- The statements of a Serialize function in turn: the first that returns false ends it.
infixr 30 ◌⨾◌
abbrev pub ◌⨾◌ : {St P : Type 0} → Serializer St P → Serializer St P → Serializer St P
◌⨾◌ f g s p = do r ← f s p; if r.ok then g r.stream r.value else some r

-- A statement on one field of the object.
abbrev pub on : {St P V : Type 0} → (P → V) → (V → P → P) → Serializer St V → Serializer St P
on get set f s p = do
  r ← f s (get p)
  some (record { ok = r.ok; stream = r.stream; value = set r.value p })

-- The macro serialize_check on the stream's SerializeCheck.
unfoldable pub serialize_check :
    {State P : Type 0}
    → (State → List ℕ → Option (Step State (Unit {0})))
    → List ℕ
    → Serializer State P
serialize_check check name s p = do
  r ← check s name
  some (record { ok = r.ok; stream = r.stream; value = p })

-- The macro serialize_object on the object's Serialize.
unfoldable pub serialize_object : {State P : Type 0} → Serializer State P → Serializer State P
serialize_object serialize s object = do
  r ← serialize s object
  some (record { ok = r.ok; stream = r.stream; value = r.value })

module _ (S : Stream) where
  open S use {is_writing, is_reading}

  -- `store` is the conversion to the variable's type in `value = int32_value`.
  unfoldable pub serialize_int : (ℤ → ℤ) → ℤ → ℤ → Serializer S.State ℤ
  serialize_int store min max s value = assert (ltb_ℤ min max) (
      assert (not is_writing || leb_ℤ min value && leb_ℤ value max) do
        r ← S.serialize_integer s value min max
        if not r.ok
            then some (record { ok = false; stream = r.stream; value = value })
            else if not is_reading
            then some (record { ok = true; stream = r.stream; value = value })
            else let value' = store r.value in
              some (record {
                ok = not (ltb_ℤ value' min || ltb_ℤ max value');
                stream = r.stream;
                value = value';
              }))

  unfoldable pub serialize_bits : (ℕ → ℕ) → ℕ → Serializer S.State ℕ
  serialize_bits store bits s value = assert (ltb 0 bits) (
      assert (leb bits 32) do
        r ← S.serialize_bits s (u32 value) bits
        some (record {
          ok = r.ok;
          stream = r.stream;
          value = if r.ok && is_reading then store r.value else value;
        }))

  unfoldable pub serialize_bool : Serializer S.State Bool
  unfolding serialize_bits
  serialize_bool s value = do
    r ← serialize_bits (λ v. v) 1 s (if value then 1 else 0)
    some (record {
      ok = r.ok;
      stream = r.stream;
      value = if r.ok && is_reading then not (r.value == 0) else value;
    })

  unfoldable pub serialize_uint64 : Serializer S.State ℕ
  unfolding serialize_bits
  serialize_uint64 s value = do
    lo ← serialize_bits (λ v. v) 32 s (bit_and value 0xFFFFFFFF)
    if not lo.ok then some (record { ok = false; stream = lo.stream; value = value }) else do
      hi ← serialize_bits (λ v. v) 32 lo.stream (value >> 32)
      some (record {
        ok = hi.ok;
        stream = hi.stream;
        value = if hi.ok && is_reading then bit_or (u64 (hi.value << 32)) lo.value else value;
      })

  unfoldable pub serialize_bytes : ℕ → Serializer S.State (List ℕ)
  serialize_bytes bytes s buffer = S.serialize_bytes s buffer bytes

  unfoldable pub serialize_align : {P : Type 0} → Serializer S.State P
  serialize_align s p = do
    r ← S.serialize_align s
    some (record { ok = r.ok; stream = r.stream; value = p })
