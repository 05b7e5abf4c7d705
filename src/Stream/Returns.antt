-- ===== src/Stream/Returns.antt =====
-- Serialization.h: what reading does with bytes of any content. A call returns in every case: with
-- false when the packet is too short, and else with what the bits say.
use native.Mathlib.Nat.{mod-lt}
use rudp_network.Prelude.{
  ℕ, ◌-◌, ◌/◌, ◌%◌, ◌^◌, ◌≤◌, ◌<◌, ◌≡◌, ◌⊎◌, inl, inr, refl, arith, Option, some, true, false, Step,
  Bool, Bool-cases, leb, leb→le, subst,
}
use rudp_network.Prelude.Int.{ℤ, pos, ◌≤ℤ◌, ◌+ℤ◌, in_int32, to_int32, int32_min}
use rudp_network.Bits.{two-pow-pos, two-pow_mono}
use rudp_network.BitReader
use rudp_network.BitReader.Refines.{read_bits-Taken}
use rudp_network.Util.BitsRequired.{IsWidth}
use rudp_network.Stream.Error.{ProtocolError}
use rudp_network.Stream.Read
use rudp_network.Stream.Read.{ReadStream}
use rudp_network.Stream.Advance.{Reading, IsRange, range-Width, read_bits-Readed}

-- What a call on a stream with `rest` before it does: it stores something and goes on reading, or
-- it fails.
pub record Outcome {V : Type 0} (m : Option (Step ReadStream V)) : Type 0 where
  pub ok : Bool
  pub stream : ReadStream
  pub value : V
  pub returns : m ≡ some (record { ok = ok; stream = stream; value = value })
  pub rest : ℕ
  pub reading : (ok ≡ false) ⊎ Reading stream rest

-- SerializeBits returns on every stream.
pub serialize_bits-Outcome :
    (s : ReadStream) (before bits : ℕ) {rest : ℕ}
    → Reading s rest
    → 0 < bits
    → bits ≤ 32
    → Outcome (Read.serialize_bits s before bits)
unfolding Read.serialize_bits BitReader.would_overflow
serialize_bits-Outcome s before bits {rest} v h k =
    elim (Bool-cases (BitReader.would_overflow bits s.reader)) [
      | inl short ↦ record {
        ok = false;
        stream = record s { error = ProtocolError.stream_overflow };
        value = before;
        returns = ground (arith, short);
        rest = 0;
        reading = inl refl;
      }
      | inr enough ↦
          let r = read_bits-Readed s before bits v h k (ground (arith, enough)) in
          record {
            ok = true;
            stream = r.0;
            value = rest % 2 ^ bits;
            returns = r.1;
            rest = rest / 2 ^ bits;
            reading = inr r.2.reading;
          }
    ]

-- A value of at most 31 bits and a minimum that is not positive have an int32_t for a sum.
int_sum :
    (u : ℕ) (min : ℤ)
    → u < 2 ^ 31
    → min ≤ℤ pos 0
    → int32_min ≤ℤ min
    → (v : ℤ) × (in_int32 (to_int32 u +ℤ min) ≡ some v) × (min ≤ℤ v)
unfolding to_int32 ◌+ℤ◌ in_int32
int_sum u min h k low = (to_int32 u +ℤ min, ground arith, ground arith)

-- A range narrower than 2^31 has at most 31 bits.
narrow_width : (bits d x : ℕ) → IsWidth d bits → d < 2 ^ 31 → x % 2 ^ bits < 2 ^ 31
narrow_width bits d x w h =
    let low : x % 2 ^ bits < 2 ^ bits = mod-lt x (two-pow-pos bits) in
    elim (Bool-cases (leb bits 31)) [
      | inl few ↦ omega (arith, two-pow_mono {a = bits} {b = 31} (leb→le _ _ few))
      | inr many ↦
          let e : bits ≡ 32 = ground (arith, many, w.word_bits) in
          let top : 2 ^ 31 ≤ d = subst (λ (t : ℕ). 2 ^ (t - 1) ≤ d) e w.needed in
          absurd (omega arith)
    ]

-- SerializeInteger returns on every stream, for a range with a minimum that is not positive, and
-- what is stored is not below the minimum if the old value was not.
pub serialize_integer-Outcome :
    (s : ReadStream) (before min max : ℤ) {rest : ℕ}
    → Reading s rest
    → IsRange min max
    → min ≤ℤ pos 0
    → (o : Outcome (Read.serialize_integer s before min max)) × (min ≤ℤ before → min ≤ℤ o.value)
unfolding Read.serialize_integer BitReader.would_overflow
serialize_integer-Outcome s before min max {rest} v r low =
    let w = range-Width min max r in
    let bits : ℕ = w.0 in
    elim (Bool-cases (BitReader.would_overflow bits s.reader)) [
      | inl short ↦ (
        record {
          ok = false;
          stream = record s { error = ProtocolError.stream_overflow };
          value = before;
          returns = ground (arith, w.1, short, r.ordered);
          rest = 0;
          reading = inl refl;
        },
        λ h. h,
      )
      | inr enough ↦
          let t =
            read_bits-Taken bits s.reader v.view (w.2).pos_bits (w.2).word_bits
              (ground (arith, enough)) in
          let small : rest % 2 ^ bits < 2 ^ 31 = narrow_width bits _ rest w.2 r.narrow in
          let sum = int_sum (rest % 2 ^ bits) min small low r.above in
          (
            record {
              ok = true;
              stream = Read.advanced s bits t.0;
              value = sum.0;
              returns = ground (arith, w.1, enough, t.1, sum.1, r.ordered);
              rest = rest / 2 ^ bits;
              reading = inr (record {
                no_error = v.no_error;
                counted = omega (arith, v.counted, t.2.bits_read);
                view = t.2.refines;
              });
            },
            λ h. sum.2,
          )
    ]
