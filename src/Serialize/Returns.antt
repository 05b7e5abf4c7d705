-- ===== src/Serialize/Returns.antt =====
-- Serialization.h: the macros on bytes of any content, with a reading stream.
use rudp_network.Prelude.{
  ℕ, ◌≤◌, ◌<◌, ◌≡◌, inl, inr, refl, arith, Option, some, true, Step, Bool-cases, if◌then◌else◌, u32,
  u64, ◌<<◌, ◌>>◌, bit_and, bit_or, lt→ltb, le→leb, not, ◌&&◌, ◌||◌,
}
use rudp_network.Prelude.Int.{ℤ, pos, ltb_ℤ, ◌≤ℤ◌}
use rudp_network.Stream.{read_stream}
use rudp_network.Stream.Read.{ReadStream}
use rudp_network.Stream.Advance.{Reading, IsRange}
use rudp_network.Stream.Returns.{Outcome, serialize_bits-Outcome, serialize_integer-Outcome}
use rudp_network.Serialize.{Serializer, ◌⨾◌, on, serialize_int, serialize_bits, serialize_uint64}

-- `f` returns on every stream, and leaves one to read on from where it returns true.
abbrev pub Returns : {P : Type 0} → Serializer ReadStream P → Type 0
Returns {P} f = (s : ReadStream) (rest : ℕ) → Reading s rest → (p : P) → Outcome (f s p)

-- The outcome of a call whose result is turned into another by code that cannot fail.
pub Returns-Outcome :
    {V W : Type 0} {m : Option (Step ReadStream V)} (o : Outcome m) {n : Option (Step ReadStream W)}
    (w : W)
    → n ≡ some (record { ok = o.ok; stream = o.stream; value = w })
    → Outcome n
Returns-Outcome o w e = record {
  ok = o.ok;
  stream = o.stream;
  value = w;
  returns = e;
  rest = o.rest;
  reading = o.reading;
}

-- A statement on a member.
pub on-Returns :
    {P V : Type 0} (get : P → V) (set : V → P → P) (f : Serializer ReadStream V)
    → Returns f
    → Returns (on get set f)
on-Returns get set f h s rest v p =
    let o = h s rest v (get p) in Returns-Outcome o (set o.value p) (rw o.returns refl)

-- A stream that a call which returned true leaves.
pub Outcome-Reading :
    {V : Type 0} {m : Option (Step ReadStream V)} (o : Outcome m)
    → o.ok ≡ true
    → Reading o.stream o.rest
Outcome-Reading o h = elim o.reading [ inl failed ↦ absurd (cc) | inr more ↦ more ]

-- Two statements in a row.
pub then-Returns :
    {P : Type 0} (f g : Serializer ReadStream P) → Returns f → Returns g → Returns (f ⨾ g)
then-Returns f g h k s rest v p =
    let o = h s rest v p in
    elim (Bool-cases o.ok) [
      | inl more ↦
          let next = k o.stream o.rest (Outcome-Reading o more) o.value in
          Returns-Outcome next next.value (rw (o.returns, more, next.returns) refl)
      | inr failed ↦ Returns-Outcome o o.value (rw (o.returns, failed) refl)
    ]

pub serialize_bits-Returns :
    (store : ℕ → ℕ) (bits : ℕ)
    → 0 < bits
    → bits ≤ 32
    → Returns (serialize_bits read_stream store bits)
unfolding serialize_bits
serialize_bits-Returns store bits h k s rest v p =
    let o = serialize_bits-Outcome s (u32 p) bits v h k in
    Returns-Outcome o (if o.ok && true then store o.value else p)
      (rw (lt→ltb _ _ h, le→leb _ _ k, o.returns) refl)

pub serialize_int-Returns :
    (store : ℤ → ℤ) (min max : ℤ)
    → IsRange min max
    → min ≤ℤ pos 0
    → Returns (serialize_int read_stream store min max)
unfolding serialize_int
serialize_int-Returns store min max r low s rest v p =
    let o = (serialize_integer-Outcome s p min max v r low).0 in
    let range : ltb_ℤ min max ≡ true = lt→ltb _ _ r.ordered in
    elim (Bool-cases o.ok) [
      | inl read ↦
          let x : ℤ = store o.value in
          record {
            ok = not (ltb_ℤ x min || ltb_ℤ max x);
            stream = o.stream;
            value = x;
            returns = rw (range, o.returns, read) refl;
            rest = o.rest;
            reading = inr (Outcome-Reading o read);
          }
      | inr failed ↦ Returns-Outcome o p (rw (range, o.returns, failed) refl)
    ]

pub serialize_uint64-Returns : Returns (serialize_uint64 read_stream)
unfolding serialize_uint64
serialize_uint64-Returns s rest v p =
    let lo =
      serialize_bits-Returns (λ x. x) 32 (omega arith) (omega arith) s rest v
        (bit_and p 0xFFFFFFFF) in
    elim (Bool-cases lo.ok) [
      | inl read ↦
          let hi =
            serialize_bits-Returns (λ x. x) 32 (omega arith) (omega arith) lo.stream lo.rest
              (Outcome-Reading lo read) (p >> 32) in
          Returns-Outcome hi (if hi.ok && true then bit_or (u64 (hi.value << 32)) lo.value else p)
            (rw (lo.returns, read, hi.returns) refl)
      | inr failed ↦ Returns-Outcome lo p (rw (lo.returns, failed) refl)
    ]
