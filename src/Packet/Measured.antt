-- ===== src/Packet/Measured.antt =====
-- svr/library/networking/PacketFactory.h with the MeasureStream of Serialization.h: the size of a
-- packet without writing it.
use rudp_network.Prelude.{
  ℕ, ◌+◌, ◌*◌, ◌≤◌, ◌<◌, ◌^◌, ◌≡◌, refl, ap, arith, List, [], ◌∷◌, Option, some, true, length, Step,
}
use rudp_network.Prelude.Int.{ℤ, pos, negsuc, ◌<ℤ◌}
use rudp_network.Memory.{IsBytes}
use rudp_network.Stream.{write_stream, measure_stream}
use rudp_network.Stream.Advance.{Width, Writing}
use rudp_network.Stream.Write.{WriteStream}
use rudp_network.Stream.Measure
use rudp_network.Stream.Measure.{MeasureStream}
use rudp_network.Serialize.{Serializer, ◌⨾◌, on, serialize_int, serialize_bits, serialize_uint64}
use rudp_network.Packet.{
  Packet, TestPacketA, TestPacketB, test_a, test_b, test_c, heartbeat, start_req, start_rsp,
  stop_req, stop_rsp,
}
use rudp_network.Packet.Serialize.{
  as_int, as_byte, serialize_test_a, serialize_test_b, serialize_data, serialize_test_c,
  serialize_heartbeat, serialize_start_req, serialize_start_rsp, serialize_stop_req,
  serialize_stop_rsp, serialize,
}
use rudp_network.Packet.Factory.{Junk}
use rudp_network.Packet.RoundTrip.{width, packet_codec}
use rudp_network.Packet.Codecs.{
  IsWellFormed, Between, Width-21, Width-41, Width-61, Width-11, Width-256,
}

abbrev counts : MeasureStream → ℕ → MeasureStream
counts s bits = record s { bits_written = s.bits_written + bits }

abbrev answer : {P : Type 0} → MeasureStream → ℕ → P → Option (Step MeasureStream P)
answer s t p = some (record { ok = true; stream = record s { bits_written = t }; value = p })

-- Where the int has room for them, `f` counts `bits` bits for `p` and does nothing else.
abbrev Measures : {P : Type 0} → Serializer MeasureStream P → P → ℕ → Type 0
Measures f p bits =
    (s : MeasureStream)
    → s.bits_written + bits < 2 ^ 31
    → f s p ≡ some (record { ok = true; stream = counts s bits; value = p })

Measures-then :
    {P : Type 0} (f g : Serializer MeasureStream P) (p : P) (m n : ℕ)
    → Measures f p m
    → Measures g p n
    → Measures (f ⨾ g) p (m + n)
Measures-then f g p m n h k s room =
    rw (h s (omega (arith, room)), k (counts s m) (omega (arith, room)))
      (ap (λ (t : ℕ). answer s t p) (omega arith))

Measures-on :
    {P V : Type 0} (get : P → V) (set : V → P → P) (f : Serializer MeasureStream V) (p : P) (n : ℕ)
    → set (get p) p ≡ p
    → Measures f (get p) n
    → Measures (on get set f) p n
Measures-on get set f p n e h s room = rw (h s room, e) refl

Measures-int :
    (store : ℤ → ℤ) (min max v : ℤ) (bits : ℕ)
    → min <ℤ max
    → Between min max v
    → Width min max bits
    → Measures (serialize_int measure_stream store min max) v bits
unfolding serialize_int Measure.serialize_integer
Measures-int store min max v bits range (lo, hi) w s room = ground (arith, range, lo, hi, w, room)

Measures-bits :
    (store : ℕ → ℕ) (bits v : ℕ)
    → 0 < bits
    → bits ≤ 32
    → Measures (serialize_bits measure_stream store bits) v bits
unfolding serialize_bits Measure.serialize_bits
Measures-bits store bits v h k s room = ground (arith, h, k, room)

Measures-uint64 : (v : ℕ) → Measures (serialize_uint64 measure_stream) v 64
unfolding serialize_uint64 serialize_bits Measure.serialize_bits
Measures-uint64 v s room = ground (arith, room)

Measures-data :
    (bs : List ℕ) → IsBytes bs → Measures (serialize_data measure_stream) bs (8 * length bs)
unfolding serialize_data
Measures-data [] h s room = ap (λ (t : ℕ). answer s t []) (omega arith)
Measures-data (b ∷ bs) (small, h) s room =
    let first =
      Measures-int as_byte (pos 0) (pos 255) (pos b) 8 (omega arith) (omega arith, omega arith)
        Width-256 s (omega (arith, room)) in
    let rest = Measures-data bs h (counts s 8) (omega (arith, room)) in
    rw (first, rest) (ap (λ (t : ℕ). answer s t (b ∷ bs)) (omega arith))

measured_a :
    (p : TestPacketA) → IsWellFormed (test_a p) → Measures (serialize_test_a measure_stream) p 17
unfolding serialize_test_a
measured_a p (ha, hb, hc) s room =
    let a =
      Measures-int as_int (negsuc 9) (pos 10) p.a 5 (omega arith) ha Width-21 s
        (omega (arith, room)) in
    let b =
      Measures-int as_int (negsuc 19) (pos 20) p.b 6 (omega arith) hb Width-41 (counts s 5)
        (omega (arith, room)) in
    let c =
      Measures-int as_int (negsuc 29) (pos 30) p.c 6 (omega arith) hc Width-61
        (counts (counts s 5) 6) (omega (arith, room)) in
    rw (a, b, c) (ap (λ (t : ℕ). answer s t p) (omega arith))

measured_b :
    (p : TestPacketB) → IsWellFormed (test_b p) → Measures (serialize_test_b measure_stream) p 8
unfolding serialize_test_b
measured_b p (hx, hy) s room =
    let x =
      Measures-int as_int (negsuc 4) (pos 5) p.x 4 (omega arith) hx Width-11 s
        (omega (arith, room)) in
    let y =
      Measures-int as_int (negsuc 4) (pos 5) p.y 4 (omega arith) hy Width-11 (counts s 4)
        (omega (arith, room)) in
    rw (x, y) (ap (λ (t : ℕ). answer s t p) (omega arith))

measured : (p : Packet) → IsWellFormed p → Measures (serialize measure_stream) p (width p)
unfolding serialize serialize_test_c serialize_heartbeat serialize_start_req serialize_start_rsp
    serialize_stop_req serialize_stop_rsp serialize_uint64 serialize_bits Measure.serialize_bits
measured (test_a p) h s room = rw (measured_a p h s room) refl
measured (test_b p) h s room = rw (measured_b p h s room) refl
measured (test_c p) (h, sixteen) s room =
    rw (Measures-data p.bytes h s (omega (arith, room, sixteen)))
      (ap (λ (n : ℕ). answer s (s.bits_written + 8 * n) (test_c p)) sixteen)
measured (heartbeat p) h s room = ground (arith, room)
measured (start_req p) h s room = ground (arith, room)
measured (start_rsp p) h s room = ground (arith, room)
measured (stop_req p) h s room = ground (arith, room)
measured (stop_rsp p) h s room = ground (arith, room)

-- On a packet whose members are in their ranges, in a buffer with room for it, with a measuring
-- stream whose count stays below 2^31, SerializeMeasure and SerializeWrite both return true, and
-- the measuring stream counts the bits that the writing stream writes.
pub serialize-measured :
    (p : Packet) (m : MeasureStream) (s : WriteStream) {stream : ℕ}
    → IsWellFormed p
    → Writing s stream
    → (s.writer).bits_written + width p ≤ (s.writer).num_bits
    → m.bits_written + width p < 2 ^ 31
    → (m' : MeasureStream) × (s' : WriteStream) × (serialize measure_stream m p
        ≡ some (record { ok = true; stream = m'; value = p }))
      × (serialize write_stream s p ≡ some (record { ok = true; stream = s'; value = p }))
      × (m'.bits_written + (s.writer).bits_written ≡ m.bits_written + (s'.writer).bits_written)
serialize-measured p m s {stream} h w room small =
    let blank : Junk = record { cmd = 0; sid = 0; uid = 0; reason = 0 } in
    let d = ((packet_codec blank p h).2).writes s stream w room in
    (counts m (width p), d.0, measured p h m small, d.1, omega (arith, d.2.bits_written))
