-- ===== src/Packet/Codecs.antt =====
-- svr/library/networking/PacketFactory.h: each class's Serialize function reads what it writes.
use rudp_network.Prelude.{
  ℕ, ◌+◌, ◌*◌, ◌^◌, ◌<◌, ◌≡◌, refl, arith, List, [], ◌∷◌, length, subst, ◌/◌, u8, u16,
}
use rudp_network.Prelude.Int.{ℤ, pos, negsuc, ◌≤ℤ◌, to_uint32}
use rudp_network.Memory.{IsBytes}
use rudp_network.Bits.{join-lt}
use rudp_network.Util.BitsRequired.{bits_required}
use rudp_network.Stream.{write_stream, read_stream}
use rudp_network.Stream.Advance.{Width}
use rudp_network.Stream.Codec.{
  Codec, codec_then, codec_on, Wrote-none, Readed-none, Wrote-both, Readed-both, field_parts,
}
use rudp_network.Serialize.{serialize_bits}
use rudp_network.Serialize.Fields.{int_codec, bits_codec, uint64_codec}
use rudp_network.Packet.{
  TestPacketA, TestPacketB, TestPacketC, ConnectionHeartBeat, ConnectionStartReq,
  ConnectionStartRsp, ConnectionStopReq, ConnectionStopRsp, Packet, test_a, test_b, test_c,
  heartbeat, start_req, start_rsp, stop_req, stop_rsp,
}
use rudp_network.Packet.Serialize.{
  as_int, as_byte, serialize_test_a, serialize_test_b, serialize_data, serialize_test_c,
  serialize_heartbeat, serialize_start_req, serialize_start_rsp, serialize_stop_req,
  serialize_stop_rsp,
}

abbrev pub Between : ℤ → ℤ → ℤ → Type 0
Between min max v = (min ≤ℤ v) × (v ≤ℤ max)

-- The members hold values of their types, and those of the test packets values of their ranges.
abbrev pub IsWellFormed : Packet → Type 0
IsWellFormed (test_a p) =
    Between (negsuc 9) (pos 10) p.a
    × Between (negsuc 19) (pos 20) p.b
    × Between (negsuc 29) (pos 30) p.c
IsWellFormed (test_b p) = Between (negsuc 4) (pos 5) p.x × Between (negsuc 4) (pos 5) p.y
IsWellFormed (test_c p) = IsBytes p.bytes × (length p.bytes ≡ 16)
IsWellFormed (heartbeat p) = (p.cmd < 2 ^ 8) × (p.sid < 2 ^ 16)
IsWellFormed (start_req p) = (p.cmd < 2 ^ 8) × (p.sid < 2 ^ 16) × (p.uid < 2 ^ 64)
IsWellFormed (start_rsp p) = (p.cmd < 2 ^ 8) × (p.sid < 2 ^ 16)
IsWellFormed (stop_req p) = (p.cmd < 2 ^ 8) × (p.sid < 2 ^ 16) × (p.reason < 2 ^ 8)
IsWellFormed (stop_rsp p) = (p.cmd < 2 ^ 8) × (p.sid < 2 ^ 16) × (p.reason < 2 ^ 8)

pub Width-21 : Width (negsuc 9) (pos 10) 5
unfolding bits_required to_uint32
Width-21 = refl

pub Width-41 : Width (negsuc 19) (pos 20) 6
unfolding bits_required to_uint32
Width-41 = refl

pub Width-61 : Width (negsuc 29) (pos 30) 6
unfolding bits_required to_uint32
Width-61 = refl

pub Width-11 : Width (negsuc 4) (pos 5) 4
unfolding bits_required to_uint32
Width-11 = refl

pub Width-256 : Width (pos 0) (pos 255) 8
unfolding bits_required to_uint32
Width-256 = refl

pub test_a_codec :
    (p before : TestPacketA)
    → IsWellFormed (test_a p)
    → Codec (serialize_test_a write_stream) (serialize_test_a read_stream) p before p 17
unfolding serialize_test_a
test_a_codec p before (ha, hb, hc) =
    codec_then
      (codec_on (λ q. q.a) (λ v q. record q { a = v }) refl
        (int_codec as_int (negsuc 9) (pos 10) p.a before.a 5 (omega arith) Width-21 (omega arith)
          ha.0 ha.1 refl))
      (codec_then
        (codec_on (λ q. q.b) (λ v q. record q { b = v }) refl
          (int_codec as_int (negsuc 19) (pos 20) p.b before.b 6 (omega arith) Width-41 (omega arith)
            hb.0 hb.1 refl))
        (codec_on (λ q. q.c) (λ v q. record q { c = v }) refl
          (int_codec as_int (negsuc 29) (pos 30) p.c before.c 6 (omega arith) Width-61 (omega arith)
            hc.0 hc.1 refl)))

pub test_b_codec :
    (p before : TestPacketB)
    → IsWellFormed (test_b p)
    → Codec (serialize_test_b write_stream) (serialize_test_b read_stream) p before p 8
unfolding serialize_test_b
test_b_codec p before (hx, hy) =
    codec_then
      (codec_on (λ q. q.x) (λ v q. record q { x = v }) refl
        (int_codec as_int (negsuc 4) (pos 5) p.x before.x 4 (omega arith) Width-11 (omega arith)
          hx.0 hx.1 refl))
      (codec_on (λ q. q.y) (λ v q. record q { y = v }) refl
        (int_codec as_int (negsuc 4) (pos 5) p.y before.y 4 (omega arith) Width-11 (omega arith)
          hy.0 hy.1 refl))

as_byte_lem : (x : ℕ) → x < 256 → as_byte (pos x) ≡ pos x
unfolding to_uint32
as_byte_lem x h = ground arith

-- The loop over the bytes, which reads as many as it finds in the object.
data_codec :
    (bs before : List ℕ)
    → IsBytes bs
    → length before ≡ length bs
    → Codec (serialize_data write_stream) (serialize_data read_stream) bs before bs (8 * length bs)
unfolding serialize_data
data_codec [] [] h e = record {
  code = 0;
  code_lt = omega arith;
  writes = λ s stream w fits. (s, refl, Wrote-none s w);
  reads = λ s rest w fits field. (s, refl, Readed-none s w);
}
data_codec [] (b ∷ before) h e = absurd (omega arith)
data_codec (x ∷ bs) [] h e = absurd (omega arith)
data_codec (x ∷ bs) (b ∷ before) h e =
    let one =
      int_codec as_byte (pos 0) (pos 255) (pos x) (pos b) 8 (omega arith) Width-256 (omega arith)
        (omega arith) (omega (arith, h.0)) (as_byte_lem x h.0) in
    let rest = data_codec bs before h.1 (omega arith) in
    subst
      (Codec (serialize_data write_stream) (serialize_data read_stream) (x ∷ bs) (b ∷ before)
        (x ∷ bs))
      (omega arith)
      (record {
        code = one.code + 2 ^ 8 * rest.code;
        code_lt = join-lt 8 (8 * length bs) one.code rest.code one.code_lt rest.code_lt;
        writes = λ s stream w fits.
            let u = one.writes s stream w (omega arith) in
            let v =
              rest.writes u.0 _ u.2.writing (omega (arith, u.2.bits_written, u.2.same.num_bits)) in
            (
              v.0,
              ground (arith, u.1, v.1),
              Wrote-both stream one.code rest.code 8 (8 * length bs) u.2 v.2,
            );
        reads = λ s r w fits field.
            let parts = field_parts r one.code rest.code 8 (8 * length bs) one.code_lt field in
            let u = one.reads s r w (omega arith) parts.0 in
            let v =
              rest.reads u.0 (r / 2 ^ 8) u.2.reading (omega (arith, u.2.bits_read, u.2.num_bits))
                parts.1 in
            (v.0, ground (arith, u.1, v.1), Readed-both r 8 (8 * length bs) u.2 v.2);
      })

pub test_c_codec :
    (p before : TestPacketC)
    → IsWellFormed (test_c p)
    → length before.bytes ≡ 16
    → Codec (serialize_test_c write_stream) (serialize_test_c read_stream) p before p 128
unfolding serialize_test_c
test_c_codec p before (h, n) m =
    codec_on (λ q. q.bytes) (λ v q. record q { bytes = v }) refl
      (subst
        (Codec (serialize_data write_stream) (serialize_data read_stream) p.bytes before.bytes
          p.bytes)
        (omega arith) (data_codec p.bytes before.bytes h (omega arith)))

-- The uint8_t and the uint16_t members.
byte_codec :
    (v before : ℕ)
    → v < 2 ^ 8
    → Codec (serialize_bits write_stream u8 8) (serialize_bits read_stream u8 8) v before v 8
byte_codec v before h = bits_codec u8 8 v before (omega arith) (omega arith) h (omega arith)

short_codec :
    (v before : ℕ)
    → v < 2 ^ 16
    → Codec (serialize_bits write_stream u16 16) (serialize_bits read_stream u16 16) v before v 16
short_codec v before h = bits_codec u16 16 v before (omega arith) (omega arith) h (omega arith)

pub heartbeat_codec :
    (p before : ConnectionHeartBeat)
    → IsWellFormed (heartbeat p)
    → Codec (serialize_heartbeat write_stream) (serialize_heartbeat read_stream) p before p 24
unfolding serialize_heartbeat
heartbeat_codec p before (hc, hs) =
    codec_then
      (codec_on (λ q. q.cmd) (λ v q. record q { cmd = v }) refl (byte_codec p.cmd before.cmd hc))
      (codec_on (λ q. q.sid) (λ v q. record q { sid = v }) refl (short_codec p.sid before.sid hs))

pub start_req_codec :
    (p before : ConnectionStartReq)
    → IsWellFormed (start_req p)
    → Codec (serialize_start_req write_stream) (serialize_start_req read_stream) p before p 88
unfolding serialize_start_req
start_req_codec p before (hc, hs, hu) =
    codec_then
      (codec_on (λ q. q.cmd) (λ v q. record q { cmd = v }) refl (byte_codec p.cmd before.cmd hc))
      (codec_then
        (codec_on (λ q. q.sid) (λ v q. record q { sid = v }) refl (short_codec p.sid before.sid hs))
        (codec_on (λ q. q.uid) (λ v q. record q { uid = v }) refl
          (uint64_codec p.uid before.uid hu)))

pub start_rsp_codec :
    (p before : ConnectionStartRsp)
    → IsWellFormed (start_rsp p)
    → Codec (serialize_start_rsp write_stream) (serialize_start_rsp read_stream) p before p 24
unfolding serialize_start_rsp
start_rsp_codec p before (hc, hs) =
    codec_then
      (codec_on (λ q. q.cmd) (λ v q. record q { cmd = v }) refl (byte_codec p.cmd before.cmd hc))
      (codec_on (λ q. q.sid) (λ v q. record q { sid = v }) refl (short_codec p.sid before.sid hs))

pub stop_req_codec :
    (p before : ConnectionStopReq)
    → IsWellFormed (stop_req p)
    → Codec (serialize_stop_req write_stream) (serialize_stop_req read_stream) p before p 32
unfolding serialize_stop_req
stop_req_codec p before (hc, hs, hr) =
    codec_then
      (codec_on (λ q. q.cmd) (λ v q. record q { cmd = v }) refl (byte_codec p.cmd before.cmd hc))
      (codec_then
        (codec_on (λ q. q.sid) (λ v q. record q { sid = v }) refl (short_codec p.sid before.sid hs))
        (codec_on (λ q. q.reason) (λ v q. record q { reason = v }) refl
          (byte_codec p.reason before.reason hr)))

pub stop_rsp_codec :
    (p before : ConnectionStopRsp)
    → IsWellFormed (stop_rsp p)
    → Codec (serialize_stop_rsp write_stream) (serialize_stop_rsp read_stream) p before p 32
unfolding serialize_stop_rsp
stop_rsp_codec p before (hc, hs, hr) =
    codec_then
      (codec_on (λ q. q.cmd) (λ v q. record q { cmd = v }) refl (byte_codec p.cmd before.cmd hc))
      (codec_then
        (codec_on (λ q. q.sid) (λ v q. record q { sid = v }) refl (short_codec p.sid before.sid hs))
        (codec_on (λ q. q.reason) (λ v q. record q { reason = v }) refl
          (byte_codec p.reason before.reason hr)))
