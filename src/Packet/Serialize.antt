-- ===== src/Packet/Serialize.antt =====
-- svr/library/networking/PacketFactory.h: the Serialize template of each packet, over any stream.
use rudp_network.Prelude.{
  ℕ, List, [], ◌∷◌, Option, some, true, false, not, ◌>>=◌, Step, u8, u16, if◌then◌else◌,
}
use rudp_network.Prelude.Int.{ℤ, pos, negsuc, pos_part, to_uint32}
use rudp_network.Stream.{Stream}
use rudp_network.Serialize.{Serializer, on, ◌⨾◌, serialize_int, serialize_bits, serialize_uint64}
use rudp_network.Packet.{
  TestPacketA, TestPacketB, TestPacketC, ConnectionHeartBeat, ConnectionStartReq,
  ConnectionStartRsp, ConnectionStopReq, ConnectionStopRsp, Packet, test_a, test_b, test_c,
  heartbeat, start_req, start_rsp, stop_req, stop_rsp,
}

-- An `int` keeps the value, a `uint8_t` its low byte.
abbrev pub as_int : ℤ → ℤ
as_int z = z

abbrev pub as_byte : ℤ → ℤ
as_byte z = pos (u8 (to_uint32 z))

module _ (S : Stream) where
  unfoldable pub serialize_test_a : Serializer S.State TestPacketA
  unfolding serialize_int
  serialize_test_a =
      on (λ p. p.a) (λ v p. record p { a = v }) (serialize_int S as_int (negsuc 9) (pos 10))
      ⨾ on (λ p. p.b) (λ v p. record p { b = v }) (serialize_int S as_int (negsuc 19) (pos 20))
      ⨾ on (λ p. p.c) (λ v p. record p { c = v }) (serialize_int S as_int (negsuc 29) (pos 30))

  unfoldable pub serialize_test_b : Serializer S.State TestPacketB
  unfolding serialize_int
  serialize_test_b =
      on (λ p. p.x) (λ v p. record p { x = v }) (serialize_int S as_int (negsuc 4) (pos 5))
      ⨾ on (λ p. p.y) (λ v p. record p { y = v }) (serialize_int S as_int (negsuc 4) (pos 5))

  -- The loop over `data`.
  unfoldable pub serialize_data : Serializer S.State (List ℕ)
  unfolding serialize_int
  serialize_data s [] = some (record { ok = true; stream = s; value = [] })
  serialize_data s (b ∷ bs) = do
    r ← serialize_int S as_byte (pos 0) (pos 255) s (pos b)
    if not r.ok
        then some (record { ok = false; stream = r.stream; value = pos_part r.value ∷ bs })
        else (serialize_data r.stream bs >>= λ t.
            some (record { ok = t.ok; stream = t.stream; value = pos_part r.value ∷ t.value }))

  unfoldable pub serialize_test_c : Serializer S.State TestPacketC
  unfolding serialize_data
  serialize_test_c = on (λ p. p.bytes) (λ v p. record p { bytes = v }) serialize_data

  unfoldable pub serialize_heartbeat : Serializer S.State ConnectionHeartBeat
  unfolding serialize_bits
  serialize_heartbeat =
      on (λ p. p.cmd) (λ v p. record p { cmd = v }) (serialize_bits S u8 8)
      ⨾ on (λ p. p.sid) (λ v p. record p { sid = v }) (serialize_bits S u16 16)

  unfoldable pub serialize_start_req : Serializer S.State ConnectionStartReq
  unfolding serialize_bits serialize_uint64
  serialize_start_req =
      on (λ p. p.cmd) (λ v p. record p { cmd = v }) (serialize_bits S u8 8)
      ⨾ on (λ p. p.sid) (λ v p. record p { sid = v }) (serialize_bits S u16 16)
      ⨾ on (λ p. p.uid) (λ v p. record p { uid = v }) (serialize_uint64 S)

  unfoldable pub serialize_start_rsp : Serializer S.State ConnectionStartRsp
  unfolding serialize_bits
  serialize_start_rsp =
      on (λ p. p.cmd) (λ v p. record p { cmd = v }) (serialize_bits S u8 8)
      ⨾ on (λ p. p.sid) (λ v p. record p { sid = v }) (serialize_bits S u16 16)

  unfoldable pub serialize_stop_req : Serializer S.State ConnectionStopReq
  unfolding serialize_bits
  serialize_stop_req =
      on (λ p. p.cmd) (λ v p. record p { cmd = v }) (serialize_bits S u8 8)
      ⨾ on (λ p. p.sid) (λ v p. record p { sid = v }) (serialize_bits S u16 16)
      ⨾ on (λ p. p.reason) (λ v p. record p { reason = v }) (serialize_bits S u8 8)

  unfoldable pub serialize_stop_rsp : Serializer S.State ConnectionStopRsp
  unfolding serialize_bits
  serialize_stop_rsp =
      on (λ p. p.cmd) (λ v p. record p { cmd = v }) (serialize_bits S u8 8)
      ⨾ on (λ p. p.sid) (λ v p. record p { sid = v }) (serialize_bits S u16 16)
      ⨾ on (λ p. p.reason) (λ v p. record p { reason = v }) (serialize_bits S u8 8)

abbrev pub wrapped : {St P : Type 0} → (P → Packet) → Step St P → Step St Packet
wrapped wrap r = record { ok = r.ok; stream = r.stream; value = wrap r.value }

-- The class's own Serialize inside the object.
abbrev pub within :
    {St P : Type 0} → (P → Packet) → Serializer St P → St → P → Option (Step St Packet)
within wrap f s p = do r ← f s p; some (wrapped wrap r)

-- SerializeRead, SerializeWrite and SerializeMeasure, by the class of the object.
unfoldable pub serialize : (S : Stream) → Serializer S.State Packet
unfolding serialize_test_a serialize_test_b serialize_test_c serialize_heartbeat serialize_start_req
    serialize_start_rsp serialize_stop_req serialize_stop_rsp
serialize S s (test_a p) = within test_a (serialize_test_a S) s p
serialize S s (test_b p) = within test_b (serialize_test_b S) s p
serialize S s (test_c p) = within test_c (serialize_test_c S) s p
serialize S s (heartbeat p) = within heartbeat (serialize_heartbeat S) s p
serialize S s (start_req p) = within start_req (serialize_start_req S) s p
serialize S s (start_rsp p) = within start_rsp (serialize_start_rsp S) s p
serialize S s (stop_req p) = within stop_req (serialize_stop_req S) s p
serialize S s (stop_rsp p) = within stop_rsp (serialize_stop_rsp S) s p
