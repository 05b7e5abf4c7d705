-- ===== src/Packet/Returns.antt =====
-- svr/library/networking/PacketFactory.h: SerializeRead of every packet, on bytes of any content.
use rudp_network.Prelude.{ℕ, ◌≤◌, ◌<◌, inl, inr, refl, arith, [], ◌∷◌, true, Bool-cases, u8, u16}
use rudp_network.Prelude.Int.{ℤ, pos, negsuc, pos_part, ◌≤ℤ◌}
use rudp_network.Stream.{read_stream}
use rudp_network.Stream.Advance.{IsRange}
use rudp_network.Serialize.{on, serialize_int, serialize_bits, serialize_uint64}
use rudp_network.Serialize.Returns.{
  Returns, Returns-Outcome, Outcome-Reading, on-Returns, then-Returns, serialize_bits-Returns,
  serialize_int-Returns, serialize_uint64-Returns,
}
use rudp_network.Packet.{
  test_a, test_b, test_c, heartbeat, start_req, start_rsp, stop_req, stop_rsp,
}
use rudp_network.Packet.Serialize.{
  as_int, as_byte, serialize_test_a, serialize_test_b, serialize_data, serialize_test_c,
  serialize_heartbeat, serialize_start_req, serialize_start_rsp, serialize_stop_req,
  serialize_stop_rsp, serialize,
}

module _ {P : Type 0} where
  member :
      (get : P → ℤ) (set : ℤ → P → P) (min max : ℤ)
      → IsRange min max
      → min ≤ℤ pos 0
      → Returns (on get set (serialize_int read_stream as_int min max))
  member get set min max r low =
      on-Returns get set (serialize_int read_stream as_int min max)
        (serialize_int-Returns as_int min max r low)

  bits_member :
      (get : P → ℕ) (set : ℕ → P → P) (store : ℕ → ℕ) (bits : ℕ)
      → 0 < bits
      → bits ≤ 32
      → Returns (on get set (serialize_bits read_stream store bits))
  bits_member get set store bits h k =
      on-Returns get set (serialize_bits read_stream store bits)
        (serialize_bits-Returns store bits h k)

serialize_test_a-Returns : Returns (serialize_test_a read_stream)
unfolding serialize_test_a
serialize_test_a-Returns =
    then-Returns _ _
      (member (λ p. p.a) (λ v p. record p { a = v }) (negsuc 9) (pos 10) (omega arith)
        (omega arith))
      (then-Returns _ _
        (member (λ p. p.b) (λ v p. record p { b = v }) (negsuc 19) (pos 20) (omega arith)
          (omega arith))
        (member (λ p. p.c) (λ v p. record p { c = v }) (negsuc 29) (pos 30) (omega arith)
          (omega arith)))

serialize_test_b-Returns : Returns (serialize_test_b read_stream)
unfolding serialize_test_b
serialize_test_b-Returns =
    then-Returns _ _
      (member (λ p. p.x) (λ v p. record p { x = v }) (negsuc 4) (pos 5) (omega arith) (omega arith))
      (member (λ p. p.y) (λ v p. record p { y = v }) (negsuc 4) (pos 5) (omega arith) (omega arith))

serialize_heartbeat-Returns : Returns (serialize_heartbeat read_stream)
unfolding serialize_heartbeat
serialize_heartbeat-Returns =
    then-Returns _ _
      (bits_member (λ p. p.cmd) (λ v p. record p { cmd = v }) u8 8 (omega arith) (omega arith))
      (bits_member (λ p. p.sid) (λ v p. record p { sid = v }) u16 16 (omega arith) (omega arith))

pub serialize_start_req-Returns : Returns (serialize_start_req read_stream)
unfolding serialize_start_req
serialize_start_req-Returns =
    then-Returns _ _
      (bits_member (λ p. p.cmd) (λ v p. record p { cmd = v }) u8 8 (omega arith) (omega arith))
      (then-Returns _ _
        (bits_member (λ p. p.sid) (λ v p. record p { sid = v }) u16 16 (omega arith) (omega arith))
        (on-Returns (λ p. p.uid) (λ v p. record p { uid = v }) (serialize_uint64 read_stream)
          serialize_uint64-Returns))

serialize_data-Returns : Returns (serialize_data read_stream)
unfolding serialize_data
serialize_data-Returns s rest v [] = record {
  ok = true;
  stream = s;
  value = [];
  returns = refl;
  rest = rest;
  reading = inr v;
}
serialize_data-Returns s rest v (b ∷ bs) =
    let o =
      serialize_int-Returns as_byte (pos 0) (pos 255) (omega arith) (omega arith) s rest v
        (pos b) in
    elim (Bool-cases o.ok) [
      | inl read ↦
          let t = serialize_data-Returns o.stream o.rest (Outcome-Reading o read) bs in
          Returns-Outcome t (pos_part o.value ∷ t.value) (rw (o.returns, read, t.returns) refl)
      | inr failed ↦ Returns-Outcome o (pos_part o.value ∷ bs) (rw (o.returns, failed) refl)
    ]

serialize_test_c-Returns : Returns (serialize_test_c read_stream)
unfolding serialize_test_c
serialize_test_c-Returns =
    on-Returns (λ p. p.bytes) (λ v p. record p { bytes = v }) (serialize_data read_stream)
      serialize_data-Returns

serialize_start_rsp-Returns : Returns (serialize_start_rsp read_stream)
unfolding serialize_start_rsp
serialize_start_rsp-Returns =
    then-Returns _ _
      (bits_member (λ p. p.cmd) (λ v p. record p { cmd = v }) u8 8 (omega arith) (omega arith))
      (bits_member (λ p. p.sid) (λ v p. record p { sid = v }) u16 16 (omega arith) (omega arith))

serialize_stop_req-Returns : Returns (serialize_stop_req read_stream)
unfolding serialize_stop_req
serialize_stop_req-Returns =
    then-Returns _ _
      (bits_member (λ p. p.cmd) (λ v p. record p { cmd = v }) u8 8 (omega arith) (omega arith))
      (then-Returns _ _
        (bits_member (λ p. p.sid) (λ v p. record p { sid = v }) u16 16 (omega arith) (omega arith))
        (bits_member (λ p. p.reason) (λ v p. record p { reason = v }) u8 8 (omega arith)
          (omega arith)))

serialize_stop_rsp-Returns : Returns (serialize_stop_rsp read_stream)
unfolding serialize_stop_rsp
serialize_stop_rsp-Returns =
    then-Returns _ _
      (bits_member (λ p. p.cmd) (λ v p. record p { cmd = v }) u8 8 (omega arith) (omega arith))
      (then-Returns _ _
        (bits_member (λ p. p.sid) (λ v p. record p { sid = v }) u16 16 (omega arith) (omega arith))
        (bits_member (λ p. p.reason) (λ v p. record p { reason = v }) u8 8 (omega arith)
          (omega arith)))

-- Every object that the factory can make reads any bytes.
pub serialize-Returns : Returns (serialize read_stream)
unfolding serialize
serialize-Returns s rest v (test_a p) =
    let o = serialize_test_a-Returns s rest v p in
    Returns-Outcome o (test_a o.value) (rw o.returns refl)
serialize-Returns s rest v (test_b p) =
    let o = serialize_test_b-Returns s rest v p in
    Returns-Outcome o (test_b o.value) (rw o.returns refl)
serialize-Returns s rest v (test_c p) =
    let o = serialize_test_c-Returns s rest v p in
    Returns-Outcome o (test_c o.value) (rw o.returns refl)
serialize-Returns s rest v (heartbeat p) =
    let o = serialize_heartbeat-Returns s rest v p in
    Returns-Outcome o (heartbeat o.value) (rw o.returns refl)
serialize-Returns s rest v (start_req p) =
    let o = serialize_start_req-Returns s rest v p in
    Returns-Outcome o (start_req o.value) (rw o.returns refl)
serialize-Returns s rest v (start_rsp p) =
    let o = serialize_start_rsp-Returns s rest v p in
    Returns-Outcome o (start_rsp o.value) (rw o.returns refl)
serialize-Returns s rest v (stop_req p) =
    let o = serialize_stop_req-Returns s rest v p in
    Returns-Outcome o (stop_req o.value) (rw o.returns refl)
serialize-Returns s rest v (stop_rsp p) =
    let o = serialize_stop_rsp-Returns s rest v p in
    Returns-Outcome o (stop_rsp o.value) (rw o.returns refl)
