-- ===== src/Server/Response.antt =====
-- svr/library/networking/Server.cpp: the response to a connection request, as a client reads it.
use native.Mathlib.Nat.{mod-eq_of_lt}
use rudp_network.Prelude.{
  ◌>>=◌, ℕ, ◌+◌, ◌-◌, ◌*◌, ◌/◌, ◌%◌, ◌^◌, ◌≤◌, ◌<◌, ◌≡◌, refl, sym, ap, subst, ◌∙◌, arith, List,
  some, true, length, ◌++◌, take, length-append, length-take,
}
use rudp_network.Bits.{mod-two-pow-low}
use rudp_network.Memory.{val, IsBytes, val-append, val-take, append-IsBytes, take-IsBytes}
use rudp_network.BitWriter
use rudp_network.BitWriter.Flush
use rudp_network.BitWriter.Flush.{flush_bits-FlushedOut}
use rudp_network.BitReader
use rudp_network.Stream.{write_stream, read_stream}
use rudp_network.Stream.Error.{ProtocolError}
use rudp_network.Stream.Write
use rudp_network.Stream.Write.{WriteStream}
use rudp_network.Stream.Read
use rudp_network.Stream.Start.{started, init-started, started-Reading}
use rudp_network.Stream.Read.{ReadStream}
use rudp_network.Stream.Codec.{Codec}
use rudp_network.Packet.{ConnectionStartRsp}
use rudp_network.Packet.Kind
use rudp_network.Packet.Serialize.{serialize_start_rsp}
use rudp_network.Packet.Codecs.{start_rsp_codec}
use rudp_network.Server.{write_response}

-- The low bits of a number whose low words are a smaller number.
low_of_words :
    (x c words : ℕ) → 24 ≤ 32 * words → c < 2 ^ 24 → x % 2 ^ (32 * words) ≡ c → x % 2 ^ 24 ≡ c
low_of_words x c words h small e =
    sym (
      subst (λ (t : ℕ). x % 2 ^ t % 2 ^ 24 ≡ x % 2 ^ 24) {x = 24 + (32 * words - 24)} (omega arith)
        (mod-two-pow-low x 24 (32 * words - 24)))
    ∙ ap (λ (t : ℕ). t % 2 ^ 24) e
    ∙ mod-eq_of_lt small

field_below :
    (xs ys : List ℕ) (c : ℕ) → length xs ≡ 3 → val xs ≡ c → c < 2 ^ 24 → val (xs ++ ys) % 2 ^ 24 ≡ c
field_below xs ys c three e small =
    omega (arith, val-append xs ys, ap (λ (n : ℕ). 2 ^ (8 * n) * val ys) three)

abbrev response : ℕ → ConnectionStartRsp
response sid = record { cmd = Kind.rudp_cmd_connection_start_rsp; sid = sid }

abbrev ResponseCodec : ℕ → ConnectionStartRsp → Type 0
ResponseCodec sid before =
    Codec (serialize_start_rsp write_stream) (serialize_start_rsp read_stream) (response sid) before
      (response sid) 24

-- The bytes of the response write down its fields.
written :
    (stack : List ℕ) (sid : ℕ) (before : ConnectionStartRsp) (codec : ResponseCodec sid before)
    → IsBytes stack
    → 512 ≤ length stack
    → (bytes : List ℕ) × (write_response stack sid ≡ some bytes)
      × IsBytes bytes
      × (length bytes ≡ 3)
      × (val bytes ≡ codec.code)
unfolding write_response Write.init Write.flush Write.bytes_processed BitWriter.bytes_written
written stack sid before codec b room =
    let i = Flush.init-Refines stack 512 b refl room (omega arith) in
    let s0 : WriteStream = record { error = ProtocolError.none; writer = i.0 } in
    let d = codec.writes s0 0 (record { no_error = refl; view = i.2 }) (omega (arith, i.3, i.4)) in
    let f = flush_bits-FlushedOut (d.0).writer (d.2.writing).view in
    let buf : List ℕ = (f.0).buffer in
    let count : ((f.0).bits_written + 7) / 8 ≡ 3 =
      omega (arith, f.2.bits_written, d.2.bits_written, i.3) in
    let long : 3 ≤ length buf =
      omega (arith, f.2.same.length_buffer, d.2.same.length_buffer, i.5, room) in
    let whole : val buf % 2 ^ (32 * (f.0).word_index) ≡ codec.code =
      f.2.stored ∙ omega (arith, ap (λ (n : ℕ). 2 ^ n * codec.code) i.3) in
    let words : 24 ≤ 32 * (f.0).word_index = omega (arith, f.2.covers, d.2.bits_written, i.3) in
    (
      take 3 buf,
      ground (arith, i.1, d.1, f.1, count),
      take-IsBytes 3 buf f.2.bytes,
      omega (arith, length-take 3 buf, long),
      val-take 3 buf f.2.bytes long
          ∙ low_of_words (val buf) codec.code (f.0).word_index words codec.code_lt whole,
    )

-- The response to a session of a 16-bit id, whatever the buffer of bytes held, is three bytes,
-- and a client that has them at the start of a longer buffer reads the command and the id.
pub write_response_read :
    (stack tail : List ℕ) (sid : ℕ) (before : ConnectionStartRsp)
    → IsBytes stack
    → 512 ≤ length stack
    → sid < 2 ^ 16
    → IsBytes tail
    → 0 < length tail
    → (bytes : List ℕ) × (s : ReadStream) × (write_response stack sid ≡ some bytes)
      × (length bytes ≡ 3)
      × ((Read.init (bytes ++ tail) 3 >>= λ t. serialize_start_rsp read_stream t before)
          ≡ some (record { ok = true; stream = s; value = response sid }))
unfolding Read.opened BitReader.opened
write_response_read stack tail sid before b room small bt some_tail =
    let codec : ResponseCodec sid before =
      start_rsp_codec (response sid) before (omega arith, small) in
    let w = written stack sid before codec b room in
    let received : List ℕ = w.0 ++ tail in
    let r =
      codec.reads (started received 3) (val received)
        (started-Reading received 3 (append-IsBytes w.0 tail w.2 bt)
          (omega (arith, length-append w.0 tail, w.3, some_tail)))
        (omega arith) (field_below w.0 tail codec.code w.3 w.4 codec.code_lt) in
    (w.0, r.0, w.1, w.3, rw (init-started received 3 (omega arith)) r.1)
