-- ===== src/Packet/RoundTrip.antt =====
-- svr/library/networking/PacketFactory.h: the Serialize function of every packet: what it writes, it
-- reads back.
use rudp_network.Prelude.{ℕ, ◌≡◌, refl, ◌∙◌, ◌>>=◌, Option, Step, some}
use rudp_network.Stream.{write_stream, read_stream}
use rudp_network.Stream.Codec.{Codec}
use rudp_network.Serialize.{Serializer}
use rudp_network.Stream.Write.{WriteStream}
use rudp_network.Stream.Read.{ReadStream}
use rudp_network.Packet.{
  Packet, test_a, test_b, test_c, heartbeat, start_req, start_rsp, stop_req, stop_rsp, get_type,
}
use rudp_network.Packet.Serialize.{serialize, within, wrapped}
use rudp_network.Packet.Factory.{Junk, new_packet}
use rudp_network.Packet.Codecs.{
  IsWellFormed, test_a_codec, test_b_codec, test_c_codec, heartbeat_codec, start_req_codec,
  start_rsp_codec, stop_req_codec, stop_rsp_codec,
}

-- The bits of a packet's body.
abbrev pub width : Packet → ℕ
width (test_a p) = 17
width (test_b p) = 8
width (test_c p) = 128
width (heartbeat p) = 24
width (start_req p) = 88
width (start_rsp p) = 24
width (stop_req p) = 32
width (stop_rsp p) = 32

-- A class's codec inside Packet.
within_codec :
    {P : Type 0} (wrap : P → Packet) {f : Serializer WriteStream P} {g : Serializer ReadStream P}
    {p before : P} {n : ℕ}
    → ((s : WriteStream) (q : P) → serialize write_stream s (wrap q) ≡ within wrap f s q)
    → ((s : ReadStream) (q : P) → serialize read_stream s (wrap q) ≡ within wrap g s q)
    → Codec f g p before p n
    → Codec (serialize write_stream) (serialize read_stream) (wrap p) (wrap before) (wrap p) n
within_codec {P} wrap {f} {g} {p} {before} ew er x = record {
  code = x.code;
  code_lt = x.code_lt;
  writes = λ s stream w fits. let u = x.writes s stream w fits in (u.0, ew s p ∙ rewrap u.1, u.2);
  reads = λ s rest w fits field.
      let u = x.reads s rest w fits field in (u.0, er s before ∙ rewrap u.1, u.2);
}
  where
    rewrap :
        {St : Type 0} {m : Option (Step St P)} {r : Step St P}
        → m ≡ some r
        → (m >>= λ t. some (wrapped wrap t)) ≡ some (wrapped wrap r)
    rewrap e = rw e

-- The object that the factory makes for a packet's type is filled with the packet: every type has
-- a case in the factory, and every Serialize function reads what it writes.
pub packet_codec :
    (junk : Junk) (p : Packet)
    → IsWellFormed p
    → (before : Packet) × (new_packet junk (get_type p) ≡ some before)
      × Codec (serialize write_stream) (serialize read_stream) p before p (width p)
unfolding new_packet get_type serialize
packet_codec junk (test_a p) h =
    (_, refl, within_codec test_a (λ s q. refl) (λ s q. refl) (test_a_codec p _ h))
packet_codec junk (test_b p) h =
    (_, refl, within_codec test_b (λ s q. refl) (λ s q. refl) (test_b_codec p _ h))
packet_codec junk (test_c p) h =
    (_, refl, within_codec test_c (λ s q. refl) (λ s q. refl) (test_c_codec p _ h refl))
packet_codec junk (heartbeat p) h =
    (_, refl, within_codec heartbeat (λ s q. refl) (λ s q. refl) (heartbeat_codec p _ h))
packet_codec junk (start_req p) h =
    (_, refl, within_codec start_req (λ s q. refl) (λ s q. refl) (start_req_codec p _ h))
packet_codec junk (start_rsp p) h =
    (_, refl, within_codec start_rsp (λ s q. refl) (λ s q. refl) (start_rsp_codec p _ h))
packet_codec junk (stop_req p) h =
    (_, refl, within_codec stop_req (λ s q. refl) (λ s q. refl) (stop_req_codec p _ h))
packet_codec junk (stop_rsp p) h =
    (_, refl, within_codec stop_rsp (λ s q. refl) (λ s q. refl) (stop_rsp_codec p _ h))
