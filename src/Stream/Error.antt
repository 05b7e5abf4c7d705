-- ===== src/Stream/Error.antt =====
-- svr/library/networking/Serialization.h: the YOJIMBO_PROTOCOL_ERROR codes.

pub data ProtocolError : Type 0 where
  none crc32_mismatch invalid_packet_type packet_type_not_allowed create_packet_failed :
      ProtocolError
  serialize_header_failed serialize_packet_failed serialize_check_failed : ProtocolError
  stream_overflow stream_aborted : ProtocolError
