-- ===== src/Thread/Types.antt =====
-- The error types of crates/hap-thread/src/error.rs and crates/hap-thread-dut/src/error.rs that the
-- PDU codecs produce, and the opcodes. An `io::Error` is opaque.
use Prim.Native.String.{String}
use hap_rust.Common.{ℕ}
use hap_rust.Tlv8.Types.{Tlv8Error}
use hap_rust.Crypto.Types.{CryptoError}

pub data ThreadError : Type 0 where
  io : ThreadError
  coap coap_code mdns discovery_txt malformed_pdu model store : String → ThreadError
  pdu_status : ℕ → ThreadError
  session_expired : ThreadError
  crypto : CryptoError → ThreadError
  tlv8 : Tlv8Error → ThreadError

pub data OpCode : Type 0 where
  char_sig_read char_write char_read char_timed_write char_exec_write : OpCode
  serv_sig_read read_database subscribe unsubscribe : OpCode

-- `op as u8`
abbrev pub op_byte : OpCode → ℕ
op_byte char_sig_read = 0x01
op_byte char_write = 0x02
op_byte char_read = 0x03
op_byte char_timed_write = 0x04
op_byte char_exec_write = 0x05
op_byte serv_sig_read = 0x06
op_byte read_database = 0x09
op_byte subscribe = 0x0B
op_byte unsubscribe = 0x0C
