-- ===== src/Transport/Types.antt =====
-- crates/hap-transport/src/error.rs. An `io::Error` is opaque.
use Prim.Native.String.{String}
use hap_rust.Common.{ℕ, List}

pub data TransportError : Type 0 where
  io : TransportError
  mdns : String → TransportError
  discovery_txt : String → TransportError
  malformed_http : String → TransportError
  unsupported_encoding : List ℕ → TransportError
  invalid_frame_length : ℕ → TransportError
  decrypt connection_closed session_closed no_response : TransportError
