-- ===== src/Controller/Reconnect/Retry.antt =====
-- A request whose session has died is asked again once, on the first session that is another one.
use hap_rust.Controller.Types.{HapError, transport}
use hap_rust.Transport.Types.{io, connection_closed, session_closed, no_response}

-- The errors after which a session is of no more use.
pub data IsDead : HapError → Type 0 where
  by_close : IsDead (transport connection_closed)
  by_end : IsDead (transport session_closed)
  by_silence : IsDead (transport no_response)
  by_io : IsDead (transport io)
