-- ===== src/Hub/Generations.antt =====
-- A session that another connection has taken over, in crates/relay-server/src/hub.rs.
use ch_relay.Prelude.{nat_eq}
use ch_relay.Bytes.{bytes_eq}
use ch_relay.Session.{Session}
use ch_relay.Hub.{Hub}
