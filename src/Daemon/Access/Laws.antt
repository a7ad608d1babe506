-- ===== src/Daemon/Access/Laws.antt =====
-- With a token set, a route is reached exactly with that token.
use Prim.Native.String.{◌++◌ as str_append}
use sc_transport.Base.{String}
