-- ===== src/TcpClient/Tests.antt =====
-- A client that has connected, and connects again after its connection is closed
-- (irono/net/TcpClient.cc).
use irono.Base.{none, some, Option, false}
use irono.Sockets.{returned}
use irono.Connector
use irono.Connector.{einprogress, connected}
use irono.TcpClient.{TcpClient, create, enable_retry, start, connector_writable}

-- The results of the first calls.
client_of : Option TcpClient → TcpClient
client_of none = create
client_of (some c) = c

trying : TcpClient
trying = client_of (start (enable_retry create) (returned 5) einprogress)

up : TcpClient
up = client_of (connector_writable trying 0 false)

idle : TcpClient
idle = record up { connector = Connector.reset_channel up.connector }
