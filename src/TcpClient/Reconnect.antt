-- ===== src/TcpClient/Reconnect.antt =====
-- A client has a connection only while its connector is done, and connects again after it
-- (irono/net/TcpClient.cc).
use irono.Base.{
  ℕ, ◌≡◌, ◌≢◌, ◌⊎◌, inl, inr, refl, sym, append-nil, Bool, true, false, ◌&&◌, none, some, [], ◌∷◌,
  ◌++◌, length, ltb, ◌==◌, if◌then◌else◌, arith, Bool-cases, Option-cases, Returns, Returns-bind,
}
use irono.Connector.{Connector, Errno, NewSocket, is_made, connected}
use irono.Connector.{
  remove_and_reset_channel, retry, handle_write as connector_write, restart as connector_restart,
}
use irono.Connector.Sockets as Sockets
use irono.Connector.Sockets.{step-Inv, restarts, writes}
use irono.TcpClient.{TcpClient, new_connection, remove_connection, connector_writable, to_list}

pub record Inv (c : TcpClient) : Type 0 where
  pub connecting : Sockets.Inv c.connector
  pub only_connected : c.connection ≢ none → c.connector.state ≡ connected

-- The connection is gone, and its destruction queued.
abbrev pub Removed : TcpClient → ℕ → TcpClient → Type 0
Removed c conn c' =
    Inv c'
    × (c'.connection ≡ none)
    × (c'.destroyed ≡ c.destroyed ++ (conn ∷ []))
    × (c'.established ≡ c.established)

-- On a client with the invariant, removing its connection, after the connector's last channel was
-- reset, passes every assertion, also those of the connector when it starts again, with a socket. The client has
-- no connection then, the destruction of the old one is queued, and the invariant holds again.
pub remove_connection-Removed :
    (c : TcpClient) (conn : ℕ) (socket : NewSocket) (e : Errno)
    → Inv c
    → c.connection ≡ some conn
    → c.connector.channel ≡ none
    → (c.retry && c.connect ≡ true → is_made socket ≡ true)
    → Returns (remove_connection c conn socket e) (Removed c conn)
unfolding remove_connection connector_restart Sockets.step
remove_connection-Removed c conn socket e v h n made =
    let self : (conn == conn) ≡ true = ground arith in
    elim (Bool-cases (c.retry && c.connect)) [
      | inl again ↦
          rw (h, self, again)
            (Returns-bind (connector_restart c.connector socket e) _ Sockets.Inv (Removed c conn)
              (step-Inv c.connector (restarts socket e) v.connecting (n, made again))
              (λ k w. (
                record { connecting = w; only_connected = λ a. absurd (a refl) },
                refl,
                refl,
                refl,
              )))
      | inr done ↦
          rw (h, self, done)
            (
              record { connecting = v.connecting; only_connected = λ a. absurd (a refl) },
              refl,
              refl,
              refl,
            )
    ]

-- A connector that waits for its socket hands it over only when it is done.
connector_write_lem :
    (k : Connector) (err : ℕ) (self : Bool)
    → Sockets.Inv k
    → k.watched ≡ true
    → Returns (connector_write k err self) (λ k'.
      Sockets.Inv k'
      × ((k'.state ≡ connected) ⊎ (ltb (length k.handed) (length k'.handed) ≡ false)))
unfolding connector_write remove_and_reset_channel retry Sockets.step
connector_write_lem k err self v w = ground (arith, step-Inv k (writes err self) v w)

-- A connection is there exactly if the connector handed its socket over; it has a new number then.
abbrev pub Connects : TcpClient → TcpClient → Type 0
Connects c c' =
    Inv c'
    × (c'.connection ≡ (
        if ltb (length c.connector.handed) (length c'.connector.handed)
        then some c.next_conn_id
        else none))
    × (c'.destroyed ≡ c.destroyed)
    × (c'.established ≡ c.established ++ to_list c'.connection)

no_connection : (c : TcpClient) → Inv c → c.connector.watched ≡ true → c.connection ≡ none
no_connection c v w = elim (Option-cases c.connection) [
  | inl e ↦ e
  | inr (d, e) ↦
      let up : c.connector.state ≡ connected = v.only_connected (λ n. ground arith) in
      absurd (ground (arith, v.connecting.slot))
]

-- On a client with the invariant whose connector waits for its socket: when that becomes writable, all
-- assertions pass, the client has a new connection exactly if the connector handed the socket over, and
-- the invariant holds again.
pub connector_writable-Connects :
    (c : TcpClient) (err : ℕ) (self : Bool)
    → Inv c
    → c.connector.watched ≡ true
    → Returns (connector_writable c err self) (Connects c)
unfolding connector_writable new_connection
connector_writable-Connects c err self v w =
    Returns-bind (connector_write c.connector err self) _
      (λ k'.
        Sockets.Inv k'
        × ((k'.state ≡ connected) ⊎ (ltb (length c.connector.handed) (length k'.handed) ≡ false)))
      (Connects c) (connector_write_lem c.connector err self v.connecting w)
      (λ k' (i, done). elim (Bool-cases (ltb (length c.connector.handed) (length k'.handed))) [
        | inl handed ↦
            rw (handed, handed)
              (record { connecting = i; only_connected = λ _. ground arith }, refl, refl, refl)
        | inr kept ↦
            let e : c.connection ≡ none = no_connection c v w in
            rw (kept, e, kept)
              (
                record { connecting = i; only_connected = λ a. absurd (a refl) },
                refl,
                refl,
                sym (append-nil c.established),
              )
      ])
