-- ===== src/PingPong/Wires.antt =====
-- The client with its connections to the server (irono/example/pingpong).
use irono.Base.{
  ℕ, ◌≤◌, ◌<◌, ◌≡◌, Bool, true, false, not, ◌&&◌, ltb, some, List, [], ◌++◌, length, take, drop,
  update,
}
use irono.Connector.{Errno, NewSocket}
use irono.PingPong.{Client, create, on_connection, on_message, handle_timeout, reply}

-- Of the connection of session `i`: whether it is up, whether it has been, whether its state is
-- `kConnected` (and not `kDisconnecting`, after `shutdown`), the bytes on the way to
-- the server and back, and what the session has received.
pub record Network (L : Type 0) : Type 0 where
  pub client : Client L
  pub is_up : ℕ → Bool
  pub was_up : ℕ → Bool
  pub is_connected : ℕ → Bool
  pub to_server : ℕ → List ℕ
  pub to_client : ℕ → List ℕ
  pub received : ℕ → List ℕ

module _ {L : Type 0} where
  abbrev pub quiet : Client L → Network L
  quiet c = record {
    client = c;
    is_up = λ i. false;
    was_up = λ i. false;
    is_connected = λ i. false;
    to_server = λ i. [];
    to_client = λ i. [];
    received = λ i. [];
  }

  -- A client of this program does not connect again.
  abbrev pub connected : Network L → ℕ → Network L
  connected n i =
      let (client, sent) = on_connection n.client true in
      record n {
        client = client;
        is_up = update n.is_up i true;
        was_up = update n.was_up i true;
        is_connected = update n.is_connected i true;
        to_server = update n.to_server i (n.to_server i ++ sent);
      }

  abbrev pub disconnected : Network L → ℕ → Network L
  disconnected n i = record n {
    client = (on_connection n.client false).0;
    is_up = update n.is_up i false;
    is_connected = update n.is_connected i false;
  }

  -- The server reads `k` bytes.
  abbrev pub server_read : Network L → ℕ → ℕ → Network L
  server_read n i k = record n {
    to_server = update n.to_server i (drop k (n.to_server i));
    to_client = update n.to_client i (n.to_client i ++ reply (take k (n.to_server i)));
  }

  -- The session reads `k` bytes.
  abbrev pub client_read : Network L → ℕ → ℕ → Network L
  client_read n i k =
      let bytes = take k (n.to_client i) in
      let (client, sent) = on_message n.client i (n.is_connected i) bytes in
      record n {
        client = client;
        to_client = update n.to_client i (drop k (n.to_client i));
        received = update n.received i (n.received i ++ bytes);
        to_server = update n.to_server i (n.to_server i ++ sent);
      }

  -- `handleTimeout`: each session's `disconnect` shuts its connection down, if it has one.
  abbrev pub timed_out : Network L → Network L
  timed_out n = record n {
    client = handle_timeout n.client;
    is_connected = λ i. n.is_connected i && not (ltb i n.client.size);
  }

  pub data Step (n : Network L) : Network L → Type 0 where
    connects : (i : ℕ) → i < n.client.session_count → n.was_up i ≡ false → Step n (connected n i)
    disconnects : (i : ℕ) → n.is_up i ≡ true → Step n (disconnected n i)
    server_reads :
        (i k : ℕ) → n.is_up i ≡ true → k ≤ length (n.to_server i) → Step n (server_read n i k)
    client_reads :
        (i k : ℕ) → n.is_up i ≡ true → k ≤ length (n.to_client i) → Step n (client_read n i k)
    times_out : Step n (timed_out n)

  pub data Reach : Network L → Type 0 where
    starts :
        (loop : L) (block_size session_count thread_count : ℕ) (spawned : List L)
        (attempts : ℕ → NewSocket × Errno) (c : Client L)
        → create loop block_size session_count thread_count spawned attempts ≡ some c
        → Reach (quiet c)
    goes_on : {n n' : Network L} → Reach n → Step n n' → Reach n'
