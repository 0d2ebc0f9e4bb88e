-- ===== src/TcpConnection/Inv.antt =====
-- What holds of a connection between two calls (irono/net/TcpConnection.cc).
use irono.Base.{ℕ, ◌<◌, ◌≡◌, ◌≢◌, Bool, true, false, List, [], ◌++◌, length, refl, ◌⊎◌, inl, inr}
use irono.Buffer
use irono.Buffer.Inv.{IsValid, content, create-IsValid}
use irono.TcpConnection.{
  Connection, State, connecting, connected, disconnecting, disconnected, is_connected, is_writing,
  create,
}

-- Everything submitted and not dropped: what the socket took, and what waits in the output buffer.
abbrev pub stream : Connection → List ℕ
stream c = c.sent ++ content c.output

pub record Inv (c : Connection) : Type 0 where
  pub input_valid : IsValid c.input
  pub output_valid : IsValid c.output
  -- Writing is on only while bytes wait.
  pub waits : is_writing c ≡ true → 0 < length (content c.output)
  -- While the channel reads, that is until it is closed, bytes wait only when writing is on.
  pub pending : c.events.pollin ≡ true → is_writing c ≡ false → content c.output ≡ []
  -- Before `connectEstablished` nothing has happened.
  pub idle :
      c.state ≡ connecting
      → (is_writing c ≡ false) × (content c.output ≡ []) × (c.write_shut ≡ false)
  -- The write side is shut only after `shutdown`, and, until the close, with nothing left to send.
  pub shut_state : c.write_shut ≡ true → c.state ≢ connected
  pub shut_empty : c.write_shut ≡ true → c.events.pollin ≡ true → content c.output ≡ []

pub create-Inv : (b : Bool) → Inv (create b)
unfolding create Buffer.create
create-Inv b = record {
  input_valid = create-IsValid;
  output_valid = create-IsValid;
  waits = λ h. cc;
  pending = λ _ _. refl;
  idle = λ _. (refl, refl, refl);
  shut_state = λ h. cc;
  shut_empty = λ h. cc;
}

pub State-cases :
    (s : State) → ((is_connected s ≡ true) × (s ≡ connected)) ⊎ (is_connected s ≡ false)
State-cases connecting = inr refl
State-cases connected = inl (refl, refl)
State-cases disconnecting = inr refl
State-cases disconnected = inr refl
