-- ===== src/PingPong/Flow.antt =====
-- The block that each connection passes to and fro (irono/example/pingpong).
use irono.Base.{
  ℕ, ◌+◌, ◌%◌, ◌<◌, ◌≤◌, Bool, false, ◌≡◌, refl, sym, ap, ◌∙◌, true, false, some, List, [], ◌++◌,
  length, get_elem?, take, drop, ◌==◌, arith, Bool-cases, inl, inr, append_assoc, append-nil,
  length-append, take-append-drop,
}
use native.Mathlib.Nat.{mod-lt}
use irono.PingPong.{
  send, block, on_connection, on_connect, on_disconnect, on_message, handle_timeout, decrement,
}
use irono.PingPong.Wires.{
  Network, Step, Reach, timed_out, connected, disconnected, server_read, client_read, connects,
  disconnects, server_reads, client_reads, times_out, starts, goes_on,
}
use irono.PingPong.Start.{create-Fresh, get_elem?-block}
use irono.PingPong.Cycle.{goes_round}

-- What is taken from the way back goes to the received bytes and to the way there.
circulate :
    (ms xs back there : List ℕ) (k : ℕ)
    → xs ++ (back ++ there) ≡ ms ++ xs
    → (xs ++ take k back) ++ (drop k back ++ (there ++ take k back)) ≡ ms ++ (xs ++ take k back)
circulate ms xs back there k e =
    let t = take k back in
    append_assoc xs t (drop k back ++ (there ++ t))
    ∙ ap (◌++◌ xs) (
        sym (append_assoc t (drop k back) (there ++ t))
        ∙ ap (λ zs. zs ++ (there ++ t)) (take-append-drop k back)
        ∙ sym (append_assoc back there t))
    ∙ sym (append_assoc xs (back ++ there) t)
    ∙ ap (λ zs. zs ++ t) e
    ∙ append_assoc ms xs t

-- Where `send` takes what was read, nothing was lost before, and nothing is now.
passes_on :
    (ms xs back there lost : List ℕ) (k : ℕ) (is_connected : Bool)
    → xs ++ (back ++ (there ++ lost)) ≡ ms ++ xs
    → (is_connected ≡ true → lost ≡ [])
    → (lost' : List ℕ) × ((xs ++ take k back)
          ++ (drop k back ++ ((there ++ send is_connected (take k back)) ++ lost'))
        ≡ ms ++ (xs ++ take k back))
      × (is_connected ≡ true → lost' ≡ [])
passes_on ms xs back there lost k true e h =
    let t = take k back in
    let all : xs ++ (back ++ there) ≡ ms ++ xs =
      sym (ap (λ zs. xs ++ (back ++ zs)) (ap (◌++◌ there) (h refl) ∙ append-nil there)) ∙ e in
    (
      [],
      ap (λ zs. (xs ++ t) ++ (drop k back ++ zs)) (append-nil (there ++ t))
          ∙ circulate ms xs back there k all,
      λ _. refl,
    )
passes_on ms xs back there lost k false e h =
    let t = take k back in
    (
      lost ++ t,
      ap (λ zs. (xs ++ t) ++ (drop k back ++ zs))
            (ap (λ zs. zs ++ (lost ++ t)) (append-nil there) ∙ sym (append_assoc there lost t))
          ∙ circulate ms xs back (there ++ lost) k e,
      λ f. cc,
    )

served :
    (back there lost : List ℕ) (k : ℕ)
    → (back ++ take k there) ++ (drop k there ++ lost) ≡ back ++ (there ++ lost)
served back there lost k =
    append_assoc back (take k there) (drop k there ++ lost)
    ∙ ap (◌++◌ back) (
        sym (append_assoc (take k there) (drop k there) lost)
        ∙ ap (λ zs. zs ++ lost) (take-append-drop k there))

module _ {L : Type 0} where
  -- Of session `i`: what it received, what is still on the way, and what `send` has dropped is the
  -- message and then what the session has received. `send` drops nothing while the connection is
  -- `kConnected`.
  pub record Flows (n : Network L) (i : ℕ) : Type 0 where
    pub balance :
        n.was_up i ≡ true
        → (lost : List ℕ) × (n.received i ++ (n.to_client i ++ (n.to_server i ++ lost))
            ≡ n.client.message ++ n.received i)
          × (n.is_connected i ≡ true → lost ≡ [])
    pub silent :
        n.was_up i ≡ false → (n.received i ≡ []) × (n.to_client i ≡ []) × (n.to_server i ≡ [])
    pub was : n.is_up i ≡ true → n.was_up i ≡ true
    pub counted : (n.client.sessions i).bytes_read ≡ length (n.received i)
    pub made : n.client.message ≡ block (length n.client.message)

  connected-Flows :
      (n : Network L) (j i : ℕ)
      → ((i : ℕ) → Flows n i)
      → n.was_up j ≡ false
      → Flows (connected n j) i
  unfolding on_connection on_connect
  connected-Flows n j i v new = record {
    balance = λ h. elim (Bool-cases (i == j)) [
      | inl same ↦ ([], ground (arith, (v i).silent, append-nil n.client.message), λ _. refl)
      | inr other ↦
          let (lost, e, f) = (v i).balance (ground arith) in
          (lost, ground (arith, e), λ g. f (ground arith))
    ];
    silent = λ h. ground (arith, (v i).silent);
    was = λ h. ground (arith, (v i).was);
    counted = (v i).counted;
    made = (v i).made;
  }

  disconnected-Flows : (n : Network L) (j i : ℕ) → Flows n i → Flows (disconnected n j) i
  unfolding on_connection on_disconnect
  disconnected-Flows n j i v = elim (Bool-cases (decrement n.client.num_connected == 0)) [
    | inl last ↦ rw last (record {
      balance = λ h. let (lost, e, f) = v.balance h in (lost, e, λ g. f (ground arith));
      silent = v.silent;
      was = λ h. ground (arith, v.was);
      counted = v.counted;
      made = v.made;
    })
    | inr others ↦ rw others (record {
      balance = λ h. let (lost, e, f) = v.balance h in (lost, e, λ g. f (ground arith));
      silent = v.silent;
      was = λ h. ground (arith, v.was);
      counted = v.counted;
      made = v.made;
    })
  ]

  server_read-Flows :
      (n : Network L) (j k i : ℕ)
      → n.is_up j ≡ true
      → ((i : ℕ) → Flows n i)
      → Flows (server_read n j k) i
  server_read-Flows n j k i up v = record {
    balance = λ h.
        let (lost, e, f) = (v i).balance h in
        (lost, ground (arith, e, served (n.to_client i) (n.to_server i) lost k), f);
    silent = λ h. ground (arith, (v i).silent, (v i).was);
    was = (v i).was;
    counted = (v i).counted;
    made = (v i).made;
  }

  client_read-Flows :
      (n : Network L) (j k i : ℕ)
      → n.is_up j ≡ true
      → ((i : ℕ) → Flows n i)
      → Flows (client_read n j k) i
  unfolding on_message
  client_read-Flows n j k i up v = record {
    balance = λ h.
        let (lost, e, f) = (v i).balance h in
        elim (Bool-cases (i == j)) [
          | inl same ↦
              let (lost', e', f') =
                passes_on n.client.message (n.received i) (n.to_client i) (n.to_server i) lost k
                  (n.is_connected i) e f in
              (lost', ground (arith, e'), f')
          | inr other ↦ (lost, ground (arith, e), f)
        ];
    silent = λ h. ground (arith, (v i).silent, (v i).was);
    was = (v i).was;
    counted = ground (arith, (v i).counted, length-append (n.received i) (take k (n.to_client i)));
    made = (v i).made;
  }

  times_out-Flows : (n : Network L) (i : ℕ) → Flows n i → Flows (timed_out n) i
  unfolding handle_timeout
  times_out-Flows n i v = record {
    balance = λ h. let (lost, e, f) = v.balance h in (lost, e, λ g. f (ground arith));
    silent = v.silent;
    was = v.was;
    counted = ground (arith, v.counted);
    made = v.made;
  }

  step-Flows : (n n' : Network L) → Step n n' → ((i : ℕ) → Flows n i) → (i : ℕ) → Flows n' i
  step-Flows n _ (connects j small new) v i = connected-Flows n j i v new
  step-Flows n _ (disconnects j up) v i = disconnected-Flows n j i (v i)
  step-Flows n _ (server_reads j k up some_bytes) v i = server_read-Flows n j k i up v
  step-Flows n _ (client_reads j k up some_bytes) v i = client_read-Flows n j k i up v
  step-Flows n _ times_out v i = times_out-Flows n i (v i)

  pub Reach-Flows : (n : Network L) → Reach n → (i : ℕ) → Flows n i
  Reach-Flows _ (starts loop block_size count threads spawned attempts c e) i =
      let (f, _) = create-Fresh loop block_size count threads spawned attempts c e in
      record {
        balance = λ h. cc;
        silent = λ h. (refl, refl, refl);
        was = λ h. h;
        counted = f.unread i;
        made = f.made;
      }
  Reach-Flows n' (goes_on {n} r s) i = step-Flows n n' s (Reach-Flows n r) i

  -- Of a session whose connection has been up: while its state is `kConnected`, the bytes on the way to
  -- the server and back are together one message long; what the session has received is the message
  -- repeated, a part of it at the end (the characters from 0 to 127, over and over, within each
  -- message); and `bytesRead` counts it.
  pub record Circulates (n : Network L) (i : ℕ) : Type 0 where
    pub one_block :
        n.is_connected i ≡ true
        → length (n.to_client i) + length (n.to_server i) ≡ length n.client.message
    -- No more is on the way, also when replies are dropped.
    pub at_most : length (n.to_client i) + length (n.to_server i) ≤ length n.client.message
    pub repeats :
        (k : ℕ)
        → k < length (n.received i)
        → get_elem? (n.received i) k ≡ some (k % length n.client.message % 128)
    pub counts : (n.client.sessions i).bytes_read ≡ length (n.received i)

  -- Whatever the client, its sessions and the server have done, in any order and with any pieces of
  -- the streams: for a message that is not empty, and a session whose connection has been up, the
  -- session has received the message over and over, byte for byte, also after the timeout has shut the
  -- connection down, where `send` drops the replies; its `bytesRead` is what it has received; the bytes
  -- on the way to the server and back are together at most one message long, and just one message
  -- long while the connection is `kConnected`.
  pub flows_lem :
      (n : Network L) (i : ℕ)
      → Reach n
      → n.was_up i ≡ true
      → 0 < length n.client.message
      → Circulates n i
  flows_lem n i r up some_bytes =
      let v = Reach-Flows n r i in
      let m = n.client.message in
      let (lost, e, f) = v.balance up in
      let sum : length (n.to_client i) + length (n.to_server i) + length lost ≡ length m = omega (
        arith,
        ap length e,
        length-append (n.received i) (n.to_client i ++ (n.to_server i ++ lost)),
        length-append (n.to_client i) (n.to_server i ++ lost),
        length-append (n.to_server i) lost,
        length-append m (n.received i),
      ) in
      record {
        one_block = λ h. omega (arith, sum, ap length (f h));
        at_most = omega (arith, sum);
        repeats = λ k h.
            goes_round m (n.received i) (n.to_client i ++ (n.to_server i ++ lost)) k e some_bytes h
            ∙ ap (λ xs. get_elem? xs (k % length m)) v.made
            ∙ get_elem?-block (length m) (k % length m) (mod-lt k some_bytes);
        counts = v.counted;
      }
