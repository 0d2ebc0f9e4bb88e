-- ===== src/PingPong/Quit.antt =====
-- The count of connections, and the end of the run (irono/example/pingpong/client.cc).
use irono.Base.{
  ℕ, zero, suc, ◌+◌, ◌%◌, ◌^◌, ◌<◌, ◌≡◌, Bool, true, List, [], ◌∷◌, length, ◌==◌, if◌then◌else◌,
}
use irono.PingPong.{totals}
use irono.PingPong.Wires.{Network}

-- How many of the first `n` are set.
abbrev pub count : (ℕ → Bool) → ℕ → ℕ
count f zero = 0
count f (suc n) = (if f n then 1 else 0) + count f n

module _ {L : Type 0} where
  -- How many connections are up.
  abbrev pub number_up : Network L → ℕ
  number_up n = count n.is_up n.client.session_count

  pub record Counts (n : Network L) : Type 0 where
    pub number : n.client.num_connected ≡ number_up n % 2 ^ 32
    pub size : n.client.size ≡ n.client.session_count
    pub in_range : (i : ℕ) → n.is_up i ≡ true → i < n.client.session_count
    pub was : (i : ℕ) → n.is_up i ≡ true → n.was_up i ≡ true

  -- All that the first `k` sessions have received.
  abbrev pub bytes_received : Network L → ℕ → ℕ
  bytes_received n zero = 0
  bytes_received n (suc k) = bytes_received n k + length (n.received k)

  -- What a disconnect prints: nothing while a connection is up, and else the totals.
  abbrev pub new_reports : Network L → Network L → List (ℕ × ℕ)
  new_reports n n' =
      if number_up n' == 0
      then (
        bytes_received n n.client.session_count,
        (totals n.client.sessions n.client.session_count).1,
      )
        ∷ []
      else []
