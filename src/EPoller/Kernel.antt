-- ===== src/EPoller/Kernel.antt =====
-- epoll(7) as the poller uses it: an interest list, and `epoll_ctl` with its documented results.
use irono.Base.{ℕ, ◌≡◌, Bool, true, Option, none, some, update}
use irono.Channel.{Events}

pub data Op : Type 0 where
  add modify delete : Op

-- `struct epoll_event`: the mask, and the address of the channel in `data.ptr`.
pub record Event : Type 0 where
  pub events : Events
  pub ptr : ℕ

-- The laws say that the kernel takes what epoll_ctl(2) lists no error for: adding a descriptor that
-- is not there, and changing or deleting one that is.
pub record Epoll : Type 1 where
  pub State : Type 0
  pub ctl : Op → ℕ → Event → State → State × Bool
  pub interest : State → ℕ → Option Event
  pub add_ok : (fd : ℕ) (e : Event) (s : State) → interest s fd ≡ none → (ctl add fd e s).1 ≡ true
  pub add_interest :
      (fd : ℕ) (e : Event) (s : State)
      → interest s fd ≡ none
      → (j : ℕ) → interest (ctl add fd e s).0 j ≡ update (interest s) fd (some e) j
  pub modify_ok :
      (fd : ℕ) (e old : Event) (s : State) → interest s fd ≡ some old → (ctl modify fd e s).1 ≡ true
  pub modify_interest :
      (fd : ℕ) (e old : Event) (s : State)
      → interest s fd ≡ some old
      → (j : ℕ) → interest (ctl modify fd e s).0 j ≡ update (interest s) fd (some e) j
  pub delete_ok :
      (fd : ℕ) (e old : Event) (s : State) → interest s fd ≡ some old → (ctl delete fd e s).1 ≡ true
  pub delete_interest :
      (fd : ℕ) (e old : Event) (s : State)
      → interest s fd ≡ some old
      → (j : ℕ) → interest (ctl delete fd e s).0 j ≡ update (interest s) fd none j
