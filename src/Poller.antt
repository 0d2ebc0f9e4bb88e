-- ===== src/Poller.antt =====
-- The poll(2) poller of irono/net/Poller.h and Poller.cc, with the channels that it looks after.
pub mod Inv
pub mod Update
pub mod Removed
pub mod Remove
pub mod Poll
pub mod Run
pub mod Ignored
mod Tests
use irono.Base.{
  ℕ, zero, suc, ◌+◌, ◌-◌, Bool, true, false, not, ◌&&◌, ◌||◌, Option, none, some, List, [], ◌∷◌,
  ◌++◌, length, get_elem?, set, take, ltb, leb, ◌==◌, if◌then◌else◌, assert, ◌>>=◌, ◌>>◌, update,
  same_ptr, not_found, ℤ, pos, negsuc,
}
use irono.Channel.{Channel, Events, none_event, is_none, is_none_event, Change, change_events}

-- `struct pollfd`. A negative descriptor is one that poll(2) ignores.
pub record PollFd : Type 0 where
  pub fd : ℤ
  pub events : Events
  pub revents : Events

-- A channel's address stands for its pointer: `heap` holds the objects, and `channels` maps file
-- descriptors to addresses.
pub record Poller : Type 0 where
  pub pollfds : List PollFd
  pub channels : ℕ → Option ℕ
  pub heap : ℕ → Channel

unfoldable pub create : (ℕ → Channel) → Poller
create heap = record { pollfds = []; channels = λ _. none; heap = heap }

-- Whether the descriptor is `fd`, and whether it is `-fd - 1`.
abbrev pub is_fd : ℤ → ℕ → Bool
is_fd (pos n) fd = n == fd
is_fd (negsuc n) fd = false

abbrev pub is_ignored_fd : ℤ → ℕ → Bool
is_ignored_fd (pos n) fd = false
is_ignored_fd (negsuc n) fd = n == fd

-- `channelAtEnd`: the descriptor before it was turned round.
abbrev pub original_fd : ℤ → ℕ
original_fd (pos n) = n
original_fd (negsuc n) = n

unfoldable pub set_index : Poller → ℕ → ℕ → Poller
set_index p ptr i = record p { heap = update p.heap ptr (record (p.heap ptr) { index = some i }) }

-- `index_ < 0`.
unfoldable pub add_new : Poller → ℕ → Option Poller
unfolding set_index
add_new p ptr = do
  let c = p.heap ptr
  assert (not_found (p.channels c.fd))
  some (
      set_index
        (record p {
          pollfds =
              p.pollfds ++ (record { fd = pos c.fd; events = c.events; revents = none_event } ∷ []);
          channels = update p.channels c.fd (some ptr);
        })
        ptr (length p.pollfds))

-- Only a channel with no events has its descriptor written: it is turned round.
unfoldable pub change_entry : Channel → PollFd → PollFd
change_entry c pfd = record {
  fd = if is_none_event c then negsuc c.fd else pfd.fd;
  events = c.events;
  revents = none_event;
}

unfoldable pub change_existing : Poller → ℕ → ℕ → Option Poller
unfolding change_entry
change_existing p ptr i = do
  let c = p.heap ptr
  assert (same_ptr (p.channels c.fd) ptr)
  pfd ← get_elem? p.pollfds i
  assert (is_fd pfd.fd c.fd || is_ignored_fd pfd.fd c.fd)
  some (record p { pollfds = set p.pollfds i (change_entry c pfd) })

unfoldable pub update_channel_at : Poller → ℕ → Option ℕ → Option Poller
unfolding add_new change_existing
update_channel_at p ptr none = add_new p ptr
update_channel_at p ptr (some i) = change_existing p ptr i

unfoldable pub update_channel : Poller → ℕ → Option Poller
unfolding update_channel_at
update_channel p ptr = update_channel_at p ptr (p.heap ptr).index

-- A change of a channel's mask, which its `update` passes on to the poller.
unfoldable pub change_channel : Poller → Change → ℕ → Option Poller
change_channel p change ptr =
    update_channel
      (record p {
        heap =
            update p.heap ptr
              (record (p.heap ptr) { events = change_events change (p.heap ptr).events });
      })
      ptr

unfoldable pub same_bit : Bool → Bool → Bool
same_bit true b = b
same_bit false b = not b

unfoldable pub same_events : Events → Events → Bool
unfolding same_bit
same_events a b =
    same_bit a.pollin b.pollin
    && (same_bit a.pollpri b.pollpri
        && (same_bit a.pollout b.pollout
            && (same_bit a.pollerr b.pollerr
                && (same_bit a.pollhup b.pollhup
                    && (same_bit a.pollnval b.pollnval && same_bit a.pollrdhup b.pollrdhup)))))

-- `iter_swap` of the element at `i` and the last one, `e`, and then `pop_back`.
unfoldable pub swap_pop : {A : Type 0} → List A → ℕ → A → A → List A
swap_pop xs i x e = take (length xs - 1) (set (set xs i e) (length xs - 1) x)

-- The element at `i` is not the last one. The channel of the last one moves to `i`.
unfoldable pub move_last : Poller → ℕ → PollFd → Option Poller
unfolding set_index swap_pop
move_last p i pfd = do
  last ← get_elem? p.pollfds (length p.pollfds - 1)
  moved ← p.channels (original_fd last.fd)
  some (record (set_index p moved i) { pollfds = swap_pop p.pollfds i pfd last })

-- The entry at `i` goes.
unfoldable pub take_out : Poller → ℕ → PollFd → Option Poller
unfolding move_last
take_out p i pfd =
    if i == length p.pollfds - 1
    then some (record p { pollfds = take (length p.pollfds - 1) p.pollfds })
    else move_last p i pfd

unfoldable pub remove_channel : Poller → ℕ → Option Poller
unfolding same_events take_out
remove_channel p ptr = do
  let c = p.heap ptr
  assert (same_ptr (p.channels c.fd) ptr)
  assert (is_none_event c)
  i ← c.index
  pfd ← get_elem? p.pollfds i
  assert (is_ignored_fd pfd.fd c.fd && same_events pfd.events c.events)
  take_out (record p { channels = update p.channels c.fd none }) i pfd

-- `fillActiveChannels`, with what poll(2) stored in the `revents` and its count of them. The addresses
-- of the active channels are in the order of the array.
unfoldable pub fill_active_channels : Poller → List PollFd → ℕ → Option (Poller × List ℕ)
fill_active_channels p [] num_events = some (p, [])
fill_active_channels p (pfd ∷ pfds) zero = some (p, [])
fill_active_channels p (pfd ∷ pfds) (suc num_events) =
    if is_none pfd.revents then fill_active_channels p pfds (suc num_events) else (do
      ptr ← elim pfd.fd [ pos fd ↦ p.channels fd | negsuc fd ↦ none ]
      assert (is_fd pfd.fd (p.heap ptr).fd)
      (p', active) ←
          fill_active_channels
            (record p { heap = update p.heap ptr (record (p.heap ptr) { revents = pfd.revents }) })
            pfds num_events
      some (p', ptr ∷ active))

-- What poll(2) stores, one mask for each entry, and how many of them are not empty.
pub record Stored : Type 0 where
  pub revents : List Events
  pub num_events : ℕ

unfoldable pub store_revents : List PollFd → List Events → List PollFd
store_revents [] rs = []
store_revents (pfd ∷ pfds) [] = pfd ∷ pfds
store_revents (pfd ∷ pfds) (r ∷ rs) = record pfd { revents = r } ∷ store_revents pfds rs

-- An error of poll(2), `none` here, is fatal.
unfoldable pub poll : Poller → Option Stored → Option (Poller × List ℕ)
unfolding store_revents
poll p none = none
poll p (some s) =
    let p' = record p { pollfds = store_revents p.pollfds s.revents } in
    if s.num_events == 0 then some (p', []) else fill_active_channels p' p'.pollfds s.num_events
