-- ===== src/EPoller.antt =====
-- The epoll poller of irono/net/EPoller.h and EPoller.cc, with the channels that it looks after.
pub mod Kernel
pub mod Inv
pub mod Update
pub mod Remove
pub mod Poll
pub mod Size
pub mod Run
mod Tests
use irono.Base.{
  ℕ, ◌*◌, Bool, true, false, ◌||◌, ◌&&◌, Option, none, some, List, [], ◌∷◌, length, ltb, leb, ◌==◌,
  if◌then◌else◌, assert, ◌>>=◌, ◌>>◌, update, same_ptr, not_found,
}
use irono.Channel.{Channel, Events, is_none_event, Change, change_events, disable_all}
use Kernel.{Epoll, Op, add, modify, delete, Event}

-- `kAdded` and `kDeleted`. `kNew` is -1: an index that is `none`.
abbrev pub added : ℕ
added = 1

abbrev pub deleted : ℕ
deleted = 2

abbrev pub init_event_list_size : ℕ
init_event_list_size = 16

unfoldable pub is_index : ℕ → Option ℕ → Bool
is_index k none = false
is_index k (some i) = i == k

-- A failed `EPOLL_CTL_DEL` is logged; any other failure is fatal.
unfoldable pub check_ctl : Op → Bool → Option (Unit {0})
check_ctl op true = some tt
check_ctl delete false = some tt
check_ctl op false = none

module _ (E : Epoll) where
  -- A channel's address stands for its pointer: `heap` holds the objects, `channels` maps file
  -- descriptors to addresses, and `event_list_size` is `events_.size()`.
  pub record EPoller : Type 0 where
    pub kernel : Epoll.State E
    pub channels : ℕ → Option ℕ
    pub heap : ℕ → Channel
    pub event_list_size : ℕ

  -- `event_list_size` starts at 16, and the list doubles when `epoll_wait` fills it.
  unfoldable pub create : Epoll.State E → (ℕ → Channel) → EPoller
  create kernel heap = record {
    kernel = kernel;
    channels = λ _. none;
    heap = heap;
    event_list_size = init_event_list_size;
  }

  unfoldable pub update_kernel : EPoller → Op → ℕ → Option EPoller
  unfolding check_ctl
  update_kernel p op ptr = do
    let c = p.heap ptr
    let (kernel, ok) = Epoll.ctl E op c.fd (record { events = c.events; ptr = ptr }) p.kernel
    check_ctl op ok
    some (record p { kernel = kernel })

  unfoldable pub set_index : EPoller → ℕ → Option ℕ → EPoller
  set_index p ptr index = record p {
    heap = update p.heap ptr (record (p.heap ptr) { index = index });
  }

  -- `index == kNew`.
  unfoldable pub add_new : EPoller → ℕ → Option EPoller
  unfolding update_kernel set_index
  add_new p ptr = do
    let fd = (p.heap ptr).fd
    assert (not_found (p.channels fd))
    update_kernel
        (set_index (record p { channels = update p.channels fd (some ptr) }) ptr (some added)) add
        ptr

  -- `index == kDeleted`.
  unfoldable pub add_again : EPoller → ℕ → Option EPoller
  unfolding update_kernel set_index
  add_again p ptr = do
    assert (same_ptr (p.channels (p.heap ptr).fd) ptr)
    update_kernel (set_index p ptr (some added)) add ptr

  unfoldable pub change_added : EPoller → ℕ → Option EPoller
  unfolding is_index update_kernel set_index
  change_added p ptr = do
    assert (same_ptr (p.channels (p.heap ptr).fd) ptr)
    assert (is_index added (p.heap ptr).index)
    if is_none_event (p.heap ptr)
        then (update_kernel p delete ptr >>= λ p'. some (set_index p' ptr (some deleted)))
        else update_kernel p modify ptr

  unfoldable pub update_channel_at : EPoller → ℕ → Option ℕ → Option EPoller
  unfolding add_new add_again change_added
  update_channel_at p ptr none = add_new p ptr
  update_channel_at p ptr (some index) =
      if index == deleted then add_again p ptr else change_added p ptr

  unfoldable pub update_channel : EPoller → ℕ → Option EPoller
  unfolding update_channel_at
  update_channel p ptr = update_channel_at p ptr (p.heap ptr).index

  -- A change of a channel's mask, which its `update` passes on to the poller.
  unfoldable pub change_channel : EPoller → Change → ℕ → Option EPoller
  change_channel p change ptr =
      update_channel
        (record p {
          heap =
              update p.heap ptr
                (record (p.heap ptr) { events = change_events change (p.heap ptr).events });
        })
        ptr

  unfoldable pub remove_channel : EPoller → ℕ → Option EPoller
  unfolding is_index update_kernel set_index
  remove_channel p ptr = do
    let c = p.heap ptr
    assert (same_ptr (p.channels c.fd) ptr)
    assert (is_none_event c)
    assert (is_index added c.index || is_index deleted c.index)
    let erased = record p { channels = update p.channels c.fd none }
    p' ← if is_index added c.index then update_kernel erased delete ptr else some erased
    some (set_index p' ptr none)

  -- What `epoll_wait` stores: for each ready descriptor the mask, and the pointer registered with it.
  fill_active_channels : EPoller → List (ℕ × Events) → Option (EPoller × List ℕ)
  fill_active_channels p [] = some (p, [])
  fill_active_channels p ((ptr, revents) ∷ ready) = do
    let c = p.heap ptr
    assert (same_ptr (p.channels c.fd) ptr)
    let p' = record p { heap = update p.heap ptr (record c { revents = revents }) }
    (p'', active) ← fill_active_channels p' ready
    some (p'', ptr ∷ active)

  -- A ready list longer than the event list cannot be returned; a full one doubles the list. An error
  -- of `epoll_wait` is logged only, and is an empty list here.
  unfoldable pub poll : EPoller → List (ℕ × Events) → Option (EPoller × List ℕ)
  unfolding fill_active_channels
  poll p ready = do
    assert (leb (length ready) p.event_list_size)
    (p', active) ← fill_active_channels p ready
    some (
        if length ready == 0
        then (p, [])
        else (if length ready == p'.event_list_size
            then (record p' { event_list_size = p'.event_list_size * 2 }, active)
            else (p', active)))
