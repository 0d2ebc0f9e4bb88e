-- ===== src/EPoller/Run.antt =====
-- Any calls of `updateChannel`, `removeChannel` and `poll` in a row (irono/net/EPoller.cc).
use irono.Base.{
  ℕ, ◌≤◌, ◌<◌, ◌≡◌, ◌≢◌, refl, true, Option, none, some, List, [], length, ◌>>=◌, arith, Returns,
  Returns-mono, Returns-bind, subst,
}
use irono.Channel.{Channel, Events, Change, is_none}
use irono.EPoller.{EPoller, create, change_channel, remove_channel, poll}
use irono.EPoller.Kernel.{Epoll}
use irono.EPoller.Inv.{Inv}
use irono.EPoller.Update.{change_channel-Inv}
use irono.EPoller.Remove.{Removed, remove_channel-Inv}
use irono.EPoller.Poll.{Reported, addresses, Polled, poll-Polled}
use irono.EPoller.Size.{change_channel-Keeps, remove_channel-Keeps, Returns-Keeps}

-- A channel's `update` after a change of its mask, its `remove`, and a poll for which `epoll_wait`
-- stores the listed events.
pub data Action : Type 0 where
  changes : Change → ℕ → Action
  removes : ℕ → Action
  polls : List (ℕ × Events) → Action

module _ (E : Epoll) where
  -- The poller afterwards, and the active channels of a poll.
  abbrev pub apply : EPoller E → Action → Option (EPoller E × List ℕ)
  apply p (changes change ptr) = change_channel E p change ptr >>= λ q. some (q, [])
  apply p (removes ptr) = remove_channel E p ptr >>= λ q. some (q, [])
  apply p (polls ready) = poll E p ready

  -- A new channel's descriptor is not in the map; a channel that is removed has an index and an
  -- empty mask; `epoll_wait` stores events of watched descriptors, as many as the list holds.
  abbrev pub Allows : EPoller E → Action → Type 0
  Allows p (changes change ptr) = (p.heap ptr).index ≡ none → p.channels (p.heap ptr).fd ≡ none
  Allows p (removes ptr) = ((p.heap ptr).index ≢ none) × (is_none (p.heap ptr).events ≡ true)
  Allows p (polls ready) = Reported E p.kernel ready × (length ready ≤ p.event_list_size)

  -- The pollers that such calls lead to, from a new one: the kernel watches nothing, and no channel
  -- has an index.
  pub data Reach : EPoller E → Type 0 where
    creates :
        (kernel : Epoll.State E) (heap : ℕ → Channel)
        → ((fd : ℕ) → Epoll.interest E kernel fd ≡ none)
        → ((ptr : ℕ) → (heap ptr).index ≡ none)
        → Reach (create E kernel heap)
    applies :
        (p q : EPoller E) (a : Action) (active : List ℕ)
        → Reach p
        → Allows p a
        → apply p a ≡ some (q, active)
        → Reach q

  -- The active channels of a call: those that the kernel reported, in that order.
  abbrev pub reported : Action → List ℕ
  reported (changes change ptr) = []
  reported (removes ptr) = []
  reported (polls ready) = addresses ready

  abbrev pub Applied : Action → (EPoller E × List ℕ) → Type 0
  Applied a r = Inv E (r.0) × (0 < (r.0).event_list_size) × (r.1 ≡ reported a)

  apply-Applied_at :
      (p : EPoller E) (a : Action)
      → Inv E p
      → 0 < p.event_list_size
      → Allows p a
      → Returns (apply p a) (Applied a)
  apply-Applied_at p (changes change ptr) v room free =
      Returns-bind (change_channel E p change ptr) _ _ (Applied (changes change ptr))
        (Returns-Keeps E p.event_list_size _ (Inv E) (change_channel-Keeps E p change ptr)
          (change_channel-Inv E p change ptr v free))
        (λ q h. (h.0, ground (arith, h.1), refl))
  apply-Applied_at p (removes ptr) v room (has, empty) =
      Returns-bind (remove_channel E p ptr) _ _ (Applied (removes ptr))
        (Returns-Keeps E p.event_list_size _ (Removed E p ptr) (remove_channel-Keeps E p ptr)
          (remove_channel-Inv E p ptr v has empty))
        (λ q (r, e). (r.0, ground (arith, e), refl))
  apply-Applied_at p (polls ready) v room (real, fits) =
      Returns-mono (poll E p ready) (Polled E ready) (Applied (polls ready))
        (poll-Polled E p ready v real room fits) (λ r h. (h.0, ground (arith, h.2), h.1))

  create-Inv :
      (kernel : Epoll.State E) (heap : ℕ → Channel)
      → ((fd : ℕ) → Epoll.interest E kernel fd ≡ none)
      → ((ptr : ℕ) → (heap ptr).index ≡ none)
      → Inv E (create E kernel heap)
  unfolding create
  create-Inv kernel heap quiet new = record {
    listed = λ ptr h. absurd (h (new ptr));
    found = λ fd ptr e. cc;
    synced = λ fd. quiet fd;
  }

  Reach-Inv : (p : EPoller E) → Reach p → Inv E p × (0 < p.event_list_size)
  unfolding create
  Reach-Inv _ (creates kernel heap quiet new) = (create-Inv kernel heap quiet new, omega arith)
  Reach-Inv q (applies p _ a active r can e) =
      let (v, room) = Reach-Inv p r in
      let h : Applied a (q, active) =
        subst (λ m. Returns m (Applied a)) e (apply-Applied_at p a v room can) in
      (h.0, h.1)

  -- From a new poller, whatever channels have been changed, removed and polled for since: a change
  -- of a mask (the channel may be new, if no other channel has its descriptor), a removal (of a
  -- channel with an index and an empty mask) and a poll (for events of watched descriptors, no more
  -- than the event list holds) come back. No assert fails and `epoll_ctl` refuses nothing.
  -- Afterwards the kernel watches exactly the added channels, each with its mask and its address,
  -- a poll has given the channels of its events in their order, and the event list has room.
  pub apply-Applied :
      (p : EPoller E) (a : Action) → Reach p → Allows p a → Returns (apply p a) (Applied a)
  apply-Applied p a r can = let (v, room) = Reach-Inv p r in apply-Applied_at p a v room can
