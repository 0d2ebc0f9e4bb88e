-- ===== src/Poller/Run.antt =====
-- Any calls of `updateChannel`, `removeChannel` and `poll` in a row (irono/net/Poller.cc).
use irono.Base.{ℕ, ◌≡◌, true, Option, some, Returns, Returns-mono, Returns-bind, ◌>>=◌, subst}
use irono.Channel.{Channel, Change, is_none_event}
use irono.Poller.{Poller, Stored, create, change_channel, remove_channel, poll}
use irono.Poller.Inv.{IsSynced}
use irono.Poller.Update.{CanChange, change_channel-IsSynced}
use irono.Poller.Poll.{Answers, KeepsSynced, poll-KeepsSynced}
use irono.Poller.Remove.{remove_channel-IsGone}

pub data Action : Type 0 where
  changes : Change → ℕ → Action
  removes : ℕ → Action
  polls : Stored → Action

unfoldable pub apply : Poller → Action → Option Poller
apply p (changes change ptr) = change_channel p change ptr
apply p (removes ptr) = remove_channel p ptr
apply p (polls s) = poll p (some s) >>= λ r. some (r.0)

-- A channel is removed when it is registered and its mask is empty.
abbrev pub CanApply : Poller → Action → Type 0
CanApply p (changes change ptr) = CanChange p change ptr
CanApply p (removes ptr) =
    (p.channels (p.heap ptr).fd ≡ some ptr) × (is_none_event (p.heap ptr) ≡ true)
CanApply p (polls s) = Answers p s

-- The pollers that are reached from an empty one.
pub data Reach (heap : ℕ → Channel) : Poller → Type 0 where
  here : Reach heap (create heap)
  next :
      {p q : Poller} (a : Action) → Reach heap p → CanApply p a → apply p a ≡ some q → Reach heap q

create-IsSynced : (heap : ℕ → Channel) → IsSynced (create heap)
unfolding create
create-IsSynced heap = record { found = λ fd ptr e. cc; owned = λ i pfd e. cc }

one : (p : Poller) (a : Action) → IsSynced p → CanApply p a → Returns (apply p a) IsSynced
unfolding apply
one p (changes change ptr) v c = change_channel-IsSynced p change ptr v c
one p (removes ptr) v c =
    Returns-mono _ _ IsSynced (remove_channel-IsGone p ptr v c.0 c.1) (λ q g. g.0)
one p (polls s) v c =
    Returns-bind (poll p (some s)) _ KeepsSynced IsSynced (poll-KeepsSynced p s v c) (λ r k. k)

pub Reach-IsSynced : {heap : ℕ → Channel} {p : Poller} → Reach heap p → IsSynced p
Reach-IsSynced {heap = heap} here = create-IsSynced heap
Reach-IsSynced (next {p = p} {q = q} a r c e) =
    subst (λ m. Returns m IsSynced) e (one p a (Reach-IsSynced r) c)

-- From an empty poller, by changes of masks, removals and polls that do not fail: no assert fails,
-- and afterwards the channels in the map and the entries of the array are the same, each with its
-- mask, its descriptor (turned round when the mask is empty) and its index. The conditions on each
-- call: a channel that is not registered has no index, a descriptor that no registered channel has,
-- and gets a mask that is not empty; one that is removed is registered and has an empty mask;
-- poll(2) stores no events for an entry with a negative descriptor.
pub apply-IsSynced :
    (heap : ℕ → Channel) (p : Poller) (a : Action)
    → Reach heap p
    → CanApply p a
    → Returns (apply p a) IsSynced
apply-IsSynced heap p a r c = one p a (Reach-IsSynced r) c
