-- ===== src/Poller/Ignored.antt =====
-- A channel that was disabled once stays ignored (irono/net/Poller.cc).
use irono.Base.{
  ℕ, ◌≡◌, refl, sym, ap, ◌∙◌, ◌⊎◌, inl, inr, true, Option, some, List, [], ◌∷◌, ◌>>=◌, Returns,
  Returns-mono, Returns-bind, negsuc, arith, Bool-cases, subst,
}
use irono.Channel.{Channel, Change, Events, is_none, change_events, disable_all, is_none_event}
use irono.Poller.{Poller, PollFd, change_channel, update_channel_at, change_entry}
use irono.Poller.Inv.{IsEntry, IsSynced}
use irono.Poller.Update.{with_mask, update_channel-at, index_kept, change_existing-IsKept, IsKept}

-- Several changes of one channel's mask, one after the other.
unfoldable pub change_all : Poller → List Change → ℕ → Option Poller
change_all p [] ptr = some p
change_all p (change ∷ changes) ptr = change_channel p change ptr >>= λ q. change_all q changes ptr

-- The channel has an entry, and poll(2) ignores it.
abbrev pub IsIgnored : ℕ → ℕ → Poller → Type 0
IsIgnored ptr fd p =
    IsSynced p
    × ((p.heap ptr).fd ≡ fd)
    × ((i : ℕ) × (pfd : PollFd) × (IsEntry p ptr i pfd) × (pfd.fd ≡ negsuc fd))

change_channel-IsKept :
    (p : Poller) (change : Change) (ptr i : ℕ) (pfd : PollFd)
    → IsSynced p
    → IsEntry p ptr i pfd
    → Returns (change_channel p change ptr) (
        IsKept p ptr i pfd
          (record (p.heap ptr) { events = change_events change (p.heap ptr).events }))
unfolding change_channel update_channel_at with_mask
change_channel-IsKept p change ptr i pfd v (entry, s) =
    let mask = change_events change (p.heap ptr).events in
    let e =
      update_channel-at (with_mask p ptr mask) ptr (some i) (index_kept p ptr mask ∙ s.at_index) in
    rw e (change_existing-IsKept p ptr i pfd mask v (entry, s))

entry_ignored :
    (c : Channel) (pfd : PollFd) (fd : ℕ)
    → c.fd ≡ fd
    → (is_none_event c ≡ true) ⊎ (pfd.fd ≡ negsuc fd)
    → (change_entry c pfd).fd ≡ negsuc fd
unfolding change_entry
entry_ignored c pfd fd same h = elim (Bool-cases (is_none_event c)) [
  | inl n ↦ rw n (ap negsuc same)
  | inr n ↦ ground (arith, n)
]

cleared :
    (events : Events) (change : Change)
    → change ≡ disable_all
    → is_none (change_events change events) ≡ true
unfolding change_events
cleared events change e = rw e refl

change_channel-IsIgnored :
    (p : Poller) (change : Change) (ptr i : ℕ) (pfd : PollFd)
    → IsSynced p
    → IsEntry p ptr i pfd
    → (change ≡ disable_all) ⊎ (pfd.fd ≡ negsuc (p.heap ptr).fd)
    → Returns (change_channel p change ptr) (IsIgnored ptr (p.heap ptr).fd)
change_channel-IsIgnored p change ptr i pfd v entry h =
    let c = record (p.heap ptr) { events = change_events change (p.heap ptr).events } in
    Returns-mono _ _ (IsIgnored ptr (p.heap ptr).fd)
      (change_channel-IsKept p change ptr i pfd v entry)
      (λ q k. (
        k.0,
        k.1,
        (
          i,
          change_entry c pfd,
          k.2,
          entry_ignored c pfd (p.heap ptr).fd refl
              (elim h [ inl e ↦ inl (cleared (p.heap ptr).events change e) | inr e ↦ inr e ]),
        ),
      ))

change_all-IsIgnored :
    (p : Poller) (changes : List Change) (ptr fd : ℕ)
    → IsIgnored ptr fd p
    → Returns (change_all p changes ptr) (IsIgnored ptr fd)
unfolding change_all
change_all-IsIgnored p [] ptr fd h = h
change_all-IsIgnored p (change ∷ changes) ptr fd (v, same, (i, pfd, entry, off)) =
    Returns-bind (change_channel p change ptr) _ (IsIgnored ptr (p.heap ptr).fd) (IsIgnored ptr fd)
      (change_channel-IsIgnored p change ptr i pfd v entry (inr (off ∙ ap negsuc (sym same))))
      (λ q h. change_all-IsIgnored q changes ptr fd (subst (λ f. IsIgnored ptr f q) same h))

-- A registered channel whose mask was cleared once stays ignored by poll(2), whatever masks it is given
-- afterwards: no assert fails, the entry gets each new mask, and its descriptor stays negative.
pub disabled_for_good :
    (p : Poller) (changes : List Change) (ptr : ℕ)
    → IsSynced p
    → p.channels (p.heap ptr).fd ≡ some ptr
    → Returns (change_all p (disable_all ∷ changes) ptr) (IsIgnored ptr (p.heap ptr).fd)
unfolding change_all
disabled_for_good p changes ptr v here =
    let (same, i, pfd, entry) = v.found (p.heap ptr).fd ptr here in
    Returns-bind (change_channel p disable_all ptr) _ (IsIgnored ptr (p.heap ptr).fd)
      (IsIgnored ptr (p.heap ptr).fd)
      (change_channel-IsIgnored p disable_all ptr i pfd v entry (inl refl))
      (λ q h. change_all-IsIgnored q changes ptr (p.heap ptr).fd h)
