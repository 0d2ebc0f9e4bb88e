-- ===== src/EPoller/Update.antt =====
-- `updateChannel`, after a change of the channel's mask (irono/net/EPoller.cc, Channel.h).
use irono.Base.{
  ℕ, ◌≡◌, ◌⊎◌, inl, inr, refl, ap, ◌∙◌, true, Bool-cases, Option, none, some, ◌==◌, update, arith,
  Returns, Option-cases,
}
use irono.Channel.{Channel, Events, is_none, Change, change_events}
use irono.EPoller.{
  EPoller, added, deleted, add_new, add_again, change_added, update_channel, change_channel,
}
use irono.EPoller.Kernel.{Epoll, Event}
use irono.EPoller.Inv.{Inv, wanted, resync}

module _ (E : Epoll) (p : EPoller E) (ptr : ℕ) (ev : Events) where
  -- The poller with the channel's new mask, before `update` runs.
  unfoldable pub changed : EPoller E
  changed = record p { heap = update p.heap ptr (record (p.heap ptr) { events = ev }) }

  -- The channel afterwards.
  after : Option ℕ → Channel
  after index = record (p.heap ptr) { events = ev; index = index }

  event : Event
  event = record { events = ev; ptr = ptr }

  add_new-Inv :
      Inv E p
      → (p.heap ptr).index ≡ none
      → p.channels (p.heap ptr).fd ≡ none
      → Returns (add_new E changed ptr) (Inv E)
  unfolding changed add_new after event
  add_new-Inv v new free =
      let fd = (p.heap ptr).fd in
      let unwatched : Epoll.interest E p.kernel fd ≡ none = ground (arith, v.synced fd) in
      let self : (ptr == ptr) ≡ true = ground arith in
      rw (self, free, Epoll.add_ok E fd event p.kernel unwatched)
        (resync E p _ ptr (after (some added)) v (inl free) refl (inl refl) (λ j. ground arith)
          (λ j. refl) (Epoll.add_interest E fd event p.kernel unwatched))

  -- A channel with an index is under its descriptor, and the kernel has what its index says.
  pub known :
      (index : ℕ)
      → Inv E p
      → (p.heap ptr).index ≡ some index
      → (p.channels (p.heap ptr).fd ≡ some ptr)
        × (Epoll.interest E p.kernel (p.heap ptr).fd ≡ wanted (p.heap ptr) ptr (some index))
        × ((index ≡ added) ⊎ (index ≡ deleted))
  known index v e =
      let at : p.channels (p.heap ptr).fd ≡ some ptr = ground (arith, v.listed ptr) in
      (at, ground (arith, v.synced (p.heap ptr).fd), ground (arith, v.found (p.heap ptr).fd ptr))

  index-changed : (changed.heap ptr).index ≡ (p.heap ptr).index
  unfolding changed
  index-changed = ground arith

  add_again-Inv :
      Inv E p → (p.heap ptr).index ≡ some deleted → Returns (add_again E changed ptr) (Inv E)
  unfolding changed add_again after event
  add_again-Inv v e =
      let fd = (p.heap ptr).fd in
      let (at, unwatched, _) = known deleted v e in
      let self : (ptr == ptr) ≡ true = ground arith in
      rw (self, at, self, Epoll.add_ok E fd event p.kernel unwatched)
        (resync E p _ ptr (after (some added)) v (inr at) refl (inl refl) (λ j. ground arith)
          (λ j. ground arith) (Epoll.add_interest E fd event p.kernel unwatched))

  change_added-Inv :
      Inv E p → (p.heap ptr).index ≡ some added → Returns (change_added E changed ptr) (Inv E)
  unfolding changed change_added after event
  change_added-Inv v e =
      let fd = (p.heap ptr).fd in
      let (at, watched, _) = known added v e in
      let self : (ptr == ptr) ≡ true = ground arith in
      elim (Bool-cases (is_none ev)) [
        | inl empty ↦
            rw (self, at, self, e, empty, Epoll.delete_ok E fd event _ p.kernel watched)
              (resync E p _ ptr (after (some deleted)) v (inr at) refl (inr refl)
                (λ j. ground arith) (λ j. ground arith)
                (Epoll.delete_interest E fd event _ p.kernel watched))
        | inr some_event ↦
            rw (self, at, self, e, some_event, Epoll.modify_ok E fd event _ p.kernel watched)
              (resync E p _ ptr (after (some added)) v (inr at) refl (inl refl)
                (λ j. ground (arith, e)) (λ j. ground arith)
                (Epoll.modify_interest E fd event _ p.kernel watched))
      ]

module _ (E : Epoll) where
  update_changed-Inv :
      (p : EPoller E) (ptr : ℕ) (ev : Events)
      → Inv E p
      → ((p.heap ptr).index ≡ none → p.channels (p.heap ptr).fd ≡ none)
      → Returns (update_channel E (changed E p ptr ev) ptr) (Inv E)
  unfolding update_channel
  update_changed-Inv p ptr ev v free = elim (Option-cases (p.heap ptr).index) [
    | inl e ↦ rw (index-changed E p ptr ev, e) (add_new-Inv E p ptr ev v e (free e))
    | inr (i, e) ↦ elim (known E p ptr ev i v e).2 [
      | inl a ↦
          let e' : (p.heap ptr).index ≡ some added = e ∙ ap some a in
          rw (index-changed E p ptr ev, e') (change_added-Inv E p ptr ev v e')
      | inr d ↦
          let e' : (p.heap ptr).index ≡ some deleted = e ∙ ap some d in
          rw (index-changed E p ptr ev, e') (add_again-Inv E p ptr ev v e')
    ]
  ]

  -- In a poller with the invariant any change of a channel's mask goes through: no assert fails,
  -- `epoll_ctl` never refuses, and the kernel again watches exactly the added channels, each with
  -- its new mask. The channel may be new, if no other channel has its descriptor.
  pub change_channel-Inv :
      (p : EPoller E) (change : Change) (ptr : ℕ)
      → Inv E p
      → ((p.heap ptr).index ≡ none → p.channels (p.heap ptr).fd ≡ none)
      → Returns (change_channel E p change ptr) (Inv E)
  unfolding change_channel changed
  change_channel-Inv p change ptr v free =
      update_changed-Inv p ptr (change_events change (p.heap ptr).events) v free
