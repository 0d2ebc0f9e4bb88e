-- ===== src/EPoller/Poll.antt =====
-- `poll` and `fillActiveChannels` (irono/net/EPoller.cc).
use irono.Base.{
  ℕ, ◌*◌, ◌≤◌, ◌<◌, ◌≡◌, refl, sym, ap, true, some, List, [], ◌∷◌, length, leb, ◌==◌, update, arith,
  inl, inr, Option-cases, Returns, Returns-bind, Bool-cases,
}
use irono.Channel.{Events}
use irono.EPoller.{EPoller, fill_active_channels, poll}
use irono.EPoller.Kernel.{Epoll, Event}
use irono.EPoller.Inv.{Inv}

abbrev pub addresses : List (ℕ × Events) → List ℕ
addresses [] = []
addresses (r ∷ rs) = r.0 ∷ addresses rs

module _ (E : Epoll) where
  -- What `epoll_wait` stores: pointers that were registered with descriptors in the interest list.
  abbrev pub Reported : Epoll.State E → List (ℕ × Events) → Type 0
  Reported s [] = Unit {0}
  Reported s (r ∷ rs) =
      ((fd : ℕ) × (ev : Event) × (Epoll.interest E s fd ≡ some ev) × (ev.ptr ≡ r.0)) × Reported s rs

  -- A pointer in the interest list is that of the channel in the map.
  in_map :
      (p : EPoller E) (fd : ℕ) (ev : Event)
      → Inv E p
      → Epoll.interest E p.kernel fd ≡ some ev
      → p.channels (p.heap ev.ptr).fd ≡ some ev.ptr
  in_map p fd ev v h = elim (Option-cases (p.channels fd)) [
    | inl e ↦ ground (arith, v.synced fd)
    | inr (j, e) ↦ ground (arith, v.synced fd, v.found fd j)
  ]

  with_revents : EPoller E → ℕ → Events → EPoller E
  with_revents p ptr revents = record p {
    heap = update p.heap ptr (record (p.heap ptr) { revents = revents });
  }

  with_revents-Inv :
      (p : EPoller E) (ptr : ℕ) (revents : Events) → Inv E p → Inv E (with_revents p ptr revents)
  unfolding with_revents
  with_revents-Inv p ptr revents v = record {
    listed = λ j h. ground (arith, v.listed j);
    found = λ fd j e. ground (arith, v.found fd j);
    synced = λ fd. elim (Option-cases (p.channels fd)) [
      | inl e ↦ ground (arith, v.synced fd)
      | inr (j, e) ↦ ground (arith, v.synced fd)
    ];
  }

  -- The active channels are the reported ones, in that order.
  abbrev pub Filled : EPoller E → List (ℕ × Events) → (EPoller E × List ℕ) → Type 0
  Filled p ready r =
      Inv E (r.0) × (r.1 ≡ addresses ready) × ((r.0).event_list_size ≡ p.event_list_size)

  fill-Filled :
      (p : EPoller E) (ready : List (ℕ × Events))
      → Inv E p
      → Reported p.kernel ready
      → Returns (fill_active_channels E p ready) (Filled p ready)
  unfolding fill_active_channels with_revents
  fill-Filled p [] v k = (v, refl, refl)
  fill-Filled p (r ∷ rs) v ((fd, ev, at, same), k) =
      let here : p.channels (p.heap r.0).fd ≡ some (r.0) = rw (sym same) (in_map p fd ev v at) in
      let self : (r.0 == r.0) ≡ true = ground arith in
      rw (here, self)
        (Returns-bind (fill_active_channels E (with_revents p r.0 r.1) rs) _
          (Filled (with_revents p r.0 r.1) rs) (Filled p (r ∷ rs))
          (fill-Filled (with_revents p r.0 r.1) rs (with_revents-Inv p r.0 r.1 v) k)
          (λ q f. (f.0, ap (◌∷◌ r.0) f.1, f.2)))

  resized-Inv : (p : EPoller E) (n : ℕ) → Inv E p → Inv E (record p { event_list_size = n })
  resized-Inv p n v = record { listed = v.listed; found = v.found; synced = v.synced }

  -- After a poll: the reported channels are active, in order, and there is room for more events than
  -- came this time.
  abbrev pub Polled : List (ℕ × Events) → (EPoller E × List ℕ) → Type 0
  Polled ready r = Inv E (r.0) × (r.1 ≡ addresses ready) × (length ready < (r.0).event_list_size)

  -- In a poller with the invariant and a list of events that is not empty, `poll` comes back for
  -- any events of descriptors in the interest list that the event list can hold: no assert fails,
  -- the active channels are those of the events, in their order, and the event list can now hold
  -- more events than came. The invariant holds again.
  pub poll-Polled :
      (p : EPoller E) (ready : List (ℕ × Events))
      → Inv E p
      → Reported p.kernel ready
      → 0 < p.event_list_size
      → length ready ≤ p.event_list_size
      → Returns (poll E p ready) (Polled ready)
  unfolding poll
  poll-Polled p ready v k some_room room =
      let fits : leb (length ready) p.event_list_size ≡ true = ground arith in
      rw fits (
        Returns-bind (fill_active_channels E p ready) _ (Filled p ready) (Polled ready)
          (fill-Filled p ready v k)
          (λ r f. elim (Bool-cases (length ready == 0)) [
            | inl none_came ↦ rw none_came (v, nothing ready none_came, ground arith)
            | inr some_came ↦ elim (Bool-cases (length ready == (r.0).event_list_size)) [
              | inl full ↦
                  rw (some_came, full)
                    (resized-Inv (r.0) ((r.0).event_list_size * 2) f.0, f.1, ground (arith, f.2))
              | inr fewer ↦ rw (some_came, fewer) (f.0, f.1, ground (arith, f.2))
            ]
          ]))
    where
      nothing : (rs : List (ℕ × Events)) → (length rs == 0) ≡ true → [] ≡ addresses rs
      nothing [] h = refl
      nothing (r ∷ rs) h = absurd (ground arith)
