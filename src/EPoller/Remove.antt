-- ===== src/EPoller/Remove.antt =====
-- `removeChannel` and `poll` (irono/net/EPoller.cc).
use irono.Base.{
  ℕ, ◌≡◌, inl, inr, refl, ap, ◌∙◌, true, none, some, ◌==◌, update, arith, Returns, Option-cases,
  ◌≢◌,
}
use irono.Channel.{Channel, is_none}
use irono.EPoller.{EPoller, added, deleted, remove_channel}
use irono.EPoller.Kernel.{Epoll, Event}
use irono.EPoller.Update.{known}
use irono.EPoller.Inv.{Inv}

module _ (E : Epoll) where
  -- One channel leaves, and the kernel's entry for it is gone.
  unsync :
      (p p' : EPoller E) (ptr : ℕ) (c : Channel)
      → Inv E p
      → p.channels c.fd ≡ some ptr
      → c.index ≡ none
      → (p.heap ptr).fd ≡ c.fd
      → ((j : ℕ) → p'.heap j ≡ update p.heap ptr c j)
      → ((j : ℕ) → p'.channels j ≡ update p.channels c.fd none j)
      → ((j : ℕ) → Epoll.interest E p'.kernel j ≡ update (Epoll.interest E p.kernel) c.fd none j)
      → Inv E p'
  unsync p p' ptr c v at gone same heap channels kernel = record {
    listed = λ j h. ground (arith, heap j, channels (p'.heap j).fd, v.listed j, same);
    found = λ fd j e. ground (arith, heap j, channels fd, v.found fd j);
    synced = λ fd. elim (Option-cases (p.channels fd)) [
      | inl e ↦ ground (arith, channels fd, kernel fd, v.synced fd)
      | inr (j, e) ↦
          ground (arith, heap ptr, heap j, channels fd, kernel fd, v.synced fd, v.found fd j)
    ];
  }

  -- What `remove_channel` promises of the poller that it leaves.
  abbrev pub Removed : EPoller E → ℕ → EPoller E → Type 0
  Removed p ptr p' = Inv E p' × (p'.channels (p.heap ptr).fd ≡ none) × ((p'.heap ptr).index ≡ none)

  remove_added :
      (p : EPoller E) (ptr : ℕ)
      → Inv E p
      → (p.heap ptr).index ≡ some added
      → is_none (p.heap ptr).events ≡ true
      → Returns (remove_channel E p ptr) (Removed p ptr)
  unfolding remove_channel
  remove_added p ptr v e empty =
      let c = p.heap ptr in
      let gone = record (p.heap ptr) { index = none } in
      let event : Event = record { events = c.events; ptr = ptr } in
      let (at, watched, _) = known E p ptr c.events added v e in
      let self : (ptr == ptr) ≡ true = ground arith in
      let here : (c.fd == c.fd) ≡ true = ground arith in
      rw (at, self, empty, e, Epoll.delete_ok E c.fd event _ p.kernel watched, here)
        (
          unsync p _ ptr gone v at refl refl (λ j. refl) (λ j. refl)
              (Epoll.delete_interest E c.fd event _ p.kernel watched),
          refl,
          ground arith,
        )

  remove_deleted :
      (p : EPoller E) (ptr : ℕ)
      → Inv E p
      → (p.heap ptr).index ≡ some deleted
      → is_none (p.heap ptr).events ≡ true
      → Returns (remove_channel E p ptr) (Removed p ptr)
  unfolding remove_channel
  remove_deleted p ptr v e empty =
      let c = p.heap ptr in
      let gone = record (p.heap ptr) { index = none } in
      let (at, unwatched, _) = known E p ptr c.events deleted v e in
      let self : (ptr == ptr) ≡ true = ground arith in
      let here : (c.fd == c.fd) ≡ true = ground arith in
      rw (at, self, empty, e, here)
        (
          unsync p _ ptr gone v at refl refl (λ j. refl) (λ j. refl)
              (λ j. ground (arith, unwatched)),
          refl,
          ground arith,
        )

  -- In a poller with the invariant, removing a channel that has an index and an empty mask goes
  -- through. Afterwards it has no index, its descriptor is not in the map, and the kernel watches
  -- exactly the remaining added channels.
  pub remove_channel-Inv :
      (p : EPoller E) (ptr : ℕ)
      → Inv E p
      → (p.heap ptr).index ≢ none
      → is_none (p.heap ptr).events ≡ true
      → Returns (remove_channel E p ptr) (Removed p ptr)
  remove_channel-Inv p ptr v has empty = elim (Option-cases (p.heap ptr).index) [
    | inl e ↦ absurd (has e)
    | inr (i, e) ↦ elim (known E p ptr (p.heap ptr).events i v e).2 [
      | inl a ↦ remove_added p ptr v (e ∙ ap some a) empty
      | inr d ↦ remove_deleted p ptr v (e ∙ ap some d) empty
    ]
  ]
