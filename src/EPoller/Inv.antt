-- ===== src/EPoller/Inv.antt =====
-- The poller and the kernel agree: what is in the interest list is what the added channels want.
use irono.Base.{
  ℕ, ◌≡◌, ◌≢◌, ◌⊎◌, Option, none, some, ◌==◌, if◌then◌else◌, update, arith, inl, inr, Option-cases,
}
use irono.Channel.{Channel}
use irono.EPoller.{EPoller, added, deleted}
use irono.EPoller.Kernel.{Epoll, Event}

-- What the kernel should hold for a listed channel.
abbrev pub wanted : Channel → ℕ → Option ℕ → Option Event
wanted c ptr none = none
wanted c ptr (some i) = if i == added then some (record { events = c.events; ptr = ptr }) else none

abbrev pub IsListed : Channel → ℕ → Type 0
IsListed c fd = (c.fd ≡ fd) × ((c.index ≡ some added) ⊎ (c.index ≡ some deleted))

module _ (E : Epoll) where
  abbrev pub expected : (ℕ → Channel) → Option ℕ → Option Event
  expected heap none = none
  expected heap (some ptr) = wanted (heap ptr) ptr (heap ptr).index

  pub record Inv (p : EPoller E) : Type 0 where
    -- A channel that has an index is found under its descriptor.
    pub listed : (ptr : ℕ) → (p.heap ptr).index ≢ none → p.channels (p.heap ptr).fd ≡ some ptr
    -- What is found under a descriptor is a channel of that descriptor, added or deleted.
    pub found : (fd ptr : ℕ) → p.channels fd ≡ some ptr → IsListed (p.heap ptr) fd
    -- The kernel watches the added channels, each with its mask and pointer, and nothing else.
    pub synced : (fd : ℕ) → Epoll.interest E p.kernel fd ≡ expected p.heap (p.channels fd)

  -- One channel changes, under its own descriptor, together with the kernel's entry for it.
  pub resync :
      (p p' : EPoller E) (ptr : ℕ) (c : Channel)
      → Inv p
      → (p.channels c.fd ≡ none) ⊎ (p.channels c.fd ≡ some ptr)
      → (p.heap ptr).fd ≡ c.fd
      → (c.index ≡ some added) ⊎ (c.index ≡ some deleted)
      → ((j : ℕ) → p'.heap j ≡ update p.heap ptr c j)
      → ((j : ℕ) → p'.channels j ≡ update p.channels c.fd (some ptr) j)
      → ((j : ℕ)
          → Epoll.interest E p'.kernel j
            ≡ update (Epoll.interest E p.kernel) c.fd (wanted c ptr c.index) j)
      → Inv p'
  resync p p' ptr c v free same is_listed heap channels kernel = record {
    listed = λ j h. ground (arith, heap j, channels (p'.heap j).fd, v.listed j);
    found = λ fd j e. ground (arith, heap j, channels fd, v.found fd j);
    synced = λ fd. elim (Option-cases (p.channels fd)) [
      | inl e ↦ ground (arith, heap ptr, channels fd, kernel fd, v.synced fd)
      | inr (j, e) ↦
          ground (arith, heap ptr, heap j, channels fd, kernel fd, v.synced fd, v.found fd j)
    ];
  }
