-- ===== src/EPoller/Tests.antt =====
-- A channel is registered and removed, with an epoll that keeps its interest list as a function
-- (irono/net/EPoller.cc).
use irono.Base.{◌∷◌, [], ℕ, refl, Bool, true, false, Option, none, some, arith, update, Returns}
use irono.Channel
use irono.Channel.{Events, Channel, enable_reading, none_event, is_none, change_events}
use irono.EPoller.{EPoller, create, change_channel, update_channel}
use irono.EPoller.Kernel.{Epoll, Op, add, modify, delete, Event}
use irono.EPoller.Run.{Reach, creates, applies, changes, polls, apply, Applied, apply-Applied}

-- `epoll_ctl` on the interest list: it refuses what epoll_ctl(2) has EEXIST and ENOENT for.
abbrev present : Option Event → Bool
present none = false
present (some e) = true

abbrev table_ctl : Op → ℕ → Event → (ℕ → Option Event) → (ℕ → Option Event) × Bool
table_ctl add fd e s = elim (s fd) [ none ↦ (update s fd (some e), true) | some old ↦ (s, false) ]
table_ctl modify fd e s = elim (s fd) [
  | none ↦ (s, false)
  | some old ↦ (update s fd (some e), true)
]
table_ctl delete fd e s = elim (s fd) [ none ↦ (s, false) | some old ↦ (update s fd none, true) ]

abbrev table : Epoll
table = record {
  State = ℕ → Option Event;
  ctl = table_ctl;
  interest = λ s. s;
  add_ok = λ fd e s h. rw (h, table_ctl) refl;
  add_interest = λ fd e s h j. rw (h, table_ctl) refl;
  modify_ok = λ fd e old s h. rw (h, table_ctl) refl;
  modify_interest = λ fd e old s h j. rw (h, table_ctl) refl;
  delete_ok = λ fd e old s h. rw (h, table_ctl) refl;
  delete_interest = λ fd e old s h j. rw (h, table_ctl) refl;
}

-- Channels whose addresses are their descriptors.
abbrev empty : EPoller table
empty = create table (λ _. none) (λ ptr. Channel.create ptr)

empty_reached : Reach table empty
unfolding Channel.create
empty_reached = creates (λ _. none) (λ ptr. Channel.create ptr) (λ fd. refl) (λ ptr. refl)

-- Channel 5 is registered, and then reported readable.
abbrev readable : Events
readable = record none_event { pollin = true; pollpri = true }

registered_by : Option (EPoller table) → EPoller table
registered_by none = empty
registered_by (some q) = q

registered : EPoller table
unfolding change_channel create
registered = registered_by (change_channel table empty enable_reading 5)

registered_reached : Reach table registered
unfolding registered registered_by change_channel create update_channel Channel.create change_events
registered_reached =
    applies empty registered (changes enable_reading 5) [] empty_reached (λ _. refl) refl

apply-Applied_example :
    Returns
      (apply table registered (polls ((5, readable) ∷ [])))
      (Applied table (polls ((5, readable) ∷ [])))
unfolding registered registered_by change_channel create update_channel Channel.create change_events
apply-Applied_example =
    apply-Applied table registered (polls ((5, readable) ∷ [])) registered_reached
      (((5, record { events = readable; ptr = 5 }, refl, refl), tt), omega arith)
