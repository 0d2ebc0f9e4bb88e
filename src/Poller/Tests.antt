-- ===== src/Poller/Tests.antt =====
-- A poller with one channel, of descriptor 5 (irono/net/Poller.cc).
use irono.Base.{ℕ, ◌≡◌, ◌+◌, refl, true, false, none, some, [], ◌∷◌, update, inl, inr, pos, Returns}
use irono.Channel.{Channel, enable_reading, disable_all, none_event, change_events}
use irono.Poller.{
  Poller, create, change_channel, update_channel, update_channel_at, add_new, set_index,
}
use irono.Poller.Inv.{IsSynced}
use irono.Poller.Run.{changes, apply, Reach, here, next, Reach-IsSynced, apply-IsSynced}
use irono.Poller.Ignored.{change_all, IsIgnored, disabled_for_good}

abbrev fresh : ℕ → Channel
fresh ptr = record {
  fd = ptr + 5;
  events = none_event;
  revents = none_event;
  index = none;
  event_handling = false;
}

abbrev reading : Channel
reading = record (fresh 0) {
  events = record none_event { pollin = true; pollpri = true };
  index = some 0;
}

abbrev registered : Poller
registered = record {
  pollfds = record { fd = pos 5; events = reading.events; revents = none_event } ∷ [];
  channels = update (λ _. none) 5 (some 0);
  heap = update (update fresh 0 (record (fresh 0) { events = reading.events })) 0 reading;
}

registers : apply (create fresh) (changes enable_reading 0) ≡ some registered
unfolding apply create change_channel update_channel update_channel_at add_new set_index
    change_events
registers = refl

reached : Reach fresh registered
unfolding create change_events
reached = next (changes enable_reading 0) here (inl (refl, refl, refl)) registers

apply-IsSynced_example : Returns (apply registered (changes disable_all 0)) IsSynced
apply-IsSynced_example = apply-IsSynced fresh registered (changes disable_all 0) reached (inr refl)

disabled_for_good_example :
    Returns (change_all registered (disable_all ∷ enable_reading ∷ []) 0) (IsIgnored 0 5)
disabled_for_good_example =
    disabled_for_good registered (enable_reading ∷ []) 0 (Reach-IsSynced reached) refl
