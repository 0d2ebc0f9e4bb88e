-- ===== src/EPoller/Size.antt =====
-- `updateChannel` and `removeChannel` leave the event list alone (irono/net/EPoller.cc).
use irono.Base.{
  ℕ, ◌≡◌, refl, Returns, true, false, Bool, Option, none, some, ◌==◌, ◌>>=◌, if◌then◌else◌,
}
use irono.Channel.{Change, change_events}
use irono.EPoller.{
  EPoller, change_channel, remove_channel, update_channel, update_channel_at, add_new, add_again,
  change_added, update_kernel, set_index, deleted,
}
use irono.EPoller.Kernel.{Epoll, Op}
use irono.EPoller.Update.{changed}

module _ (E : Epoll) where
  -- A call that comes back leaves the size of the event list as it was.
  pub data Keeps (n : ℕ) : Option (EPoller E) → Type 0 where
    stops : Keeps n none
    keeps : (q : EPoller E) → q.event_list_size ≡ n → Keeps n (some q)

  Keeps-bind :
      {A : Type 0} (n : ℕ) (m : Option A) (f : A → Option (EPoller E))
      → ((a : A) → Keeps n (f a))
      → Keeps n (m >>= f)
  Keeps-bind n none f h = stops
  Keeps-bind n (some a) f h = h a

  Keeps-bind_same :
      (n : ℕ) (m : Option (EPoller E)) (f : EPoller E → Option (EPoller E))
      → Keeps n m
      → ((q : EPoller E) → q.event_list_size ≡ n → Keeps n (f q))
      → Keeps n (m >>= f)
  Keeps-bind_same n none f h k = stops
  Keeps-bind_same n (some q) f (keeps _ h) k = k q h

  Keeps-if :
      (n : ℕ) (b : Bool) (x y : Option (EPoller E))
      → Keeps n x
      → Keeps n y
      → Keeps n (if b then x else y)
  Keeps-if n true x y h k = h
  Keeps-if n false x y h k = k

  update_kernel-Keeps :
      (n : ℕ) (p : EPoller E) (op : Op) (ptr : ℕ)
      → p.event_list_size ≡ n
      → Keeps n (update_kernel E p op ptr)
  unfolding update_kernel
  update_kernel-Keeps n p op ptr h = search (Keeps-bind, keeps)

  ruleset sized = (Keeps-bind, Keeps-bind_same, Keeps-if, update_kernel-Keeps, keeps, refl)

  add_new-Keeps : (p : EPoller E) (ptr : ℕ) → Keeps p.event_list_size (add_new E p ptr)
  unfolding add_new set_index
  add_new-Keeps p ptr = search sized

  add_again-Keeps : (p : EPoller E) (ptr : ℕ) → Keeps p.event_list_size (add_again E p ptr)
  unfolding add_again set_index
  add_again-Keeps p ptr = search sized

  change_added-Keeps : (p : EPoller E) (ptr : ℕ) → Keeps p.event_list_size (change_added E p ptr)
  unfolding change_added set_index
  change_added-Keeps p ptr = search sized

  update_channel_at-Keeps :
      (p : EPoller E) (ptr : ℕ) (index : Option ℕ)
      → Keeps p.event_list_size (update_channel_at E p ptr index)
  unfolding update_channel_at
  update_channel_at-Keeps p ptr none = add_new-Keeps p ptr
  update_channel_at-Keeps p ptr (some i) =
      Keeps-if p.event_list_size (i == deleted) _ _ (add_again-Keeps p ptr)
        (change_added-Keeps p ptr)

  pub change_channel-Keeps :
      (p : EPoller E) (change : Change) (ptr : ℕ)
      → Keeps p.event_list_size (change_channel E p change ptr)
  unfolding change_channel update_channel changed
  change_channel-Keeps p change ptr =
      let p' = changed E p ptr (change_events change (p.heap ptr).events) in
      update_channel_at-Keeps p' ptr (p'.heap ptr).index

  pub remove_channel-Keeps :
      (p : EPoller E) (ptr : ℕ) → Keeps p.event_list_size (remove_channel E p ptr)
  unfolding remove_channel set_index
  remove_channel-Keeps p ptr = search sized depth 12

  -- What a call returns that comes back, it returns with the same event list.
  pub Returns-Keeps :
      (n : ℕ) (m : Option (EPoller E)) (P : EPoller E → Type 0)
      → Keeps n m
      → Returns m P
      → Returns m (λ q. P q × (q.event_list_size ≡ n))
  Returns-Keeps n none P stops h = h
  Returns-Keeps n (some q) P (keeps _ e) h = (h, e)
