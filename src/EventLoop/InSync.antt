-- ===== src/EventLoop/InSync.antt =====
-- The loop's set of descriptors and the kernel's agree, but for descriptors that the kernel refuses.
use my_tiny_rpc.Base.{
  ℕ, ◌≡◌, refl, sym, ◌∙◌, Bool, true, false, Option, none, some, ◌==◌, if◌then◌else◌, Bool-cases,
  inl, inr, ==_iff, subst, ap,
}
use my_tiny_rpc.FdEvent.{Events, FdEvent}
use my_tiny_rpc.EventLoop.{
  EventLoop, update, epoll_ctl, epoll_ctl_add, epoll_ctl_mod, control, add_to_epoll,
}

abbrev pub is_some : Option Events → Bool
is_some none = false
is_some (some e) = true

update_same : {A : Type 0} (f : ℕ → A) (key : ℕ) (value : A) → update f key value key ≡ value
update_same f key value = rw ((==_iff key key).1 refl) refl

epoll_ctl_sets :
    (known : Bool) (old : Option Events) (events : Events)
    → known ≡ is_some old
    → epoll_ctl (if known then epoll_ctl_mod else epoll_ctl_add) old events ≡ some events
unfolding epoll_ctl
epoll_ctl_sets true none events h = absurd (cc h)
epoll_ctl_sets true (some old) events h = refl
epoll_ctl_sets false none events h = refl
epoll_ctl_sets false (some old) events h = absurd (cc h)

module _ {Callback : Type 0} where
  -- Of the descriptors that `epoll_ctl` takes, `m_listen_fds` holds just those that the kernel
  -- watches.
  abbrev pub InSync : EventLoop Callback → Type 0
  InSync l = (fd : ℕ) → l.refuses fd ≡ false → l.listen_fds fd ≡ is_some (l.interest fd)

  module _ (l : EventLoop Callback) (event : FdEvent Callback) where
    -- In the loop's thread `addEpollEvent` makes the kernel watch just the events that a descriptor
    -- listens for that it does not refuse, whether or not it was watched before.
    pub add_to_epoll_watches :
        InSync l
        → l.refuses event.fd ≡ false
        → (add_to_epoll l event).interest event.fd ≡ some event.listen_events
    unfolding add_to_epoll control
    add_to_epoll_watches h accepted = rw accepted (
        update_same l.interest event.fd (
          epoll_ctl (if l.listen_fds event.fd then epoll_ctl_mod else epoll_ctl_add)
            (l.interest event.fd) event.listen_events)
        ∙ epoll_ctl_sets (l.listen_fds event.fd) (l.interest event.fd) event.listen_events
            (h event.fd accepted))

    pub add_to_epoll-InSync : InSync l → InSync (add_to_epoll l event)
    unfolding add_to_epoll control
    add_to_epoll-InSync h fd accepted = elim (Bool-cases (fd == event.fd)) [
      | inl same ↦ taken fd ((==_iff fd event.fd).0 same) accepted
      | inr apart ↦ elim (Bool-cases (l.refuses event.fd)) [
        | inl refused ↦ rw (refused, apart) (h fd accepted)
        | inr free ↦ rw (free, apart) (h fd accepted)
      ]
    ]
      where
        taken :
            (fd : ℕ)
            → fd ≡ event.fd
            → l.refuses fd ≡ false
            → (add_to_epoll l event).listen_fds fd ≡ is_some ((add_to_epoll l event).interest fd)
        taken fd same =
            subst
              (λ x.
                l.refuses x ≡ false
                → (add_to_epoll l event).listen_fds x ≡ is_some ((add_to_epoll l event).interest x))
              (sym same)
              (λ accepted.
                update_same l.listen_fds event.fd true
                ∙ sym (ap is_some (add_to_epoll_watches h accepted)))
