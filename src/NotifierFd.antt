-- ===== src/NotifierFd.antt =====
-- common/NotifierFd.cpp: an eventfd that wakes the peer of a ring buffer.
use conn.Common.{
  ℤ, is_neg, is_pos, is_zero, minus_one, ◌≡◌, Bool, true, false, ◌&&◌, ◌||◌, if◌then◌else◌, arith,
}

pub record NotifierFd : Type 0 where
  pub event_fd : ℤ

-- `NotifierFd::NotifierFd`
abbrev pub closed : NotifierFd
closed = record { event_fd = minus_one }

-- `init_fd`: `opened` is what eventfd(0, O_NONBLOCK) returns. The test behind the call is
-- `eventfd < 0`, on the address of the function and not on its result, and never holds.
unfoldable pub init_fd : ℤ → NotifierFd → Bool × NotifierFd
init_fd opened n = if is_neg n.event_fd then (true, record n { event_fd = opened }) else (true, n)

-- `close_fd`: whether close(2) is called, and the notifier left behind.
unfoldable pub close_fd : NotifierFd → Bool × NotifierFd
close_fd n = (is_pos n.event_fd, record n { event_fd = minus_one })

-- `notify`: `written` is what eventfd_write returns.
unfoldable pub notify : ℤ → NotifierFd → Bool
notify written n =
    if is_neg n.event_fd then false else if is_neg written then false else is_zero written

-- `clear_fd`: `res` is what eventfd_read returns, `again` whether errno is EAGAIN.
unfoldable pub clear_fd : ℤ → Bool → NotifierFd → Bool
clear_fd res again n = if is_neg n.event_fd then false else is_zero res || (is_neg res && again)

-- An eventfd that cannot be opened is reported as opened, and every later `notify` and `clear_fd`
-- then fails, whatever the system calls would answer.
pub init_fd_hides_failure :
    (opened written res : ℤ) (again : Bool)
    → is_neg opened ≡ true
    → let (done, n) = init_fd opened closed in
      (done ≡ true) × (notify written n ≡ false) × (clear_fd res again n ≡ false)
unfolding init_fd notify clear_fd
init_fd_hides_failure opened written res again h = ground arith

-- `init_fd` on a notifier that is open keeps its descriptor, and `close_fd` then `init_fd` takes
-- the new one; a descriptor above 0 is closed exactly once.
pub init_fd-close_fd :
    (n : NotifierFd) (opened : ℤ)
    → is_pos n.event_fd ≡ true
    → let (closes, n1) = close_fd n in
      (init_fd opened n ≡ (true, n))
      × (closes ≡ true)
      × ((close_fd n1).0 ≡ false)
      × (init_fd opened n1 ≡ (true, record { event_fd = opened }))
unfolding init_fd close_fd
init_fd-close_fd n opened h = ground arith
