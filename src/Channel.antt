-- ===== src/Channel.antt =====
-- src/Channel.cc, include/mini_net/Channel.h, src/EpollPoller.cc and include/mini_net/EpollPoller.h:
-- what a descriptor waits for, kept in step with the kernel's interest list. epoll_ctl is a
-- parameter: a function on a kernel state that answers, and what its manual page says of it is
-- IsEpoll. A channel's address stands for the pointer that epoll hands back.
mod Tests
pub mod Listed
pub mod Sync
pub mod Operations
use mini_net.Prelude.{
  ℕ, length, Bool, true, false, ◌||◌, List, [], ◌∷◌, ◌++◌, Option, none, some, if◌then◌else◌, ◌==◌,
  Map, get, insert, erase, nat_eq,
}

-- The bits of an event mask: EPOLLIN, EPOLLPRI, EPOLLOUT, EPOLLERR, EPOLLHUP, EPOLLRDHUP, EPOLLET.
pub record Events : Type 0 where
  pub epollin : Bool
  pub epollpri : Bool
  pub epollout : Bool
  pub epollerr : Bool
  pub epollhup : Bool
  pub epollrdhup : Bool
  pub epollet : Bool

abbrev pub no_events : Events
no_events = record {
  epollin = false;
  epollpri = false;
  epollout = false;
  epollerr = false;
  epollhup = false;
  epollrdhup = false;
  epollet = false;
}

pub record Channel : Type 0 where
  pub address : ℕ
  pub fd : ℕ
  pub events : Events
  pub revents : Events
  pub in_poller : Bool
  pub writing : Bool

abbrev pub new_channel : ℕ → ℕ → Channel
new_channel address fd = record {
  address = address;
  fd = fd;
  events = no_events;
  revents = no_events;
  in_poller = false;
  writing = false;
}

pub data Op : Type 0 where
  add modify delete : Op

-- What epoll_ctl returns: 0, or -1 with EEXIST or another errno.
pub data Answer : Type 0 where
  done exists failed : Answer

-- struct epoll_event: the mask and data.ptr.
abbrev pub Interest : Type 0
Interest = Events × ℕ

abbrev pub interest_of : Channel → Interest
interest_of ch = (ch.events, ch.address)

abbrev pub Ctl : Type 0 → Type 0
Ctl K = K → Op → ℕ → Interest → Answer × K

-- EpollPoller: channels_ and the kernel's side of epfd_.
pub record Poller (K : Type 0) : Type 0 where
  pub channels : Map ℕ ℕ
  pub kernel : K

module _ {K : Type 0} (ctl : Ctl K) where
  abbrev pub registered : K → Poller K → Channel → Poller K × Channel
  registered kernel p ch = (
    record { channels = insert p.channels ch.fd ch.address; kernel = kernel },
    record ch { in_poller = true },
  )

  abbrev pub refused : K → Poller K → Channel → Poller K × Channel
  refused kernel p ch = (record p { kernel = kernel }, ch)

  abbrev pub after_retry : Poller K → Channel → Answer × K → Poller K × Channel
  after_retry p ch (done, kernel) = registered kernel p ch
  after_retry p ch (exists, kernel) = refused kernel p ch
  after_retry p ch (failed, kernel) = refused kernel p ch

  -- A new descriptor that is there already is modified instead.
  abbrev pub after_add : Poller K → Channel → Answer × K → Poller K × Channel
  after_add p ch (done, kernel) = registered kernel p ch
  after_add p ch (exists, kernel) = after_retry p ch (ctl kernel modify ch.fd (interest_of ch))
  after_add p ch (failed, kernel) = refused kernel p ch

  unfoldable pub update_at : Option ℕ → Poller K → Channel → Poller K × Channel
  update_at none p ch = after_add p ch (ctl p.kernel add ch.fd (interest_of ch))
  update_at (some old) p ch = after_retry p ch (ctl p.kernel modify ch.fd (interest_of ch))

  -- EpollPoller::updateChannel
  unfoldable pub update_channel : Poller K → Channel → Poller K × Channel
  update_channel p ch = update_at (get p.channels ch.fd) p ch

  unfoldable pub remove_at : Option ℕ → Poller K → Channel → Poller K × Channel
  remove_at none p ch = (p, ch)
  remove_at (some old) p ch = (
    record {
      channels = erase p.channels ch.fd;
      kernel = (ctl p.kernel delete ch.fd (no_events, 0)).1;
    },
    record ch { in_poller = false },
  )

  -- EpollPoller::removeChannel
  unfoldable pub remove_channel : Poller K → Channel → Poller K × Channel
  remove_channel p ch = remove_at (get p.channels ch.fd) p ch

  unfoldable pub enable_reading : Poller K → Channel → Poller K × Channel
  enable_reading p ch = update_channel p (record ch {
    events = record ch.events { epollin = true; epollrdhup = true; epollet = true };
  })

  unfoldable pub enable_writing : Poller K → Channel → Poller K × Channel
  enable_writing p ch =
      update_channel p (record ch { events = record ch.events { epollout = true }; writing = true })

  unfoldable pub disable_writing : Poller K → Channel → Poller K × Channel
  disable_writing p ch =
      update_channel p
        (record ch { events = record ch.events { epollout = false }; writing = false })

  unfoldable pub disable_reading : Poller K → Channel → Poller K × Channel
  disable_reading p ch =
      update_channel p
        (record ch { events = record ch.events { epollin = false; epollrdhup = false } })

  unfoldable pub disable_all : Poller K → Channel → Poller K × Channel
  disable_all p ch =
      let silent = record ch { events = no_events } in
      if ch.in_poller then remove_channel p silent else (p, silent)

-- The callbacks of a channel, on the program's state.
pub record Callbacks (S : Type 0) : Type 0 where
  pub read_cb : Option (S → S)
  pub write_cb : Option (S → S)
  pub close_cb : Option (S → S)

abbrev pub call_if : {S : Type 0} → Bool → Option (S → S) → S → S
call_if false f s = s
call_if true none s = s
call_if true (some f) s = f s

-- handleEvent, with the callbacks copied before the first of them runs.
unfoldable pub handle_event : {S : Type 0} → Callbacks S → Events → S → S
handle_event c e s =
    if e.epollhup || e.epollerr
    then call_if true c.close_cb s
    else call_if e.epollout c.write_cb
        (call_if (e.epollin || (e.epollpri || e.epollrdhup)) c.read_cb s)

-- What epoll_wait reports: the masks and the pointers, in order; or -1.
pub data Waited : Type 0 where
  ready : List Interest → Waited
  interrupted : Waited
  wait_failed : Waited

-- EpollPoller::wait: the channels to handle, with their masks, and the result (none for -1).
unfoldable pub wait : Waited → List Interest × Option ℕ
wait (ready reports) = (reports, some (length reports))
wait interrupted = ([], some 0)
wait wait_failed = ([], none)
