-- ===== src/Channel/Listed.antt =====
-- A kernel whose interest list is a map, for runs: it does what epoll_ctl(2) says.
use mini_net.Prelude.{
  ℕ, ◌≡◌, ◌≢◌, refl, ap, Option, none, some, [], if◌then◌else◌, ◌==◌, Map, get, insert, erase,
  nat_eq, get-insert, get-erase,
}
use mini_net.Channel.{Op, add, modify, delete, Answer, done, exists, failed, Interest, Poller}
use mini_net.Channel.Sync.{IsEpoll}

abbrev pub Listed : Type 0
Listed = Map ℕ Interest

abbrev pub answer_at : Option Interest → Listed → Op → ℕ → Interest → Answer × Listed
answer_at none k add fd i = (done, insert k fd i)
answer_at none k modify fd i = (failed, k)
answer_at none k delete fd i = (failed, k)
answer_at (some old) k add fd i = (exists, k)
answer_at (some old) k modify fd i = (done, insert k fd i)
answer_at (some old) k delete fd i = (done, erase k fd)

abbrev pub listed_ctl : Listed → Op → ℕ → Interest → Answer × Listed
listed_ctl k op fd i = answer_at (get k fd) k op fd i

listed_enters :
    (o : Option Interest) (k : Listed) (fd j : ℕ) (i : Interest)
    → (answer_at o k add fd i).0 ≡ done
    → get (answer_at o k add fd i).1 j ≡ (if fd == j then some i else get k j)
listed_enters none k fd j i h = get-insert k fd j i
listed_enters (some old) k fd j i h = absurd (cc h)

listed_replaces :
    (o : Option Interest) (k : Listed) (fd j : ℕ) (i : Interest)
    → (answer_at o k modify fd i).0 ≡ done
    → get (answer_at o k modify fd i).1 j ≡ (if fd == j then some i else get k j)
listed_replaces none k fd j i h = absurd (cc h)
listed_replaces (some old) k fd j i h = get-insert k fd j i

listed_deletes :
    (o : Option Interest) (k : Listed) (fd j : ℕ) (i : Interest)
    → (answer_at o k delete fd i).0 ≡ done
    → get (answer_at o k delete fd i).1 j ≡ (if fd == j then none else get k j)
listed_deletes none k fd j i h = absurd (cc h)
listed_deletes (some old) k fd j i h = get-erase k fd j

listed_keeps :
    (o : Option Interest) (k : Listed) (op : Op) (fd j : ℕ) (i : Interest)
    → (answer_at o k op fd i).0 ≢ done
    → get (answer_at o k op fd i).1 j ≡ get k j
listed_keeps none k add fd j i h = absurd (h refl)
listed_keeps none k modify fd j i h = refl
listed_keeps none k delete fd j i h = refl
listed_keeps (some old) k add fd j i h = refl
listed_keeps (some old) k modify fd j i h = absurd (h refl)
listed_keeps (some old) k delete fd j i h = absurd (h refl)

pub listed-IsEpoll : IsEpoll listed_ctl get
listed-IsEpoll = record {
  enters = λ k fd j i h. listed_enters (get k fd) k fd j i h;
  replaces = λ k fd j i h. listed_replaces (get k fd) k fd j i h;
  deletes = λ k fd j i h. listed_deletes (get k fd) k fd j i h;
  keeps = λ k op fd j i h. listed_keeps (get k fd) k op fd j i h;
  can_delete = λ k fd i old h. ap (λ o. (answer_at o k delete fd i).0) h;
}

abbrev pub empty_poller : Poller Listed
empty_poller = record { channels = []; kernel = [] }
