-- ===== src/Channel/Tests.antt =====
-- The theorems at an input.
use mini_net.Prelude.{ℕ, ◌≡◌, refl, true, some, get, nat_eq}
use mini_net.Channel.{no_events, Channel, new_channel, disable_all, handle_event}
use mini_net.Channel.Sync.{IsSynced, Updated}
use mini_net.Channel.Operations.{
  writing_on, switch, wanted, wants_writing, switch-Updated, IsHonest, IsSilent,
  disable_all-silences,
}
use mini_net.Channel.Listed.{listed_ctl, listed-IsEpoll, empty_poller}

abbrev channel : Channel
channel = new_channel 4096 5

empty-IsSynced : IsSynced get empty_poller
unfolding get
empty-IsSynced j = refl

switch-Updated_example :
    let (q, ch') = switch listed_ctl writing_on empty_poller channel in
    (ch'.events ≡ wanted writing_on channel.events)
    × (ch'.writing ≡ wants_writing writing_on channel.writing)
    × Updated listed_ctl get empty_poller (q, ch')
switch-Updated_example =
    switch-Updated listed-IsEpoll writing_on empty_poller channel empty-IsSynced

nothing_registered : IsHonest empty_poller channel
unfolding get
nothing_registered h = absurd (cc h)

disable_all-silences_example :
    IsSilent get empty_poller channel (disable_all listed_ctl empty_poller channel)
disable_all-silences_example =
    disable_all-silences listed-IsEpoll empty_poller channel empty-IsSynced nothing_registered

-- A hang-up calls the close callback and nothing else.
hang_up :
    (s : ℕ)
    → handle_event
        (record { read_cb = some (λ n. 1); write_cb = some (λ n. 2); close_cb = some (λ n. 3) })
        (record no_events { epollhup = true; epollin = true })
        s
      ≡ 3
unfolding handle_event
hang_up s = refl
