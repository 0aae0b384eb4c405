-- ===== src/Channel/Operations.antt =====
-- What switching a channel's events on and off does to the kernel's list.
use mini_net.Prelude.{
  ℕ, ◌≡◌, ◌≢◌, inl, inr, refl, sym, ap, ◌∙◌, subst, Bool, true, false, Option, none, some,
  if◌then◌else◌, get, nat_eq, Bool-cases, ◌==◌, ==_iff,
}
use mini_net.Channel.{
  Events, no_events, Channel, add, modify, Answer, done, exists, failed, Interest, interest_of, Ctl,
  Poller, after_retry, after_add, update_at, update_channel, remove_at, remove_channel,
  enable_reading, enable_writing, disable_writing, disable_reading, disable_all,
}
use mini_net.Channel.Sync.{
  IsEpoll, pointer, IsSynced, Updated, update_channel-Updated, remove_channel-Removed,
}

pub data Switch : Type 0 where
  reading_on reading_off writing_on writing_off : Switch

module _ {K : Type 0} (ctl : Ctl K) where
  abbrev pub switch : Switch → Poller K → Channel → Poller K × Channel
  switch reading_on p ch = enable_reading ctl p ch
  switch reading_off p ch = disable_reading ctl p ch
  switch writing_on p ch = enable_writing ctl p ch
  switch writing_off p ch = disable_writing ctl p ch

-- The mask that the method asks for.
abbrev pub wanted : Switch → Events → Events
wanted reading_on e = record e { epollin = true; epollrdhup = true; epollet = true }
wanted reading_off e = record e { epollin = false; epollrdhup = false }
wanted writing_on e = record e { epollout = true }
wanted writing_off e = record e { epollout = false }

abbrev pub wants_writing : Switch → Bool → Bool
wants_writing reading_on w = w
wants_writing reading_off w = w
wants_writing writing_on w = true
wants_writing writing_off w = false

-- The poller sets in_poller and nothing else.
pub record SameChannel (ch ch' : Channel) : Type 0 where
  pub events : ch'.events ≡ ch.events
  pub writing : ch'.writing ≡ ch.writing
  pub fd : ch'.fd ≡ ch.fd
  pub address : ch'.address ≡ ch.address

SameChannel-refl : (ch : Channel) → SameChannel ch ch
SameChannel-refl ch = record { events = refl; writing = refl; fd = refl; address = refl }

SameChannel-in : (ch : Channel) (b : Bool) → SameChannel ch (record ch { in_poller = b })
SameChannel-in ch b = record { events = refl; writing = refl; fd = refl; address = refl }

module _ {K : Type 0} (ctl : Ctl K) where
  retry-SameChannel :
      (p : Poller K) (ch : Channel) (r : Answer × K) → SameChannel ch (after_retry ctl p ch r).1
  retry-SameChannel p ch (done, k) = SameChannel-in ch true
  retry-SameChannel p ch (exists, k) = SameChannel-refl ch
  retry-SameChannel p ch (failed, k) = SameChannel-refl ch

  add-SameChannel :
      (p : Poller K) (ch : Channel) (r : Answer × K) → SameChannel ch (after_add ctl p ch r).1
  add-SameChannel p ch (done, k) = SameChannel-in ch true
  add-SameChannel p ch (exists, k) = retry-SameChannel p ch _
  add-SameChannel p ch (failed, k) = SameChannel-refl ch

  pub update_channel-SameChannel :
      (p : Poller K) (ch : Channel) → SameChannel ch (update_channel ctl p ch).1
  unfolding update_channel
  update_channel-SameChannel p ch = by_entry (get p.channels ch.fd)
    where
      by_entry : (o : Option ℕ) → SameChannel ch (update_at ctl o p ch).1
      by_entry none =
          unfold update_at in add-SameChannel p ch (ctl p.kernel add ch.fd (interest_of ch))
      by_entry (some a) =
          unfold update_at in retry-SameChannel p ch (ctl p.kernel modify ch.fd (interest_of ch))

module _ {K : Type 0} where
  -- A channel that is in the table says so.
  abbrev pub IsHonest : Poller K → Channel → Type 0
  IsHonest p ch = get p.channels ch.fd ≡ some ch.address → ch.in_poller ≡ true

module _ {K : Type 0} (interest : K → ℕ → Option Interest) where
  -- The channel's pointer is not in the kernel's list, which has all other descriptors as before.
  abbrev pub IsSilent : Poller K → Channel → Poller K × Channel → Type 0
  IsSilent p ch r =
      IsSynced interest r.0
      × (pointer (interest r.0.kernel ch.fd) ≢ some ch.address)
      × ((j : ℕ) → j ≢ ch.fd → interest r.0.kernel j ≡ interest p.kernel j)
      × (r.1.events ≡ no_events)

module _ {K : Type 0} {ctl : Ctl K} {interest : K → ℕ → Option Interest}
    (law : IsEpoll ctl interest) where
  -- On a poller whose table agrees with the kernel's list, enabling or disabling reading or writing
  -- gives the channel the mask asked for and keeps the two in agreement. Either the kernel then waits
  -- for exactly that mask and hands back this channel, or the last call of epoll_ctl, to enter or to
  -- modify the channel, failed and nothing has changed in the table or the kernel's list.
  pub switch-Updated :
      (s : Switch) (p : Poller K) (ch : Channel)
      → IsSynced interest p
      → let (q, ch') = switch ctl s p ch in
        (ch'.events ≡ wanted s ch.events)
        × (ch'.writing ≡ wants_writing s ch.writing)
        × Updated ctl interest p (q, ch')
  unfolding enable_reading disable_reading enable_writing disable_writing
  switch-Updated reading_on p ch v =
      let same =
        update_channel-SameChannel ctl p (record ch { events = wanted reading_on ch.events }) in
      (same.events, same.writing, update_channel-Updated law p _ v)
  switch-Updated reading_off p ch v =
      let same =
        update_channel-SameChannel ctl p (record ch { events = wanted reading_off ch.events }) in
      (same.events, same.writing, update_channel-Updated law p _ v)
  switch-Updated writing_on p ch v =
      let same =
        update_channel-SameChannel ctl p
          (record ch { events = wanted writing_on ch.events; writing = true }) in
      (same.events, same.writing, update_channel-Updated law p _ v)
  switch-Updated writing_off p ch v =
      let same =
        update_channel-SameChannel ctl p
          (record ch { events = wanted writing_off ch.events; writing = false }) in
      (same.events, same.writing, update_channel-Updated law p _ v)

  apart : (fd j : ℕ) → j ≢ fd → (fd == j) ≡ false
  apart fd j h = elim (Bool-cases (fd == j)) [
    | inl e ↦ absurd (h (sym ((==_iff fd j).0 e)))
    | inr e ↦ e
  ]

  remove_channel-events :
      (p : Poller K) (ch : Channel) → (remove_channel ctl p ch).1.events ≡ ch.events
  unfolding remove_channel
  remove_channel-events p ch = by_entry (get p.channels ch.fd)
    where
      by_entry : (o : Option ℕ) → (remove_at ctl o p ch).1.events ≡ ch.events
      by_entry none = unfold remove_at in refl
      by_entry (some old) = unfold remove_at in refl

  disable_inside :
      (p : Poller K) (ch : Channel)
      → ch.in_poller ≡ true
      → disable_all ctl p ch ≡ remove_channel ctl p (record ch { events = no_events })
  unfolding disable_all
  disable_inside p ch h =
      ap
        (λ (b : Bool).
          if b
          then remove_channel ctl p (record ch { events = no_events })
          else (p, record ch { events = no_events }))
        h

  disable_outside :
      (p : Poller K) (ch : Channel)
      → ch.in_poller ≡ false
      → disable_all ctl p ch ≡ (p, record ch { events = no_events })
  unfolding disable_all
  disable_outside p ch h =
      ap
        (λ (b : Bool).
          if b
          then remove_channel ctl p (record ch { events = no_events })
          else (p, record ch { events = no_events }))
        h

  -- After disableAll on a poller whose table agrees with the kernel's list, epoll does not hand the
  -- channel back any more, the kernel's list has every other descriptor as it was, the channel asks
  -- for nothing, and the table still agrees with the list; for a channel that knows when it is in the
  -- table.
  pub disable_all-silences :
      (p : Poller K) (ch : Channel)
      → IsSynced interest p
      → IsHonest p ch
      → IsSilent interest p ch (disable_all ctl p ch)
  disable_all-silences p ch v honest = elim (Bool-cases ch.in_poller) [
    | inl inside ↦
        let (synced, gone, rest) =
          remove_channel-Removed law p (record ch { events = no_events }) v in
        subst (IsSilent interest p ch) (sym (disable_inside p ch inside)) (
          synced,
          λ e. cc (sym (synced ch.fd) ∙ e, gone),
          λ j other. rest j ∙ rw (apart ch.fd j other),
          remove_channel-events p (record ch { events = no_events }),
        )
    | inr outside ↦
        subst (IsSilent interest p ch) (sym (disable_outside p ch outside))
          (v, λ e. cc (honest (sym (v ch.fd) ∙ e), outside), λ j other. refl, refl)
  ]
