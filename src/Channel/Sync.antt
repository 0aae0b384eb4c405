-- ===== src/Channel/Sync.antt =====
-- channels_ and the kernel's interest list name the same channels, whatever epoll_ctl answers.
use mini_net.Prelude.{
  ℕ, ◌≡◌, ◌≢◌, ◌⊎◌, inl, inr, refl, sym, ap, ◌∙◌, true, false, Option, none, some, if◌then◌else◌,
  ◌==◌, ==_iff, get, insert, erase, nat_eq, get-insert, get-erase, Bool-cases,
}
use mini_net.Channel.{
  no_events, Channel, Op, add, modify, delete, Answer, done, exists, failed, Interest, interest_of,
  Ctl, Poller, after_retry, after_add, update_at, update_channel, remove_at, remove_channel,
}

-- What epoll_ctl(2) says: success enters, replaces or deletes the one entry, a failure changes
-- nothing, and a descriptor that is registered can be deleted.
pub record IsEpoll {K : Type 0} (ctl : Ctl K) (interest : K → ℕ → Option Interest) : Type 0 where
  pub enters :
      (k : K) (fd j : ℕ) (i : Interest)
      → (ctl k add fd i).0 ≡ done
      → interest (ctl k add fd i).1 j ≡ (if fd == j then some i else interest k j)
  pub replaces :
      (k : K) (fd j : ℕ) (i : Interest)
      → (ctl k modify fd i).0 ≡ done
      → interest (ctl k modify fd i).1 j ≡ (if fd == j then some i else interest k j)
  pub deletes :
      (k : K) (fd j : ℕ) (i : Interest)
      → (ctl k delete fd i).0 ≡ done
      → interest (ctl k delete fd i).1 j ≡ (if fd == j then none else interest k j)
  pub keeps :
      (k : K) (op : Op) (fd j : ℕ) (i : Interest)
      → (ctl k op fd i).0 ≢ done
      → interest (ctl k op fd i).1 j ≡ interest k j
  pub can_delete :
      (k : K) (fd : ℕ) (i old : Interest) → interest k fd ≡ some old → (ctl k delete fd i).0 ≡ done

abbrev pub pointer : Option Interest → Option ℕ
pointer none = none
pointer (some (e, a)) = some a

module _ {K : Type 0} (interest : K → ℕ → Option Interest) where
  -- The kernel hands back, for each descriptor, the pointer that channels_ has for it.
  abbrev pub IsSynced : Poller K → Type 0
  IsSynced p = (j : ℕ) → pointer (interest p.kernel j) ≡ get p.channels j

  -- The kernel waits for what the channel wants, and hands back the channel.
  abbrev pub IsRegistered : Poller K × Channel → Type 0
  IsRegistered (p, ch) = (interest p.kernel ch.fd ≡ some (interest_of ch)) × (ch.in_poller ≡ true)

module _ {K : Type 0} (ctl : Ctl K) (interest : K → ℕ → Option Interest) where
  -- The kernel was asked to enter or modify the channel and answered with a failure, with its list
  -- still as it was.
  pub record IsRefused (p : Poller K) (ch : Channel) (after : K) : Type 0 where
    pub before : K
    pub op : Op
    pub asked : (op ≡ add) ⊎ (op ≡ modify)
    pub same_before : (j : ℕ) → interest before j ≡ interest p.kernel j
    pub refuses : (ctl before op ch.fd (interest_of ch)).0 ≢ done
    pub left : (ctl before op ch.fd (interest_of ch)).1 ≡ after

  abbrev pub IsUnchanged : Poller K → Poller K × Channel → Type 0
  IsUnchanged p (q, ch) =
      (q.channels ≡ p.channels)
      × ((j : ℕ) → interest q.kernel j ≡ interest p.kernel j)
      × IsRefused p ch q.kernel

  abbrev pub Updated : Poller K → Poller K × Channel → Type 0
  Updated p r = IsSynced interest r.0 × (IsRegistered interest r ⊎ IsUnchanged p r)

  registered-Updated :
      (k : K) (p : Poller K) (ch : Channel)
      → IsSynced interest p
      → ((j : ℕ)
          → interest k j ≡ (if ch.fd == j then some (interest_of ch) else interest p.kernel j))
      → Updated p (
        record { channels = insert p.channels ch.fd ch.address; kernel = k },
        record ch { in_poller = true },
      )
  registered-Updated k p ch s e = (
    λ j.
        ap pointer (e j)
        ∙ by_test j (Bool-cases (ch.fd == j))
        ∙ sym (get-insert p.channels ch.fd j ch.address),
    inl (e ch.fd ∙ rw ((==_iff ch.fd ch.fd).1 refl), refl),
  )
    where
      by_test :
          (j : ℕ)
          → ((ch.fd == j) ≡ true) ⊎ ((ch.fd == j) ≡ false)
          → pointer (if ch.fd == j then some (interest_of ch) else interest p.kernel j)
            ≡ (if ch.fd == j then some ch.address else get p.channels j)
      by_test j (inl h) = rw h
      by_test j (inr h) = rw h (s j)

  refused-Updated :
      (k : K) (p : Poller K) (ch : Channel)
      → IsSynced interest p
      → ((j : ℕ) → interest k j ≡ interest p.kernel j)
      → IsRefused p ch k
      → Updated p (record p { kernel = k }, ch)
  refused-Updated k p ch s e why = (λ j. ap pointer (e j) ∙ s j, inr (refl, e, why))

module _ {K : Type 0} {ctl : Ctl K} {interest : K → ℕ → Option Interest}
    (law : IsEpoll ctl interest) where
  kept :
      (k k' : K) (op : Op) (fd : ℕ) (i : Interest) (a : Answer)
      → a ≢ done
      → ctl k op fd i ≡ (a, k')
      → (j : ℕ) → interest k' j ≡ interest k j
  kept k k' op fd i a h e j =
      ap (λ t. interest t.1 j) (sym e) ∙ law.keeps k op fd j i (λ d. h (sym (ap (λ t. t.0) e) ∙ d))

  refusal :
      (k k' : K) (p : Poller K) (ch : Channel) (op : Op) (a : Answer)
      → a ≢ done
      → (op ≡ add) ⊎ (op ≡ modify)
      → ((j : ℕ) → interest k j ≡ interest p.kernel j)
      → ctl k op ch.fd (interest_of ch) ≡ (a, k')
      → IsRefused ctl interest p ch k'
  refusal k k' p ch op a h asked same e = record {
    before = k;
    op = op;
    asked = asked;
    same_before = same;
    refuses = λ d. h (sym (ap (λ t. t.0) e) ∙ d);
    left = ap (λ t. t.1) e;
  }

  retry-Updated :
      (k : K) (p : Poller K) (ch : Channel) (r : Answer × K)
      → IsSynced interest p
      → ((j : ℕ) → interest k j ≡ interest p.kernel j)
      → ctl k modify ch.fd (interest_of ch) ≡ r
      → Updated ctl interest p (after_retry ctl p ch r)
  retry-Updated k p ch (done, k') s same e = registered-Updated ctl interest k' p ch s (λ j.
      ap (λ t. interest t.1 j) (sym e)
      ∙ law.replaces k ch.fd j (interest_of ch) (ap (λ t. t.0) e)
      ∙ ap (λ t. if ch.fd == j then some (interest_of ch) else t) (same j))
  retry-Updated k p ch (exists, k') s same e =
      refused-Updated ctl interest k' p ch s
        (λ j. kept k k' modify ch.fd _ exists (λ h. cc) e j ∙ same j)
        (refusal k k' p ch modify exists (λ h. cc) (inr refl) same e)
  retry-Updated k p ch (failed, k') s same e =
      refused-Updated ctl interest k' p ch s
        (λ j. kept k k' modify ch.fd _ failed (λ h. cc) e j ∙ same j)
        (refusal k k' p ch modify failed (λ h. cc) (inr refl) same e)

  add-Updated :
      (p : Poller K) (ch : Channel) (r : Answer × K)
      → IsSynced interest p
      → ctl p.kernel add ch.fd (interest_of ch) ≡ r
      → Updated ctl interest p (after_add ctl p ch r)
  add-Updated p ch (done, k') s e = registered-Updated ctl interest k' p ch s (λ j.
      ap (λ t. interest t.1 j) (sym e)
      ∙ law.enters p.kernel ch.fd j (interest_of ch) (ap (λ t. t.0) e))
  add-Updated p ch (exists, k') s e =
      retry-Updated k' p ch _ s (kept p.kernel k' add ch.fd _ exists (λ h. cc) e) refl
  add-Updated p ch (failed, k') s e =
      refused-Updated ctl interest k' p ch s (kept p.kernel k' add ch.fd _ failed (λ h. cc) e)
        (refusal p.kernel k' p ch add failed (λ h. cc) (inl refl) (λ j. refl) e)

  pub update_channel-Updated :
      (p : Poller K) (ch : Channel)
      → IsSynced interest p
      → Updated ctl interest p (update_channel ctl p ch)
  unfolding update_channel
  update_channel-Updated p ch s = by_entry (get p.channels ch.fd)
    where
      by_entry : (o : Option ℕ) → Updated ctl interest p (update_at ctl o p ch)
      by_entry none = unfold update_at in add-Updated p ch _ s refl
      by_entry (some old) = unfold update_at in retry-Updated p.kernel p ch _ s (λ j. refl) refl

  -- The descriptor is gone on both sides, and the others are as they were.
  abbrev pub Removed : Poller K → ℕ → Poller K × Channel → Type 0
  Removed p fd (q, ch) =
      IsSynced interest q
      × (get q.channels fd ≡ none)
      × ((j : ℕ) → interest q.kernel j ≡ (if fd == j then none else interest p.kernel j))

  no_pointer : (i : Option Interest) → pointer i ≡ none → i ≡ none
  no_pointer none h = refl
  no_pointer (some (e, a)) h = absurd (cc)

  some-pointer : (i : Option Interest) (a : ℕ) → pointer i ≡ some a → (e : Interest) × (i ≡ some e)
  some-pointer none a h = absurd (cc)
  some-pointer (some e) a h = (e, refl)

  pub remove_channel-Removed :
      (p : Poller K) (ch : Channel)
      → IsSynced interest p
      → Removed p ch.fd (remove_channel ctl p ch)
  unfolding remove_channel
  remove_channel-Removed p ch s = by_entry (get p.channels ch.fd) refl
    where
      deleted :
          (j : ℕ)
          → interest (ctl p.kernel delete ch.fd (no_events, 0)).1 j
            ≡ (if ch.fd == j then none else interest p.kernel j)
          → pointer (interest (ctl p.kernel delete ch.fd (no_events, 0)).1 j)
            ≡ get (erase p.channels ch.fd) j
      deleted j e = elim (Bool-cases (ch.fd == j)) [
        | inl h ↦ ap pointer e ∙ rw (h, get-erase p.channels ch.fd j, h)
        | inr h ↦ ap pointer e ∙ rw (h, get-erase p.channels ch.fd j, h) (s j)
      ]

      by_entry : (o : Option ℕ) → get p.channels ch.fd ≡ o → Removed p ch.fd (remove_at ctl o p ch)
      by_entry none e =
          let gone = no_pointer (interest p.kernel ch.fd) (s ch.fd ∙ e) in
          unfold remove_at in
          (
            s,
            e,
            λ j. elim (Bool-cases (ch.fd == j)) [
              | inl h ↦ ap (interest p.kernel) (sym ((==_iff ch.fd j).0 h)) ∙ gone ∙ rw h
              | inr h ↦ rw h
            ],
          )
      by_entry (some a) e =
          let (i, there) = some-pointer (interest p.kernel ch.fd) a (s ch.fd ∙ e) in
          let all = λ (j : ℕ).
            law.deletes p.kernel ch.fd j (no_events, 0)
              (law.can_delete p.kernel ch.fd (no_events, 0) i there) in
          unfold remove_at in
          (
            λ j. deleted j (all j),
            get-erase p.channels ch.fd ch.fd ∙ rw ((==_iff ch.fd ch.fd).1 refl),
            all,
          )
