-- ===== src/Http/Watch/Behind.antt =====
-- A client of `handle_websocket` in src/http.rs that has notifications to read.
use smtp_sink.Prelude.{
  ℕ, zero, suc, ◌+◌, ◌-◌, ◌≤◌, ◌<◌, ◌≡◌, refl, sym, ap, subst, List, [], ◌∷◌, Option, some, arith,
}
use smtp_sink.Email.{MailRecord}
use smtp_sink.Store.{EmailStorage}
use smtp_sink.Store.Notify.{push, IsNotifying}
use smtp_sink.Http.Socket.{
  Incoming, ended, failed, close, other, ping, Sent, emails, pong, action_of,
}
use smtp_sink.Http.Watch.{
  pending, message, Channel, IsChannel, Phase, opening, subscribing, over, waiting, reading,
  Watcher, shown, deliver, heard, go_on, advance, hears, incoming, Turn, change, tell, go, hear,
  Turns, here, next, connected, told,
}

module _ {S R : Type 0} (storage : EmailStorage S) (notified : S → ℕ) {channel : Channel R}
    {capacity : ℕ} (tokio : IsChannel capacity channel) where
  -- The task goes on alone, with two turns for each notification.
  abbrev pub read_all : ℕ → S → Watcher R → Watcher R
  read_all zero s w = w
  read_all (suc n) s w = read_all n s (
      advance storage notified channel (notified s) s
        (advance storage notified channel (notified s) s w))

  -- It waits, and shows what the store lists.
  abbrev pub IsUpToDate : S → Watcher R → Type 0
  IsUpToDate s w =
      (r : R) × (w.phase ≡ waiting r)
      × (channel.recv r (notified s) ≡ pending)
      × (shown w.sent ≡ some (storage.get_all s))

  -- A notification is read, and answered by the list.
  abbrev behind_one : S → List Sent → ℕ → R → Watcher R
  behind_one s sent room r = record {
    phase = waiting r;
    sent = emails (storage.get_all s) ∷ sent;
    room = room;
  }

  advance_twice :
      (s : S) (sent : List Sent) (room : ℕ) (r r' : R)
      → channel.recv r (notified s) ≡ message r'
      → read_all 1 s (record { phase = waiting r; sent = sent; room = suc room })
        ≡ behind_one s sent room r'
  unfolding advance action_of
  advance_twice s sent room r r' h =
      ap
        (λ x.
          advance storage notified channel (notified s) s
            (record { phase = heard storage notified channel r x; sent = sent; room = suc room }))
        h

  -- With a broadcast channel that does what its documentation says: a client that waits with some
  -- notifications left for it, no more than the channel keeps, and stays to be sent a list for each, is
  -- up to date after two turns of its task for each, if the notification of every change was sent and
  -- nothing changes meanwhile: it waits with no notification left, and was sent last what the store
  -- lists.
  pub read_all-IsUpToDate :
      (n : ℕ) (s : S) (sent : List Sent) (room : ℕ) (r : R)
      → notified s ≡ suc n + tokio.seen r
      → suc n ≤ capacity
      → suc n ≤ room
      → IsUpToDate s (read_all (suc n) s (record { phase = waiting r; sent = sent; room = room }))
  read_all-IsUpToDate n s sent zero r lag near h = absurd (omega (arith, h))
  read_all-IsUpToDate zero s sent (suc room) r lag near h =
      let (r', e, k) = tokio.gives r (notified s) (omega (arith, lag)) (omega (arith, lag, near)) in
      subst (IsUpToDate s) (sym (advance_twice s sent room r r' e))
        (r', refl, tokio.waits r' (notified s) (omega (arith, lag, k)), refl)
  read_all-IsUpToDate (suc n) s sent (suc room) r lag near h =
      let (r', e, k) = tokio.gives r (notified s) (omega (arith, lag)) (omega (arith, lag, near)) in
      subst (λ w. IsUpToDate s (read_all (suc n) s w)) (sym (advance_twice s sent room r r' e))
        (read_all-IsUpToDate n s (emails (storage.get_all s) ∷ sent) room r' (omega (arith, lag, k))
          (omega (arith, near)) (omega (arith, h)))

  -- The notifications that are still owed are sent.
  tell_all :
      {s t : S} {m : ℕ} {w v : Watcher R} (n : ℕ)
      → Turns storage notified channel s m w t n v
      → Turns storage notified channel s m w t 0 v
  tell_all zero h = h
  tell_all (suc n) h = tell_all n (next h tell)

  -- With a broadcast channel that does what its documentation says: an email may be pushed so that a
  -- client which stays to be sent a list waits behind it with no notification left and none still to
  -- be sent, and was sent last what the store listed before.
  pub push_missed :
      (s : S) (e : MailRecord) (room : ℕ)
      → (w : Watcher R) × (r : R) × Turns storage notified channel s 0
          (connected storage notified channel (suc room))
          (storage.push s e)
          0
          w
        × (w.phase ≡ waiting r)
        × (channel.recv r (notified (storage.push s e)) ≡ pending)
        × (shown w.sent ≡ some (storage.get_all s))
  unfolding advance
  push_missed s e room =
      let n = notified (storage.push s e) in
      let k = told storage notified channel (storage.push s e) 0 in
      (
        record {
          phase = waiting (channel.subscribe k);
          sent = emails (storage.get_all s) ∷ [];
          room = room;
        },
        channel.subscribe k,
        next (tell_all _ (next (next here go) (change (push e)))) go,
        refl,
        tokio.waits (channel.subscribe k) n (omega (arith, tokio.subscribes k)),
        refl,
      )

  module _ (law : IsNotifying storage notified) where
    -- Nothing more of the store is shown.
    abbrev IsLost : Option (List MailRecord) → ℕ → Phase R → List Sent → Type 0
    IsLost l k opening sent = ⊥
    IsLost l k subscribing sent = ⊥
    IsLost l k (reading r) sent = ⊥
    IsLost l k (waiting r) sent = (capacity < k - tokio.seen r) × (shown sent ≡ l)
    IsLost l k over sent = shown sent ≡ l

    change-IsLost :
        (l : Option (List MailRecord)) (k m : ℕ) (p : Phase R) (sent : List Sent)
        → k ≤ m
        → IsLost l k p sent
        → IsLost l m p sent
    change-IsLost l k m (waiting r) sent g (h, q) = (omega (arith, g, h), q)
    change-IsLost l k m over sent g h = h
    change-IsLost l k m opening sent g h = h
    change-IsLost l k m subscribing sent g h = h
    change-IsLost l k m (reading r) sent g h = h

    advance-IsLost :
        (l : Option (List MailRecord)) (k : ℕ) (s : S) (p : Phase R) (w : Watcher R)
        → w.phase ≡ p
        → IsLost l k p w.sent
        → let v = go_on storage notified channel p k s w in IsLost l k v.phase v.sent
    advance-IsLost l k s (waiting r) w e (h, q) =
        subst (λ x. IsLost l k (heard storage notified channel r x) w.sent) (sym (tokio.lags r k h))
          q
    advance-IsLost l k s over w e h = subst (λ p. IsLost l k p w.sent) (sym e) h
    advance-IsLost l k s opening w e h = absurd h
    advance-IsLost l k s subscribing w e h = absurd h
    advance-IsLost l k s (reading r) w e h = absurd h

    hears-IsLost :
        (l : Option (List MailRecord)) (i : Incoming) (k : ℕ) (p : Phase R) (w : Watcher R)
        → w.phase ≡ p
        → IsLost l k p w.sent
        → let v = hears storage notified channel p i w in IsLost l k v.phase v.sent
    unfolding action_of
    hears-IsLost l i k over w e h = subst (λ p. IsLost l k p w.sent) (sym e) h
    hears-IsLost l i k opening w e h = absurd h
    hears-IsLost l i k subscribing w e h = absurd h
    hears-IsLost l i k (reading r) w e h = absurd h
    hears-IsLost l ended k (waiting r) w e h = h.1
    hears-IsLost l failed k (waiting r) w e h = h.1
    hears-IsLost l close k (waiting r) w e h = h.1
    hears-IsLost l other k (waiting r) w e h = h
    hears-IsLost l (ping bytes) k (waiting r) w e h = answered w.room
      where
        answered :
            (n : ℕ)
            → let v = deliver storage notified channel n (pong bytes) (waiting r) w in
              IsLost l k v.phase v.sent
        answered zero = h.1
        answered (suc n) = h

    Turn-IsLost :
        (l : Option (List MailRecord)) {s : S} {m : ℕ} {w : Watcher R} {t : S} {n : ℕ}
        {v : Watcher R}
        → Turn storage notified channel s m w t n v
        → IsLost l (notified s - m) w.phase w.sent
        → IsLost l (notified t - n) v.phase v.sent
    unfolding advance incoming
    Turn-IsLost l (change c {s} {owed} {w}) h =
        change-IsLost l (notified s - owed) _ w.phase w.sent (omega (arith, law.grows c s)) h
    Turn-IsLost l (tell {s} {owed} {w}) h =
        change-IsLost l (notified s - suc owed) (notified s - owed) w.phase w.sent (omega arith) h
    Turn-IsLost l (go {s} {owed} {w}) h = advance-IsLost l (notified s - owed) s w.phase w refl h
    Turn-IsLost l (hear i {s} {owed} {w}) h = hears-IsLost l i (notified s - owed) w.phase w refl h

    Turns-IsLost :
        (l : Option (List MailRecord)) {s : S} {m : ℕ} {w : Watcher R} {t : S} {n : ℕ}
        {v : Watcher R}
        → Turns storage notified channel s m w t n v
        → IsLost l (notified s - m) w.phase w.sent
        → IsLost l (notified t - n) v.phase v.sent
    Turns-IsLost l here h = h
    Turns-IsLost l (next r t) h = Turn-IsLost l t (Turns-IsLost l r h)

    shown_lost :
        (l : Option (List MailRecord)) (k : ℕ) (p : Phase R) (sent : List Sent)
        → IsLost l k p sent
        → shown sent ≡ l
    shown_lost l k (waiting r) sent h = h.1
    shown_lost l k over sent h = h
    shown_lost l k opening sent h = absurd h
    shown_lost l k subscribing sent h = absurd h
    shown_lost l k (reading r) sent h = absurd h

    -- With a backend that notifies of each change and a broadcast channel that does what its
    -- documentation says: a client that waits with more notifications left for it than the channel
    -- keeps is never sent another list, whatever the tasks and the client do.
    pub Turns-shown_lost :
        (s t : S) (m n : ℕ) (w v : Watcher R) (r : R)
        → w.phase ≡ waiting r
        → capacity < (notified s - m) - tokio.seen r
        → Turns storage notified channel s m w t n v
        → shown v.sent ≡ shown w.sent
    Turns-shown_lost s t m n w v r e far turns =
        shown_lost (shown w.sent) (notified t - n) v.phase v.sent (
          Turns-IsLost (shown w.sent) turns
            (subst (λ p. IsLost (shown w.sent) (notified s - m) p w.sent) (sym e) (far, refl)))
