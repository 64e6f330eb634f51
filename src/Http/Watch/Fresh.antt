-- ===== src/Http/Watch/Fresh.antt =====
-- What a client of `handle_websocket` in src/http.rs shows when no notification waits for it.
use smtp_sink.Prelude.{
  ℕ, zero, suc, ◌-◌, ◌≤◌, ◌≡◌, ◌⊎◌, ◌∙◌, inl, inr, refl, sym, ap, subst, List, [], ◌∷◌, some, arith,
  Bool-cases, ltb,
}
use smtp_sink.Email.{MailRecord}
use smtp_sink.Store.{EmailStorage}
use smtp_sink.Store.Notify.{Change, changed, IsNotifying}
use smtp_sink.Http.Socket.{
  Incoming, ended, failed, close, other, ping, Sent, emails, pong, action_of,
}
use smtp_sink.Http.Watch.{
  pending, error, message, Channel, IsChannel, Phase, opening, subscribing, over, waiting, reading,
  Watcher, shown, deliver, heard, go_on, advance, hears, incoming, Turn, change, tell, go, hear,
  Turns, here, next, connected,
}

-- How many lists the client was sent.
abbrev pub lists : List Sent → ℕ
lists [] = 0
lists (emails es ∷ rest) = suc (lists rest)
lists (pong bytes ∷ rest) = lists rest

module _ {S R : Type 0} {storage : EmailStorage S} {notified : S → ℕ} {channel : Channel R}
    {capacity : ℕ} (law : IsNotifying storage notified) (tokio : IsChannel capacity channel) where
  -- The three things that may come of `recv`.
  recv-cases :
      (r : R) (n : ℕ)
      → tokio.seen r ≤ n
      → ((channel.recv r n ≡ pending) × (tokio.seen r ≡ n))
        ⊎ ((channel.recv r n ≡ error)
            ⊎ ((r' : R) × (channel.recv r n ≡ message r') × (tokio.seen r' ≤ n)))
  recv-cases r n h = elim (Bool-cases (ltb (tokio.seen r) n)) [
    | inr old ↦ let e : tokio.seen r ≡ n = ground arith in inl (tokio.waits r n e, e)
    | inl new ↦ elim (Bool-cases (ltb capacity (n - tokio.seen r))) [
      | inl far ↦ inr (inl (tokio.lags r n (ground arith)))
      | inr near ↦
          let (r', e, k) = tokio.gives r n (ground arith) (ground arith) in
          inr (inr (r', e, ground (arith, k)))
    ]
  ]

  -- The list that was sent last is that of a state behind `k` messages, and is the present one if no
  -- message was sent since.
  abbrev pub Current : ℕ → S → List Sent → Type 0
  Current k s sent =
      (n : ℕ) × (l : List MailRecord) × (k ≤ n)
      × (n ≤ notified s)
      × (shown sent ≡ some l)
      × (notified s ≡ n → storage.get_all s ≡ l)

  -- Where the client is when `k` messages were sent.
  abbrev Follows : ℕ → S → Phase R → List Sent → Type 0
  Follows k s opening sent = lists sent ≡ 0
  Follows k s subscribing sent = lists sent ≡ 1
  Follows k s over sent = Unit
  Follows k s (reading r) sent = tokio.seen r ≤ k
  Follows k s (waiting r) sent =
      (tokio.seen r ≤ k) × ((lists sent ≡ 1) ⊎ Current (tokio.seen r) s sent)

  change-Follows :
      (c : Change) (k m : ℕ) (s : S) (p : Phase R) (sent : List Sent)
      → k ≤ m
      → Follows k s p sent
      → Follows m (changed storage c s) p sent
  change-Follows c k m s opening sent g h = h
  change-Follows c k m s subscribing sent g h = h
  change-Follows c k m s over sent g h = h
  change-Follows c k m s (reading r) sent g h = omega (arith, g, h)
  change-Follows c k m s (waiting r) sent g (h, inl q) = (omega (arith, g, h), inl q)
  change-Follows c k m s (waiting r) sent g (h, inr (n, l, low, high, last, same)) = (
    omega (arith, g, h),
    inr (
      n,
      l,
      low,
      omega (arith, high, law.grows c s),
      last,
      λ e.
          law.tells c s (omega (arith, e, high, law.grows c s))
          ∙ same (omega (arith, e, high, law.grows c s)),
    ),
  )

  tell-Follows :
      (k m : ℕ) (s : S) (p : Phase R) (sent : List Sent)
      → k ≤ m
      → Follows k s p sent
      → Follows m s p sent
  tell-Follows k m s opening sent g h = h
  tell-Follows k m s subscribing sent g h = h
  tell-Follows k m s over sent g h = h
  tell-Follows k m s (reading r) sent g h = omega (arith, g, h)
  tell-Follows k m s (waiting r) sent g (h, q) = (omega (arith, g, h), q)

  advance-Follows :
      (k : ℕ) (s : S) (p : Phase R) (w : Watcher R)
      → k ≤ notified s
      → w.phase ≡ p
      → Follows k s p w.sent
      → let v = go_on storage notified channel p k s w in Follows k s v.phase v.sent
  unfolding action_of
  advance-Follows k s opening w g e h = sent_first w.room
    where
      sent_first :
          (n : ℕ)
          → let v = deliver storage notified channel n (emails (storage.get_all s)) subscribing w in
            Follows k s v.phase v.sent
      sent_first zero = tt
      sent_first (suc n) = ap suc h
  advance-Follows k s subscribing w g e h = (omega (arith, tokio.subscribes k), inl h)
  advance-Follows k s over w g e h = subst (λ p. Follows k s p w.sent) (sym e) tt
  advance-Follows k s (waiting r) w g e (h, q) = elim (recv-cases r k h) [
    | inl (x, same) ↦
        subst (λ y. Follows k s (heard storage notified channel r y) w.sent) (sym x) (h, q)
    | inr (inl x) ↦ subst (λ y. Follows k s (heard storage notified channel r y) w.sent) (sym x) tt
    | inr (inr (r', x, le)) ↦
        subst (λ y. Follows k s (heard storage notified channel r y) w.sent) (sym x) le
  ]
  advance-Follows k s (reading r) w g e h = sent_again w.room
    where
      sent_again :
          (n : ℕ)
          → let v = deliver storage notified channel n (emails (storage.get_all s)) (waiting r) w in
            Follows k s v.phase v.sent
      sent_again zero = tt
      sent_again (suc n) = (
        h,
        inr (notified s, storage.get_all s, omega (arith, g, h), omega arith, refl, λ q. refl),
      )

  -- An answer to the client shows it nothing new.
  hears-Follows :
      (i : Incoming) (k : ℕ) (s : S) (p : Phase R) (w : Watcher R)
      → w.phase ≡ p
      → Follows k s p w.sent
      → let v = hears storage notified channel p i w in Follows k s v.phase v.sent
  unfolding action_of
  hears-Follows i k s opening w e h = subst (λ p. Follows k s p w.sent) (sym e) h
  hears-Follows i k s subscribing w e h = subst (λ p. Follows k s p w.sent) (sym e) h
  hears-Follows i k s over w e h = subst (λ p. Follows k s p w.sent) (sym e) h
  hears-Follows i k s (reading r) w e h = subst (λ p. Follows k s p w.sent) (sym e) h
  hears-Follows ended k s (waiting r) w e h = tt
  hears-Follows failed k s (waiting r) w e h = tt
  hears-Follows close k s (waiting r) w e h = tt
  hears-Follows other k s (waiting r) w e h = h
  hears-Follows (ping bytes) k s (waiting r) w e h = answered w.room
    where
      answered :
          (n : ℕ)
          → let v = deliver storage notified channel n (pong bytes) (waiting r) w in
            Follows k s v.phase v.sent
      answered zero = tt
      answered (suc n) = h

  Turn-Follows :
      {s : S} {m : ℕ} {w : Watcher R} {t : S} {n : ℕ} {v : Watcher R}
      → Turn storage notified channel s m w t n v
      → Follows (notified s - m) s w.phase w.sent
      → Follows (notified t - n) t v.phase v.sent
  unfolding advance incoming
  Turn-Follows (change c {s} {owed} {w}) h =
      change-Follows c (notified s - owed) _ s w.phase w.sent (omega (arith, law.grows c s)) h
  Turn-Follows (tell {s} {owed} {w}) h =
      tell-Follows (notified s - suc owed) (notified s - owed) s w.phase w.sent (omega arith) h
  Turn-Follows (go {s} {owed} {w}) h =
      advance-Follows (notified s - owed) s w.phase w (omega arith) refl h
  Turn-Follows (hear i {s} {owed} {w}) h = hears-Follows i (notified s - owed) s w.phase w refl h

  Turns-Follows :
      {s : S} {m : ℕ} {w : Watcher R} {t : S} {n : ℕ} {v : Watcher R}
      → Turns storage notified channel s m w t n v
      → Follows (notified s - m) s w.phase w.sent
      → Follows (notified t - n) t v.phase v.sent
  Turns-Follows here h = h
  Turns-Follows (next r t) h = Turn-Follows t (Turns-Follows r h)

  -- With a backend that notifies of each change and a broadcast channel that does what its
  -- documentation says: whatever the tasks that change the store and the client do, in whatever order,
  -- once a client was sent more than the first list, and waits with no notification left for it and
  -- none still to be sent, the list that it was sent last is what the store lists.
  pub waiting-shown :
      (s₀ s : S) (owed room : ℕ) (w : Watcher R) (r : R)
      → Turns storage notified channel s₀ owed (connected storage notified channel room) s 0 w
      → w.phase ≡ waiting r
      → channel.recv r (notified s) ≡ pending
      → 2 ≤ lists w.sent
      → shown w.sent ≡ some (storage.get_all s)
  waiting-shown s₀ s owed room w r turns e quiet more = latest (
      subst (λ k. Follows k s (waiting r) w.sent) (omega arith)
        (subst (λ p. Follows (notified s - 0) s p w.sent) e (Turns-Follows turns refl)))
    where
      latest :
          (tokio.seen r ≤ notified s) × ((lists w.sent ≡ 1) ⊎ Current (tokio.seen r) s w.sent)
          → shown w.sent ≡ some (storage.get_all s)
      latest (h, inl one) = absurd (omega (arith, one, more))
      latest (h, inr (n, l, low, high, last, same)) = elim (recv-cases r (notified s) h) [
        | inl (q, all) ↦ last ∙ ap some (sym (same (omega (arith, all, low, high))))
        | inr (inl q) ↦ absurd (cc (q, quiet))
        | inr (inr (r', q, le)) ↦ absurd (cc (q, quiet))
      ]
