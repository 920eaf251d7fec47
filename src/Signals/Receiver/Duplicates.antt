-- ===== src/Signals/Receiver/Duplicates.antt =====
-- Deliveries of one JTI.
use project_starfly_fabrics.Prelude.{
  ℕ, ◌+◌, ◌≤◌, ◌<◌, String, ◌==◌, eq_iff, ◌≡◌, refl, ap, ◌∙◌, subst, ◌≢◌, inl, inr, false, not,
  ◌||◌, Option, none, some, List, [], ◌∷◌, arith, All, is_empty, is_nil, leb, ltb, lt→ltb, nat_beq,
  Bool-cases, Result, ok, err,
}
use project_starfly_fabrics.Dict.{lookup, insert, keep_value, lookup-insert, lookup-keep}
use project_starfly_fabrics.Signals.Event.{SecurityEvent, ReceiveError, duplicate_jti}
use project_starfly_fabrics.Signals.Receiver.Seen.{process-SameSeen}
use project_starfly_fabrics.Signals.Receiver.Types.{ReceiverConfig, Receiver, ReceiveTimes}
use project_starfly_fabrics.Signals.Receiver.{
  jti_cleanup_interval, not_before, mark_jti, check_and_mark_jti, if_ok, process, receive_event,
}

-- Deliveries, one after the other, whatever each of them returns.
unfoldable pub deliver_all :
    ReceiverConfig → List (ReceiveTimes × Option SecurityEvent) → Receiver → Receiver
unfolding receive_event
deliver_all cfg [] rx = rx
deliver_all cfg (call ∷ calls) rx = deliver_all cfg calls (receive_event cfg call.0 call.1 rx).1

-- The JTI is marked at least until that time.
record Marked (jti : String) (until : ℕ) (rx : Receiver) : Type 0 where
  pub expiry : ℕ
  pub seen : lookup jti rx.jti_seen ≡ some expiry
  pub lasts : until ≤ expiry

process-Marked :
    (cfg : ReceiverConfig) (t : ReceiveTimes) (event : SecurityEvent) (jti : String) (until : ℕ)
    (rx : Receiver)
    → Marked jti until rx
    → Marked jti until (process cfg t event rx).1
process-Marked cfg t event jti until rx m = record {
  expiry = m.expiry;
  seen = ap (lookup jti) (process-SameSeen cfg t event rx) ∙ m.seen;
  lasts = m.lasts;
}

kept_mark :
    (now expiry : ℕ) (o : Option ℕ)
    → o ≡ some expiry
    → now ≤ expiry
    → keep_value (λ exp. not (ltb exp now)) o ≡ some expiry
kept_mark now expiry o e h = rw (e, keep_value) (ground arith)

-- A mark in the map before it is pruned.
seen_mark :
    (ttl now : ℕ) (jti j : String) (expiry : ℕ) (rx : Receiver)
    → lookup j (insert jti (now + ttl) rx.jti_seen) ≡ some expiry
    → now ≤ expiry
    → lookup j (mark_jti ttl now jti rx).jti_seen ≡ some expiry
unfolding mark_jti
seen_mark ttl now jti j expiry rx h l =
    elim (Bool-cases (leb jti_cleanup_interval (rx.jti_write_count + 1))) [
      | inl due ↦ rw due (lookup-keep _ j _ ∙ kept_mark now expiry _ h l)
      | inr not_due ↦ rw not_due h
    ]

fresh_seen :
    (ttl now : ℕ) (jti : String) (rx : Receiver)
    → lookup jti (mark_jti ttl now jti rx).jti_seen ≡ some (now + ttl)
fresh_seen ttl now jti rx =
    seen_mark ttl now jti jti (now + ttl) rx
      (lookup-insert jti jti (now + ttl) rx.jti_seen ∙ rw ((eq_iff jti jti).1 refl) refl)
      (omega arith)

fresh-Marked :
    (ttl now : ℕ) (jti : String) (rx : Receiver) → Marked jti (now + ttl) (mark_jti ttl now jti rx)
fresh-Marked ttl now jti rx = record {
  expiry = now + ttl;
  seen = fresh_seen ttl now jti rx;
  lasts = omega arith;
}

over : (now expiry : ℕ) (o : Option ℕ) → o ≡ some expiry → not_before now o ≡ false → expiry ≤ now
over now expiry o e h = not_less now expiry (rw e at h)
  where
    not_less : (a b : ℕ) → ltb a b ≡ false → b ≤ a
    not_less a b h = ground arith

other-Marked :
    (ttl now : ℕ) (jti j : String) (until : ℕ) (rx : Receiver)
    → not_before now (lookup jti rx.jti_seen) ≡ false
    → now ≤ until
    → Marked j until rx
    → Marked j until (mark_jti ttl now jti rx)
other-Marked ttl now jti j until rx fresh l m = elim (Bool-cases (jti == j)) [
  | inl same ↦
      let here = (eq_iff jti j).0 same in
      subst (λ k. Marked k until (mark_jti ttl now jti rx)) here
        (record {
          expiry = now + ttl;
          seen = fresh_seen ttl now jti rx;
          lasts = omega (
            arith,
            m.lasts,
            over now m.expiry _ (ap (λ k. lookup k rx.jti_seen) here ∙ m.seen) fresh,
          );
        })
  | inr other ↦ record {
    expiry = m.expiry;
    seen =
        seen_mark ttl now jti j m.expiry rx
          (lookup-insert jti j (now + ttl) rx.jti_seen ∙ rw other m.seen)
          (omega (arith, l, m.lasts));
    lasts = m.lasts;
  }
]

check-Marked :
    (ttl now : ℕ) (jti j : String) (until : ℕ) (rx : Receiver)
    → now ≤ until
    → Marked j until rx
    → Marked j until (check_and_mark_jti ttl now jti rx).1
unfolding check_and_mark_jti
check-Marked ttl now jti j until rx l m = elim (Bool-cases (nat_beq ttl 0 || is_empty jti)) [
  | inl off ↦ rw off m
  | inr on ↦ elim (Bool-cases (not_before now (lookup jti rx.jti_seen))) [
    | inl seen ↦ rw (on, seen) m
    | inr fresh ↦ rw (on, fresh) (other-Marked ttl now jti j until rx fresh l m)
  ]
]

if_ok-Marked :
    (cfg : ReceiverConfig) (t : ReceiveTimes) (event : SecurityEvent) (jti : String) (until : ℕ)
    (r : Result ReceiveError (Unit {0}) × Receiver)
    → Marked jti until r.1
    → Marked jti until (if_ok (process cfg t event) r).1
if_ok-Marked cfg t event jti until (ok x, rx) m = process-Marked cfg t event jti until rx m
if_ok-Marked cfg t event jti until (err e, rx) m = m

receive-Marked :
    (cfg : ReceiverConfig) (t : ReceiveTimes) (event : Option SecurityEvent) (jti : String)
    (until : ℕ) (rx : Receiver)
    → t.checked_at ≤ until
    → Marked jti until rx
    → Marked jti until (receive_event cfg t event rx).1
unfolding receive_event
receive-Marked cfg t none jti until rx l m = m
receive-Marked cfg t (some event) jti until rx l m = elim (Bool-cases (is_nil event.events)) [
  | inl none_in ↦ rw none_in m
  | inr some_in ↦ rw some_in (
      if_ok-Marked cfg t event jti until _
        (check-Marked cfg.jti_ttl t.checked_at event.jti jti until rx l m))
]

deliver_all-Marked :
    (cfg : ReceiverConfig) (calls : List (ReceiveTimes × Option SecurityEvent)) (jti : String)
    (until : ℕ) (rx : Receiver)
    → All (λ (c : ReceiveTimes × Option SecurityEvent). c.0.checked_at ≤ until) calls
    → Marked jti until rx
    → Marked jti until (deliver_all cfg calls rx)
unfolding deliver_all
deliver_all-Marked cfg [] jti until rx h m = m
deliver_all-Marked cfg (call ∷ calls) jti until rx h m =
    deliver_all-Marked cfg calls jti until _ h.1
      (receive-Marked cfg call.0 call.1 jti until rx h.0 m)

-- Duplicates are looked for, and the event is one of those that are held to it.
pub record Deduplicated (cfg : ReceiverConfig) (event : SecurityEvent) : Type 0 where
  pub enabled : nat_beq cfg.jti_ttl 0 ≡ false
  pub named : is_empty event.jti ≡ false
  pub filled : is_nil event.events ≡ false

first-Marked :
    (cfg : ReceiverConfig) (t : ReceiveTimes) (event : SecurityEvent) (rx : Receiver)
    → Deduplicated cfg event
    → (receive_event cfg t (some event) rx).0 ≢ err duplicate_jti
    → Marked event.jti (t.checked_at + cfg.jti_ttl) (receive_event cfg t (some event) rx).1
unfolding receive_event check_and_mark_jti
first-Marked cfg t event rx d h =
    elim (Bool-cases (not_before t.checked_at (lookup event.jti rx.jti_seen))) [
      | inl seen ↦ absurd (h (rw (d.filled, d.enabled, d.named, seen) refl))
      | inr fresh ↦
          rw (d.filled, d.enabled, d.named, fresh)
            (process-Marked cfg t event event.jti _ _
              (fresh-Marked cfg.jti_ttl t.checked_at event.jti rx))
    ]

refused_of_Marked :
    (cfg : ReceiverConfig) (t : ReceiveTimes) (event : SecurityEvent) (until : ℕ) (rx : Receiver)
    → Deduplicated cfg event
    → t.checked_at < until
    → Marked event.jti until rx
    → (receive_event cfg t (some event) rx).0 ≡ err duplicate_jti
unfolding receive_event check_and_mark_jti
refused_of_Marked cfg t event until rx d l m =
    rw
      (
        d.filled,
        d.enabled,
        d.named,
        m.seen,
        not_before,
        lt→ltb t.checked_at m.expiry (omega (arith, l, m.lasts)),
      )
      refl

-- Once an event with a JTI was not refused as a duplicate, whether it was then accepted, denied by
-- the policy, or failed in its evaluation, every delivery with this JTI is refused as a duplicate
-- until the TTL is over, whatever is delivered in between.
pub duplicate_refused :
    (cfg : ReceiverConfig) (t later : ReceiveTimes) (event again : SecurityEvent)
    (calls : List (ReceiveTimes × Option SecurityEvent)) (rx : Receiver)
    → Deduplicated cfg event
    → Deduplicated cfg again
    → event.jti ≡ again.jti
    → (receive_event cfg t (some event) rx).0 ≢ err duplicate_jti
    → All
        (λ (c : ReceiveTimes × Option SecurityEvent). c.0.checked_at ≤ t.checked_at + cfg.jti_ttl)
        calls
    → later.checked_at < t.checked_at + cfg.jti_ttl
    → (receive_event cfg later
        (some again)
        (deliver_all cfg calls (receive_event cfg t (some event) rx).1)).0
      ≡ err duplicate_jti
duplicate_refused cfg t later event again calls rx d d' same fresh between l =
    let marked =
      deliver_all-Marked cfg calls event.jti _ _ between (first-Marked cfg t event rx d fresh) in
    refused_of_Marked cfg later again _ _ d' l (
      subst
        (λ j.
          Marked j (t.checked_at + cfg.jti_ttl)
            (deliver_all cfg calls (receive_event cfg t (some event) rx).1))
        same marked)
