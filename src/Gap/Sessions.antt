-- ===== src/Gap/Sessions.antt =====
-- main/main.c: what a run does to the session of one connection, event by event.
use air_shifter_rough.Common.{
  ℕ, ◌≡◌, ◌≢◌, ◌⊎◌, inl, inr, ap, sym, Bool, true, some, arith, ==_no, ne_or_eq,
}
use mathlib.Core.Path.{subst}
use air_shifter_rough.Platform.{Platform}
use air_shifter_rough.Security.Slots.{Slot}
use air_shifter_rough.Security.Invariant.{IsValid}
use air_shifter_rough.Security.Before.{HasSession, IsNew, made, ended, responded}
use air_shifter_rough.Security.{sec_handle_auth_response, sec_on_connect, sec_clear_conn}
use air_shifter_rough.Gatt.{World, Status, Op}
use air_shifter_rough.Gatt.Guard.{IsAccepted}
use air_shifter_rough.Gatt.Proving.{Proving, idle, answered}
use air_shifter_rough.Gap.{
  GapEvent, connect, disconnect, Device, Reply, bleprph_gap_event, bleprph_advertise,
}

-- The event leaves the connection's session alone: it neither makes the connection nor ends it.
abbrev pub Spares : ℕ → GapEvent → Type 0
Spares h (connect status k known) = (status ≢ 0) ⊎ (k ≢ h)
Spares h (disconnect k) = k ≢ h
Spares h _ = Unit {0}

-- The event makes the connection.
abbrev pub Makes : ℕ → GapEvent → Type 0
Makes h (connect status k known) = (status ≡ 0) × (k ≡ h)
Makes h _ = ⊥

module _ (P : Slot → Type 0) (h : ℕ) where
  -- The session after an event was there before it, or the event made it.
  pub gap-HasSession :
      (us : ℕ) (random : ℕ → ℕ) (adv : Bool) (e : GapEvent) (d d' : Device) (r : Reply)
      → bleprph_gap_event us random adv e d ≡ some (r, d')
      → IsValid d.world.sec
      → h ≢ 0
      → HasSession P h d'.world.sec
      → (Spares h e × HasSession P h d.world.sec) ⊎ (Makes h e × (x : Slot) × P x × IsNew us x)
  unfolding bleprph_gap_event bleprph_advertise
  gap-HasSession us random adv (connect status k known) d d' r q v pos x =
      elim (ne_or_eq status 0) [
        | inl down ↦
            let no = ==_no status 0 down in
            let same : d.world.sec ≡ d'.world.sec = ground arith in
            inl (inl down, subst (HasSession P h) (sym same) x)
        | inr up ↦
            let same : sec_on_connect us random k d.world.sec ≡ d'.world.sec = ground arith in
            elim (made P h us random k d.world.sec v pos (subst (HasSession P h) (sym same) x)) [
              | inl (other, y) ↦ inl (inr other, y)
              | inr (mine, y, a, new) ↦ inr ((up, mine), y, a, new)
            ]
      ]
  gap-HasSession us random adv (disconnect k) d d' r q v pos x =
      let same : sec_clear_conn k d.world.sec ≡ d'.world.sec = ground arith in
      inl (ended P h k d.world.sec v pos (subst (HasSession P h) (sym same) x))
  gap-HasSession us random adv _ d d' r q v pos x =
      let same : d.world.sec ≡ d'.world.sec = ground arith in
      inl (tt, subst (HasSession P h) (sym same) x)

  -- The session after an access was there before it, but for the mark of an answer of the
  -- connection.
  pub access-HasSession :
      (p : Platform) (us k attr : ℕ) (op : Op) (code : Status) (w w' : World)
      → Proving p us k attr op code w w'
      → HasSession P h w'.sec
      → ((k ≡ h)
          × IsAccepted attr op code w
          × HasSession (λ e. P (record e { authenticated = true })) h w.sec)
        ⊎ HasSession P h w.sec
  access-HasSession p us k attr op code w w' (idle same) x = inr (subst (HasSession P h) same x)
  access-HasSession p us k attr op code w w' (answered mac good r) x =
      let after : HasSession P h (sec_handle_auth_response p us k (some mac) w.sec).1 =
        subst (HasSession P h) (sym (ap (λ z. z.1) r)) x in
      elim (responded P h p us k (some mac) w.sec after) [
        | inl (mine, yes', y) ↦ inl (mine, good, y)
        | inr y ↦ inr y
      ]
