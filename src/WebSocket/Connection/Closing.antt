-- ===== src/WebSocket/Connection/Closing.antt =====
-- How often a connection is closed.
use boost_irc.Base.{
  ℕ, suc, ◌+◌, ◌/◌, ◌%◌, ◌==◌, ltb, ◌≤◌, ◌≡◌, refl, sym, ap, ◌∙◌, subst, ◌⊎◌, inl, inr, Bool, true,
  false, List, [], ◌∷◌, ◌++◌, Bytes, arith, length, if◌then◌else◌,
}
use boost_irc.WebSocket.Frame.{frame_header}
use boost_irc.WebSocket.Connection.{
  Waiting, handshake, nothing, undefined, Timer, absent, waiting, stopped, Action, post,
  start_timer, cancel_timer, onopen, onerror, onmessage, onclose, Connection, Endpoint, act,
  timer_idle_init, timer_idle_reset, timer_idle_cancel, send, send_close, renew, timer_call,
}

abbrev is_close : Bytes → Bool
is_close [] = false
is_close (b ∷ header) = b == 136

-- How many close frames are posted, and how often the endpoint is told of the end.
abbrev pub closes : List Action → ℕ
closes [] = 0
closes (post header message ∷ s) = if is_close header then suc (closes s) else closes s
closes (_ ∷ s) = closes s

abbrev pub ends : List Action → ℕ
ends [] = 0
ends (onerror ∷ s) = suc (ends s)
ends (onclose status reason ∷ s) = suc (ends s)
ends (_ ∷ s) = ends s

pub closes-append : (s t : List Action) → closes (s ++ t) ≡ closes s + closes t
closes-append [] t = omega arith
closes-append (post h m ∷ s) t = ground (arith, closes-append s t)
closes-append (start_timer ∷ s) t = closes-append s t
closes-append (cancel_timer ∷ s) t = closes-append s t
closes-append (onopen ∷ s) t = closes-append s t
closes-append (onerror ∷ s) t = closes-append s t
closes-append (onmessage f m ∷ s) t = closes-append s t
closes-append (onclose f m ∷ s) t = closes-append s t

pub ends-append : (s t : List Action) → ends (s ++ t) ≡ ends s + ends t
ends-append [] t = omega arith
ends-append (post h m ∷ s) t = ends-append s t
ends-append (start_timer ∷ s) t = ends-append s t
ends-append (cancel_timer ∷ s) t = ends-append s t
ends-append (onopen ∷ s) t = ends-append s t
ends-append (onerror ∷ s) t = omega (arith, ends-append s t)
ends-append (onmessage f m ∷ s) t = ends-append s t
ends-append (onclose f m ∷ s) t = omega (arith, ends-append s t)

-- What the connection waits for tells whether it is in the endpoint's set and has ended.
abbrev pub IsPhase : Waiting → ℕ → Bool → Type 0
IsPhase handshake n member = (n ≡ 0) × (member ≡ false)
IsPhase nothing n member = (n ≤ 1) × (member ≡ false)
IsPhase undefined n member = Unit
IsPhase _ n member = (n ≡ 0) × (member ≡ true)

pub record OnceClosed (c : Connection) : Type 0 where
  pub closing : closes c.actions ≡ (if c.closed then 1 else 0)
  pub phase : IsPhase c.wait (ends c.actions) c.member

-- An operation that posts no close frame and does not end the connection.
pub record Kept (c d : Connection) : Type 0 where
  pub closes_kept : closes d.actions ≡ closes c.actions
  pub ends_kept : ends d.actions ≡ ends c.actions
  pub closed_kept : d.closed ≡ c.closed
  pub member_kept : d.member ≡ c.member
  pub wait_kept : (d.wait ≡ c.wait) ⊎ (d.wait ≡ undefined)

pub Kept-refl : (c : Connection) → Kept c c
Kept-refl c = record {
  closes_kept = refl;
  ends_kept = refl;
  closed_kept = refl;
  member_kept = refl;
  wait_kept = inl refl;
}

Kept-undefined : (c : Connection) → Kept c (record c { wait = undefined })
Kept-undefined c = record {
  closes_kept = refl;
  ends_kept = refl;
  closed_kept = refl;
  member_kept = refl;
  wait_kept = inr refl;
}

pub act-Kept : (c : Connection) (s : List Action) → closes s ≡ 0 → ends s ≡ 0 → Kept c (act s c)
act-Kept c s h k = record {
  closes_kept = omega (arith, closes-append c.actions s);
  ends_kept = omega (arith, ends-append c.actions s);
  closed_kept = refl;
  member_kept = refl;
  wait_kept = inl refl;
}

pub timer-Kept :
    (c : Connection) (t : Timer) (s : List Action)
    → closes s ≡ 0
    → ends s ≡ 0
    → Kept c (act s (record c { timer_idle = t }))
timer-Kept c t s h k = record {
  closes_kept = omega (arith, closes-append c.actions s);
  ends_kept = omega (arith, ends-append c.actions s);
  closed_kept = refl;
  member_kept = refl;
  wait_kept = inl refl;
}

trans_wait :
    (u v w : Waiting)
    → (v ≡ u) ⊎ (v ≡ undefined)
    → (w ≡ v) ⊎ (w ≡ undefined)
    → (w ≡ u) ⊎ (w ≡ undefined)
trans_wait u v w h k = ground (arith, h, k)

pub Kept-trans : (c d f : Connection) → Kept c d → Kept d f → Kept c f
Kept-trans c d f h k = record {
  closes_kept = k.closes_kept ∙ h.closes_kept;
  ends_kept = k.ends_kept ∙ h.ends_kept;
  closed_kept = k.closed_kept ∙ h.closed_kept;
  member_kept = k.member_kept ∙ h.member_kept;
  wait_kept = trans_wait c.wait d.wait f.wait h.wait_kept k.wait_kept;
}

Kept-if : (b : Bool) (c d f : Connection) → Kept c d → Kept c f → Kept c (if b then d else f)
Kept-if true c d f h k = h
Kept-if false c d f h k = k

module _ (e : Endpoint) where
  renew-Kept : (t : Timer) (c : Connection) → Kept c (renew t c)
  renew-Kept absent c = Kept-undefined c
  renew-Kept waiting c = act-Kept c (start_timer ∷ []) refl refl
  renew-Kept stopped c = Kept-refl c

  pub timer_idle_reset-Kept : (c : Connection) → Kept c (timer_idle_reset e c)
  unfolding timer_idle_reset
  timer_idle_reset-Kept c =
      Kept-if (ltb 0 e.timeout_idle) c _ c (renew-Kept c.timer_idle c) (Kept-refl c)

  cancel_timer-Kept :
      (t : Timer) (c : Connection)
      → Kept c (timer_call t (λ d. act (cancel_timer ∷ []) (record d { timer_idle = stopped })) c)
  cancel_timer-Kept absent c = Kept-undefined c
  cancel_timer-Kept waiting c = timer-Kept c stopped (cancel_timer ∷ []) refl refl
  cancel_timer-Kept stopped c = timer-Kept c stopped (cancel_timer ∷ []) refl refl

  pub timer_idle_cancel-Kept : (c : Connection) → Kept c (timer_idle_cancel e c)
  unfolding timer_idle_cancel
  timer_idle_cancel-Kept c =
      Kept-if (ltb 0 e.timeout_idle) c _ c (cancel_timer-Kept c.timer_idle c) (Kept-refl c)

  pub timer_idle_init-Kept : (c : Connection) → Kept c (timer_idle_init e c)
  unfolding timer_idle_init
  timer_idle_init-Kept c =
      Kept-if (ltb 0 e.timeout_idle) c (act (start_timer ∷ []) (record c { timer_idle = waiting }))
        c (timer-Kept c waiting (start_timer ∷ []) refl refl) (Kept-refl c)

  pub send-Kept :
      (message : Bytes) (fin : ℕ) (c : Connection)
      → (fin == 136) ≡ false
      → Kept c (send e message fin c)
  unfolding send frame_header
  send-Kept message fin c h =
      Kept-trans c _ _
        (Kept-if (fin == 136) c c (timer_idle_reset e c) (Kept-refl c) (timer_idle_reset-Kept c))
        (act-Kept _ (post (frame_header fin (length message)) message ∷ []) (ground (arith, h))
          refl)

  send-closes :
      (message : Bytes) (c : Connection)
      → closes (send e message 136 c).actions ≡ suc (closes c.actions)
  unfolding send frame_header
  send-closes message c =
      omega (arith, closes-append c.actions (post (frame_header 136 (length message)) message ∷ []))

  send-ends :
      (message : Bytes) (c : Connection) → ends (send e message 136 c).actions ≡ ends c.actions
  unfolding send frame_header
  send-ends message c =
      omega (arith, ends-append c.actions (post (frame_header 136 (length message)) message ∷ []))

  -- The test of `closed`, and what is sent behind it.
  close_once :
      (b : Bool) (message : Bytes) (c : Connection)
      → c.closed ≡ b
      → OnceClosed c
      → OnceClosed (if b then c else send e message 136 (record c { closed = true }))
  unfolding send
  close_once true message c h i = i
  close_once false message c h i = record {
    closing = omega (
      arith,
      send-closes message (record c { closed = true }),
      i.closing ∙ ap (λ b. if b then 1 else 0) h,
    );
    phase =
        subst (λ n. IsPhase c.wait n c.member)
          (sym (send-ends message (record c { closed = true }))) i.phase;
  }

  pub send_close-OnceClosed :
      (status : ℕ) (reason : Bytes) (c : Connection)
      → OnceClosed c
      → OnceClosed (send_close e status reason c)
  unfolding send_close
  send_close-OnceClosed status reason c i =
      close_once c.closed ((status / 256) % 256 ∷ status % 256 ∷ reason) c refl i

  close_once_keeps :
      (b : Bool) (message : Bytes) (c : Connection)
      → ((if b then c else send e message 136 (record c { closed = true })).wait ≡ c.wait)
  unfolding send
  close_once_keeps true message c = refl
  close_once_keeps false message c = refl

  pub send_close-wait :
      (status : ℕ) (reason : Bytes) (c : Connection) → (send_close e status reason c).wait ≡ c.wait
  unfolding send_close
  send_close-wait status reason c =
      close_once_keeps c.closed ((status / 256) % 256 ∷ status % 256 ∷ reason) c
