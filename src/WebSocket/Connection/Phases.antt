-- ===== src/WebSocket/Connection/Phases.antt =====
-- What a connection waits for, along with how often it has ended and whether it is in the set.
use boost_irc.Base.{
  ℕ, ◌≤◌, ◌≡◌, refl, sym, ap, ◌∙◌, subst, ◌⊎◌, inl, inr, Bool, true, false, List, [], ◌∷◌, ◌++◌,
  arith, if◌then◌else◌,
}
use boost_irc.WebSocket.Connection.Closing.{
  closes, ends, closes-append, ends-append, IsPhase, OnceClosed, Kept,
}
use boost_irc.WebSocket.Connection.{
  Waiting, handshake, first_bytes, nothing, undefined, extended, content, Action, Connection, await,
  next_wait, when, IsReading,
}

-- A connection that has not ended.
abbrev pub IsLive : Connection → Type 0
IsLive c = ends c.actions ≡ 0

pub ended-IsPhase : (w : Waiting) (n : ℕ) → n ≤ 1 → IsPhase (next_wait w nothing) n false
ended-IsPhase handshake n h = (h, refl)
ended-IsPhase first_bytes n h = (h, refl)
ended-IsPhase nothing n h = (h, refl)
ended-IsPhase undefined n h = tt
ended-IsPhase (extended b f) n h = (h, refl)
ended-IsPhase (content b f) n h = (h, refl)

pub reading-IsPhase :
    (w : Waiting) (n : ℕ) (m : Bool) → n ≡ 0 → m ≡ true → IsPhase (next_wait w first_bytes) n m
reading-IsPhase handshake n m h k = (h, k)
reading-IsPhase first_bytes n m h k = (h, k)
reading-IsPhase nothing n m h k = (h, k)
reading-IsPhase undefined n m h k = tt
reading-IsPhase (extended b f) n m h k = (h, k)
reading-IsPhase (content b f) n m h k = (h, k)

-- A wait of reading, for another.
pub phase_live :
    (w : Waiting) (n : ℕ) (m : Bool) → IsReading w → IsPhase w n m → (n ≡ 0) × (m ≡ true)
phase_live first_bytes n m r p = p
phase_live (extended b f) n m r p = p
phase_live (content b f) n m r p = p
phase_live handshake n m r p = absurd r
phase_live nothing n m r p = absurd r
phase_live undefined n m r p = absurd r

pub IsPhase-undefined : (w : Waiting) (n : ℕ) (m : Bool) → w ≡ undefined → IsPhase w n m
IsPhase-undefined w n m e = subst (λ v. IsPhase v n m) (sym e) tt

-- An operation that keeps what counts keeps the invariant.
pub kept-IsPhase :
    (v w : Waiting) (n : ℕ) (m : Bool) → (w ≡ v) ⊎ (w ≡ undefined) → IsPhase v n m → IsPhase w n m
kept-IsPhase v w n m (inl e) p = subst (λ x. IsPhase x n m) (sym e) p
kept-IsPhase v w n m (inr e) p = IsPhase-undefined w n m e

pub Kept-OnceClosed : (c d : Connection) → Kept c d → OnceClosed c → OnceClosed d
Kept-OnceClosed c d k i = record {
  closing = k.closes_kept ∙ i.closing ∙ ap (λ b. if b then 1 else 0) (sym k.closed_kept);
  phase = kept-IsPhase c.wait d.wait (ends d.actions) d.member k.wait_kept (
      subst (λ n. IsPhase c.wait n d.member) (sym k.ends_kept)
        (subst (λ m. IsPhase c.wait (ends c.actions) m) (sym k.member_kept) i.phase));
}

-- The next frame is awaited.
pub await-OnceClosed :
    (c d : Connection)
    → Kept c d
    → IsReading c.wait
    → OnceClosed c
    → OnceClosed (await first_bytes d)
await-OnceClosed c d k r i =
    let (n, m) = phase_live c.wait (ends c.actions) c.member r i.phase in
    record {
      closing = (Kept-OnceClosed c d k i).closing;
      phase =
          reading-IsPhase d.wait (ends d.actions) d.member (k.ends_kept ∙ n) (k.member_kept ∙ m);
    }

-- The connection is taken out of the set, and the endpoint is told.
pub ending-OnceClosed :
    (c d : Connection) (s : List Action)
    → Kept c d
    → closes s ≡ 0
    → ends s ≤ 1
    → IsLive c
    → OnceClosed c
    → OnceClosed (await nothing (record d { member = false; actions = d.actions ++ s }))
ending-OnceClosed c d s k h l live i = record {
  closing = omega (arith, (Kept-OnceClosed c d k i).closing, closes-append d.actions s, h);
  phase =
      ended-IsPhase d.wait (ends (d.actions ++ s))
        (omega (arith, ends-append d.actions s, k.ends_kept, live, l));
}

pub when-ends : (b : Bool) (a : Action) → ends (a ∷ []) ≤ 1 → ends (when b a) ≤ 1
when-ends true a h = h
when-ends false a h = omega arith

pub when-closes : (b : Bool) (a : Action) → closes (a ∷ []) ≡ 0 → closes (when b a) ≡ 0
when-closes true a h = h
when-closes false a h = refl
