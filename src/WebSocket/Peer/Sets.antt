-- ===== src/WebSocket/Peer/Sets.antt =====
-- Which connections the sets of the endpoints have.
use boost_irc.Base.{
  ℕ, zero, suc, ◌+◌, ◌<◌, ◌==◌, leb, ltb, ◌&&◌, ◌||◌, ◌≡◌, ◌≢◌, refl, sym, ap, ◌∙◌, subst, ◌↔◌,
  Bool, true, false, Bool-cases, Option, none, some, List, [], ◌∷◌, ◌++◌, All, length, get_elem?,
  arith,
}
use boost_irc.Serving as Serving
use boost_irc.Serving.{Config, stopped, running}
use boost_irc.Serving.Timer.{waiting}
use boost_irc.Serving.Every.{PeersAre}
use boost_irc.WebSocket.Handshake.{Handshaker}
use boost_irc.WebSocket.Connection.{
  Waiting, handshake, first_bytes, nothing, undefined, extended, content, Connection, Endpoint,
  IsReading,
}
use boost_irc.WebSocket.Connection.Closing.{IsPhase, OnceClosed, ends}
use boost_irc.WebSocket.Peer.{
  Stage, reading_handshake, refused, serving, Peer, Reach, in_set, connections, get_connections,
}
use boost_irc.WebSocket.Peer.Served.{IsServed, IsServedStage, IsOut, IsOutStage, Reach-IsServed}

abbrev pub has : ℕ → List ℕ → Bool
has k [] = false
has k (x ∷ xs) = x == k || has k xs

has-append : (k : ℕ) (xs ys : List ℕ) → has k (xs ++ ys) ≡ (has k xs || has k ys)
has-append k [] ys = refl
has-append k (x ∷ xs) ys = ground (arith, has-append k xs ys)

-- The peer at a place, if it is there, is in the set.
abbrev in_set_at : ℕ → Option Peer → Bool
in_set_at i none = false
in_set_at i (some p) = in_set i p.stage

has_before : (i k b : ℕ) (peers : List Peer) → k < b → has k (connections i b peers) ≡ false
unfolding connections
has_before i k b [] l = refl
has_before i k b (p ∷ peers) l =
    ground (arith, has_before i k (suc b) peers, Bool-cases (in_set i p.stage))

has-connections :
    (i k b j : ℕ) (peers : List Peer)
    → k ≡ b + j
    → has k (connections i b peers) ≡ in_set_at i (get_elem? peers j)
unfolding connections
has-connections i k b j [] e = refl
has-connections i k b zero (p ∷ peers) e =
    ground (arith, has_before i k (suc b) peers, Bool-cases (in_set i p.stage))
has-connections i k b (suc j) (p ∷ peers) e =
    ground (arith, has-connections i k (suc b) j peers, Bool-cases (in_set i p.stage))

-- A connection that is at its endpoint is in the sets if it is in that of its endpoint.
has-get_connections :
    (k i b n : ℕ) (c : Connection) (peers : List Peer)
    → in_set_at i (get_elem? peers k) ≡ c.member
    → ((j : ℕ) → j ≢ i → in_set_at j (get_elem? peers k) ≡ false)
    → has k (get_connections b n peers) ≡ (leb b i && ltb i (b + n) && c.member)
unfolding get_connections
has-get_connections k i b zero c peers own other = ground arith
has-get_connections k i b (suc n) c peers own other = ground (
  arith,
  has-append k (connections b 0 peers) (get_connections (suc b) n peers),
  has-connections b k 0 k peers,
  has-get_connections k i (suc b) n c peers own other,
  other b,
  Bool-cases (b == i),
)

member-IsReading :
    (w : Waiting) (n : ℕ) (member : Bool)
    → w ≢ undefined
    → IsPhase w n member
    → (member ≡ true) ↔ IsReading w
member-IsReading handshake n member u (a, b) = (λ m. absurd cc, λ r. absurd r)
member-IsReading nothing n member u (a, b) = (λ m. absurd cc, λ r. absurd r)
member-IsReading undefined n member u i = absurd (u refl)
member-IsReading first_bytes n member u (a, b) = (λ m. tt, λ r. b)
member-IsReading (extended x y) n member u (a, b) = (λ m. tt, λ r. b)
member-IsReading (content x y) n member u (a, b) = (λ m. tt, λ r. b)

All-get_elem? :
    {P : Type 0} (I : P → Type 0) (ps : List P) (k : ℕ) (p : P)
    → get_elem? ps k ≡ some p
    → All I ps
    → I p
All-get_elem? I [] k p e h = absurd cc
All-get_elem? I (q ∷ ps) zero p e (a, h) =
    subst (λ o. elim o [ none ↦ Unit {0} | some x ↦ I x ]) e a
All-get_elem? I (q ∷ ps) (suc k) p e (a, h) = All-get_elem? I ps k p e h

at_own : (i : ℕ) (c : Connection) (s : Stage) → s ≡ serving i c → in_set i s ≡ c.member
at_own i c s e = rw e (ground arith)

at_other : (i j : ℕ) (c : Connection) (s : Stage) → s ≡ serving i c → j ≢ i → in_set j s ≡ false
at_other i j c s e n = rw e (ground arith)

out_of_set : (i : ℕ) (s : Stage) → IsOutStage s → in_set i s ≡ false
out_of_set i reading_handshake o = refl
out_of_set i refused o = refl
out_of_set i (serving j c) o = ground (arith, Bool-cases (i == j))

connections-nil : (i k : ℕ) (peers : List Peer) → All IsOut peers → connections i k peers ≡ []
unfolding connections
connections-nil i k [] h = refl
connections-nil i k (p ∷ peers) (a, h) =
    rw (out_of_set i p.stage a) (connections-nil i (suc k) peers h)

get_connections-nil :
    (i n : ℕ) (peers : List Peer) → All IsOut peers → get_connections i n peers ≡ []
unfolding get_connections
get_connections-nil i zero peers h = refl
get_connections-nil i (suc n) peers h =
    rw (connections-nil i 0 peers h) (get_connections-nil (suc i) n peers h)

module _ (h : Handshaker) (timeout_request : ℕ) (endpoints : List Endpoint) (config : Config)
    (s : Serving.Server Peer) (r : Reach h timeout_request endpoints config s) where
  -- In every state that a running server reaches: of the connections that are at an endpoint, and
  -- whose behaviour is defined, get_connections() has those whose messages are read, and no other.
  pub get_connections-IsReading :
      (k i : ℕ) (p : Peer) (c : Connection)
      → s.state ≡ running
      → get_elem? s.peers k ≡ some p
      → p.stage ≡ serving i c
      → i < length endpoints
      → c.wait ≢ undefined
      → (has k (get_connections 0 (length endpoints) s.peers) ≡ true) ↔ IsReading c.wait
  get_connections-IsReading k i p c e at st l u =
      let served =
        subst (λ v. PeersAre IsServed IsOut v s.peers) e
          (Reach-IsServed h timeout_request endpoints config s r).peers_are in
      let once : (p.timer ≢ waiting) × OnceClosed c =
        subst (λ v. IsServedStage v p.timer) st (All-get_elem? IsServed s.peers k p at served) in
      let found : has k (get_connections 0 (length endpoints) s.peers) ≡ c.member =
        has-get_connections k i 0 (length endpoints) c s.peers
          (ap (in_set_at i) at ∙ at_own i c p.stage st)
          (λ j n. ap (in_set_at j) at ∙ at_other i j c p.stage st n)
        ∙ ground (arith, l) in
      subst (λ b. (b ≡ true) ↔ IsReading c.wait) (sym found)
        (member-IsReading c.wait (ends c.actions) c.member u once.1.phase)

  -- Once the server was stopped, there is none.
  pub get_connections_stopped :
      s.state ≡ stopped → get_connections 0 (length endpoints) s.peers ≡ []
  get_connections_stopped e = get_connections-nil 0 (length endpoints) s.peers (
      subst (λ v. PeersAre IsServed IsOut v s.peers) e
        (Reach-IsServed h timeout_request endpoints config s r).peers_are)
