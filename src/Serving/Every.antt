-- ===== src/Serving/Every.antt =====
-- What holds of each peer holds of all peers of a server, in whatever order their handlers run.
use boost_irc.Base.{◌≡◌, refl, sym, subst, Option, none, some, List, [], ◌∷◌, ◌++◌, map, All, arith}
use boost_irc.Serving.{
  Config, Server, Running, running, stopped, terminated, IsResult, start, accept_ends, stop,
  peer_ends, Step, Reach, accept_fails, accepts_peer, peer_steps, stops, here, next,
}

module _ {P : Type 0} (I J : P → Type 0) where
  -- `I` while the server runs, and `J` of the peers that stop() has cleared.
  abbrev pub PeersAre : Running → List P → Type 0
  PeersAre running peers = All I peers
  PeersAre stopped peers = All J peers
  PeersAre terminated peers = All I peers

  -- One async_accept waits, and each peer is as it should be.
  pub record EachIs (s : Server P) : Type 0 where
    pub one_accept : s.accepts ≡ 1
    pub peers_are : PeersAre s.state s.peers

  All-join : (Q : P → Type 0) (ps qs : List P) → All Q ps → All Q qs → All Q (ps ++ qs)
  All-join Q [] qs h k = k
  All-join Q (p ∷ ps) qs (a, h) k = (a, All-join Q ps qs h k)

  All-cut : (Q : P → Type 0) (ps qs : List P) → All Q (ps ++ qs) → All Q ps × All Q qs
  All-cut Q [] qs h = (tt, h)
  All-cut Q (p ∷ ps) qs (a, h) = let (l, r) = All-cut Q ps qs h in ((a, l), r)

  All-map :
      (clear : P → P) (ps : List P)
      → ((p : P) → I p → J (clear p))
      → All I ps
      → All J (map clear ps)
  All-map clear [] k h = tt
  All-map clear (p ∷ ps) k (a, h) = (k p a, All-map clear ps k h)

  while_running : (s : Server P) → s.state ≡ running → EachIs s → All I s.peers
  while_running s e i = subst (λ w. PeersAre w s.peers) e i.peers_are

  accept_ends-EachIs :
      (p : Option P) (s : Server P)
      → IsResult I p
      → s.state ≡ running
      → EachIs s
      → EachIs (accept_ends (some p) s)
  unfolding accept_ends
  accept_ends-EachIs none s h e i = record {
    one_accept = omega (arith, i.one_accept);
    peers_are = while_running s e i;
  }
  accept_ends-EachIs (some p) s h e i = record {
    one_accept = omega (arith, i.one_accept);
    peers_are =
        subst (λ w. PeersAre w (s.peers ++ (p ∷ []))) (sym e)
          (All-join I s.peers (p ∷ []) (while_running s e i) (h, tt));
  }

  accept_fails-EachIs : (s : Server P) → EachIs s → EachIs (accept_ends none s)
  unfolding accept_ends
  accept_fails-EachIs s i = record {
    one_accept = omega (arith, i.one_accept);
    peers_are = i.peers_are;
  }

  peer_ends-EachIs :
      (before : List P) (p : P) (r : Option P) (behind : List P) (s : Server P)
      → s.peers ≡ before ++ (p ∷ behind)
      → s.state ≡ running
      → (I p → IsResult I r)
      → EachIs s
      → EachIs (peer_ends before r behind s)
  peer_ends-EachIs before p none behind s q e k i = record {
    one_accept = i.one_accept;
    peers_are = while_running s e i;
  }
  peer_ends-EachIs before p (some d) behind s q e k i =
      let (l, r) = All-cut I before (p ∷ behind) (subst (All I) q (while_running s e i)) in
      record {
        one_accept = i.one_accept;
        peers_are =
            subst (λ w. PeersAre w (before ++ (d ∷ behind))) (sym e)
              (All-join I before (d ∷ behind) l (k r.0, r.1));
      }

  stop-EachIs :
      (clear : P → P) (s : Server P)
      → ((p : P) → I p → J (clear p))
      → s.state ≡ running
      → EachIs s
      → EachIs (stop clear s)
  unfolding stop
  stop-EachIs clear s k e i = record {
    one_accept = i.one_accept;
    peers_are = All-map clear s.peers k (while_running s e i);
  }

  module _ (Accepted : Option P → Type 0) (PeerStep : P → Option P → Type 0) (clear : P → P)
      (accepted : (p : Option P) → Accepted p → IsResult I p)
      (stepped : (p : P) (r : Option P) → PeerStep p r → I p → IsResult I r)
      (cleared : (p : P) → I p → J (clear p)) where
    Step-EachIs : (s t : Server P) → Step Accepted PeerStep clear s t → EachIs s → EachIs t
    Step-EachIs _ _ (accept_fails s e l) i = accept_fails-EachIs s i
    Step-EachIs _ _ (accepts_peer p s a e l) i = accept_ends-EachIs p s (accepted p a) e i
    Step-EachIs _ _ (peer_steps before p r behind s q e st) i =
        peer_ends-EachIs before p r behind s q e (stepped p r st) i
    Step-EachIs _ _ (stops s e) i = stop-EachIs clear s cleared e i

    pub Reach-EachIs :
        (config : Config) (s : Server P) → Reach Accepted PeerStep clear config s → EachIs s
    unfolding start
    Reach-EachIs config _ here = record { one_accept = refl; peers_are = tt }
    Reach-EachIs config _ (next {s = s} {t = t} r st) = Step-EachIs s t st (Reach-EachIs config s r)
