-- ===== src/WebSocket/Queue/Draining.antt =====
-- How the queue is emptied, while no write fails, once no more is sent.
use boost_irc.Base.{
  ℕ, zero, suc, ◌*◌, ◌-◌, ◌≤◌, ◌≡◌, refl, sym, ap, subst, ◌∙◌, false, List, [], ◌∷◌, ◌++◌, length,
  append-nil, arith,
}
use boost_irc.WebSocket.Queue.{
  SendData, Writing, idle, posted, header, message, Queue, begin_write, header_ends, message_ends,
  after_header, after_message, next_write, Reach, begins, header_written, message_written,
}
use boost_irc.WebSocket.Queue.Order.{InOrder, IsBusy, Reach-InOrder, frames, calls, started}

-- What the strand waits for ends, a write without an error.
abbrev completed : Writing → Queue → Queue
completed idle q = q
completed posted q = begin_write q
completed header q = header_ends false q
completed message q = message_ends false q

abbrev pub after : ℕ → Queue → Queue
after zero q = q
after (suc n) q = after n (completed q.writing q)

-- How many more operations there are.
abbrev rank : Writing → List SendData → ℕ
rank idle ds = 0
rank posted ds = 3 * length ds
rank header ds = 3 * length ds - 1
rank message ds = 3 * length ds - 2

-- Everything that was sent is on the socket, and its callbacks were called without an error.
pub record Drained (sent : List SendData) (q : Queue) : Type 0 where
  pub queue_is : q.send_queue ≡ []
  pub writing_is : q.writing ≡ idle
  pub written_is : q.written ≡ frames sent
  pub called_is : q.called ≡ calls sent

completed-Reach :
    {sent : List SendData} {q : Queue} (w : Writing)
    → q.writing ≡ w
    → Reach sent q
    → Reach sent (completed w q)
completed-Reach idle e r = r
completed-Reach posted e r = begins r e
completed-Reach header e r = header_written r e
completed-Reach message e r = message_written r e

rank-next_write : (n : ℕ) (ds : List SendData) → 3 * length ds ≤ n → rank (next_write ds) ds ≤ n
rank-next_write n [] l = omega arith
rank-next_write n (d ∷ ds) l = l

rank-after_header :
    (n : ℕ) (q : Queue) (ds : List SendData)
    → q.send_queue ≡ ds
    → q.writing ≡ header
    → rank header ds ≤ suc n
    → rank (after_header false ds q).writing (after_header false ds q).send_queue ≤ n
rank-after_header n q [] e w l = rw (w, e) (omega arith)
rank-after_header n q (d ∷ ds) e w l = rw e (omega (arith, l))

rank-after_message :
    (n : ℕ) (q : Queue) (ds : List SendData)
    → q.send_queue ≡ ds
    → q.writing ≡ message
    → rank message ds ≤ suc n
    → rank (after_message false ds q).writing (after_message false ds q).send_queue ≤ n
rank-after_message n q [] e w l = rw (w, e) (omega arith)
rank-after_message n q (d ∷ ds) e w l = rank-next_write n ds (omega (arith, l))

-- Each operation that ends is one less.
rank-completed :
    (n : ℕ) (q : Queue) (w : Writing)
    → q.writing ≡ w
    → rank w q.send_queue ≤ suc n
    → rank (completed w q).writing (completed w q).send_queue ≤ n
unfolding begin_write header_ends message_ends
rank-completed n q idle e l = rw e (omega arith)
rank-completed n q posted e l = omega (arith, l)
rank-completed n q header e l = rank-after_header n q q.send_queue refl e l
rank-completed n q message e l = rank-after_message n q q.send_queue refl e l

after-Reach : {sent : List SendData} (n : ℕ) (q : Queue) → Reach sent q → Reach sent (after n q)
after-Reach zero q r = r
after-Reach (suc n) q r = after-Reach n (completed q.writing q) (completed-Reach q.writing refl r)

rank-after :
    (n : ℕ) (q : Queue)
    → rank q.writing q.send_queue ≤ n
    → rank (after n q).writing (after n q).send_queue ≤ 0
rank-after zero q l = l
rank-after (suc n) q l = rank-after n (completed q.writing q) (rank-completed n q q.writing refl l)

rank_bound : (w : Writing) (ds : List SendData) → rank w ds ≤ 3 * length ds
rank_bound idle ds = omega arith
rank_bound posted ds = omega arith
rank_bound header ds = omega arith
rank_bound message ds = omega arith

-- Without an operation that is left, the strand waits for nothing.
rank_ended : (w : Writing) (ds : List SendData) → IsBusy w ds → rank w ds ≤ 0 → w ≡ idle
rank_ended idle ds b l = refl
rank_ended posted [] b l = absurd (b refl)
rank_ended header [] b l = absurd (b refl)
rank_ended message [] b l = absurd (b refl)
rank_ended posted (d ∷ ds) b l = absurd (omega (arith, l))
rank_ended header (d ∷ ds) b l = absurd (omega (arith, l))
rank_ended message (d ∷ ds) b l = absurd (omega (arith, l))

InOrder-Drained :
    (sent : List SendData) (q : Queue) → InOrder sent q → q.writing ≡ idle → Drained sent q
InOrder-Drained sent q i w =
    let none_left : q.send_queue ≡ [] = subst (λ v. IsBusy v q.send_queue) w i.busy in
    let all_done : sent ≡ i.done = i.split ∙ ap (i.done ++◌) none_left ∙ append-nil i.done in
    record {
      queue_is = none_left;
      writing_is = w;
      written_is =
          i.written_is
          ∙ ap (λ v. frames i.done ++ started v q.send_queue) w
          ∙ append-nil (frames i.done)
          ∙ ap frames (sym all_done);
      called_is = i.called_is ∙ ap calls (sym all_done);
    }

-- From every state that the queue reaches while no write fails: once as many operations have ended
-- as three for each message in the queue, without an error and without a further message, the
-- queue is empty, the strand waits for nothing, and all frames that were sent are on the socket,
-- in their order, with their callbacks called in that order, without an error.
pub Reach-Drained :
    (sent : List SendData) (q : Queue)
    → Reach sent q
    → Drained sent (after (3 * length q.send_queue) q)
Reach-Drained sent q r =
    let n = 3 * length q.send_queue in
    let i = Reach-InOrder sent (after n q) (after-Reach n q r) in
    InOrder-Drained sent (after n q) i (
      rank_ended (after n q).writing (after n q).send_queue i.busy
        (rank-after n q (rank_bound q.writing q.send_queue)))
