-- ===== src/WebSocket/Queue/Failing.antt =====
-- The queue where writes may fail.
use boost_irc.Base.{
  ℕ, ◌≡◌, refl, sym, ap, subst, ◌∙◌, Bool, true, false, none, some, Option-cases, List, [], ◌∷◌,
  ◌++◌, map, append_assoc, append-nil, arith,
}
use mathlib.Core.List.{Sublist, nil-sublist, sublist-append_left}
use mathlib.Core.List.Sublist
use boost_irc.WebSocket.Queue.{
  SendData, Writing, idle, posted, header, message, Queue, no_data, call, enqueue, begin_write,
  header_ends, message_ends, after_header, after_message, next_write,
}
use boost_irc.WebSocket.Queue.Order.{IsBusy, enqueued, enqueued-IsBusy, next_write-IsBusy}

-- The states that the queue reaches, with what was sent to it; the flag is an error code.
pub data AnyReach : List SendData → Queue → Type 0 where
  empty : AnyReach [] no_data
  sends :
      {ds : List SendData} {q : Queue} (d : SendData)
      → AnyReach ds q
      → AnyReach (ds ++ (d ∷ [])) (enqueue d q)
  begins :
      {ds : List SendData} {q : Queue}
      → AnyReach ds q
      → q.writing ≡ posted
      → AnyReach ds (begin_write q)
  header_written :
      {ds : List SendData} {q : Queue} (ec : Bool)
      → AnyReach ds q
      → q.writing ≡ header
      → AnyReach ds (header_ends ec q)
  message_written :
      {ds : List SendData} {q : Queue} (ec : Bool)
      → AnyReach ds q
      → q.writing ≡ message
      → AnyReach ds (message_ends ec q)

abbrev pub numbers : List (ℕ × Bool) → List ℕ
numbers called = map (λ c. c.0) called

-- The callbacks of some messages.
abbrev pub of_data : SendData → List ℕ
of_data d = elim d.callback [ none ↦ [] | some i ↦ i ∷ [] ]

abbrev pub callbacks : List SendData → List ℕ
callbacks [] = []
callbacks (d ∷ ds) = of_data d ++ callbacks ds

-- The rest of what was sent is in the queue, in its order, and the strand waits for a part of it as
-- long as there is any; callbacks were called of messages that left the queue, each at most once
-- and in their order.
pub record Accounted (sent : List SendData) (q : Queue) : Type 0 where
  pub gone : List SendData
  pub split : sent ≡ gone ++ q.send_queue
  pub once : Sublist (numbers q.called) (callbacks gone)
  pub busy : IsBusy q.writing q.send_queue

callbacks-append : (ds es : List SendData) → callbacks (ds ++ es) ≡ callbacks ds ++ callbacks es
callbacks-append [] es = refl
callbacks-append (d ∷ ds) es =
    ap (of_data d ++◌) (callbacks-append ds es)
    ∙ sym (append_assoc (of_data d) (callbacks ds) (callbacks es))

numbers-append : (cs ds : List (ℕ × Bool)) → numbers (cs ++ ds) ≡ numbers cs ++ numbers ds
numbers-append [] ds = refl
numbers-append (c ∷ cs) ds = ap (c.0 ∷◌) (numbers-append cs ds)

numbers-call : (d : SendData) (ec : Bool) → numbers (call d ec) ≡ of_data d
numbers-call d ec = ground (arith, Option-cases d.callback)

module _ {sent : List SendData} {q : Queue} (a : Accounted sent q) where
  enqueue-Accounted : (d : SendData) → Accounted (sent ++ (d ∷ [])) (enqueue d q)
  unfolding enqueue enqueued
  enqueue-Accounted d = record {
    gone = a.gone;
    split = ap (◌++ (d ∷ [])) a.split ∙ append_assoc a.gone q.send_queue (d ∷ []);
    once = a.once;
    busy = enqueued-IsBusy q.writing q.send_queue d a.busy;
  }

  begin_write-Accounted : q.writing ≡ posted → Accounted sent (begin_write q)
  unfolding begin_write
  begin_write-Accounted p = record {
    gone = a.gone;
    split = a.split;
    once = a.once;
    busy = subst (λ w. IsBusy w q.send_queue) p a.busy;
  }

  -- The first of the queue leaves it with its callback called, and all or none of the others.
  leave :
      (d : SendData) (ds left : List SendData) (ec : Bool) (w : Writing) (r : Queue)
      → q.send_queue ≡ d ∷ ds
      → r.send_queue ≡ left
      → r.writing ≡ w
      → r.called ≡ q.called ++ call d ec
      → (dropped : List SendData) → ds ≡ dropped ++ left
      → IsBusy w left
      → Accounted sent r
  leave d ds left ec w r e l v c dropped s b = record {
    gone = a.gone ++ (d ∷ dropped);
    split =
        a.split
        ∙ ap (a.gone ++◌) (e ∙ ap (d ∷◌) s)
        ∙ sym (append_assoc a.gone (d ∷ dropped) left)
        ∙ ap ((a.gone ++ (d ∷ dropped)) ++◌) (sym l);
    once =
        rw
          (
            c,
            numbers-append q.called (call d ec),
            numbers-call d ec,
            callbacks-append a.gone (d ∷ dropped),
          )
          (Sublist.append a.once (sublist-append_left (of_data d) (callbacks dropped)));
    busy = rw (v, l) b;
  }

  after_header-Accounted :
      (ec : Bool) (ds : List SendData)
      → q.send_queue ≡ ds
      → q.writing ≡ header
      → Accounted sent (after_header ec ds q)
  after_header-Accounted ec [] e p = a
  after_header-Accounted true (d ∷ ds) e p =
      leave d ds [] true idle (after_header true (d ∷ ds) q) e refl refl refl ds
        (sym (append-nil ds)) refl
  after_header-Accounted false (d ∷ ds) e p = record {
    gone = a.gone;
    split = a.split;
    once = a.once;
    busy = subst (λ w. IsBusy w q.send_queue) p a.busy;
  }

  after_message-Accounted :
      (ec : Bool) (ds : List SendData) → q.send_queue ≡ ds → Accounted sent (after_message ec ds q)
  after_message-Accounted ec [] e = a
  after_message-Accounted true (d ∷ ds) e =
      leave d ds [] true idle (after_message true (d ∷ ds) q) e refl refl refl ds
        (sym (append-nil ds)) refl
  after_message-Accounted false (d ∷ ds) e =
      leave d ds ds false (next_write ds) (after_message false (d ∷ ds) q) e refl refl refl [] refl
        (next_write-IsBusy ds)

-- In every state that the queue reaches, also where writes fail: what is in it is the rest of what
-- was sent, in its order; the callbacks that were called are those of messages that have left it,
-- each at most once, in their order; and while it is not empty the strand waits for a write of it
-- or for its start, so that a failed write does not stop the messages that are sent after it.
pub AnyReach-Accounted : (sent : List SendData) (q : Queue) → AnyReach sent q → Accounted sent q
unfolding header_ends message_ends
AnyReach-Accounted _ _ empty = record {
  gone = [];
  split = refl;
  once = nil-sublist [];
  busy = refl;
}
AnyReach-Accounted _ _ (sends d r) = enqueue-Accounted (AnyReach-Accounted _ _ r) d
AnyReach-Accounted _ _ (begins r p) = begin_write-Accounted (AnyReach-Accounted _ _ r) p
AnyReach-Accounted _ _ (header_written {q = q} ec r p) =
    after_header-Accounted (AnyReach-Accounted _ _ r) ec q.send_queue refl p
AnyReach-Accounted _ _ (message_written {q = q} ec r p) =
    after_message-Accounted (AnyReach-Accounted _ _ r) ec q.send_queue refl
