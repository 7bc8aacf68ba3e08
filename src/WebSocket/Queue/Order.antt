-- ===== src/WebSocket/Queue/Order.antt =====
-- What is on the socket while no write fails.
use boost_irc.Base.{
  ℕ, ◌==◌, ◌≡◌, ◌≢◌, refl, sym, ap, subst, if◌then◌else◌, ◌∙◌, Bool, false, List, [], ◌∷◌, ◌++◌,
  Bytes, length, append_assoc, append-nil, arith, length-append,
}
use boost_irc.WebSocket.Queue.{
  SendData, Writing, idle, posted, header, message, Queue, call, enqueue, begin_write, header_ends,
  message_ends, after_header, after_message, next_write, Reach, empty, sends, begins,
  header_written, message_written,
}

-- The frames of what is sent, and the calls behind it.
abbrev pub frames : List SendData → Bytes
frames [] = []
frames (d ∷ ds) = (d.header_stream ++ d.message_stream) ++ frames ds

abbrev pub calls : List SendData → List (ℕ × Bool)
calls [] = []
calls (d ∷ ds) = call d false ++ calls ds

frames-append : (ds es : List SendData) → frames (ds ++ es) ≡ frames ds ++ frames es
frames-append [] es = refl
frames-append (d ∷ ds) es =
    ap ((d.header_stream ++ d.message_stream) ++◌) (frames-append ds es)
    ∙ sym (append_assoc (d.header_stream ++ d.message_stream) (frames ds) (frames es))

calls-append : (ds es : List SendData) → calls (ds ++ es) ≡ calls ds ++ calls es
calls-append [] es = refl
calls-append (d ∷ ds) es =
    ap (call d false ++◌) (calls-append ds es)
    ∙ sym (append_assoc (call d false) (calls ds) (calls es))

-- The header of the first of the queue, while its message is written.
abbrev pub started : Writing → List SendData → Bytes
started message (d ∷ ds) = d.header_stream
started _ _ = []

-- Nothing is written only where the queue is empty.
abbrev pub IsBusy : Writing → List SendData → Type 0
IsBusy idle ds = ds ≡ []
IsBusy _ ds = ds ≢ []

pub record InOrder (sent : List SendData) (q : Queue) : Type 0 where
  pub done : List SendData
  pub split : sent ≡ done ++ q.send_queue
  pub written_is : q.written ≡ frames done ++ started q.writing q.send_queue
  pub called_is : q.called ≡ calls done
  pub busy : IsBusy q.writing q.send_queue

-- What the strand waits for when one more is in the queue.
unfoldable pub enqueued : Writing → List SendData → SendData → Writing
enqueued w ds d = if length (ds ++ (d ∷ [])) == 1 then posted else w

enqueued-cons : (w : Writing) (x d : SendData) (ds : List SendData) → enqueued w (x ∷ ds) d ≡ w
unfolding enqueued
enqueued-cons w x d ds = ground (arith, length-append ds (d ∷ []))

started-nil : (w : Writing) → started w [] ≡ []
started-nil idle = refl
started-nil posted = refl
started-nil header = refl
started-nil message = refl

started-append :
    (w : Writing) (x : SendData) (ds es : List SendData)
    → started w (x ∷ (ds ++ es)) ≡ started w (x ∷ ds)
started-append idle x ds es = refl
started-append posted x ds es = refl
started-append header x ds es = refl
started-append message x ds es = refl

started-enqueued :
    (w : Writing) (ds : List SendData) (d : SendData)
    → started (enqueued w ds d) (ds ++ (d ∷ [])) ≡ started w ds
unfolding enqueued
started-enqueued w [] d = sym (started-nil w)
started-enqueued w (x ∷ ds) d =
    ap (λ v. started v (x ∷ (ds ++ (d ∷ [])))) (enqueued-cons w x d ds)
    ∙ started-append w x ds (d ∷ [])

IsBusy-cons :
    (w : Writing) (x y : SendData) (ds es : List SendData) → IsBusy w (x ∷ ds) → IsBusy w (y ∷ es)
IsBusy-cons idle x y ds es h = absurd cc
IsBusy-cons posted x y ds es h = λ e. cc
IsBusy-cons header x y ds es h = λ e. cc
IsBusy-cons message x y ds es h = λ e. cc

pub enqueued-IsBusy :
    (w : Writing) (ds : List SendData) (d : SendData)
    → IsBusy w ds
    → IsBusy (enqueued w ds d) (ds ++ (d ∷ []))
unfolding enqueued
enqueued-IsBusy w [] d h = λ e. cc
enqueued-IsBusy w (x ∷ ds) d h =
    rw (enqueued-cons w x d ds) (IsBusy-cons w x x ds (ds ++ (d ∷ [])) h)

pub next_write-IsBusy : (ds : List SendData) → IsBusy (next_write ds) ds
next_write-IsBusy [] = refl
next_write-IsBusy (d ∷ ds) = λ e. cc

started-next_write : (ds : List SendData) → started (next_write ds) ds ≡ []
started-next_write [] = refl
started-next_write (d ∷ ds) = refl

module _ {sent : List SendData} {q : Queue} (i : InOrder sent q) where
  enqueue-InOrder : (d : SendData) → InOrder (sent ++ (d ∷ [])) (enqueue d q)
  unfolding enqueue enqueued
  enqueue-InOrder d = record {
    done = i.done;
    split = ap (◌++ (d ∷ [])) i.split ∙ append_assoc i.done q.send_queue (d ∷ []);
    written_is =
        i.written_is ∙ ap (frames i.done ++◌) (sym (started-enqueued q.writing q.send_queue d));
    called_is = i.called_is;
    busy = enqueued-IsBusy q.writing q.send_queue d i.busy;
  }

  begin_write-InOrder : q.writing ≡ posted → InOrder sent (begin_write q)
  unfolding begin_write
  begin_write-InOrder p = record {
    done = i.done;
    split = i.split;
    written_is = i.written_is ∙ ap (λ w. frames i.done ++ started w q.send_queue) p;
    called_is = i.called_is;
    busy = subst (λ w. IsBusy w q.send_queue) p i.busy;
  }

  -- The first of the queue, while it is written.
  after_header-InOrder :
      (ds : List SendData)
      → q.send_queue ≡ ds
      → q.writing ≡ header
      → InOrder sent (after_header false ds q)
  after_header-InOrder [] e p = i
  after_header-InOrder (d ∷ ds) e p = record {
    done = i.done;
    split = i.split;
    written_is = rw e (
        ap (◌++ d.header_stream) (
          i.written_is
          ∙ ap (λ w. frames i.done ++ started w q.send_queue) p
          ∙ append-nil (frames i.done)));
    called_is = i.called_is;
    busy = λ n. absurd ((subst (λ w. IsBusy w q.send_queue) p i.busy) n);
  }

  frames_done :
      (d : SendData) (ds : List SendData)
      → q.send_queue ≡ d ∷ ds
      → q.writing ≡ message
      → q.written ++ d.message_stream ≡ frames (i.done ++ (d ∷ [])) ++ started (next_write ds) ds
  frames_done d ds e p =
      ap (◌++ d.message_stream) (
        i.written_is
        ∙ ap (λ w. frames i.done ++ started w q.send_queue) p
        ∙ ap (λ x. frames i.done ++ started message x) e)
      ∙ append_assoc (frames i.done) d.header_stream d.message_stream
      ∙ ap (frames i.done ++◌) (sym (append-nil (d.header_stream ++ d.message_stream)))
      ∙ sym (frames-append i.done (d ∷ []))
      ∙ rw (started-next_write ds) (sym (append-nil (frames (i.done ++ (d ∷ [])))))

  after_message-InOrder :
      (ds : List SendData)
      → q.send_queue ≡ ds
      → q.writing ≡ message
      → InOrder sent (after_message false ds q)
  after_message-InOrder [] e p = i
  after_message-InOrder (d ∷ ds) e p = record {
    done = i.done ++ (d ∷ []);
    split = i.split ∙ ap (i.done ++◌) e ∙ sym (append_assoc i.done (d ∷ []) ds);
    written_is = frames_done d ds e p;
    called_is =
        ap (◌++ call d false) i.called_is
        ∙ ap (calls i.done ++◌) (sym (append-nil (call d false)))
        ∙ sym (calls-append i.done (d ∷ []));
    busy = next_write-IsBusy ds;
  }

-- In every state that the queue reaches while no write fails: what is on the socket is the frames
-- of the first of what was sent, whole and in the order of sending, and behind them the header of
-- the next while its message is written; just the callbacks of those first were called, without an
-- error; the rest is in the queue; and the strand waits for nothing only if the queue is empty.
pub Reach-InOrder : (sent : List SendData) (q : Queue) → Reach sent q → InOrder sent q
unfolding header_ends message_ends
Reach-InOrder _ _ empty = record {
  done = [];
  split = refl;
  written_is = refl;
  called_is = refl;
  busy = refl;
}
Reach-InOrder _ _ (sends d r) = enqueue-InOrder (Reach-InOrder _ _ r) d
Reach-InOrder _ _ (begins r p) = begin_write-InOrder (Reach-InOrder _ _ r) p
Reach-InOrder _ _ (header_written {q = q} r p) =
    after_header-InOrder (Reach-InOrder _ _ r) q.send_queue refl p
Reach-InOrder _ _ (message_written {q = q} r p) =
    after_message-InOrder (Reach-InOrder _ _ r) q.send_queue refl p
