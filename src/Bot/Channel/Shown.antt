-- ===== src/Bot/Channel/Shown.antt =====
-- What a page reads of the messages that its client handles.
use boost_irc.Base.{
  ℕ, zero, suc, ◌*◌, ◌^◌, ◌<◌, ◌≡◌, refl, sym, ap, ◌∙◌, Option, none, some, List, [], ◌∷◌, ◌++◌,
  Bytes, codes, newline, map, length, All, append_assoc, append-nil,
}
use boost_irc.Boost.{StringAlgo}
use boost_irc.Irc.Message.{Message}
use boost_irc.Irc.Dispatch.{read_message}
use boost_irc.Irc.Effects.{Event, print, ws_send, Run, done, events, for_each, ◌>>◌}
use boost_irc.Twitch.{twitch_client}
use boost_irc.Twitch.Welcome.{read_message-to_page}
use boost_irc.WebSocket.Frame.{frame_header}
use boost_irc.WebSocket.Frame.RoundTrip.{read_frame, read_frame-frame_header}
use boost_irc.WebSocket.Connection.{
  Connection, Action, post, start_timer, cancel_timer, onopen, onerror, onmessage, onclose, send,
}
use boost_irc.WebSocket.Queue.{Queue, Reach}
use boost_irc.WebSocket.Queue.Order.{frames}
use boost_irc.WebSocket.Queue.Draining.{after, Reach-Drained}
use boost_irc.Bot.Endpoints.{no_timeout}
use boost_irc.Bot.Channel.{pass_on, queued}

-- A message of the chat, and its text.
abbrev pub IsChat : Message × Bytes → Type 0
IsChat (msg, text) =
    (c : Bytes) × (t : Bytes) × (r : List Bytes) × (msg.command ≡ codes "PR" ++ c)
    × (msg.params ≡ t ∷ text ∷ r)

-- What the page is to be shown.
abbrev pub shown : List (Message × Bytes) → List Bytes
shown [] = []
shown ((msg, text) ∷ chat) = (text ++ newline) ∷ shown chat

-- What a page reads of so many frames, and of nothing else.
abbrev pub add_frame : ℕ × Bytes → Option (List (ℕ × Bytes)) → Option (List (ℕ × Bytes))
add_frame m none = none
add_frame m (some ms) = some (m ∷ ms)

abbrev pub read_frames : ℕ → Bytes → Option (List (ℕ × Bytes))
read_frames zero [] = some []
read_frames zero (c ∷ s) = none
read_frames (suc n) s = elim (read_frame s) [
  | none ↦ none
  | some (fin, m, rest) ↦ add_frame (fin, m) (read_frames n rest)
]

-- The calls returned, and a page that reads what was written gets the texts.
pub record IsShown (run : Run (Unit {0})) (texts : List Bytes) (written : Bytes) : Type 0 where
  pub returned : run ≡ done tt (events run)
  pub reads : read_frames (length texts) written ≡ some (map (λ x. (129, x)) texts)

abbrev posts : List Bytes → List Action
posts [] = []
posts (x ∷ xs) = post (frame_header 129 (length x)) x ∷ posts xs

queued-append :
    (callback : Option ℕ) (before behind : List Action)
    → queued callback (before ++ behind) ≡ queued callback before ++ queued callback behind
unfolding queued
queued-append callback [] behind = refl
queued-append callback (post h m ∷ before) behind =
    ap (record { header_stream = h; message_stream = m; callback = callback } ∷◌)
      (queued-append callback before behind)
queued-append callback (start_timer ∷ before) behind = queued-append callback before behind
queued-append callback (cancel_timer ∷ before) behind = queued-append callback before behind
queued-append callback (onopen ∷ before) behind = queued-append callback before behind
queued-append callback (onerror ∷ before) behind = queued-append callback before behind
queued-append callback (onmessage n m ∷ before) behind = queued-append callback before behind
queued-append callback (onclose n m ∷ before) behind = queued-append callback before behind

read_frames_step :
    (n fin : ℕ) (s m rest : Bytes)
    → read_frame s ≡ some (fin, m, rest)
    → read_frames (suc n) s ≡ add_frame (fin, m) (read_frames n rest)
read_frames_step n fin s m rest e = rw (e, read_frames) refl

read_frames-posts :
    (callback : Option ℕ) (xs : List Bytes)
    → All (λ x. length x < 2 ^ 64) xs
    → read_frames (length xs) (frames (queued callback (posts xs))) ≡ some (map (λ x. (129, x)) xs)
unfolding queued
read_frames-posts callback [] h = refl
read_frames-posts callback (x ∷ xs) (l, h) =
    let behind = frames (queued callback (posts xs)) in
    read_frames_step (length xs) 129 ((frame_header 129 (length x) ++ x) ++ behind) x behind (
      ap read_frame (append_assoc (frame_header 129 (length x)) x behind)
      ∙ read_frame-frame_header 129 x behind l)
    ∙ ap (add_frame (129, x)) (read_frames-posts callback xs h)

done-done :
    (m k : Run (Unit {0})) (es fs : List Event)
    → m ≡ done tt es
    → k ≡ done tt fs
    → (m >> k) ≡ done tt (es ++ fs)
done-done m k es fs e f = rw (e, f) refl

module _ (algo : StringAlgo) (channel : Bytes) where
  -- The client handles some messages.
  abbrev pub handled : List (Message × Bytes) → Run (Unit {0})
  handled chat = for_each (read_message algo (twitch_client algo channel)) (map (λ m. m.0) chat)

  passed :
      (chat : List (Message × Bytes))
      → All IsChat chat
      → (es : List Event) × (handled chat ≡ done tt es)
        × ((c : Connection) → pass_on es c ≡ record c { actions = c.actions ++ posts (shown chat) })
  unfolding pass_on send
  passed [] h = ([], refl, λ c. ap (λ a. record c { actions = a }) (sym (append-nil c.actions)))
  passed ((msg, text) ∷ chat) ((d, t, r, e, f), h) =
      let (fs, g, p) = passed chat h in
      (
        print (t ++ (codes "> " ++ (msg.nickname ++ (codes ": " ++ (text ++ newline)))))
            ∷ ws_send (text ++ newline)
            ∷ fs,
        done-done (read_message algo (twitch_client algo channel) msg) (handled chat) _ fs
            (read_message-to_page algo channel msg d t text r e f) g,
        λ c.
            p (send no_timeout (text ++ newline) 129 c)
            ∙ ap (λ a. record c { actions = a }) (append_assoc c.actions _ (posts (shown chat))),
      )

  -- A client that handles messages of the chat returns from all of them, and once no more is sent
  -- and the writes of the page's connection have ended without an error, the page reads just their
  -- texts from what is on the socket: each with a line feed in a text frame of its own, in their
  -- order. The connection had posted nothing before, and each text is below 2^64 bytes.
  pub handled-IsShown :
      (chat : List (Message × Bytes)) (c : Connection) (callback : Option ℕ) (q : Queue)
      → All IsChat chat
      → All (λ x. length x < 2 ^ 64) (shown chat)
      → queued callback c.actions ≡ []
      → Reach (queued callback (pass_on (events (handled chat)) c).actions) q
      → IsShown (handled chat) (shown chat) (after (3 * length q.send_queue) q).written
  handled-IsShown chat c callback q h l none_before r =
      let (es, e, p) = passed chat h in
      let sent_is : queued callback (pass_on (events (handled chat)) c).actions
          ≡ queued callback (posts (shown chat)) =
        ap (λ m. queued callback (pass_on (events m) c).actions) e
        ∙ ap (λ d. queued callback (d.actions)) (p c)
        ∙ queued-append callback c.actions (posts (shown chat))
        ∙ ap (λ before. before ++ queued callback (posts (shown chat))) none_before in
      record {
        returned = e ∙ ap (λ m. done tt (events m)) (sym e);
        reads =
            ap (read_frames (length (shown chat)))
              ((Reach-Drained _ q r).written_is ∙ ap frames sent_is)
            ∙ read_frames-posts callback (shown chat) l;
      }
