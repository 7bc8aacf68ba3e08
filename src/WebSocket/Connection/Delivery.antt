-- ===== src/WebSocket/Connection/Delivery.antt =====
-- How the masked frames of a client are read, by their length.
use boost_irc.Base.{
  ℕ, ◌+◌, ◌/◌, ◌%◌, ◌^◌, ◌<◌, ◌≤◌, ltb, ◌≡◌, refl, sym, ap, ◌∙◌, subst, false, List, [], ◌∷◌, ◌++◌,
  Bytes, arith, length, take, drop, All, if◌then◌else◌, length-append, append-nil, some, none,
  Option, Bool-cases, ltb-eq-true, ltb-eq-false, inl, inr,
}
use boost_irc.Std.Find.{take_first, drop_first}
use boost_irc.WebSocket.Frame.{length_bytes, unmask}
use boost_irc.WebSocket.Frame.Length.{
  big_endian-length_bytes_two, read_length_two, read_length_eight,
}
use boost_irc.WebSocket.Frame.RoundTrip.{unmask-unmask, length-unmask}
use boost_irc.WebSocket.Connection.{
  Waiting, Connection, Endpoint, first_bytes, content, undefined, extended, message_ends, read_ends,
  read_by, read_first_bytes, read_length_bytes, read_content,
}

-- The reads by which a client's frame comes in, as RFC 6455 has it: its first two bytes with the bit
-- of the mask, the bytes of a longer length, and the mask with the masked message.
abbrev pub frame_reads : ℕ → Bytes → Bytes → List Bytes
frame_reads fin mask m =
    let masked = mask ++ unmask mask 0 m in
    if ltb (length m) 126
    then (fin ∷ (128 + length m) ∷ []) ∷ masked ∷ []
    else if ltb (length m) 65536
    then (fin ∷ 254 ∷ []) ∷ length_bytes 2 (length m) ∷ masked ∷ []
    else (fin ∷ 255 ∷ []) ∷ length_bytes 8 (length m) ∷ masked ∷ []

-- A connection whose wait and buffer are known.
known :
    (c : Connection) (w : Waiting)
    → c.wait ≡ w
    → c.read_buffer ≡ []
    → record c { wait = w; read_buffer = [] } ≡ c
known c w h b = ground (arith, h, b)

module _ (mask m : Bytes) (h : length mask ≡ 4) where
  masked_taken : take (length m) (drop 4 (mask ++ unmask mask 0 m)) ≡ unmask mask 0 m
  masked_taken =
      ap (take (length m)) (drop_first 4 mask (unmask mask 0 m) h)
      ∙ ap (take (length m)) (sym (append-nil (unmask mask 0 m)))
      ∙ take_first (length m) (unmask mask 0 m) [] (length-unmask mask 0 m)

  masked_dropped : drop (4 + length m) (mask ++ unmask mask 0 m) ≡ []
  masked_dropped =
      ap (drop (4 + length m)) (sym (append-nil (mask ++ unmask mask 0 m)))
      ∙ drop_first (4 + length m) (mask ++ unmask mask 0 m) []
          (omega (arith, length-append mask (unmask mask 0 m), length-unmask mask 0 m, h))

  unmasked :
      All (λ b. b < 256) m
      → unmask
          (take 4 (mask ++ unmask mask 0 m))
          0
          (take (length m) (drop 4 (mask ++ unmask mask 0 m)))
        ≡ m
  unmasked a =
      ap (λ k. unmask k 0 (take (length m) (drop 4 (mask ++ unmask mask 0 m))))
        (take_first 4 mask (unmask mask 0 m) h)
      ∙ ap (unmask mask 0) masked_taken
      ∙ unmask-unmask mask 0 m a

module _ (e : Endpoint) where
  pub reads : List Bytes → Connection → Connection
  reads [] c = c
  reads (t ∷ ts) c = reads ts (read_ends e false t c)

  first_short :
      (fin n : ℕ) (c : Connection)
      → n < 126
      → c.wait ≡ first_bytes
      → c.read_buffer ≡ []
      → read_ends e false (fin ∷ (128 + n) ∷ []) c
        ≡ record c { wait = content n fin; read_buffer = [] }
  unfolding read_ends read_by read_first_bytes
  first_short fin n c h w b = ground (arith, w, b)

  first_middle :
      (fin : ℕ) (c : Connection)
      → c.wait ≡ first_bytes
      → c.read_buffer ≡ []
      → read_ends e false (fin ∷ 254 ∷ []) c ≡ record c { wait = extended 2 fin; read_buffer = [] }
  unfolding read_ends read_by read_first_bytes
  first_middle fin c w b = ground (arith, w, b)

  first_large :
      (fin : ℕ) (c : Connection)
      → c.wait ≡ first_bytes
      → c.read_buffer ≡ []
      → read_ends e false (fin ∷ 255 ∷ []) c ≡ record c { wait = extended 8 fin; read_buffer = [] }
  unfolding read_ends read_by read_first_bytes
  first_large fin c w b = ground (arith, w, b)

  length_middle :
      (fin n : ℕ) (c : Connection)
      → n < 65536
      → c.wait ≡ extended 2 fin
      → c.read_buffer ≡ []
      → read_ends e false (length_bytes 2 n) c ≡ record c { wait = content n fin; read_buffer = [] }
  unfolding read_ends read_by read_length_bytes length_bytes
  length_middle fin n c h w b =
      ground
        (arith, w, b, read_length_two (n / 256 % 256) (n % 256), big_endian-length_bytes_two n h)

  wait_of : ℕ → Option ℕ → Waiting
  wait_of fin o = elim o [ none ↦ undefined | some k ↦ content k fin ]

  length_large :
      (fin n : ℕ) (c : Connection)
      → c.wait ≡ extended 8 fin
      → c.read_buffer ≡ []
      → (read_ends e false (length_bytes 8 n) c).wait ≡ undefined
  unfolding read_ends read_by read_length_bytes length_bytes wait_of
  length_large fin n c w b =
      subst (λ d. (read_ends e false (length_bytes 8 n) d).wait ≡ undefined)
        (known c (extended 8 fin) w b)
        (ap (wait_of fin) (read_length_eight (n / 2 ^ 56 % 256) (length_bytes 7 n) refl))

  masked_content :
      (fin : ℕ) (mask m : Bytes) (c : Connection)
      → length mask ≡ 4
      → All (λ b. b < 256) m
      → c.wait ≡ content (length m) fin
      → c.read_buffer ≡ []
      → read_ends e false (mask ++ unmask mask 0 m) c
        ≡ message_ends e fin m (record c { wait = content (length m) fin; read_buffer = [] })
  unfolding read_ends read_by read_content
  masked_content fin mask m c h a w b =
      subst
        (λ d.
          read_ends e false (mask ++ unmask mask 0 m) d
          ≡ message_ends e fin m (record c { wait = content (length m) fin; read_buffer = [] }))
        (known c (content (length m) fin) w b)
        (ap
            (λ x. message_ends e fin x (record c {
              wait = content (length m) fin;
              read_buffer = drop (4 + length m) (mask ++ unmask mask 0 m);
            }))
            (unmasked mask m h a)
          ∙ ap
              (λ y.
                message_ends e fin m (record c { wait = content (length m) fin; read_buffer = y }))
              (masked_dropped mask m h))

  read_of_undefined :
      (t : Bytes) (c : Connection) → c.wait ≡ undefined → (read_ends e false t c).wait ≡ undefined
  unfolding read_ends read_by
  read_of_undefined t c w = ground (arith, w)

  module _ (fin : ℕ) (mask m : Bytes) (c : Connection) (w : c.wait ≡ first_bytes)
      (b : c.read_buffer ≡ []) where
    -- A frame with a mask and a message below 2^16 bytes, read in its parts, gives
    -- `read_message_content` the message without the mask, and leaves nothing in the buffer.
    pub reads-message :
        length mask ≡ 4
        → All (λ x. x < 256) m
        → length m < 65536
        → reads (frame_reads fin mask m) c
          ≡ message_ends e fin m (record c { wait = content (length m) fin; read_buffer = [] })
    unfolding reads
    reads-message h a l =
        let masked = mask ++ unmask mask 0 m in
        let content_wait = record c { wait = content (length m) fin; read_buffer = [] } in
        let last = masked_content fin mask m content_wait h a refl refl in
        elim (Bool-cases (ltb (length m) 126)) [
          | inl s ↦ rw s (
              ap (read_ends e false masked) (first_short fin (length m) c (ground (arith, s)) w b)
              ∙ last)
          | inr s ↦ rw s (
              rw (ltb-eq-true (length m) 65536 l) (
                ap (λ d. read_ends e false masked (read_ends e false (length_bytes 2 (length m)) d))
                  (first_middle fin c w b)
                ∙ ap (read_ends e false masked) (
                    length_middle fin (length m)
                      (record c { wait = extended 2 fin; read_buffer = [] }) l refl refl)
                ∙ last))
        ]

    -- The length of a frame whose message has 2^16 bytes or more is read with a shift whose
    -- behaviour is undefined.
    pub reads-undefined : 65536 ≤ length m → (reads (frame_reads fin mask m) c).wait ≡ undefined
    unfolding reads
    reads-undefined l =
        let masked = mask ++ unmask mask 0 m in
        rw (ltb-eq-false (length m) 126 (omega (arith, l))) (
          rw (ltb-eq-false (length m) 65536 l) (
            read_of_undefined masked
              (read_ends e false (length_bytes 8 (length m)) (read_ends e false (fin ∷ 255 ∷ []) c))
              (subst (λ d. (read_ends e false (length_bytes 8 (length m)) d).wait ≡ undefined)
                (sym (first_large fin c w b))
                (length_large fin (length m) (record c { wait = extended 8 fin; read_buffer = [] })
                  refl refl))))
