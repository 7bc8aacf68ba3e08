-- ===== src/Bot/Sending.antt =====
-- How a file is sent, in parts, as long as no send is interrupted.
use boost_irc.Base.{
  ℕ, zero, suc, ◌+◌, ◌<◌, ◌≤◌, ◌≡◌, refl, ap, ◌∙◌, ◌⊎◌, inl, inr, Bool, true, false, Option, some,
  List, [], ◌∷◌, ◌++◌, Bytes, codes, length, take, drop, length-take, length-drop, take-append-drop,
  append_assoc, append-nil, arith, Bool-cases, concat,
}
use boost_irc.Bot.{
  Sent, default_resource_send, next_error, respond, file, buffer_size, head, FilePath,
}

-- What is sent and what is left out, together, are the text; only an error leaves something out.
pub record IsSending (text : Bytes) (errors : List Bool) (sent : Option Sent) : Type 0 where
  pub result : Sent
  pub unsent : Bytes
  pub ends : sent ≡ some result
  pub parts : concat result.writes ++ unsent ≡ text
  pub all_sent : result.interrupted ≡ false → unsent ≡ []
  pub no_error : errors ≡ [] → result.interrupted ≡ false

module _ (size fuel : ℕ) (errors : List Bool) (left response : Bytes) where
  sends_last :
      length (take size left) ≡ 0
      → default_resource_send size (suc fuel) errors left response
        ≡ some (record { writes = response ∷ []; interrupted = false })
  unfolding default_resource_send
  sends_last h = ground (arith, h)

  sends_rest :
      0 < length (take size left)
      → length (take size left) < size
      → default_resource_send size (suc fuel) errors left response
        ≡ some (record { writes = (response ++ take size left) ∷ []; interrupted = false })
  unfolding default_resource_send
  sends_rest h k = ground (arith, h, k)

  sends_failing :
      0 < size
      → length (take size left) ≡ size
      → (next_error errors).0 ≡ true
      → default_resource_send size (suc fuel) errors left response
        ≡ some (record { writes = (response ++ take size left) ∷ []; interrupted = true })
  unfolding default_resource_send
  sends_failing p h e = ground (arith, p, h, e)

  sends_part :
      (s : Sent)
      → 0 < size
      → length (take size left) ≡ size
      → (next_error errors).0 ≡ false
      → default_resource_send size fuel (next_error errors).1 (drop size left) [] ≡ some s
      → default_resource_send size (suc fuel) errors left response
        ≡ some (record {
          writes = (response ++ take size left) ∷ s.writes;
          interrupted = s.interrupted;
        })
  unfolding default_resource_send
  sends_part s p h e r = ground (arith, p, h, e, r)

-- A part, and what is sent behind it.
joined :
    (size : ℕ) (left response more unsent : Bytes)
    → more ++ unsent ≡ drop size left
    → ((response ++ take size left) ++ more) ++ unsent ≡ response ++ left
joined size left response more unsent e =
    append_assoc (response ++ take size left) more unsent
    ∙ append_assoc response (take size left) (more ++ unsent)
    ∙ ap (λ x. response ++ (take size left ++ x)) e
    ∙ ap (response ++◌) (take-append-drop size left)

lt_or_ge : (a b : ℕ) → (a < b) ⊎ (b ≤ a)
lt_or_ge a b = ground arith

nothing_left : (s : Bytes) → length s ≡ 0 → s ≡ []
nothing_left [] h = refl
nothing_left (c ∷ s) h = absurd (omega arith)

-- Enough fuel: one round for each byte, and one that finds nothing left.
module _ (size : ℕ) (positive : 0 < size) where
  taken : (left : Bytes) → length left ≡ length (take size left) + length (drop size left)
  taken left = omega (arith, length-take size left, length-drop size left)

  -- The last part, whether it is empty or not.
  last_part :
      (fuel : ℕ) (errors : List Bool) (left response : Bytes)
      → length left < size
      → IsSending
          (response ++ left)
          errors
          (default_resource_send size (suc fuel) errors left response)
  last_part fuel errors [] response l = record {
    result = record { writes = response ∷ []; interrupted = false };
    unsent = [];
    ends = sends_last size fuel errors [] response (omega (arith, length-take {A = ℕ} size []));
    parts = append-nil (response ++ []);
    all_sent = λ i. refl;
    no_error = λ i. refl;
  }
  last_part fuel errors (x ∷ left) response l = record {
    result = record { writes = (response ++ take size (x ∷ left)) ∷ []; interrupted = false };
    unsent = drop size (x ∷ left);
    ends =
        sends_rest size fuel errors (x ∷ left) response
          (omega (arith, length-take size (x ∷ left), positive))
          (omega (arith, length-take size (x ∷ left)));
    parts = joined size (x ∷ left) response [] (drop size (x ∷ left)) refl;
    all_sent =
        λ i. nothing_left (drop size (x ∷ left)) (omega (arith, length-drop size (x ∷ left)));
    no_error = λ i. refl;
  }

  next_error-nil : (errors : List Bool) → errors ≡ [] → (next_error errors).1 ≡ []
  next_error-nil [] e = refl
  next_error-nil (b ∷ errors) e = cc

  -- A full part whose send fails, and one behind which the sending goes on.
  full_part :
      (fuel : ℕ) (errors : List Bool) (left response : Bytes)
      → size ≤ length left
      → IsSending
          (drop size left)
          (next_error errors).1
          (default_resource_send size fuel (next_error errors).1 (drop size left) [])
      → IsSending
          (response ++ left)
          errors
          (default_resource_send size (suc fuel) errors left response)
  full_part fuel errors left response l later = elim (Bool-cases (next_error errors).0) [
    | inl e ↦ record {
      result = record { writes = (response ++ take size left) ∷ []; interrupted = true };
      unsent = drop size left;
      ends =
          sends_failing size fuel errors left response positive
            (omega (arith, length-take size left, l)) e;
      parts = joined size left response [] (drop size left) refl;
      all_sent = λ i. cc;
      no_error = λ i. absurd (ground (arith, i, e));
    }
    | inr e ↦ record {
      result = record {
        writes = (response ++ take size left) ∷ later.result.writes;
        interrupted = later.result.interrupted;
      };
      unsent = later.unsent;
      ends =
          sends_part size fuel errors left response later.result positive
            (omega (arith, length-take size left, l)) e later.ends;
      parts = joined size left response (concat later.result.writes) later.unsent later.parts;
      all_sent = later.all_sent;
      no_error = λ i. later.no_error (next_error-nil errors i);
    }
  ]

  default_resource_send-IsSending :
      (fuel : ℕ) (errors : List Bool) (left response : Bytes)
      → length left < fuel
      → IsSending (response ++ left) errors (default_resource_send size fuel errors left response)
  default_resource_send-IsSending zero errors left response l = absurd (omega arith)
  default_resource_send-IsSending (suc fuel) errors left response l =
      elim (lt_or_ge (length left) size) [
        | inl k ↦ last_part fuel errors left response k
        | inr k ↦ full_part fuel errors left response k (
            default_resource_send-IsSending fuel (next_error errors).1 (drop size left) []
              (omega (arith, length-drop size left, positive, l)))
      ]

-- The sending of a file ends. Its parts, put together, are the head, with the status 200 and the
-- length of the file, and then the file, up to what is unsent; nothing is unsent if no send was
-- interrupted, and without errors none is.
pub respond-IsSending :
    (errors : List Bool) (path : FilePath) (content : Bytes)
    → IsSending
        (head (codes "200 OK") content ++ content)
        errors
        (respond errors (file path content))
unfolding respond
respond-IsSending errors path content =
    default_resource_send-IsSending buffer_size (omega arith) (suc (length content)) errors content
      (head (codes "200 OK") content) (omega arith)
