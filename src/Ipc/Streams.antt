-- ===== src/Ipc/Streams.antt =====
-- crates/tysel-ipc/src/lib.rs: messages written one after the other are read back in order.
use tysel.Base.{
  ℕ, zero, suc, ◌%◌, ◌^◌, ◌≤◌, ◌<◌, ltb, Text, List, [], ◌∷◌, ◌++◌, length, length-append,
  take-append, drop-append, append_assoc, append_nil, true, false, Result, ok, err, Method, ◌>>=◌,
  ◌>>◌, return, lift, then_on-passes, to_le_bytes, length-to_le_bytes, from_le_bytes-to_le_bytes,
  ◌≡◌, refl, sym, ap, ◌∙◌, arith,
}
use tysel.Ipc.{
  IpcError, frame_too_large, MessageJson, max_frame, write_frame, read_frame, read_exact,
  write_message, read_message, from_json,
}

within : (n m : ℕ) → n ≤ m → ltb m n ≡ false
within n m h = ground arith

read_exact-append :
    (n : ℕ) (bytes rest : Text) → length bytes ≡ n → read_exact n (bytes ++ rest) ≡ (rest, ok bytes)
read_exact-append n bytes rest h = rw (
  sym h,
  within (length bytes) (length (bytes ++ rest)) (omega (arith, length-append bytes rest)),
  take-append bytes rest,
  drop-append bytes rest,
)

not_beyond : (n : ℕ) → ltb max_frame n ≡ false → n ≤ max_frame
not_beyond n h = ground arith

beyond : (n : ℕ) → max_frame < n → ltb max_frame n ≡ true
beyond n h = ground arith

-- A length above the limit is refused as soon as it is read: the bytes that
-- follow it are left where they are.
pub read_frame-refuses :
    (n : ℕ) (rest : Text)
    → max_frame < n
    → n < 2 ^ 32
    → read_frame (to_le_bytes 4 n ++ rest) ≡ (rest, err (frame_too_large n))
unfolding read_frame
read_frame-refuses n rest h bound = rw (
  read_exact-append 4 (to_le_bytes 4 n) rest (length-to_le_bytes 4 n),
  from_le_bytes-to_le_bytes 4 n bound,
  beyond n h,
)

abbrev pub framed : Text → Text
framed bytes = to_le_bytes 4 (length bytes) ++ bytes

no_wrap : (n : ℕ) → n ≤ max_frame → n % 2 ^ 32 ≡ n
no_wrap n h = omega (arith, h)

read_frame-framed :
    (bytes rest : Text)
    → length bytes ≤ max_frame
    → read_frame (framed bytes ++ rest) ≡ (rest, ok bytes)
unfolding read_frame
read_frame-framed bytes rest h = rw (
  append_assoc (to_le_bytes 4 (length bytes)) bytes rest,
  read_exact-append 4 (to_le_bytes 4 (length bytes)) (bytes ++ rest)
      (length-to_le_bytes 4 (length bytes)),
  from_le_bytes-to_le_bytes 4 (length bytes) (omega (arith, h)),
  within (length bytes) max_frame h,
  read_exact-append (length bytes) bytes rest refl,
)

write_frame-small :
    (bytes written after : Text)
    → write_frame bytes written ≡ (after, ok tt)
    → length bytes ≤ max_frame
unfolding write_frame
write_frame-small bytes written after h = ground arith

write_frame-framed :
    (bytes written : Text)
    → length bytes ≤ max_frame
    → write_frame bytes written ≡ (written ++ framed bytes, ok tt)
unfolding write_frame
write_frame-framed bytes written h = rw (
  within (length bytes) max_frame h,
  no_wrap (length bytes) h,
  append_assoc written (to_le_bytes 4 (length bytes)) bytes,
)

lift_json-ok :
    (r : Result Text Text) (s t bytes : Text)
    → lift {S = Text} (from_json r) s ≡ (t, ok bytes)
    → (r ≡ ok bytes) × (s ≡ t)
lift_json-ok (ok b) s t bytes h = (cc, cc)
lift_json-ok (err e) s t bytes h = cc

module _ {Message : Type 0} (message_json : MessageJson Message) where
  unfoldable pub write_messages : List Message → Method Text IpcError (Unit {0})
  write_messages [] = return tt
  write_messages (m ∷ ms) = write_message message_json m >> write_messages ms

  unfoldable pub read_messages : ℕ → Method Text IpcError (List Message)
  read_messages zero = return []
  read_messages (suc n) = do m ← read_message message_json; ms ← read_messages n; return (m ∷ ms)

  -- What a message that is written adds.
  write_message-framed :
      (m : Message) (written after : Text)
      → write_message message_json m written ≡ (after, ok tt)
      → (bytes : Text) × ((message_json.to_vec m ≡ ok bytes)
          × ((length bytes ≤ max_frame) × (after ≡ written ++ framed bytes)))
  unfolding write_message
  write_message-framed m written after h =
      let text = then_on-passes (lift (from_json (message_json.to_vec m)) written) _ h in
      let json = lift_json-ok (message_json.to_vec m) written text.1.0 text.0 text.1.1.0 in
      let small = write_frame-small text.0 text.1.0 after text.1.1.1 in
      (
        text.0,
        (
          json.0,
          (
            small,
            ap (λ p. p.0) (sym text.1.1.1 ∙ write_frame-framed text.0 text.1.0 small)
                ∙ ap (λ w. w ++ framed text.0) (sym json.1),
          ),
        ),
      )

  -- JSON reads each of the messages back from the text that it writes for it.
  abbrev pub ReadBack : List Message → Type 0
  ReadBack [] = Unit {0}
  ReadBack (m ∷ ms) =
      ((bytes : Text) → message_json.to_vec m ≡ ok bytes → message_json.from_slice bytes ≡ ok m)
      × ReadBack ms

  write_messages-read :
      (ms : List Message) (written after : Text)
      → ReadBack ms
      → write_messages ms written ≡ (after, ok tt)
      → (stream : Text) × ((after ≡ written ++ stream)
          × ((rest : Text) → read_messages (length ms) (stream ++ rest) ≡ (rest, ok ms)))
  unfolding write_messages read_messages read_message
  write_messages-read [] written after law h =
      ([], (ap (λ p. p.0) (sym h) ∙ sym (append_nil written), λ rest. refl))
  write_messages-read (m ∷ ms) written after law h =
      let first = then_on-passes (write_message message_json m written) _ h in
      let frame = write_message-framed m written first.1.0 first.1.1.0 in
      let others = write_messages-read ms first.1.0 after law.1 first.1.1.1 in
      (
        framed frame.0 ++ others.0,
        (
          others.1.0
              ∙ ap (λ w. w ++ others.0) frame.1.1.1
              ∙ append_assoc written (framed frame.0) others.0,
          λ rest. rw (
            append_assoc (framed frame.0) others.0 rest,
            read_frame-framed frame.0 (others.0 ++ rest) frame.1.1.0,
            law.0 frame.0 frame.1.0,
            others.1.1 rest,
          ),
        ),
      )

  -- Messages that were written one after the other are read back in the same order, and the
  -- bytes behind them are left, when JSON reads each of these messages back from its own text. (It
  -- does not do so for a message with a number that is not finite, which it writes as `null`.)
  pub read_messages-write_messages :
      (ms : List Message) (stream rest : Text)
      → ReadBack ms
      → write_messages ms [] ≡ (stream, ok tt)
      → read_messages (length ms) (stream ++ rest) ≡ (rest, ok ms)
  read_messages-write_messages ms stream rest law h =
      let written = write_messages-read ms [] stream law h in rw (written.1.0, written.1.1 rest)
