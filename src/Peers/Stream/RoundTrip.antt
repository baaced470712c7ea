-- ===== src/Peers/Stream/RoundTrip.antt =====
-- internal/peers/sse.go and internal/server/sse.go: the frames of a stream, written and parsed.
use owlwatch.Prelude.{
  ℕ, ◌+◌, ◌<◌, ◌≡◌, refl, sym, ap, ◌∙◌, arith, true, List, [], ◌∷◌, ◌++◌, map, Option, some, ltb,
  lt→ltb, ge→ltb, All, length, length-append, Bytes, bytes, cut_prefix, ◌>>=◌, >>=-ext,
}
use mathlib.Core.List.{append_assoc}
use owlwatch.Metrics.{Snapshot}
use owlwatch.Server.Sse.{Frame, event, ping, wire, written}
use owlwatch.Peers.{Peer}
use owlwatch.Peers.Client.{Client, Hello}
use owlwatch.Peers.Stream.{
  max_event_bytes, split_lines, push_byte, trim_cr, Reader, start, trim_field_value, add_data, feed,
  feed_field, dispatch, read_events, Fed, drop_connection, read_on, dispatched,
}

-- No control byte: json.Marshal emits none, and no event name has one.
abbrev pub Clean : Bytes → Type 0
Clean s = All (λ b. ltb 31 b ≡ true) s

-- A frame that fits the parser's limits.
abbrev pub Fits : Frame → Type 0
Fits (event name body) =
    Clean name
    × Clean body
    × (0 < length body)
    × (length name + 7 < max_event_bytes)
    × (length body + 6 < max_event_bytes)
Fits ping = Unit

-- The lines of one frame.
abbrev pub frame_lines : Frame → List Bytes
frame_lines (event name body) = (bytes "event: " ++ name) ∷ (bytes "data: " ++ body) ∷ [] ∷ []
frame_lines ping = bytes ": ping" ∷ [] ∷ []

abbrev pub lines_of : List (ℕ × Frame) → List (ℕ × Bytes)
lines_of [] = []
lines_of ((t, f) ∷ fs) = map (λ l. (t, l)) (frame_lines f) ++ lines_of fs

split_lines-line : (l s : Bytes) → Clean l → split_lines (l ++ 10 ∷ s) ≡ l ∷ split_lines s
unfolding split_lines push_byte
split_lines-line [] s c = refl
split_lines-line (b ∷ l) s (h, c) = ground (arith, split_lines-line l s c)

split_lines-append :
    (l s w : Bytes) → Clean l → split_lines ((l ++ 10 ∷ s) ++ w) ≡ l ∷ split_lines (s ++ w)
split_lines-append l s w c =
    ap split_lines (append_assoc l (10 ∷ s) w) ∙ split_lines-line l (s ++ w) c

trim_cr-Clean : (l : Bytes) → Clean l → trim_cr l ≡ l
unfolding trim_cr
trim_cr-Clean [] c = refl
trim_cr-Clean (b ∷ []) (h, c) = ground arith
trim_cr-Clean (b ∷ d ∷ l) (h, c) = ap (λ r. b ∷ r) (trim_cr-Clean (d ∷ l) c)

event-Clean : (name : Bytes) → Clean name → Clean (bytes "event: " ++ name)
event-Clean name c = (refl, (refl, (refl, (refl, (refl, (refl, (refl, c)))))))

data-Clean : (body : Bytes) → Clean body → Clean (bytes "data: " ++ body)
data-Clean body c = (refl, (refl, (refl, (refl, (refl, (refl, c))))))

feed-event :
    (name : Bytes) (rd : Reader)
    → feed (bytes "event: " ++ name) rd ≡ read_on (record rd { event = name })
unfolding feed feed_field trim_field_value cut_prefix
feed-event name rd = refl

feed-data :
    (name body : Bytes)
    → length body < max_event_bytes
    → feed (bytes "data: " ++ body) (record { event = name; data_bytes = [] })
      ≡ read_on (record { event = name; data_bytes = body })
unfolding feed feed_field add_data trim_field_value cut_prefix
feed-data name body h = rw (ge→ltb max_event_bytes (0 + length body + 1) (omega arith)) refl

feed-blank :
    (name body : Bytes)
    → 0 < length body
    → feed [] (record { event = name; data_bytes = body }) ≡ dispatched name body
unfolding feed
feed-blank name body h = rw (lt→ltb 0 (length body) h) refl

split_lines-nil : split_lines [] ≡ []
unfolding split_lines
split_lines-nil = refl

lines_of-split_lines :
    (fs : List (ℕ × Frame))
    → All (λ f. Fits f.1) fs
    → map (λ l. l.1) (lines_of fs) ≡ split_lines (written (map (λ f. f.1) fs))
unfolding written wire
lines_of-split_lines [] all = sym split_lines-nil
lines_of-split_lines ((t, event name body) ∷ fs) (fits, all) =
    let w = written (map (λ f. f.1) fs) in
    let l1 : Bytes = bytes "event: " ++ name in
    let l2 : Bytes = bytes "data: " ++ body in
    sym (
      split_lines-append l1 (l2 ++ 10 ∷ 10 ∷ []) w (event-Clean name fits.0)
      ∙ ap (λ ls. l1 ∷ ls)
          (split_lines-append l2 (10 ∷ []) w (data-Clean body fits.1)
            ∙ ap (λ ls. l2 ∷ ls)
                (split_lines-line [] w tt
                  ∙ ap (λ ls. [] ∷ ls) (sym (lines_of-split_lines fs all)))))
lines_of-split_lines ((t, ping) ∷ fs) (fits, all) =
    let w = written (map (λ f. f.1) fs) in
    sym (
      split_lines-line (bytes ": ping") (10 ∷ w) (refl, (refl, (refl, (refl, (refl, (refl, tt))))))
      ∙ ap (λ ls. bytes ": ping" ∷ ls)
          (split_lines-line [] w tt ∙ ap (λ ls. [] ∷ ls) (sym (lines_of-split_lines fs all))))

module _ {F : Type 0} (decode_hello : Bytes → Option (Hello F))
    (decode_snapshot : Bytes → Option (Snapshot F)) where
  -- The hub that takes the frames one by one, without their bytes.
  unfoldable pub deliver : Peer → List (ℕ × Frame) → Client F → Option (Client F)
  deliver p [] c = some c
  deliver p ((t, event name body) ∷ fs) c =
      dispatch decode_hello decode_snapshot p name body t c >>= deliver p fs
  deliver p ((t, ping) ∷ fs) c = deliver p fs c

  -- A clean line that fits is fed to the parser as it is.
  after : Peer → Fed → ℕ → List (ℕ × Bytes) → Client F → Option (Client F)
  after p drop_connection now rest c = some c
  after p (read_on rd) now rest c = read_events decode_hello decode_snapshot p rest rd c
  after p (dispatched name body) now rest c =
      dispatch decode_hello decode_snapshot p name body now c >>= λ c'.
      read_events decode_hello decode_snapshot p rest start c'

  after_lem :
      (p : Peer) (fed : Fed) (now : ℕ) (rest : List (ℕ × Bytes)) (c : Client F)
      → (elim fed [
        | drop_connection ↦ some c
        | read_on rd' ↦ read_events decode_hello decode_snapshot p rest rd' c
        | dispatched name body ↦ dispatch decode_hello decode_snapshot p name body now c >>= λ c'.
            read_events decode_hello decode_snapshot p rest start c'
      ])
        ≡ after p fed now rest c
  unfolding after
  after_lem p drop_connection now rest c = refl
  after_lem p (read_on rd) now rest c = refl
  after_lem p (dispatched name body) now rest c = refl

  read_line :
      (p : Peer) (now : ℕ) (raw : Bytes) (rest : List (ℕ × Bytes)) (rd : Reader) (c : Client F)
      (fed : Fed)
      → length raw < max_event_bytes
      → Clean raw
      → feed raw rd ≡ fed
      → read_events decode_hello decode_snapshot p ((now, raw) ∷ rest) rd c ≡ after p fed now rest c
  unfolding read_events after
  read_line p now raw rest rd c fed h clean e =
      rw
        (
          lt→ltb (length raw) max_event_bytes h,
          trim_cr-Clean raw clean,
          trim_cr-Clean raw clean,
          e,
          read_events,
        )
        (after_lem p fed now rest c)

  read_frame :
      (p : Peer) (t : ℕ) (name body : Bytes) (rest : List (ℕ × Bytes)) (c : Client F)
      → Fits (event name body)
      → read_events decode_hello decode_snapshot p
          (map (λ l. (t, l)) (frame_lines (event name body)) ++ rest)
          start
          c
        ≡ (dispatch decode_hello decode_snapshot p name body t c >>= λ c'.
            read_events decode_hello decode_snapshot p rest start c')
  unfolding after
  read_frame p t name body rest c (clean, cleanb, pos, short, shortb) =
      read_line p t _ _ start c _ (omega (arith, length-append (bytes "event: ") name))
        (event-Clean name clean) (feed-event name start)
      ∙ read_line p t _ _ _ c _ (omega (arith, length-append (bytes "data: ") body))
          (data-Clean body cleanb) (feed-data name body (omega arith))
      ∙ read_line p t [] rest _ c _ (omega arith) tt (feed-blank name body pos)

  read_ping :
      (p : Peer) (t : ℕ) (rest : List (ℕ × Bytes)) (c : Client F)
      → read_events decode_hello decode_snapshot p
          (map (λ l. (t, l)) (frame_lines ping) ++ rest)
          start
          c
        ≡ read_events decode_hello decode_snapshot p rest start c
  unfolding read_events feed feed_field cut_prefix trim_cr
  read_ping p t rest c = refl

  read_events-lines_of :
      (p : Peer) (fs : List (ℕ × Frame)) (c : Client F)
      → All (λ f. Fits f.1) fs
      → read_events decode_hello decode_snapshot p (lines_of fs) start c ≡ deliver p fs c
  unfolding deliver read_events
  read_events-lines_of p [] c all = refl
  read_events-lines_of p ((t, event name body) ∷ fs) c (fits, all) =
      read_frame p t name body (lines_of fs) c fits
      ∙ >>=-ext (dispatch decode_hello decode_snapshot p name body t c) _ (deliver p fs)
          (λ c'. read_events-lines_of p fs c' all)
  read_events-lines_of p ((t, ping) ∷ fs) c (fits, all) =
      read_ping p t (lines_of fs) c ∙ read_events-lines_of p fs c all

  -- The bytes that a server writes for a series of frames, cut into lines by the hub's scanner, are
  -- the lines of the frames in order, and the parser that reads them dispatches exactly the frames'
  -- events, in order, each at its own time, and skips the heartbeats. The frames' names and bodies
  -- have no control bytes, no body is empty, and each line is under the limit of 128 KiB.
  pub read_events-written :
      (p : Peer) (fs : List (ℕ × Frame)) (c : Client F)
      → All (λ f. Fits f.1) fs
      → (map (λ l. l.1) (lines_of fs) ≡ split_lines (written (map (λ f. f.1) fs)))
        × (read_events decode_hello decode_snapshot p (lines_of fs) start c ≡ deliver p fs c)
  read_events-written p fs c all = (lines_of-split_lines fs all, read_events-lines_of p fs c all)
