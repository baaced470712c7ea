-- ===== src/Peers/Stream/Mirror.antt =====
-- internal/server/sse.go and internal/peers/sse.go: a live stream from `handleLive` to the state
-- that a hub caches of it.
use owlwatch.Prelude.{
  ℕ, ◌≡◌, refl, sym, ap, ◌∙◌, Bool, true, List, [], ◌∷◌, map, Option, none, some, All, Bytes, bytes,
  same, ◌>>=◌, >>=-ext,
}
use owlwatch.Metrics.{Snapshot}
use owlwatch.Server.Sse.{
  Frame, event, ping, written, Wake, sample, tick, start_sse, send_event, send_ping, go_on,
  live_loop, handle_live,
}
use owlwatch.Peers.{Peer}
use owlwatch.Peers.Client.{Client, Hello, apply_hello, apply_snapshot, set_online}
use owlwatch.Peers.Stream.{split_lines, read_events, start, dispatch}
use owlwatch.Peers.Stream.RoundTrip.{Fits, lines_of, deliver, read_events-written}

module _ {F : Type 0} where
  -- What the server's loop wakes for while the stream runs, with the time at which the hub reads of
  -- it: a snapshot, or a heartbeat.
  abbrev pub wake_of : ℕ × Option (Snapshot F) → Wake F × Bool
  wake_of (t, none) = (tick, true)
  wake_of (t, some s) = (sample s, true)

  abbrev pub frame_of : (Snapshot F → Bytes) → ℕ × Option (Snapshot F) → ℕ × Frame
  frame_of enc (t, none) = (t, ping)
  frame_of enc (t, some s) = (t, event (bytes "snapshot") (enc s))

  abbrev pub Decodes :
      (Snapshot F → Bytes) → (Bytes → Option (Snapshot F)) → ℕ × Option (Snapshot F) → Type 0
  Decodes enc dec (t, none) = Unit
  Decodes enc dec (t, some s) = dec (enc s) ≡ some s

  -- The frames of a stream, the hello first.
  abbrev pub frames_of :
      (Hello F → Bytes)
      → (Snapshot F → Bytes)
      → ℕ
      → Hello F
      → List (ℕ × Option (Snapshot F))
      → List (ℕ × Frame)
  frames_of enc_hello enc t0 h ws =
      (t0, event (bytes "hello") (enc_hello h)) ∷ map (frame_of enc) ws

  -- The hub that takes the snapshots without a stream.
  pub follow : Peer → List (ℕ × Option (Snapshot F)) → Client F → Option (Client F)
  follow p [] c = some c
  follow p ((t, none) ∷ ws) c = follow p ws c
  follow p ((t, some s) ∷ ws) c = apply_snapshot p s t c >>= follow p ws

  live_loop_lem :
      (marshal_hello : Hello F → Option Bytes) (enc : Snapshot F → Bytes)
      (ws : List (ℕ × Option (Snapshot F)))
      → live_loop marshal_hello (λ s. some (enc s)) (map wake_of ws)
        ≡ map (λ f. f.1) (map (frame_of enc) ws)
  unfolding live_loop send_event send_ping go_on
  live_loop_lem mh enc [] = refl
  live_loop_lem mh enc ((t, none) ∷ ws) = ap (λ fs. ping ∷ fs) (live_loop_lem mh enc ws)
  live_loop_lem mh enc ((t, some s) ∷ ws) =
      ap (λ fs. event (bytes "snapshot") (enc s) ∷ fs) (live_loop_lem mh enc ws)

  snapshot_lem :
      (enc : Snapshot F → Bytes) (dh : Bytes → Option (Hello F)) (dec : Bytes → Option (Snapshot F))
      (p : Peer) (t : ℕ) (s : Snapshot F) (c : Client F)
      → dec (enc s) ≡ some s
      → dispatch dh dec p (bytes "snapshot") (enc s) t c ≡ apply_snapshot p s t c
  unfolding dispatch same
  snapshot_lem enc dh dec p t s c d = rw (d, dispatch) refl

  hello_lem :
      (enc_hello : Hello F → Bytes) (dh : Bytes → Option (Hello F))
      (dec : Bytes → Option (Snapshot F)) (p : Peer) (t : ℕ) (h : Hello F) (c : Client F)
      → dh (enc_hello h) ≡ some h
      → dispatch dh dec p (bytes "hello") (enc_hello h) t c
        ≡ (apply_hello p h t c >>= set_online p true)
  unfolding dispatch same
  hello_lem enc_hello dh dec p t h c d = rw (d, dispatch) refl

  deliver-follow :
      (enc : Snapshot F → Bytes) (dh : Bytes → Option (Hello F)) (dec : Bytes → Option (Snapshot F))
      (p : Peer) (ws : List (ℕ × Option (Snapshot F))) (c : Client F)
      → All (Decodes enc dec) ws
      → deliver dh dec p (map (frame_of enc) ws) c ≡ follow p ws c
  unfolding follow deliver
  deliver-follow enc dh dec p [] c a = refl
  deliver-follow enc dh dec p ((t, none) ∷ ws) c (d, a) = deliver-follow enc dh dec p ws c a
  deliver-follow enc dh dec p ((t, some s) ∷ ws) c (d, a) =
      ap (λ o. o >>= deliver dh dec p (map (frame_of enc) ws)) (snapshot_lem enc dh dec p t s c d)
      ∙ >>=-ext (apply_snapshot p s t c) _ (follow p ws) (λ c'. deliver-follow enc dh dec p ws c' a)

  -- A hub that reads a server's live stream caches what it would by taking the server's hello and
  -- then each of its snapshots directly, in order: the stream's bytes and the heartbeats between
  -- them do not matter. The frames fit the parser's limits, and the hub's decoder undoes the
  -- server's encoder on the hello and on these snapshots.
  pub read_events-handle_live :
      (enc_hello : Hello F → Bytes) (enc : Snapshot F → Bytes)
      (dec_hello : Bytes → Option (Hello F)) (dec : Bytes → Option (Snapshot F)) (p : Peer) (t0 : ℕ)
      (h : Hello F) (ws : List (ℕ × Option (Snapshot F))) (c : Client F)
      → dec_hello (enc_hello h) ≡ some h
      → All (Decodes enc dec) ws
      → All (λ f. Fits f.1) (frames_of enc_hello enc t0 h ws)
      → (map (λ l. l.1) (lines_of (frames_of enc_hello enc t0 h ws))
          ≡ split_lines (
              written
                (handle_live
                  (λ g. some (enc_hello g))
                  (λ s. some (enc s))
                  true
                  h
                  true
                  (map wake_of ws)).1))
        × (read_events dec_hello dec p (lines_of (frames_of enc_hello enc t0 h ws)) start c
            ≡ (apply_hello p h t0 c >>= set_online p true >>= follow p ws))
  unfolding handle_live start_sse send_event go_on deliver
  read_events-handle_live enc_hello enc dec_hello dec p t0 h ws c dh ds fits =
      let (cut, read) =
        read_events-written dec_hello dec p (frames_of enc_hello enc t0 h ws) c fits in
      (
        cut
            ∙ ap (λ ms. split_lines (written (event (bytes "hello") (enc_hello h) ∷ ms)))
                (sym (live_loop_lem (λ g. some (enc_hello g)) enc ws)),
        read
            ∙ ap (λ o. o >>= deliver dec_hello dec p (map (frame_of enc) ws))
                (hello_lem enc_hello dec_hello dec p t0 h c dh)
            ∙ >>=-ext (apply_hello p h t0 c >>= set_online p true) _ (follow p ws)
                (λ c'. deliver-follow enc dec_hello dec p ws c' ds),
      )
