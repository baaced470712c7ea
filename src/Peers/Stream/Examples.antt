-- ===== src/Peers/Stream/Examples.antt =====
-- internal/peers/sse.go at a stream with a hello, a heartbeat and a snapshot.
use owlwatch.Prelude.{
  ℕ, ◌≡◌, refl, arith, List, [], ◌∷◌, map, Option, none, some, Bytes, bytes, ◌>>=◌, true,
}
use owlwatch.Metrics.{Snapshot}
use owlwatch.Server.Sse.{handle_live, Frame, event, ping, written}
use owlwatch.Peers.Client.{Client, Hello, new_client, apply_hello, set_online}
use owlwatch.Peers.Stream.{split_lines, read_events, start}
use owlwatch.Peers.Stream.Mirror.{frames_of, wake_of, follow, read_events-handle_live}
use owlwatch.Peers.Stream.RoundTrip.{lines_of, deliver, read_events-written}
use owlwatch.Peers.Client.Sample.{zero, den, greeting, snapshot_at}

-- A decoder for the one hello, and one that reads the time of a sample from its first byte.
abbrev decode_hello : Bytes → Option (Hello ℕ)
decode_hello body = some greeting

abbrev decode_snapshot : Bytes → Option (Snapshot ℕ)
decode_snapshot [] = none
decode_snapshot (b ∷ body) = some (snapshot_at b 50)

abbrev stream_frames : List (ℕ × Frame)
stream_frames =
    (10, event (bytes "hello") (bytes "{}"))
    ∷ (20, ping)
    ∷ (30, event (bytes "snapshot") (bytes "{1}"))
    ∷ []

abbrev fleet : Client ℕ
fleet = new_client zero (den ∷ [])

read_events-written_example :
    (map (λ l. l.1) (lines_of stream_frames) ≡ split_lines (written (map (λ f. f.1) stream_frames)))
    × (read_events decode_hello decode_snapshot den (lines_of stream_frames) start fleet
        ≡ deliver decode_hello decode_snapshot den stream_frames fleet)
read_events-written_example =
    read_events-written decode_hello decode_snapshot den stream_frames fleet (
      (
        (refl, (refl, (refl, (refl, (refl, tt))))),
        (refl, (refl, tt)),
        omega arith,
        omega arith,
        omega arith,
      ),
      (
        tt,
        (
          (
            (refl, (refl, (refl, (refl, (refl, (refl, (refl, (refl, tt)))))))),
            (refl, (refl, (refl, tt))),
            omega arith,
            omega arith,
            omega arith,
          ),
          tt,
        ),
      ),
    )

-- An encoder of samples by their time, which the decoder reads back.
abbrev encode_hello : Hello ℕ → Bytes
encode_hello h = bytes "{}"

abbrev encode : Snapshot ℕ → Bytes
encode s = s.ts ∷ []

abbrev sampled : List (ℕ × Option (Snapshot ℕ))
sampled = (20, none) ∷ (30, some (snapshot_at 60 50)) ∷ []

read_events-handle_live_example :
    (map (λ l. l.1) (lines_of (frames_of encode_hello encode 10 greeting sampled))
      ≡ split_lines (
          written
            (handle_live
              (λ g. some (encode_hello g))
              (λ s. some (encode s))
              true
              greeting
              true
              (map wake_of sampled)).1))
    × (read_events decode_hello decode_snapshot den
          (lines_of (frames_of encode_hello encode 10 greeting sampled))
          start
          fleet
        ≡ (apply_hello den greeting 10 fleet >>= set_online den true >>= follow den sampled))
read_events-handle_live_example =
    read_events-handle_live encode_hello encode decode_hello decode_snapshot den 10 greeting sampled
      fleet refl (tt, (refl, tt))
      (
        (
          (refl, (refl, (refl, (refl, (refl, tt))))),
          (refl, (refl, tt)),
          omega arith,
          omega arith,
          omega arith,
        ),
        (
          tt,
          (
            (
              (refl, (refl, (refl, (refl, (refl, (refl, (refl, (refl, tt)))))))),
              (refl, tt),
              omega arith,
              omega arith,
              omega arith,
            ),
            tt,
          ),
        ),
      )
