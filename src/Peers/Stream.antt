-- ===== src/Peers/Stream.antt =====
-- internal/peers/sse.go: the parser of a peer's event stream. bufio.Scanner is its lines and its
-- limit on a line; json.Unmarshal is an argument, with `none` for its error. The stall watchdog is a
-- matter of time only: it ends the lines.
pub mod RoundTrip
pub mod Mirror
mod Examples
use owlwatch.Prelude.{
  ℕ, ◌+◌, Bool, true, false, List, [], ◌∷◌, ◌++◌, Option, none, some, ltb, ◌==◌, if◌then◌else◌,
  length, Bytes, bytes, same, cut_prefix, has_prefix, ◌>>=◌,
}
use owlwatch.Metrics.{Snapshot}
use owlwatch.Peers.{Peer}
use owlwatch.Peers.Client.{Client, Hello, apply_hello, apply_snapshot, set_online}

abbrev pub max_event_bytes : ℕ
max_event_bytes = 131072

push_byte : ℕ → List Bytes → List Bytes
push_byte b [] = (b ∷ []) ∷ []
push_byte b (l ∷ ls) = (b ∷ l) ∷ ls

-- bufio.ScanLines before a trailing carriage return is dropped: the last line need not be ended.
unfoldable pub split_lines : Bytes → List Bytes
unfolding push_byte
split_lines [] = []
split_lines (b ∷ s) = let rest = split_lines s in if b == 10 then [] ∷ rest else push_byte b rest

-- One trailing carriage return is dropped.
unfoldable pub trim_cr : Bytes → Bytes
trim_cr [] = []
trim_cr (b ∷ []) = if b == 13 then [] else b ∷ []
trim_cr (b ∷ c ∷ s) = b ∷ trim_cr (c ∷ s)

-- `event, data`
pub record Reader : Type 0 where
  pub event : Bytes
  pub data_bytes : Bytes

abbrev pub start : Reader
start = record { event = []; data_bytes = [] }

-- `trimFieldValue`
unfoldable pub trim_field_value : Bytes → Bytes
trim_field_value v = elim (cut_prefix v (bytes " ")) [ none ↦ v | some rest ↦ rest ]

-- What one line does: the connection is dropped, or the parser goes on, after it has dispatched an
-- event or not.
pub data Fed : Type 0 where
  drop_connection : Fed
  read_on : Reader → Fed
  dispatched : Bytes → Bytes → Fed

unfoldable pub add_data : Bytes → Reader → Fed
add_data value rd =
    if ltb max_event_bytes (length rd.data_bytes + length value + 1)
    then drop_connection
    else if ltb 0 (length rd.data_bytes)
    then read_on (record rd { data_bytes = rd.data_bytes ++ 10 ∷ value })
    else read_on (record rd { data_bytes = rd.data_bytes ++ value })

-- A line that is not blank.
unfoldable pub feed_field : Bytes → Reader → Fed
unfolding add_data trim_field_value
feed_field line rd =
    if has_prefix line (bytes ":") then read_on rd else elim (cut_prefix line (bytes "event:")) [
      | some rest ↦ read_on (record rd { event = trim_field_value rest })
      | none ↦ elim (cut_prefix line (bytes "data:")) [
        | some rest ↦ add_data (trim_field_value rest) rd
        | none ↦ read_on rd
      ]
    ]

-- The switch of `readEvents`, on a line without its end.
unfoldable pub feed : Bytes → Reader → Fed
unfolding feed_field
feed [] rd =
    if ltb 0 (length rd.data_bytes) then dispatched rd.event rd.data_bytes else read_on start
feed (b ∷ line) rd = feed_field (b ∷ line) rd

module _ {F : Type 0} (decode_hello : Bytes → Option (Hello F))
    (decode_snapshot : Bytes → Option (Snapshot F)) where
  -- `dispatch` at the time `now`. An event of another name is ignored, one that cannot be decoded is
  -- logged and skipped.
  unfoldable pub dispatch : Peer → Bytes → Bytes → ℕ → Client F → Option (Client F)
  dispatch p event body now c =
      if same event (bytes "hello")
      then elim (decode_hello body) [
        | none ↦ some c
        | some hello ↦ apply_hello p hello now c >>= set_online p true
      ]
      else if same event (bytes "snapshot")
      then elim (decode_snapshot body) [ none ↦ some c | some snap ↦ apply_snapshot p snap now c ]
      else some c

  -- `readEvents` over the lines of a stream, each with the time at which it is read, to the end of
  -- the stream, a line that is too long for the scanner, or an event that is too large.
  unfoldable pub read_events : Peer → List (ℕ × Bytes) → Reader → Client F → Option (Client F)
  unfolding feed dispatch
  read_events p [] rd c = some c
  read_events p ((now, raw) ∷ rest) rd c = elim (ltb (length raw) max_event_bytes) [
    | false ↦ some c
    | true ↦ elim (feed (trim_cr (trim_cr raw)) rd) [
      | drop_connection ↦ some c
      | read_on rd' ↦ read_events p rest rd' c
      | dispatched event body ↦ dispatch p event body now c >>= λ c'. read_events p rest start c'
    ]
  ]
