-- ===== src/Peers/Client/Examples.antt =====
-- internal/peers/client.go at a hub with two peers.
use owlwatch.Prelude.{
  ℕ, ◌≡◌, inl, inr, refl, true, false, List, [], ◌∷◌, map, some, bytes, same, lookup, insert, All,
}
use owlwatch.Metrics.{ServerSummary}
use owlwatch.Ring.{snapshots}
use owlwatch.Ring.Contents.{snapshots-empty}
use owlwatch.Fanout
use owlwatch.Fanout.{Fanout, broadcast}
use owlwatch.Peers.Client.{Client, ring_cap, fresh_state, fresh_states, new_client, servers}
use owlwatch.Peers.Client.Invariant.{IsValid, new_client-IsValid}
use owlwatch.Peers.Client.Sample.{snapshot_at, zero, den, attic, greeting, hub}
use owlwatch.Peers.Client.Fleet.{
  Update, goes, greets, samples, registry, apply_all, Reports, servers_lem, apply_all-new_client,
}

hub-IsValid : IsValid hub
hub-IsValid = new_client-IsValid zero (den ∷ attic ∷ [])

hub-attic : lookup (bytes "attic") hub.states ≡ some (fresh_state zero attic)
unfolding new_client fresh_states fresh_state lookup insert same
hub-attic = refl

attic-snapshots : snapshots (fresh_state zero attic).ring ≡ some []
unfolding fresh_state
attic-snapshots = snapshots-empty zero ring_cap

abbrev traffic : List (Update ℕ)
traffic =
    registry Fanout.subscribes
    ∷ greets den greeting 3500
    ∷ goes den true
    ∷ samples den (snapshot_at 5000 30) 5100
    ∷ registry (Fanout.receives 0)
    ∷ goes attic false
    ∷ goes den false
    ∷ registry Fanout.shuts_down
    ∷ samples den (snapshot_at 7000 40) 7100
    ∷ []

apply_all-new_client_example :
    (c : Client ℕ) × (sums : List (ServerSummary ℕ)) × (apply_all traffic
        (new_client zero (den ∷ attic ∷ []))
      ≡ some c)
    × IsValid c
    × (servers c ≡ some sums)
    × (map (λ s. s.id) sums ≡ bytes "den" ∷ bytes "attic" ∷ [])
apply_all-new_client_example = apply_all-new_client zero (den ∷ attic ∷ []) traffic (
  tt,
  (inl refl, (inl refl, (inl refl, (tt, (inr (inl refl), (inl refl, (tt, (inl refl, tt)))))))),
)

servers_example :
    (sums : List (ServerSummary ℕ)) × (servers hub ≡ some sums)
    × (map (λ s. s.id) sums ≡ map (λ p. p.id) hub.peers)
    × (map (λ s. s.name) sums ≡ map (λ p. p.name) hub.peers)
    × All (Reports hub.states) sums
servers_example = servers_lem hub hub-IsValid
