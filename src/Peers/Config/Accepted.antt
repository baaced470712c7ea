-- ===== src/Peers/Config/Accepted.antt =====
-- internal/peers/peers.go: the names and ids in the result of `ParsePeers`.
use owlwatch.Prelude.{
  ◌≤◌, ◌≡◌, ◌⊎◌, inl, inr, refl, sym, ap, subst, ◌∙◌, arith, true, false, List, [], ◌∷◌, ◌++◌,
  Option, ltb, ltb→ge, length, Bytes, same, to_lower, All, All-append, Bool-cases, Option-cases,
}
use owlwatch.Peers.{Peer}
use owlwatch.Peers.Config.{
  Error, Parsed, ok, failed, Url, trim_space, cut, split, valid_id, reserved, contains,
  parse_base_url, named_peer, parse_pair, parse_entry, parse_entries, parse_peers,
}

-- The id is the lowered name, matches the pattern, and is not one of the hub's own.
abbrev pub Named : Peer → Type 0
Named p = (valid_id p.id ≡ true) × (reserved p.id ≡ false) × (p.id ≡ to_lower p.name)

-- No two peers have the same id.
abbrev pub Distinct : List Peer → Type 0
Distinct [] = Unit
Distinct (p ∷ ps) = All (λ q. same p.id q.id ≡ false) ps × Distinct ps

ok-inj : {A : Type 0} {a b : A} → ok a ≡ ok b → a ≡ b
ok-inj e = cc

true≢false : true ≡ false → ⊥
true≢false e = absurd cc

failed≢ok : {A : Type 0} (e : Error) (a : A) → failed e ≡ ok a → ⊥
failed≢ok e a h = absurd cc

pub Parsed-cases :
    {A : Type 0} (r : Parsed A) → ((e : Error) × (r ≡ failed e)) ⊎ ((a : A) × (r ≡ ok a))
Parsed-cases (failed e) = inl (e, refl)
Parsed-cases (ok a) = inr (a, refl)

Distinct-snoc :
    (ps : List Peer) (p : Peer)
    → Distinct ps
    → All (λ q. same q.id p.id ≡ false) ps
    → Distinct (ps ++ p ∷ [])
Distinct-snoc [] p d n = (tt, tt)
Distinct-snoc (q ∷ ps) p (dq, d) (nq, n) =
    (All-append (λ r. same q.id r.id ≡ false) ps (p ∷ []) dq (nq, tt), Distinct-snoc ps p d n)

-- The ids of the peers so far are all in the set of ids seen.
abbrev Seen : List Bytes → List Peer → Type 0
Seen seen ps = (id : Bytes) → contains seen id ≡ false → All (λ q. same q.id id ≡ false) ps

Seen-cons :
    (seen : List Bytes) (ps : List Peer) (p : Peer)
    → Seen seen ps
    → Seen (p.id ∷ seen) (ps ++ p ∷ [])
unfolding contains
Seen-cons seen ps p s id h = elim (Bool-cases (same p.id id)) [
  | inl e ↦ absurd (true≢false (simp (e, contains) at h))
  | inr e ↦
      All-append (λ q. same q.id id ≡ false) ps (p ∷ []) (s id (simp (e, contains) at h)) (e, tt)
]

abbrev pub Acceptable : List Peer → Type 0
Acceptable ps = All Named ps × Distinct ps × (length ps ≤ 32)

assemble :
    (seen : List Bytes) (name : Bytes) (p : Peer)
    → valid_id (to_lower name) ≡ true
    → reserved (to_lower name) ≡ false
    → contains seen (to_lower name) ≡ false
    → (p.id ≡ to_lower name) × (p.name ≡ name)
    → Named p × (contains seen p.id ≡ false)
assemble seen name p v r c (e, n) =
    ((ap valid_id e ∙ v, ap reserved e ∙ r, e ∙ ap to_lower (sym n)), ap (contains seen) e ∙ c)

module _ (parse_url : Bytes → Option Url) where
  named_peer_lem :
      (id name url_text token : Bytes) (p : Peer)
      → named_peer parse_url id name url_text token ≡ ok p
      → (p.id ≡ id) × (p.name ≡ name)
  unfolding named_peer
  named_peer_lem id name url_text token p h =
      elim (Parsed-cases (parse_base_url parse_url (trim_space url_text))) [
        | inl (e, is) ↦ absurd (failed≢ok e p (simp (is, named_peer) at h))
        | inr (url, is) ↦
            let e = ok-inj (simp (is, named_peer) at h) in
            (sym (ap (λ (q : Peer). q.id) e), sym (ap (λ (q : Peer). q.name) e))
      ]

  parse_pair_lem :
      (token : Bytes) (seen : List Bytes) (name rest : Bytes) (p : Peer)
      → parse_pair parse_url token seen name rest ≡ ok p
      → Named p × (contains seen p.id ≡ false)
  unfolding parse_pair
  parse_pair_lem token seen name rest p h = elim (Bool-cases (valid_id (to_lower name))) [
    | inr v ↦ absurd (failed≢ok _ p (simp (v, parse_pair) at h))
    | inl v ↦ elim (Bool-cases (reserved (to_lower name))) [
      | inl r ↦ absurd (failed≢ok _ p (simp (v, r, parse_pair) at h))
      | inr r ↦ elim (Bool-cases (contains seen (to_lower name))) [
        | inl c ↦ absurd (failed≢ok _ p (simp (v, r, c, parse_pair) at h))
        | inr c ↦ elim (Option-cases (cut 124 (trim_space rest))) [
          | inl n ↦ assemble seen name p v r c (
              named_peer_lem (to_lower name) name (trim_space rest) token p
                (simp (v, r, c, n, parse_pair) at h))
          | inr ((u, t), n) ↦ assemble seen name p v r c (
              named_peer_lem (to_lower name) name u (trim_space t) p
                (simp (v, r, c, n, parse_pair) at h))
        ]
      ]
    ]
  ]

  parse_entry_lem :
      (token : Bytes) (seen : List Bytes) (entry : Bytes) (p : Peer)
      → parse_entry parse_url token seen entry ≡ ok p
      → Named p × (contains seen p.id ≡ false)
  unfolding parse_entry
  parse_entry_lem token seen entry p h = elim (Option-cases (cut 61 entry)) [
    | inl n ↦ absurd (failed≢ok _ p (simp (n, parse_entry) at h))
    | inr ((name, rest), n) ↦
        parse_pair_lem token seen (trim_space name) rest p (simp (n, parse_entry) at h)
  ]

  parse_entries_lem :
      (token : Bytes) (seen : List Bytes) (peers : List Peer) (entries : List Bytes)
      (out : List Peer)
      → Seen seen peers
      → Acceptable peers
      → parse_entries parse_url token seen peers entries ≡ ok out
      → Acceptable out
  unfolding parse_entries
  parse_entries_lem token seen peers [] out s a h = subst Acceptable (ok-inj h) a
  parse_entries_lem token seen peers (raw ∷ rest) out s a h =
      elim (Bool-cases (same (trim_space raw) [])) [
        | inl blank ↦
            parse_entries_lem token seen peers rest out s a (simp (blank, parse_entries) at h)
        | inr full ↦ elim (Parsed-cases (parse_entry parse_url token seen (trim_space raw))) [
          | inl (e, is) ↦ absurd (failed≢ok e out (simp (full, is, parse_entries) at h))
          | inr (p, is) ↦ elim (Bool-cases (ltb 32 (length (peers ++ p ∷ [])))) [
            | inl many ↦ absurd (failed≢ok _ out (simp (full, is, many, parse_entries) at h))
            | inr few ↦
                let (n, fresh) = parse_entry_lem token seen (trim_space raw) p is in
                parse_entries_lem token (p.id ∷ seen) (peers ++ p ∷ []) rest out
                  (Seen-cons seen peers p s)
                  (
                    All-append Named peers (p ∷ []) a.0 (n, tt),
                    Distinct-snoc peers p a.1 (s p.id fresh),
                    ltb→ge 32 (length (peers ++ p ∷ [])) few,
                  )
                  (simp (full, is, few, parse_entries) at h)
          ]
        ]
      ]

  -- Where OWLWATCH_PEERS is accepted, it names at most 32 peers; each has an id of 1 to 32 bytes
  -- from a-z, 0-9 and the dash, which is its name in lower case and is neither "local" nor
  -- "overview"; and no two peers have the same id.
  pub parse_peers-Acceptable :
      (env default_token : Bytes) (peers : List Peer)
      → parse_peers parse_url env default_token ≡ ok peers
      → Acceptable peers
  unfolding parse_peers
  parse_peers-Acceptable env token peers h = elim (Bool-cases (same (trim_space env) [])) [
    | inl blank ↦ subst Acceptable (ok-inj (simp (blank, parse_peers) at h)) (tt, tt, omega arith)
    | inr full ↦
        parse_entries_lem token [] [] (split 44 env) peers (λ id c. tt) (tt, tt, omega arith)
          (simp (full, parse_peers) at h)
  ]
