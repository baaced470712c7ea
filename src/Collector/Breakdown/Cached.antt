-- ===== src/Collector/Breakdown/Cached.antt =====
-- internal/collector/disk_usage.go: the size of the cache, and how long it answers.
use owlwatch.Prelude.{
  ℕ, ◌+◌, ◌≤◌, ◌<◌, ◌≡◌, ◌⊎◌, inl, inr, refl, sym, subst, arith, Bool, true, false, ◌||◌, List, [],
  ◌∷◌, none, some, ltb, ltb→lt, ltb→ge, if◌then◌else◌, length, Bytes, same, same_refl, lookup,
  insert, delete, lookup-insert_self, lookup-insert, lookup-delete, same→eq, ◌≢◌, ap, ◌∙◌, All,
  All-map, Member, Bool-cases, Option-cases,
}
use owlwatch.Metrics.{DiskUsage}
use owlwatch.Collector.Breakdown.{
  Cache, CacheEntry, cached_disk_usage, oldest, evict, store_disk_usage, cache_ttl, cache_cap,
}

unnamed : (s : Bytes) → s ≢ [] → same s [] ≡ false
unnamed s ne = elim (Bool-cases (same s [])) [ inl e ↦ absurd (ne (same→eq s [] e)) | inr e ↦ e ]

after_miss :
    {A : Type 0} {b : Bool} {x z : A} (y : A) → b ≡ false → x ≡ (if b then y else z) → x ≡ z
after_miss y ne e = e ∙ rw ne refl

clash : {b : Bool} → b ≡ false → b ≡ true → ⊥
clash e h = cc

module _ {V : Type 0} where
  length-insert : (k : Bytes) (v : V) (m : List (Bytes × V)) → length (insert k v m) ≤ length m + 1
  unfolding insert
  length-insert k v [] = omega arith
  length-insert k v ((j, w) ∷ m) = ground (arith, length-insert k v m)

  length-delete_any : (k : Bytes) (m : List (Bytes × V)) → length (delete k m) ≤ length m
  unfolding delete
  length-delete_any k [] = omega arith
  length-delete_any k ((j, w) ∷ m) = ground (arith, length-delete_any k m)

  -- `k` is a key of the map.
  HasKey : Bytes → List (Bytes × V) → Type 0
  HasKey k [] = ⊥
  HasKey k ((j, w) ∷ m) = (same j k ≡ true) ⊎ HasKey k m

  length-delete :
      (k : Bytes) (m : List (Bytes × V)) → HasKey k m → length (delete k m) + 1 ≡ length m
  unfolding delete HasKey
  length-delete k [] h = absurd h
  length-delete k ((j, w) ∷ m) h = elim (Bool-cases (same j k)) [
    | inl e ↦ rw (e, delete) (omega arith)
    | inr e ↦ elim h [
      | inl is ↦ absurd (clash e is)
      | inr later ↦ rw (e, delete) (omega (arith, length-delete k m later))
    ]
  ]

module _ {F : Type 0} where
  oldest_here :
      (path key : Bytes) (at : ℕ) (entry : CacheEntry F) (cache : Cache F)
      → (same path [] || ltb entry.at at) ≡ true
      → oldest path at ((key, entry) ∷ cache) ≡ oldest key entry.at cache
  unfolding oldest
  oldest_here path key at entry cache e = rw (e, oldest) refl

  oldest_later :
      (path key : Bytes) (at : ℕ) (entry : CacheEntry F) (cache : Cache F)
      → (same path [] || ltb entry.at at) ≡ false
      → oldest path at ((key, entry) ∷ cache) ≡ oldest path at cache
  unfolding oldest
  oldest_later path key at entry cache e = rw (e, oldest) refl

  -- Among the entries, or the one to start from.
  oldest-HasKey :
      (path : Bytes) (at : ℕ) (cache : Cache F)
      → (oldest path at cache ≡ path) ⊎ HasKey (oldest path at cache) cache
  unfolding oldest HasKey
  oldest-HasKey path at [] = inl refl
  oldest-HasKey path at ((key, entry) ∷ cache) =
      let Fits : Bytes → Type 0 = λ k. (k ≡ path) ⊎ HasKey k ((key, entry) ∷ cache) in
      elim (Bool-cases (same path [] || ltb entry.at at)) [
        | inl e ↦
            subst Fits (sym (oldest_here path key at entry cache e))
              (elim (oldest-HasKey key entry.at cache) [
                | inl is ↦ inr (inl (subst (λ k. same key k ≡ true) (sym is) (same_refl key)))
                | inr later ↦ inr (inr later)
              ])
        | inr e ↦
            subst Fits (sym (oldest_later path key at entry cache e))
              (elim (oldest-HasKey path at cache) [ inl is ↦ inl is | inr later ↦ inr (inr later) ])
      ]

  first-HasKey : (cache : Cache F) → 0 < length cache → HasKey (oldest [] 0 cache) cache
  unfolding oldest HasKey same
  first-HasKey [] h = absurd (let no : ⊥ = omega arith in no)
  first-HasKey ((key, entry) ∷ cache) h = elim (oldest-HasKey key entry.at cache) [
    | inl is ↦ inl (subst (λ k. same key k ≡ true) (sym is) (same_refl key))
    | inr later ↦ inr later
  ]

  length-evict : (cache : Cache F) → length cache ≤ cache_cap → length (evict cache) + 1 ≤ cache_cap
  unfolding evict
  length-evict cache h = elim (Bool-cases (ltb (length cache) cache_cap)) [
    | inl e ↦ rw (e, evict) (ground (arith, ltb→lt (length cache) cache_cap e))
    | inr e ↦
        let full = ltb→ge (length cache) cache_cap e in
        rw (e, evict)
          (omega
            (arith, length-delete (oldest [] 0 cache) cache (first-HasKey cache (omega arith))))
  ]

  looked_up :
      (later : ℕ) (path : Bytes) (cache : Cache F)
      → length cache ≤ cache_cap
      → length (cached_disk_usage later path cache).1 ≤ cache_cap
  unfolding cached_disk_usage
  looked_up later path cache h = elim (Option-cases (lookup path cache)) [
    | inl e ↦ rw (e, cached_disk_usage) (omega (arith, length-delete_any path cache))
    | inr (entry, e) ↦ elim (Bool-cases (ltb later (entry.at + cache_ttl))) [
      | inl fresh ↦ rw (e, fresh, cached_disk_usage) h
      | inr old ↦ rw (e, old, cached_disk_usage) (omega (arith, length-delete_any path cache))
    ]
  ]

  answered :
      (now later : ℕ) (path : Bytes) (usage : DiskUsage F) (cache : Cache F)
      → lookup path cache ≡ some (record { at = now; usage = usage })
      → (cached_disk_usage later path cache).0
        ≡ (if ltb later (now + cache_ttl) then some usage else none)
  unfolding cached_disk_usage
  answered now later path usage cache e = elim (Bool-cases (ltb later (now + cache_ttl))) [
    | inl fresh ↦ rw (e, fresh, cached_disk_usage) refl
    | inr old ↦ rw (e, old, cached_disk_usage) refl
  ]

  -- An entry of the cache that is older than none.
  pub record IsOldest (k : Bytes) (cache : Cache F) : Type 0 where
    pub entry : CacheEntry F
    pub present : Member (k, entry) cache
    pub minimal : All (λ e. entry.at ≤ e.1.at) cache

  -- The best so far, or an older entry of the list; and no entry of the list is older.
  Chosen : Bytes → ℕ → Cache F → Bytes → Type 0
  Chosen path at cache k =
      (found : ℕ) × (((k ≡ path) × (found ≡ at))
        ⊎ ((entry : CacheEntry F) × Member (k, entry) cache × (entry.at ≡ found)))
      × (found ≤ at)
      × All (λ e. found ≤ e.1.at) cache

  oldest-Chosen :
      (path : Bytes) (at : ℕ) (cache : Cache F)
      → path ≢ []
      → All (λ e. e.0 ≢ []) cache
      → Chosen path at cache (oldest path at cache)
  unfolding oldest Chosen
  oldest-Chosen path at [] ne keys = (at, inl (refl, refl), omega arith, tt)
  oldest-Chosen path at ((key, entry) ∷ cache) ne (key_ne, keys) =
      elim (Bool-cases (ltb entry.at at)) [
        | inl e ↦
            let (found, from, low, all) = oldest-Chosen key entry.at cache key_ne keys in
            subst (Chosen path at ((key, entry) ∷ cache))
              (sym (oldest_here path key at entry cache (rw (unnamed path ne) e)))
              (
                found,
                elim from [
                  | inl (is, same_at) ↦ inr (entry, inl (ap (λ k. (k, entry)) is), sym same_at)
                  | inr (old, m, is) ↦ inr (old, inr m, is)
                ],
                omega (arith, low, ltb→lt entry.at at e),
                (low, all),
              )
        | inr e ↦
            let (found, from, low, all) = oldest-Chosen path at cache ne keys in
            subst (Chosen path at ((key, entry) ∷ cache))
              (sym (oldest_later path key at entry cache (rw (unnamed path ne) e)))
              (
                found,
                elim from [ inl is ↦ inl is | inr (old, m, is) ↦ inr (old, inr m, is) ],
                low,
                (omega (arith, low, ltb→ge entry.at at e), all),
              )
      ]

  oldest-IsOldest :
      (cache : Cache F)
      → 0 < length cache
      → All (λ e. e.0 ≢ []) cache
      → IsOldest (oldest [] 0 cache) cache
  unfolding oldest Chosen same
  oldest-IsOldest [] h keys = absurd (let no : ⊥ = omega arith in no)
  oldest-IsOldest ((key, entry) ∷ cache) h (ne, keys) =
      let (found, from, low, all) = oldest-Chosen key entry.at cache ne keys in
      elim from [
        | inl (is, same_at) ↦ record {
          entry = entry;
          present = inl (ap (λ k. (k, entry)) is);
          minimal = (omega arith, All-map (λ e h. omega (arith, h, same_at)) cache all);
        }
        | inr (old, m, is) ↦ record {
          entry = old;
          present = inr m;
          minimal = (omega (arith, low, is), All-map (λ e h. omega (arith, h, is)) cache all);
        }
      ]

  -- What a store may lose: the result for its own path, and an oldest one of a full cache.
  kept :
      (now : ℕ) (path other : Bytes) (usage : DiskUsage F) (cache : Cache F)
      → All (λ e. e.0 ≢ []) cache
      → (lookup other (store_disk_usage now path usage cache) ≡ lookup other cache)
        ⊎ (other ≡ path)
        ⊎ ((cache_cap ≤ length cache) × IsOldest other cache)
  unfolding store_disk_usage evict
  kept now path other usage cache keys =
      let new : CacheEntry F = record { at = now; usage = usage } in
      elim (Bool-cases (same path other)) [
        | inl hit ↦ inr (inl (sym (same→eq path other hit)))
        | inr miss ↦
            let stored : lookup other (insert path new (evict cache)) ≡ lookup other (evict cache) =
              after_miss _ miss (lookup-insert path other new (evict cache)) in
            elim (Bool-cases (ltb (length cache) cache_cap)) [
              | inl e ↦ inl (stored ∙ rw (e, evict) refl)
              | inr e ↦ elim (Bool-cases (same (oldest [] 0 cache) other)) [
                | inr spared ↦
                    inl (
                      stored ∙ rw (e, evict) (lookup-delete (oldest [] 0 cache) other cache spared))
                | inl gone ↦
                    let full = ltb→ge (length cache) cache_cap e in
                    inr (
                      inr (
                        full,
                        subst (λ k. IsOldest k cache) (same→eq (oldest [] 0 cache) other gone)
                            (oldest-IsOldest cache (omega (arith, full)) keys),
                      ))
              ]
            ]
      ]

  -- A cache of at most 256 results stays one, whatever is looked up or stored. A stored result answers
  -- for its path, as it is, until five minutes have passed, and then no more. A store changes what is
  -- kept for another path only in a full cache, and only for a path with an entry that none is older
  -- than. Paths are not empty, as filepath.Clean leaves them.
  pub store_disk_usage-cached :
      (now later : ℕ) (path other : Bytes) (usage : DiskUsage F) (cache : Cache F)
      → length cache ≤ cache_cap
      → All (λ e. e.0 ≢ []) cache
      → (length (store_disk_usage now path usage cache) ≤ cache_cap)
        × (length (cached_disk_usage later path cache).1 ≤ cache_cap)
        × ((cached_disk_usage later path (store_disk_usage now path usage cache)).0
            ≡ (if ltb later (now + cache_ttl) then some usage else none))
        × ((lookup other (store_disk_usage now path usage cache) ≡ lookup other cache)
            ⊎ (other ≡ path)
            ⊎ ((cache_cap ≤ length cache) × IsOldest other cache))
  unfolding store_disk_usage
  store_disk_usage-cached now later path other usage cache h keys = (
    omega (
      arith,
      length-insert path (record { at = now; usage = usage }) (evict cache),
      length-evict cache h,
    ),
    looked_up later path cache h,
    answered now later path usage _
        (lookup-insert_self path (record { at = now; usage = usage }) (evict cache)),
    kept now path other usage cache keys,
  )
