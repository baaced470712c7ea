-- ===== src/Ring/Push.antt =====
-- internal/peers/client.go: `push` against a bounded list.
use owlwatch.Prelude.{
  ℕ, suc, ◌+◌, ◌-◌, ◌%◌, ◌≤◌, ◌<◌, ◌≡◌, ◌≢◌, sym, ap, ◌∙◌, arith, List, [], ◌∷◌, ◌++◌, some, ltb,
  lt→ltb, ge→ltb, drop, if◌then◌else◌, length, get_elem?, set, last, gather, gather-ext,
  gather-snoc, length-gather, length-set, length-append, get_elem?-set_self, get_elem?-set_ne,
  >>=-eq-some, some-inj, dec_lt,
}
use owlwatch.Ring.{Ring, at, snapshots, push, write}
use owlwatch.Ring.Contents.{IsValid, mod_once}

abbrev start_at : ℕ → ℕ → ℕ → ℕ
start_at h n c = if ltb h n then h + c - n else h - n

module _ (h n c : ℕ) where
  room_start : h < c → n < c → start_at ((h + 1) % c) (n + 1) c ≡ start_at h n c
  room_start p q = ground (arith, mod_once (h + 1) c)

  room_old : (i : ℕ) → h < c → n < c → i < n → (start_at h n c + i) % c ≢ h
  room_old i p q lt = ground (arith, mod_once (h + c - n + i) c, mod_once (h - n + i) c)

  room_new : h < c → n < c → (start_at h n c + n) % c ≡ h
  room_new p q = ground (arith, mod_once (h + c - n + n) c, mod_once (h - n + n) c)

module _ (h c : ℕ) where
  full_old : (i : ℕ) → h < c → suc i < c → (start_at h c c + suc i) % c ≢ h
  full_old i p q = ground (arith, mod_once (h + c - c + suc i) c)

  full_next :
      (i : ℕ)
      → h < c
      → suc i < c
      → (start_at ((h + 1) % c) c c + i) % c ≡ (start_at h c c + suc i) % c
  full_next i p q = ground (
    arith,
    mod_once (h + 1) c,
    mod_once (h + c - c + suc i) c,
    mod_once ((h + 1) % c + c - c + i) c,
  )

  full_new : (n : ℕ) → h < c → suc n ≡ c → (start_at ((h + 1) % c) c c + n) % c ≡ h
  full_new n p q = ground (arith, mod_once (h + 1) c, mod_once ((h + 1) % c + c - c + n) c)

module _ {ℓ} {A : Type ℓ} where
  -- What `push` leaves behind when it does not panic.
  abbrev pushed : Ring A → A → Ring A
  pushed r x = record {
    buf = set r.buf r.head x;
    head = (r.head + 1) % length r.buf;
    count = if ltb r.count (length r.buf) then r.count + 1 else r.count;
  }

  push-eq-pushed : (r : Ring A) (x : A) → IsValid r → push r x ≡ some (pushed r x)
  unfolding push write
  push-eq-pushed r x v = rw (lt→ltb _ _ v.head_in, length-set r.buf r.head x)

  pushed-IsValid : (r : Ring A) (x : A) → IsValid r → IsValid (pushed r x)
  pushed-IsValid r x v = ground (arith, length-set r.buf r.head x)

  -- Reading slot `i` of the buffer after the write at `h`.
  read_other :
      (buf : List A) (h : ℕ) (x : A) (i j : ℕ)
      → j ≢ h
      → i ≡ j
      → get_elem? (set buf h x) i ≡ get_elem? buf j
  read_other buf h x i j ne e =
      get_elem?-set_ne buf h i x (λ p. ne (sym e ∙ sym p)) ∙ ap (get_elem? buf) e

  read_self :
      (buf : List A) (h : ℕ) (x : A) (i : ℕ)
      → h < length buf
      → i ≡ h
      → get_elem? (set buf h x) i ≡ some x
  read_self buf h x i lt e = ap (get_elem? (set buf h x)) e ∙ get_elem?-set_self buf h x lt

  at-pushed_room :
      (r : Ring A) (x : A) (i : ℕ)
      → IsValid r
      → r.count < length r.buf
      → i < r.count
      → at (pushed r x) i ≡ at r i
  at-pushed_room r x i v room lt =
      rw (length-set r.buf r.head x, lt→ltb _ _ room)
        (read_other r.buf r.head x _ _ (room_old r.head r.count _ i v.head_in room lt)
          (ap (λ k. (k + i) % length r.buf) (room_start r.head r.count _ v.head_in room)))

  at-pushed_room_last :
      (r : Ring A) (x : A) → IsValid r → r.count < length r.buf → at (pushed r x) r.count ≡ some x
  at-pushed_room_last r x v room =
      rw (length-set r.buf r.head x, lt→ltb _ _ room)
        (read_self r.buf r.head x _ v.head_in (
          ap (λ k. (k + r.count) % length r.buf) (room_start r.head r.count _ v.head_in room)
          ∙ room_new r.head r.count _ v.head_in room))

  at-pushed_full :
      (r : Ring A) (x : A) (i : ℕ)
      → IsValid r
      → r.count ≡ length r.buf
      → suc i < r.count
      → at (pushed r x) i ≡ at r (suc i)
  at-pushed_full r x i v full lt =
      rw (length-set r.buf r.head x, ge→ltb r.count (length r.buf) (omega arith), full)
        (read_other r.buf r.head x _ _ (full_old r.head _ i v.head_in (omega arith))
          (full_next r.head _ i v.head_in (omega arith)))

  at-pushed_full_last :
      (r : Ring A) (x : A) (n : ℕ)
      → IsValid r
      → r.count ≡ length r.buf
      → suc n ≡ r.count
      → at (pushed r x) n ≡ some x
  at-pushed_full_last r x n v full e =
      rw (length-set r.buf r.head x, ge→ltb r.count (length r.buf) (omega arith), full)
        (read_self r.buf r.head x _ v.head_in (full_new r.head _ n v.head_in (omega arith)))

  pub last_short : (n : ℕ) (xs : List A) → length xs ≤ n → last n xs ≡ xs
  last_short n xs h = ap (λ k. drop k xs) (let e : length xs - n ≡ 0 = omega arith in e)

  snapshots-pushed_room :
      (r : Ring A) (x : A) (xs : List A)
      → IsValid r
      → r.count < length r.buf
      → snapshots r ≡ some xs
      → snapshots (pushed r x) ≡ some (last (length r.buf) (xs ++ x ∷ []))
  unfolding snapshots
  snapshots-pushed_room r x xs v room h =
      let n : length xs ≡ r.count = length-gather (at r) 0 r.count h in
      let same_old =
        gather-ext (at (pushed r x)) (at r) 0 0 r.count
          (λ k lt. at-pushed_room r x (0 + k) v room (omega arith)) in
      let fits : length (xs ++ x ∷ []) ≤ length r.buf = omega (arith, length-append xs (x ∷ [])) in
      let more : (pushed r x).count ≡ suc r.count = ground arith in
      let new = gather-snoc (at (pushed r x)) 0 r.count (same_old ∙ h) (
        ap (at (pushed r x)) (let e : 0 + r.count ≡ r.count = omega arith in e)
        ∙ at-pushed_room_last r x v room) in
      ap (gather (at (pushed r x)) 0) more ∙ new ∙ ap some (sym (last_short (length r.buf) _ fits))

  snapshots-pushed_full :
      (r : Ring A) (x : A) (xs : List A) (n : ℕ)
      → IsValid r
      → r.count ≡ length r.buf
      → r.count ≡ suc n
      → snapshots r ≡ some xs
      → snapshots (pushed r x) ≡ some (last (length r.buf) (xs ++ x ∷ []))
  unfolding snapshots
  snapshots-pushed_full r x xs n v full e h =
      let (y, first, h1) = >>=-eq-some (at r 0) _ (ap (gather (at r) 0) (sym e) ∙ h) in
      let (ys, rest, h2) = >>=-eq-some (gather (at r) (0 + 1) n) _ h1 in
      let len : length ys ≡ n = length-gather (at r) (0 + 1) n rest in
      let shifted = gather-ext (at (pushed r x)) (at r) 0 (0 + 1) n (λ k lt.
        at-pushed_full r x (0 + k) v full (omega arith)
        ∙ ap (at r) (let e' : suc (0 + k) ≡ 0 + 1 + k = omega arith in e')) in
      let new =
        gather-snoc (at (pushed r x)) 0 n (shifted ∙ rest)
          (at-pushed_full_last r x (0 + n) v full (omega arith)) in
      let same_count : (pushed r x).count ≡ suc n = ground arith in
      let over : suc (length (ys ++ x ∷ [])) - length r.buf ≡ 1 =
        omega (arith, length-append ys (x ∷ [])) in
      ap (gather (at (pushed r x)) 0) same_count
      ∙ new
      ∙ ap some (ap (λ k. drop k (y ∷ (ys ++ x ∷ []))) (sym over))
      ∙ ap (λ (l : List A). some (last (length r.buf) (l ++ x ∷ []))) (some-inj h2)

  -- In a valid ring `push` does not panic, keeps the ring valid and its size, and leaves exactly
  -- the newest entries, oldest first: the old ones followed by the new one, cut to the ring's size
  -- from the left.
  pub push_refines :
      (r : Ring A) (x : A) (xs : List A)
      → IsValid r
      → snapshots r ≡ some xs
      → (r' : Ring A) × (push r x ≡ some r')
        × IsValid r'
        × (length r'.buf ≡ length r.buf)
        × (snapshots r' ≡ some (last (length r.buf) (xs ++ x ∷ [])))
  push_refines r x xs v h = (
    pushed r x,
    push-eq-pushed r x v,
    pushed-IsValid r x v,
    length-set r.buf r.head x,
    elim (dec_lt r.count (length r.buf)) [
      | yes room ↦ snapshots-pushed_room r x xs v room h
      | no full ↦ snapshots-pushed_full r x xs (r.count - 1) v (omega arith) (omega arith) h
    ],
  )
