-- ===== src/Server/Recovery/Answers.antt =====
-- internal/server/middleware.go: what the client and the log see of a handler, panicking or not.
use owlwatch.Prelude.{
  ℕ, ◌≤◌, ◌≡◌, refl, sym, ap, ◌∙◌, arith, Bool, true, false, List, [], ◌∷◌, ◌++◌, subst, ◌==◌, All,
}
use mathlib.Core.List.{append_assoc, append-nil}
use owlwatch.Server.Recovery.{
  Write, header, body, End, returns, panics, aborts, Recorder, first_status, write, write_all,
  recovered, served, finish, write_error,
}

-- The status codes are final ones: no interim (1xx) header, and no 0.
abbrev pub Coded : Write → Type 0
Coded (header code) = 200 ≤ code
Coded body = Unit

-- The status of a response that sends no interim (1xx) header: that of its first write, or 200.
unfoldable pub status_of : List Write → ℕ
status_of [] = 200
status_of (header code ∷ ws) = code
status_of (body ∷ ws) = 200

-- What is sent for a handler's writes: a panic before the first write is a 500.
unfoldable pub answer_of : End → List Write → List Write
answer_of returns ws = ws
answer_of aborts ws = ws
answer_of panics [] = header 500 ∷ body ∷ []
answer_of panics (w ∷ ws) = w ∷ ws

unfoldable pub is_panic : End → Bool
is_panic returns = false
is_panic aborts = false
is_panic panics = true

unfoldable pub is_abort : End → Bool
is_abort returns = false
is_abort aborts = true
is_abort panics = false

zero_test : (n : ℕ) → 200 ≤ n → (n == 0) ≡ false
zero_test n h = ground arith

abbrev recorder : ℕ → List Write → Recorder
recorder c sent = record { status = c; sent = sent }

first_status-started : (c code : ℕ) → (c == 0) ≡ false → first_status c code ≡ c
unfolding first_status
first_status-started c code h = rw (h) refl

-- After a first status the recorder only passes on.
write_all-started :
    (ws : List Write) (c : ℕ) (sent : List Write)
    → (c == 0) ≡ false
    → write_all ws (recorder c sent) ≡ recorder c (sent ++ ws)
unfolding write_all write first_status
write_all-started [] c sent h = ap (recorder c) (sym (append-nil sent))
write_all-started (header code ∷ ws) c sent h =
    ap (λ n. write_all ws (recorder n (sent ++ header code ∷ []))) (first_status-started c code h)
    ∙ write_all-started ws c (sent ++ header code ∷ []) h
    ∙ ap (recorder c) (append_assoc sent (header code ∷ []) ws)
write_all-started (body ∷ ws) c sent h =
    ap (λ n. write_all ws (recorder n (sent ++ body ∷ []))) (first_status-started c 200 h)
    ∙ write_all-started ws c (sent ++ body ∷ []) h
    ∙ ap (recorder c) (append_assoc sent (body ∷ []) ws)

-- The recorder of a handler that has written.
write_all-first :
    (w : Write) (ws : List Write)
    → Coded w
    → (status_of (w ∷ ws) == 0) ≡ false
      × (write_all (w ∷ ws) (recorder 0 []) ≡ recorder (status_of (w ∷ ws)) (w ∷ ws))
unfolding write_all write first_status status_of
write_all-first (header code) ws h =
    (zero_test code h, write_all-started ws code (header code ∷ []) (zero_test code h))
write_all-first body ws h = (refl, write_all-started ws 200 (body ∷ []) refl)

-- What is made of a recorder that has a status.
finish-started :
    (e : End) (c : ℕ) (sent : List Write)
    → (c == 0) ≡ false
    → ((finish e (recorder c sent)).sent ≡ sent)
      × ((finish e (recorder c sent)).logged_status ≡ c)
      × ((finish e (recorder c sent)).stack_logged ≡ is_panic e)
      × ((finish e (recorder c sent)).raised ≡ is_abort e)
unfolding finish recovered is_panic is_abort
finish-started returns c sent h = (refl, rw (h) refl, refl, refl)
finish-started panics c sent h = (rw (h) refl, rw (h, h) refl, refl, refl)
finish-started aborts c sent h = (refl, rw (h) refl, refl, refl)

served-started :
    (w : Write) (ws : List Write) (e : End)
    → Coded w
    → ((served (w ∷ ws) e).sent ≡ w ∷ ws)
      × ((served (w ∷ ws) e).logged_status ≡ status_of (w ∷ ws))
      × ((served (w ∷ ws) e).stack_logged ≡ is_panic e)
      × ((served (w ∷ ws) e).raised ≡ is_abort e)
unfolding served
served-started w ws e h =
    let (nonzero, first) = write_all-first w ws h in
    subst
      (λ r.
        ((finish e r).sent ≡ w ∷ ws)
        × ((finish e r).logged_status ≡ status_of (w ∷ ws))
        × ((finish e r).stack_logged ≡ is_panic e)
        × ((finish e r).raised ≡ is_abort e))
      (sym first) (finish-started e (status_of (w ∷ ws)) (w ∷ ws) nonzero)

answered :
    (w : Write) (ws : List Write) (e : End)
    → Coded w
    → w ∷ ws ≡ answer_of e (w ∷ ws)
    → ((served (w ∷ ws) e).sent ≡ answer_of e (w ∷ ws))
      × ((served (w ∷ ws) e).logged_status ≡ status_of (served (w ∷ ws) e).sent)
      × ((served (w ∷ ws) e).stack_logged ≡ is_panic e)
      × ((served (w ∷ ws) e).raised ≡ is_abort e)
answered w ws e h same_answer =
    let (sent, logged, stack, raised) = served-started w ws e h in
    (sent ∙ same_answer, logged ∙ ap status_of (sym sent), stack, raised)

-- For a handler that sends final status codes only (200 and above) and then returns, panics or raises
-- http.ErrAbortHandler: what is passed on to net/http are its writes, or a 500 with a body if it panics
-- before it writes; the log line has the status that the first of these sets, or 200 if there are
-- none; the stack is logged exactly for a panic, and exactly http.ErrAbortHandler is raised again (net/http
-- then cuts the response off).
pub served_lem :
    (writes : List Write) (e : End)
    → All Coded writes
    → ((served writes e).sent ≡ answer_of e writes)
      × ((served writes e).logged_status ≡ status_of (served writes e).sent)
      × ((served writes e).stack_logged ≡ is_panic e)
      × ((served writes e).raised ≡ is_abort e)
unfolding served finish recovered write_error write write_all first_status status_of answer_of
    is_panic is_abort
served_lem [] returns h = (refl, refl, refl, refl)
served_lem [] panics h = (refl, refl, refl, refl)
served_lem [] aborts h = (refl, refl, refl, refl)
served_lem (w ∷ ws) returns h = answered w ws returns h.0 refl
served_lem (w ∷ ws) panics h = answered w ws panics h.0 refl
served_lem (w ∷ ws) aborts h = answered w ws aborts h.0 refl
