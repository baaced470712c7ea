-- ===== src/Server/Recovery/Examples.antt =====
-- internal/server/middleware.go on a handler that panics after the start of its response.
use owlwatch.Prelude.{◌≡◌, arith, List, [], ◌∷◌, All}
use owlwatch.Server.Recovery.{Write, header, body, panics, served}
use owlwatch.Server.Recovery.Answers.{served_lem, status_of, answer_of, is_panic, is_abort, Coded}

abbrev partial_page : List Write
partial_page = header 206 ∷ body ∷ []

partial_page-Coded : All Coded partial_page
partial_page-Coded = (omega arith, (tt, tt))

served_example :
    ((served partial_page panics).sent ≡ answer_of panics partial_page)
    × ((served partial_page panics).logged_status ≡ status_of (served partial_page panics).sent)
    × ((served partial_page panics).stack_logged ≡ is_panic panics)
    × ((served partial_page panics).raised ≡ is_abort panics)
served_example = served_lem partial_page panics partial_page-Coded
