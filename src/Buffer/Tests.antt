-- ===== src/Buffer/Tests.antt =====
-- Runs of the buffer, and its theorems at an input.
use mini_net.Prelude.{◌≡◌, refl, some, [], ◌∷◌, ◌++◌, arith}
use mini_net.Buffer.{Buffer, append, read_fd, delivered, find_eol, find_crlf}
use mini_net.Buffer.View.{contents, IsValid}
use mini_net.Buffer.Space.{append-Refines}
use mini_net.Buffer.Io.{read_fd-Refines}

-- Five of eight cells are unread.
abbrev small : Buffer
small = record { buf = 0 ∷ 1 ∷ 2 ∷ 10 ∷ 13 ∷ 10 ∷ 0 ∷ 0 ∷ []; read_idx = 1; write_idx = 6 }

small-IsValid : IsValid small
small-IsValid = record { ordered = omega arith; within = omega arith }

moved : contents (append small (7 ∷ 8 ∷ 9 ∷ [])) ≡ 1 ∷ 2 ∷ 10 ∷ 13 ∷ 10 ∷ 7 ∷ 8 ∷ 9 ∷ []
unfolding append
moved = refl

found : (find_eol small ≡ some 3) × (find_crlf small ≡ some 4)
unfolding find_eol find_crlf
found = (refl, refl)

append-Refines_example :
    IsValid (append small (7 ∷ 8 ∷ 9 ∷ []))
    × (contents (append small (7 ∷ 8 ∷ 9 ∷ [])) ≡ contents small ++ 7 ∷ 8 ∷ 9 ∷ [])
append-Refines_example = append-Refines small (7 ∷ 8 ∷ 9 ∷ []) small-IsValid

read_fd-Refines_example :
    IsValid (read_fd small (delivered (1 ∷ 2 ∷ 3 ∷ [])))
    × (contents (read_fd small (delivered (1 ∷ 2 ∷ 3 ∷ []))) ≡ contents small ++ 1 ∷ 2 ∷ 3 ∷ [])
read_fd-Refines_example = read_fd-Refines small (delivered (1 ∷ 2 ∷ 3 ∷ [])) small-IsValid
