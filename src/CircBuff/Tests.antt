-- ===== src/CircBuff/Tests.antt =====
-- Runs of circbuff.c, and its theorems at concrete buffers.
use s.Base.{◌+◌, ◌≡◌, refl, [], ◌∷◌, arith}
use s.CircBuff.{CircBuff, init_circ_buff, get_character, save_character}
use s.CircBuff.Queue.{IsValid, contents, push, save_character-push, Got, get_character-Got}
use s.CircBuff.Full.{save, get, run, run-full}

-- Two characters, one on each side of the end of the array.
abbrev wrapped : CircBuff
wrapped = record { mem = λ i. i + 100; head = 79; tail = 1; count = 2 }

abbrev full : CircBuff
full = record { mem = λ i. i; head = 5; tail = 5; count = 80 }

init_run : (init_circ_buff full).count ≡ 0
unfolding init_circ_buff
init_run = refl

wrapped_run : (get_character wrapped 5).0 ≡ 179 ∷ 100 ∷ []
unfolding get_character
wrapped_run = refl

wrapped-IsValid : IsValid wrapped
wrapped-IsValid = omega arith

full-IsValid : IsValid full
full-IsValid = omega arith

save_character-push_example :
    ((save_character wrapped 7).0 ≡ (push (contents wrapped) 7).0)
    × (contents (save_character wrapped 7).1 ≡ (push (contents wrapped) 7).1)
    × IsValid (save_character wrapped 7).1
save_character-push_example = save_character-push wrapped 7 wrapped-IsValid

get_character-Got_example : Got wrapped 1 (get_character wrapped 1)
get_character-Got_example = get_character-Got 1 wrapped wrapped-IsValid (omega arith)

run-full_example :
    (run (get 3 ∷ save 9 ∷ []) full ≡ full)
    × (get_character (run (get 3 ∷ save 9 ∷ []) full) 80 ≡ ([], 0, full))
run-full_example = run-full (get 3 ∷ save 9 ∷ []) 80 full full-IsValid (omega arith)
