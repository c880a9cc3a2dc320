-- ===== src/Keyboard/Tests.antt =====
-- Keys with and without shift, and a ring whose counters are about to go round.
use ax_kernel.Prelude.{[], refl, true, ◌-◌, ◌∷◌, List, arith, false, ◌^◌, ◌≡◌}
use ax_kernel.Keyboard.{
  CharQueue, KeyState, KeyEvent, input_key_to_character, input_process_key, input_queue_character,
  vhid_getchar,
}
use ax_kernel.Keyboard.Fifo.{IsValid, Op, put, get, run, fifo_run, run-fifo_run}

-- "a", "A" by shift or by caps lock, "a" by both, "(", F12 and no character.
keys :
    (input_key_to_character 30 false false ≡ 97)
    × ((input_key_to_character 30 true false ≡ 65)
        × ((input_key_to_character 30 true true ≡ 97)
            × ((input_key_to_character 10 true false ≡ 40)
                × ((input_key_to_character 88 false true ≡ 244)
                    × (input_key_to_character 200 false false ≡ 0)))))
unfolding input_key_to_character ax_kernel.Keyboard.character_of ax_kernel.Keyboard.position
    ax_kernel.Keyboard.letter ax_kernel.Keyboard.digit ax_kernel.Keyboard.choose
keys = (refl, (refl, (refl, (refl, (refl, refl)))))

abbrev ring : CharQueue
ring = record {
  input_char_queue = λ i. i;
  input_char_head = 2 ^ 32 - 1;
  input_char_tail = 2 ^ 32 - 2;
  input_char_dropped = 0;
  input_char_dropped_reported = 0;
}

ring-IsValid : IsValid ring
ring-IsValid = record { head_word = omega arith; tail_word = omega arith; bounded = omega arith }

abbrev calls : List Op
calls = put 7 ∷ put 8 ∷ get ∷ get ∷ get ∷ get ∷ []

run-fifo_run_example : run ring calls ≡ fifo_run (254 ∷ []) calls
run-fifo_run_example = run-fifo_run ring calls ring-IsValid
