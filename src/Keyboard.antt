-- ===== src/Keyboard.antt =====
-- The keyboard of src/tools/vhid.c: key events become characters, which wait in a ring for `vhid_getchar`.
-- A character is a byte; the special keys, negative in C, are 256 less their number.
pub mod Fifo
mod Tests
use ax_kernel.Prelude.{
  true, false, [], get_or, ◌%◌, leb, none, not, some, ◌++◌, ◌+◌, ◌==◌, ◌∷◌, Bool, List, Option,
  if◌then◌else◌, ◌||◌, ℕ,
}
use ax_kernel.Prelude.Word.{u32, sub32}
use ax_kernel.Prelude.Loop.{write}

abbrev pub char_queue_size : ℕ
char_queue_size = 256

-- What is kept of a keyboard between events.
pub record KeyState : Type 0 where
  pub left_shift : Bool
  pub right_shift : Bool
  pub caps_lock : Bool

-- `virtio_input_event_t`.
pub record KeyEvent : Type 0 where
  pub type : ℕ
  pub code : ℕ
  pub value : ℕ

-- The ring of characters: `head` and `tail` count the characters that went in and out.
pub record CharQueue : Type 0 where
  pub input_char_queue : ℕ → ℕ
  pub input_char_head : ℕ
  pub input_char_tail : ℕ
  pub input_char_dropped : ℕ
  pub input_char_dropped_reported : ℕ

abbrev pub letter_codes : List ℕ
letter_codes =
    30 ∷ 48 ∷ 46 ∷ 32 ∷ 18 ∷ 33 ∷ 34 ∷ 35 ∷ 23 ∷ 36 ∷ 37 ∷ 38 ∷ 50 ∷ 49 ∷ 24 ∷ 25 ∷ 16 ∷ 19 ∷ 31
    ∷ 20 ∷ 22 ∷ 47 ∷ 17 ∷ 45 ∷ 21 ∷ 44 ∷ []

abbrev pub digit_codes : List ℕ
digit_codes = 2 ∷ 3 ∷ 4 ∷ 5 ∷ 6 ∷ 7 ∷ 8 ∷ 9 ∷ 10 ∷ 11 ∷ []

-- "1234567890" and "!@#$%^&*()".
abbrev pub normal_digits : List ℕ
normal_digits = 49 ∷ 50 ∷ 51 ∷ 52 ∷ 53 ∷ 54 ∷ 55 ∷ 56 ∷ 57 ∷ 48 ∷ []

abbrev pub shifted_digits : List ℕ
shifted_digits = 33 ∷ 64 ∷ 35 ∷ 36 ∷ 37 ∷ 94 ∷ 38 ∷ 42 ∷ 40 ∷ 41 ∷ []

-- The cases of the switch: the key, and the character without and with shift.
abbrev pub special_keys : List (ℕ × (ℕ × ℕ))
special_keys =
    (1, (243, 243))
    ∷ (29, (242, 242))
    ∷ (97, (242, 242))
    ∷ (59, (255, 255))
    ∷ (60, (254, 254))
    ∷ (61, (253, 253))
    ∷ (62, (252, 252))
    ∷ (63, (251, 251))
    ∷ (64, (250, 250))
    ∷ (65, (249, 249))
    ∷ (66, (248, 248))
    ∷ (67, (247, 247))
    ∷ (68, (246, 246))
    ∷ (87, (245, 245))
    ∷ (88, (244, 244))
    ∷ (103, (241, 241))
    ∷ (108, (240, 240))
    ∷ (105, (239, 239))
    ∷ (106, (238, 238))
    ∷ []

abbrev pub sign_keys : List (ℕ × (ℕ × ℕ))
sign_keys =
    (12, (45, 95))
    ∷ (13, (61, 43))
    ∷ (14, (8, 8))
    ∷ (15, (9, 9))
    ∷ (26, (91, 123))
    ∷ (27, (93, 125))
    ∷ (28, (10, 10))
    ∷ (39, (59, 58))
    ∷ (40, (39, 34))
    ∷ (41, (96, 126))
    ∷ (43, (92, 124))
    ∷ (51, (44, 60))
    ∷ (52, (46, 62))
    ∷ (53, (47, 63))
    ∷ (57, (32, 32))
    ∷ []

-- The loops over the tables of codes.
unfoldable pub position : List ℕ → ℕ → Option ℕ
position [] code = none
position (c ∷ codes) code =
    let rest = position codes code in
    if c == code then some 0 else elim rest [ none ↦ none | some i ↦ some (i + 1) ]

-- The switch; 0 is its default.
unfoldable pub choose : List (ℕ × (ℕ × ℕ)) → ℕ → Bool → ℕ
choose [] code shifted = 0
choose ((key, (plain, upper)) ∷ keys) code shifted =
    let rest = choose keys code shifted in
    if key == code then if shifted then upper else plain else rest

unfoldable pub letter : ℕ → Bool → Bool → ℕ
letter i true false = 65 + i
letter i false true = 65 + i
letter i true true = 97 + i
letter i false false = 97 + i

unfoldable pub digit : Option ℕ → ℕ → Bool → ℕ
unfolding choose
digit none code shifted = choose (special_keys ++ sign_keys) code shifted
digit (some i) code shifted = get_or (if shifted then shifted_digits else normal_digits) i 0

unfoldable pub character_of : Option ℕ → ℕ → Bool → Bool → ℕ
unfolding letter digit position
character_of none code shifted caps_lock = digit (position digit_codes code) code shifted
character_of (some i) code shifted caps_lock = letter i shifted caps_lock

unfoldable pub input_key_to_character : ℕ → Bool → Bool → ℕ
unfolding character_of position
input_key_to_character code shifted caps_lock =
    character_of (position letter_codes code) code shifted caps_lock

unfoldable pub input_queue_character : CharQueue → ℕ → CharQueue
unfolding write
input_queue_character q character =
    let head = q.input_char_head in
    if leb char_queue_size (sub32 head q.input_char_tail)
    then record q { input_char_dropped = u32 (q.input_char_dropped + 1) }
    else record q {
      input_char_queue = write q.input_char_queue (head % char_queue_size) character;
      input_char_head = u32 (head + 1);
    }

-- A key that is pressed or repeats.
unfoldable pub press : KeyState → ℕ → CharQueue → KeyState × CharQueue
unfolding input_key_to_character input_queue_character
press k code q =
    let character = input_key_to_character code (k.left_shift || k.right_shift) k.caps_lock in
    (k, if character == 0 then q else input_queue_character q character)

unfoldable pub input_process_key : KeyState → KeyEvent → CharQueue → KeyState × CharQueue
unfolding press
input_process_key k e q =
    if not (e.type == 1)
    then (k, q)
    else if e.code == 42
    then (record k { left_shift = not (e.value == 0) }, q)
    else if e.code == 54
    then (record k { right_shift = not (e.value == 0) }, q)
    else if e.code == 58
    then (if e.value == 1 then record k { caps_lock = not k.caps_lock } else k, q)
    else if (e.value == 1) || (e.value == 2)
    then press k e.code q
    else (k, q)

-- The pointer is not NULL; `none` is the answer 0.
unfoldable pub vhid_getchar : CharQueue → Option ℕ × CharQueue
vhid_getchar q =
    let q' = record q { input_char_dropped_reported = q.input_char_dropped } in
    let tail = q.input_char_tail in
    if tail == q.input_char_head then (none, q') else (
      some (q.input_char_queue (tail % char_queue_size)),
      record q' { input_char_tail = u32 (tail + 1) },
    )
