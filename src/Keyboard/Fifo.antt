-- ===== src/Keyboard/Fifo.antt =====
-- The ring of characters is a bounded FIFO, also when its counters have gone round.
use ax_kernel.Prelude.{
  ◌≢◌, if◌then◌else◌, sym, subst, leb, some, ◌==◌, if_elim, none, ◌∙◌, Option, refl, arith, zero,
  ap, ap₂, ◌++◌, ◌∷◌, suc, ◌+◌, ◌≤◌, [], ◌^◌, ◌≡◌, List, length, ◌%◌, ◌<◌, ℕ,
}
use ax_kernel.Prelude.Word.{u32, sub32}
use ax_kernel.Keyboard.{input_queue_character, vhid_getchar, CharQueue, char_queue_size}
use ax_kernel.Prelude.Loop.{write, write_self, write_other}
use ax_kernel.Queue.Fifo

-- The `n` characters from count `i` on.
abbrev pub span : (ℕ → ℕ) → ℕ → ℕ → List ℕ
span ring i zero = []
span ring i (suc n) = ring (i % char_queue_size) ∷ span ring (i + 1) n

abbrev pub held : CharQueue → ℕ
held q = sub32 q.input_char_head q.input_char_tail

abbrev pub contents : CharQueue → List ℕ
contents q = span q.input_char_queue q.input_char_tail (held q)

pub record IsValid (q : CharQueue) : Type 0 where
  pub head_word : q.input_char_head < 2 ^ 32
  pub tail_word : q.input_char_tail < 2 ^ 32
  pub bounded : held q ≤ char_queue_size

length-span : (ring : ℕ → ℕ) (i n : ℕ) → length (span ring i n) ≡ n
length-span ring i zero = refl
length-span ring i (suc n) = ap suc (length-span ring (i + 1) n)

-- The counters are 32 bits wide, which the size of the ring divides.
span_word : (ring : ℕ → ℕ) (i j n : ℕ) → i % 2 ^ 32 ≡ j % 2 ^ 32 → span ring i n ≡ span ring j n
span_word ring i j zero e = refl
span_word ring i j (suc n) e =
    ap₂ ◌∷◌ (ap ring (omega (arith, e))) (span_word ring (i + 1) (j + 1) n (omega (arith, e)))

span-write :
    (ring : ℕ → ℕ) (c p i n : ℕ)
    → n < char_queue_size
    → p ≡ (i + n) % char_queue_size
    → span (write ring p c) i (suc n) ≡ span ring i n ++ (c ∷ [])
span-write ring c p i zero lt e =
    ap (λ x. x ∷ []) (write_self ring p c (i % char_queue_size) (omega (arith, e)))
span-write ring c p i (suc n) lt e =
    ap₂ ◌∷◌ (write_other ring p c (i % char_queue_size) (λ same. omega (arith, e, same, lt)))
      (span-write ring c p (i + 1) n (omega (arith, lt)) (omega (arith, e)))

-- The calls on the ring, and what `vhid_getchar` answers.
pub data Op : Type 0 where
  put : ℕ → Op
  get : Op

unfoldable pub step : CharQueue → Op → Option ℕ × CharQueue
unfolding input_queue_character vhid_getchar
step q (put c) = (none, input_queue_character q c)
step q get = vhid_getchar q

unfoldable pub run : CharQueue → List Op → List (Option ℕ)
unfolding step
run q [] = []
run q (op ∷ ops) = let (answer, q') = step q op in answer ∷ run q' ops

-- A FIFO of at most 256 characters: a character too many is lost.
abbrev pub fifo_step : List ℕ → Op → Option ℕ × List ℕ
fifo_step cs (put c) = (none, Fifo.add char_queue_size cs c)
fifo_step [] get = (none, [])
fifo_step (c ∷ cs) get = (some c, cs)

unfoldable pub fifo_run : List ℕ → List Op → List (Option ℕ)
fifo_run cs [] = []
fifo_run cs (op ∷ ops) = let (answer, cs') = fifo_step cs op in answer ∷ fifo_run cs' ops

-- A step of the ring is the step of the FIFO, and keeps the ring valid.
Refines : CharQueue → Op → Option ℕ × CharQueue → Type 0
Refines q op r =
    IsValid r.1
    × ((r.0 ≡ (fifo_step (contents q) op).0) × (contents r.1 ≡ (fifo_step (contents q) op).1))

put-Refines :
    (q : CharQueue) (c : ℕ) → IsValid q → Refines q (put c) (none, input_queue_character q c)
unfolding input_queue_character Refines
put-Refines q c v =
    let size = length-span q.input_char_queue q.input_char_tail (held q) in
    if_elim (λ (q' : CharQueue). Refines q (put c) (none, q')) (leb char_queue_size (held q))
      (λ full. (
        record { head_word = v.head_word; tail_word = v.tail_word; bounded = v.bounded },
        (refl, ground (arith, full, size)),
      ))
      (λ room.
        let less : held q < char_queue_size = ground (arith, room) in
        let head = q.input_char_head in
        let tail = q.input_char_tail in
        let more : sub32 (u32 (head + 1)) tail ≡ suc (held q) =
          omega (arith, less, v.head_word, v.tail_word) in
        let ring = write q.input_char_queue (head % char_queue_size) c in
        let added : (if leb char_queue_size (length (contents q))
              then contents q
              else contents q ++ (c ∷ []))
            ≡ contents q ++ (c ∷ []) =
          ground (arith, room, size) in
        (
          record {
            head_word = omega arith;
            tail_word = v.tail_word;
            bounded = omega (arith, more, less);
          },
          (
            refl,
            ap (span ring tail) more
                ∙ (span-write q.input_char_queue c (head % char_queue_size) tail (held q) less
                      (omega (arith, v.head_word, v.tail_word))
                    ∙ sym added),
          ),
        ))

get-Refines : (q : CharQueue) → IsValid q → Refines q get (vhid_getchar q)
unfolding vhid_getchar Refines
get-Refines q v =
    let head = q.input_char_head in
    let tail = q.input_char_tail in
    let ring = q.input_char_queue in
    if_elim (Refines q get) (tail == head)
      (λ empty.
        let nothing : held q ≡ 0 = ground (arith, empty, v.head_word, v.tail_word) in
        (
          record { head_word = v.head_word; tail_word = v.tail_word; bounded = v.bounded },
          subst
              (λ n.
                (none ≡ (fifo_step (span ring tail n) get).0)
                × (span ring tail n ≡ (fifo_step (span ring tail n) get).1))
              (sym nothing) (refl, refl),
        ))
      (λ waits.
        let ne : tail ≢ head = ground (arith, waits) in
        let less : suc (sub32 head (u32 (tail + 1))) ≡ held q =
          omega (arith, ne, v.head_word, v.tail_word, v.bounded) in
        let n = sub32 head (u32 (tail + 1)) in
        (
          record {
            head_word = v.head_word;
            tail_word = omega arith;
            bounded = omega (arith, less, v.bounded);
          },
          subst
              (λ k.
                (some (ring (tail % char_queue_size)) ≡ (fifo_step (span ring tail k) get).0)
                × (span ring (u32 (tail + 1)) n ≡ (fifo_step (span ring tail k) get).1))
              less (refl, span_word ring (u32 (tail + 1)) (tail + 1) n (omega arith)),
        ))

-- From any valid state on, also with counters about to go round at 2 ^ 32, every sequence of characters
-- put in and asked for is answered as by a FIFO that holds 256 characters at most and loses the others.
pub run-fifo_run :
    (q : CharQueue) (ops : List Op) → IsValid q → run q ops ≡ fifo_run (contents q) ops
unfolding run fifo_run step Refines
run-fifo_run q [] v = refl
run-fifo_run q (put c ∷ ops) v =
    let (v', (answer, after)) = put-Refines q c v in
    ap₂ ◌∷◌ answer
      (run-fifo_run (input_queue_character q c) ops v' ∙ ap (λ cs. fifo_run cs ops) after)
run-fifo_run q (get ∷ ops) v =
    let (v', (answer, after)) = get-Refines q v in
    ap₂ ◌∷◌ answer (run-fifo_run (vhid_getchar q).1 ops v' ∙ ap (λ cs. fifo_run cs ops) after)
